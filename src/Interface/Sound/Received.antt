-- ===== src/Interface/Sound/Received.antt =====
-- Receiving and the timers of address resolution keep the context sound.
use narth_network.Base.{ℕ, Option, none, some, List, [], ◌∷◌, ok, ◌>>=◌}
use narth_network.Base.Post.{Post, Post->>=, Post->>=-eq}
use narth_network.Base.Dict.{lookup}
use narth_network.Wire.{Bytes, slice}
use narth_network.Wire.Writer.{bytes_writer}
use narth_network.Ethernet.{ipv4}
use narth_network.Ethernet.Mac.{MacAddr}
use narth_network.Ipv4.{Ipv4Header}
use narth_network.ArpTable.{
  ArpState, pending_retry, restart, pending_wait, timeout, resolved, resolved_stale,
}
use narth_network.Interface.{SendResult, InterfaceContext, World, sent, failed, local_send_error}
use narth_network.Interface.Link.{arp_state, ethernet_send, send_arp_request, frame_writer}
use narth_network.Interface.Ping.{timeout}
use narth_network.Interface.Managers.{Managers, forward_async_error}
use narth_network.Interface.Resolve.{
  send_pending, send_queue, without_queue, send_found, dequeue_pending_ipv4, fail_queue, fail_found,
  abandon_queue, arp_timer, arp_timers,
}
use narth_network.Interface.Sound.{
  IsSound, SoundResult, AreQueues-remove, bytes-IsExactAt, queues-IsSound, ethernet_send-IsSound,
  send_arp_request-IsSound,
}
use narth_network.Interface.Sound.Handlers.{frame-IsExactAt, arp_state-IsSound}

-- The context beside the managers.
abbrev pub SoundState : InterfaceContext × Managers → Type 0
SoundState state = IsSound state.0

module _ (w : World) where
  send_pending-IsSound :
      (mac : MacAddr) (entry : Ipv4Header × Bytes) (state : InterfaceContext × Managers)
      → SoundState state
      → Post (send_pending w mac entry state) SoundState
  unfolding send_pending
  send_pending-IsSound mac (header, payload) (ctx, managers) h =
      Post->>= SoundResult SoundState
        (ethernet_send w (frame_writer w bytes_writer) mac ipv4 (header, payload) ctx) _
        (ethernet_send-IsSound w (frame_writer w bytes_writer) mac ipv4 (header, payload) ctx h
          (frame-IsExactAt w bytes_writer header payload (bytes-IsExactAt payload)))
        told
    where
      told :
          (r : SendResult × InterfaceContext)
          → SoundResult r
          → Post {A = InterfaceContext × Managers}
              (elim r.0 [
                | sent ↦ ok (r.1, managers)
                | failed e ↦ (do
                  datagram ← slice 0 8 payload
                  after ← forward_async_error (local_send_error e header datagram) managers
                  ok (r.1, after))
              ])
              SoundState
      told (sent, after) s = s
      told (failed e, after) s = Post->>=-eq SoundState (slice 0 8 payload) _ (λ datagram p.
          Post->>=-eq SoundState (forward_async_error (local_send_error e header datagram) managers)
            _ (λ m q. s))

  send_queue-IsSound :
      (mac : MacAddr) (queue : List (Ipv4Header × Bytes)) (state : InterfaceContext × Managers)
      → SoundState state
      → Post (send_queue w mac queue state) SoundState
  unfolding send_queue
  send_queue-IsSound mac [] state h = h
  send_queue-IsSound mac (entry ∷ queue) state h =
      Post->>= SoundState SoundState (send_pending w mac entry state) _
        (send_pending-IsSound mac entry state h) (λ after s. send_queue-IsSound mac queue after s)

  without_queue-IsSound :
      (addr : ℕ) (ctx : InterfaceContext) → IsSound ctx → IsSound (without_queue w addr ctx)
  without_queue-IsSound addr ctx h =
      queues-IsSound ctx _ h (AreQueues-remove addr ctx.ipv4_send_buffer h.queues)

  pub dequeue-IsSound :
      (mac : MacAddr) (addr : ℕ) (state : InterfaceContext × Managers)
      → SoundState state
      → Post (dequeue_pending_ipv4 w mac addr state) SoundState
  unfolding dequeue_pending_ipv4 send_found
  dequeue-IsSound mac addr (ctx, managers) h = go (lookup addr ctx.ipv4_send_buffer)
    where
      go :
          (found : Option (List (Ipv4Header × Bytes)))
          → Post (send_found w mac addr found (ctx, managers)) SoundState
      go none = h
      go (some queue) =
          send_queue-IsSound mac queue (without_queue w addr ctx, managers)
            (without_queue-IsSound addr ctx h)

  abandon-IsSound :
      (addr : ℕ) (state : InterfaceContext × Managers)
      → SoundState state
      → Post (abandon_queue w addr state) SoundState
  unfolding abandon_queue fail_found
  abandon-IsSound addr (ctx, managers) h = go (lookup addr ctx.ipv4_send_buffer)
    where
      go :
          (found : Option (List (Ipv4Header × Bytes)))
          → Post (fail_found w addr found (ctx, managers)) SoundState
      go none = h
      go (some queue) =
          Post->>=-eq SoundState (fail_queue w queue managers) _
            (λ told e. without_queue-IsSound addr ctx h)

  arp_timer-IsSound :
      (s : ArpState) (ip : ℕ) (deadline : Option ℕ) (state : InterfaceContext × Managers)
      → SoundState state
      → Post (arp_timer w s ip deadline state) (λ r. IsSound r.1)
  unfolding arp_timer
  arp_timer-IsSound (pending_wait d) ip deadline (ctx, managers) h = h
  arp_timer-IsSound (pending_retry source) ip deadline (ctx, managers) h =
      Post->>= {B = Option ℕ × InterfaceContext × Managers} SoundResult (λ r. IsSound r.1)
        (send_arp_request w ip source ctx) _ (send_arp_request-IsSound w ip source ctx h) (λ r s. s)
  arp_timer-IsSound (resolved mac) ip deadline state h =
      Post->>= {B = Option ℕ × InterfaceContext × Managers} SoundState (λ r. IsSound r.1)
        (dequeue_pending_ipv4 w mac ip state) _ (dequeue-IsSound mac ip state h) (λ r s. s)
  arp_timer-IsSound (resolved_stale mac) ip deadline state h =
      Post->>= {B = Option ℕ × InterfaceContext × Managers} SoundState (λ r. IsSound r.1)
        (dequeue_pending_ipv4 w mac ip state) _ (dequeue-IsSound mac ip state h) (λ r s. s)
  arp_timer-IsSound timeout ip deadline state h =
      Post->>= {B = Option ℕ × InterfaceContext × Managers} SoundState (λ r. IsSound r.1)
        (abandon_queue w ip state) _ (abandon-IsSound ip state h) (λ r s. s)
  arp_timer-IsSound restart ip deadline state h =
      Post->>= {B = Option ℕ × InterfaceContext × Managers} SoundState (λ r. IsSound r.1)
        (abandon_queue w ip state) _ (abandon-IsSound ip state h) (λ r s. s)

  pub arp_timers-IsSound :
      (addrs : List (ℕ × ℕ)) (deadline : Option ℕ) (state : InterfaceContext × Managers)
      → SoundState state
      → Post (arp_timers w addrs deadline state) (λ r. IsSound r.1)
  unfolding arp_timers
  arp_timers-IsSound [] deadline (ctx, managers) h = h
  arp_timers-IsSound ((ip, source) ∷ rest) deadline (ctx, managers) h =
      let r = arp_state w ip source ctx in
      Post->>= {B = Option ℕ × InterfaceContext × Managers} (λ r. IsSound r.1) (λ r. IsSound r.1)
        (arp_timer w r.0 ip deadline (r.1, managers)) _
        (arp_timer-IsSound r.0 ip deadline (r.1, managers) (arp_state-IsSound w ip source ctx h))
        (λ step s. arp_timers-IsSound rest step.0 (step.1, step.2) s)
