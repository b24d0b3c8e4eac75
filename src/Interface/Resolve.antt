-- ===== src/Interface/Resolve.antt =====
-- lib/src/runtime/interface/l2_ethernet.rs: what waits for an address to be resolved.
pub mod Queues
use narth_network.Base.{ℕ, Option, none, some, List, [], ◌∷◌, leb, if◌then◌else◌, Io, ◌>>=◌, ok}
use narth_network.Base.Dict.{lookup, remove}
use narth_network.Wire.{Bytes, slice}
use narth_network.Wire.Writer.{bytes_writer}
use narth_network.Ethernet.Mac.{MacAddr}
use narth_network.Ethernet.{ipv4}
use narth_network.Ipv4.{Ipv4Header}
use narth_network.Icmp.Message.{datagram_portion_length}
use narth_network.ArpTable.{
  ArpState, pending_addresses, pending_retry, restart, pending_wait, timeout, resolved,
  resolved_stale,
}
use narth_network.Interface.{
  SendResult, InterfaceContext, World, arp_timeout, sent, failed, local_send_error,
}
use narth_network.Interface.Link.{arp_state, ethernet_send, send_arp_request, frame_writer}
use narth_network.Interface.Managers.{Managers, forward_async_error}

-- What a handler that receives leaves: the context and the managers, or a panic.
abbrev pub Handling : Type 0
Handling = Io (InterfaceContext × Managers)

module _ (w : World) where
  -- One packet of a queue: an error goes to the managers with the first eight bytes of the payload.
  unfoldable pub send_pending :
      MacAddr → Ipv4Header × Bytes → InterfaceContext × Managers → Handling
  unfolding ethernet_send forward_async_error
  send_pending mac entry (ctx, managers) = do
    result ← ethernet_send w (frame_writer w bytes_writer) mac ipv4 entry ctx
    elim result.0 [
      | sent ↦ ok (result.1, managers)
      | failed error ↦ (do
        datagram ← slice 0 8 entry.1
        told ← forward_async_error (local_send_error error entry.0 datagram) managers
        ok (result.1, told))
    ]

  unfoldable pub send_queue :
      MacAddr → List (Ipv4Header × Bytes) → InterfaceContext × Managers → Handling
  unfolding send_pending
  send_queue mac [] state = ok state
  send_queue mac (entry ∷ queue) state = send_pending mac entry state >>= send_queue mac queue

  -- The queue of an address, which is taken out of the map.
  abbrev pub without_queue : ℕ → InterfaceContext → InterfaceContext
  without_queue addr ctx = record ctx { ipv4_send_buffer = remove addr ctx.ipv4_send_buffer }

  unfoldable pub send_found :
      MacAddr → ℕ → Option (List (Ipv4Header × Bytes)) → InterfaceContext × Managers → Handling
  unfolding send_queue
  send_found mac addr none state = ok state
  send_found mac addr (some queue) (ctx, managers) =
      send_queue mac queue (without_queue addr ctx, managers)

  -- `dequeue_pending_ipv4`
  unfoldable pub dequeue_pending_ipv4 : MacAddr → ℕ → InterfaceContext × Managers → Handling
  unfolding send_found
  dequeue_pending_ipv4 mac addr state =
      send_found mac addr (lookup addr state.0.ipv4_send_buffer) state

  -- The packets of a resolution that was given up.
  pub fail_queue : List (Ipv4Header × Bytes) → Managers → Io Managers
  unfolding forward_async_error
  fail_queue [] managers = ok managers
  fail_queue ((header, payload) ∷ queue) managers = do
    datagram ← slice 0 datagram_portion_length payload
    told ← forward_async_error (local_send_error arp_timeout header datagram) managers
    fail_queue queue told

  unfoldable pub fail_found :
      ℕ → Option (List (Ipv4Header × Bytes)) → InterfaceContext × Managers → Handling
  unfolding fail_queue
  fail_found addr none state = ok state
  fail_found addr (some queue) (ctx, managers) = do
    told ← fail_queue queue managers
    ok (without_queue addr ctx, told)

  unfoldable pub abandon_queue : ℕ → InterfaceContext × Managers → Handling
  unfolding fail_found
  abandon_queue addr state = fail_found addr (lookup addr state.0.ipv4_send_buffer) state

  abbrev min_deadline : Option ℕ → ℕ → Option ℕ
  min_deadline none d = some d
  min_deadline (some a) d = some (if leb a d then a else d)

  -- `send_arp_request`, whose result is dropped.
  abbrev ignoring_result : Managers → SendResult × InterfaceContext → InterfaceContext × Managers
  ignoring_result managers result = (result.1, managers)

  -- The match of `perform_arp_timers` for one address.
  unfoldable pub arp_timer :
      ArpState
      → ℕ
      → Option ℕ
      → InterfaceContext × Managers
      → Io (Option ℕ × InterfaceContext × Managers)
  unfolding send_arp_request dequeue_pending_ipv4 abandon_queue
  arp_timer (pending_wait request_deadline) ip deadline (ctx, managers) =
      ok (min_deadline deadline request_deadline, ctx, managers)
  arp_timer (pending_retry source) ip deadline (ctx, managers) = do
    result ← send_arp_request w ip source ctx
    ok (deadline, result.1, managers)
  arp_timer (resolved mac) ip deadline state = do
    after ← dequeue_pending_ipv4 mac ip state
    ok (deadline, after.0, after.1)
  arp_timer (resolved_stale mac) ip deadline state = do
    after ← dequeue_pending_ipv4 mac ip state
    ok (deadline, after.0, after.1)
  arp_timer timeout ip deadline state = do
    after ← abandon_queue ip state
    ok (deadline, after.0, after.1)
  arp_timer restart ip deadline state = do
    after ← abandon_queue ip state
    ok (deadline, after.0, after.1)

  unfoldable pub arp_timers :
      List (ℕ × ℕ)
      → Option ℕ
      → InterfaceContext × Managers
      → Io (Option ℕ × InterfaceContext × Managers)
  unfolding arp_state arp_timer
  arp_timers [] deadline (ctx, managers) = ok (deadline, ctx, managers)
  arp_timers ((ip, source) ∷ rest) deadline (ctx, managers) = do
    let (state, asked) = arp_state w ip source ctx
    step ← arp_timer state ip deadline (asked, managers)
    arp_timers rest step.0 (step.1, step.2)

  -- `perform_arp_timers`, on the addresses that were pending when it began.
  unfoldable pub perform_arp_timers :
      InterfaceContext × Managers → Io (Option ℕ × InterfaceContext × Managers)
  unfolding arp_timers pending_addresses
  perform_arp_timers (ctx, managers) =
      arp_timers (pending_addresses ctx.arp_table) none (ctx, managers)
