-- ===== src/Interface/Sound/Handlers.antt =====
-- Sending through the handlers keeps the context sound.
use narth_network.Base.{
  ℕ, ◌+◌, ◌≤◌, inl, inr, Option, none, some, List, [], ◌∷◌, ◌++◌, arith, ltb, le_of_ltb, Bool-cases,
  Option-cases, lt_of_ltb, length, length-append,
}
use narth_network.Base.Post.{Post, Post->>=, Post->>=-eq}
use narth_network.Base.Dict.{lookup}
use narth_network.Wire.{Bytes}
use narth_network.Wire.Writer.{WriteToBuffer}
use narth_network.Ethernet.{ipv4}
use narth_network.Ipv4.{Ipv4Header, length_no_options, ipv4_writer}
use narth_network.Ipv4.Fields.{Protocol}
use narth_network.Icmp.Lengths.{length-ipv4_write}
use narth_network.ArpTable.{
  ArpState, pending_retry, restart, pending_wait, timeout, resolved, resolved_stale,
}
use narth_network.RouteTable.{lookup_route}
use narth_network.Interface.{
  SendResult, InterfaceContext, World, Sending, unless_failed, sent, failed,
}
use narth_network.Interface.Link.{
  arp_state, frame_writer, queue_of, buffer_ipv4, request_source, resolve, deliver_ipv4,
  link_send_ipv4,
}
use narth_network.Interface.Ip.{send_by, ipv4_send}
use narth_network.Interface.Sound.{
  AreQueued, IsSound, SoundResult, IsExactAt, AreQueued-append, IsQueue, AreQueues-lookup,
  AreQueues-insert, pair-IsExactAt, asked-IsSound, queues-IsSound, ethernet_send-IsSound,
  send_arp_request-IsSound,
}

module _ (w : World) where
  ipv4-IsExactAt : (h : Ipv4Header) → IsExactAt (ipv4_writer w.bitmatch w.checksum) h
  unfolding IsExactAt
  ipv4-IsExactAt h bytes e = length-ipv4_write w.little_endian w.bitmatch w.checksum h e

  pub frame-IsExactAt :
      {P : Type 0} (writer : WriteToBuffer P) (header : Ipv4Header) (payload : P)
      → IsExactAt writer payload
      → IsExactAt (frame_writer w writer) (header, payload)
  frame-IsExactAt writer header payload exact =
      pair-IsExactAt (ipv4_writer w.bitmatch w.checksum) writer header payload
        (ipv4-IsExactAt header) exact

  pub arp_state-IsSound :
      (target source : ℕ) (ctx : InterfaceContext)
      → IsSound ctx
      → IsSound (arp_state w target source ctx).1
  unfolding arp_state
  arp_state-IsSound target source ctx h = asked-IsSound ctx _ _ ctx.draws h

  queue_of-IsQueue :
      (addr : ℕ) (ctx : InterfaceContext)
      → IsSound ctx
      → (length (queue_of w addr ctx) ≤ 5) × AreQueued (queue_of w addr ctx)
  unfolding IsQueue AreQueued
  queue_of-IsQueue addr ctx h =
      go (lookup addr ctx.ipv4_send_buffer) (AreQueues-lookup addr ctx.ipv4_send_buffer h.queues)
    where
      go :
          (found : Option (List (Ipv4Header × Bytes)))
          → IsQueue found
          → (length (elim found [ none ↦ [] | some queue ↦ queue ]) ≤ 5)
            × AreQueued (elim found [ none ↦ [] | some queue ↦ queue ])
      go none q = (omega arith, tt)
      go (some queue) q = q

  buffer_ipv4-IsSound :
      {P : Type 0} (writer : WriteToBuffer P) (next_hop : ℕ) (header : Ipv4Header) (payload : P)
      (ctx : InterfaceContext)
      → IsSound ctx
      → IsExactAt writer payload
      → 8 ≤ writer.encoded_length payload
      → Post (buffer_ipv4 w writer next_hop header payload ctx) SoundResult
  unfolding buffer_ipv4 IsExactAt
  buffer_ipv4-IsSound writer next_hop header payload ctx h exact long =
      let queue = queue_of w next_hop ctx in
      let (short, queued) = queue_of-IsQueue next_hop ctx h in
      elim (Bool-cases (ltb (length queue) 5)) [
        | inl room ↦ rw room (
            Post->>=-eq SoundResult (writer.write_to_buffer payload) _ (λ bytes e.
              queues-IsSound ctx _ h (
                AreQueues-insert next_hop (queue ++ ((header, bytes) ∷ [])) ctx.ipv4_send_buffer
                  h.queues
                  (omega (
                    arith,
                    length-append queue ((header, bytes) ∷ []),
                    lt_of_ltb (length queue) 5 room,
                  ))
                  (AreQueued-append queue header bytes queued
                    (omega (arith, exact bytes e, long))))))
        | inr full ↦ rw full h
      ]

  deliver_ipv4-IsSound :
      {P : Type 0} (writer : WriteToBuffer P) (state : ArpState) (next_hop : ℕ)
      (header : Ipv4Header) (payload : P) (ctx : InterfaceContext)
      → IsSound ctx
      → IsExactAt writer payload
      → 8 ≤ writer.encoded_length payload
      → Post (deliver_ipv4 w writer state next_hop header payload ctx) SoundResult
  unfolding deliver_ipv4
  deliver_ipv4-IsSound writer (pending_retry source) hop header payload ctx h exact long =
      buffer_ipv4-IsSound writer hop header payload ctx h exact long
  deliver_ipv4-IsSound writer restart hop header payload ctx h exact long =
      buffer_ipv4-IsSound writer hop header payload ctx h exact long
  deliver_ipv4-IsSound writer (pending_wait d) hop header payload ctx h exact long =
      buffer_ipv4-IsSound writer hop header payload ctx h exact long
  deliver_ipv4-IsSound writer timeout hop header payload ctx h exact long = h
  deliver_ipv4-IsSound writer (resolved mac) hop header payload ctx h exact long =
      ethernet_send-IsSound w (frame_writer w writer) mac ipv4 (header, payload) ctx h
        (frame-IsExactAt writer header payload exact)
  deliver_ipv4-IsSound writer (resolved_stale mac) hop header payload ctx h exact long =
      ethernet_send-IsSound w (frame_writer w writer) mac ipv4 (header, payload) ctx h
        (frame-IsExactAt writer header payload exact)

  resolve-IsSound :
      (next_hop : ℕ) (source : Option ℕ) (ctx : InterfaceContext)
      → IsSound ctx
      → Post (resolve w next_hop source ctx) SoundResult
  resolve-IsSound next_hop none ctx h = h
  resolve-IsSound next_hop (some source) ctx h = send_arp_request-IsSound w next_hop source ctx h

  unless_failed-IsSound :
      (r : SendResult × InterfaceContext) (rest : InterfaceContext → Sending)
      → SoundResult r
      → ((ctx : InterfaceContext) → IsSound ctx → Post (rest ctx) SoundResult)
      → Post (unless_failed r rest) SoundResult
  unless_failed-IsSound (sent, ctx) rest h k = k ctx h
  unless_failed-IsSound (failed e, ctx) rest h k = h

  link_send_ipv4-IsSound :
      {P : Type 0} (writer : WriteToBuffer P) (next_hop source : ℕ) (header : Ipv4Header)
      (payload : P) (ctx : InterfaceContext)
      → IsSound ctx
      → IsExactAt writer payload
      → 8 ≤ writer.encoded_length payload
      → Post (link_send_ipv4 w writer next_hop source header payload ctx) SoundResult
  unfolding link_send_ipv4
  link_send_ipv4-IsSound writer next_hop source header payload ctx h exact long =
      let r = arp_state w next_hop source ctx in
      Post->>= SoundResult SoundResult (resolve w next_hop (request_source w source r.0) r.1) _
        (resolve-IsSound next_hop (request_source w source r.0) r.1
          (arp_state-IsSound next_hop source ctx h))
        (λ resolution sound.
          unless_failed-IsSound resolution _ sound
            (λ after s. deliver_ipv4-IsSound writer r.0 next_hop header payload after s exact long))

  -- `IPv4Handler::send` keeps the context sound, whatever it answers.
  pub ipv4_send-IsSound :
      {P : Type 0} (writer : WriteToBuffer P) (source destination : ℕ) (protocol : Protocol)
      (payload : P) (ctx : InterfaceContext)
      → IsSound ctx
      → IsExactAt writer payload
      → Post (ipv4_send w writer source destination protocol payload ctx) SoundResult
  unfolding ipv4_send send_by
  ipv4_send-IsSound writer source destination protocol payload ctx h exact =
      elim (Bool-cases (ltb (writer.encoded_length payload) 8)) [
        | inl short ↦ rw short h
        | inr long ↦
            elim (Bool-cases (ltb ctx.mtu (writer.encoded_length payload + length_no_options))) [
              | inl large ↦ rw (long, large) h
              | inr fits ↦ elim (Option-cases (lookup_route destination ctx.ipv4_route_table)) [
                | inl none_found ↦ rw (long, fits, none_found) h
                | inr (route, found) ↦
                    rw (long, fits, found)
                      (link_send_ipv4-IsSound writer _ _ _ payload _
                        (asked-IsSound ctx ctx.arp_table ctx.readings (ctx.draws + 1) h) exact
                        (le_of_ltb (writer.encoded_length payload) 8 long))
              ]
            ]
      ]
