-- ===== src/Interface/Sound/Pings.antt =====
-- The timers of pings keep the context sound.
use narth_network.Base.{
  ℕ, ◌+◌, ◌%◌, ◌≡◌, refl, sym, ap, subst, inl, inr, Option, none, some, List, [], ◌∷◌, arith,
  Bool-cases, length, Io, ◌>>=◌, >>=-eq-ok, ok,
}
use narth_network.Base.Post.{Post, Post->>=, Post->>=-eq}
use narth_network.Ipv4.Fields.{Protocol, icmp}
use narth_network.Icmp.{new_echo_request, icmp_compute_checksum, icmp_compute_checksum_and_update}
use narth_network.Icmp.Message.{IcmpMessageTypes, IcmpMessage}
use narth_network.Icmp.Lengths.{unwritten, IsWritable, length-icmp_write}
use narth_network.Interface.{SendResult, InterfaceContext, World, sent, failed}
use narth_network.Interface.Ip.{ipv4_send}
use narth_network.Interface.Ping.{PingEntry, PingManager, is_unfinished, process_timeouts}
use narth_network.Interface.Sound.{IsSound, SoundResult, IsExactAt, asked-IsSound}
use narth_network.Interface.Sound.Handlers.{ipv4_send-IsSound}
use narth_network.Interface.Ping.Manager.{
  icmp_writer, unix_now, is_due, after_send, send_ping, wait_interval, send_if_due,
  process_timers_session, process_sessions, stop_sessions, ping_perform_timers,
}

module _ (w : World) where
  -- Echo messages: what is written in as many bytes as the encoded length says.
  unfoldable pub IsEcho : IcmpMessageTypes → Type 0
  IsEcho t = (unwritten t ≡ 0) × IsWritable t

  updated-message :
      (i : IcmpMessage) {j : IcmpMessage}
      → icmp_compute_checksum_and_update w.little_endian w.bitmatch w.checksum i ≡ ok j
      → j.message ≡ i.message
  unfolding icmp_compute_checksum_and_update
  updated-message i e =
      let (sum, p, q) =
        >>=-eq-ok (icmp_compute_checksum w.little_endian w.bitmatch w.checksum i) _ e in
      cc

  echo-IsExactAt : (i : IcmpMessage) → IsEcho i.message → IsExactAt (icmp_writer w) i
  unfolding IsExactAt IsEcho
  echo-IsExactAt i (whole, writable) bytes e =
      let (b, p, l) = length-icmp_write w.little_endian w.bitmatch w.checksum i writable in
      let same : b ≡ bytes = cc in
      let size : length b ≡ length bytes = ap length same in omega (arith, l, whole, size)

  -- An echo message whose checksum is filled in.
  pub send_echo-IsSound :
      (i : IcmpMessage) (source destination : ℕ) (protocol : Protocol) (ctx : InterfaceContext)
      → IsSound ctx
      → IsEcho i.message
      → {A : Type 0} (then : SendResult × InterfaceContext → Io A) (end : A → Type 0)
      → ((r : SendResult × InterfaceContext) → IsSound r.1 → Post (then r) end)
      → Post
          (icmp_compute_checksum_and_update w.little_endian w.bitmatch w.checksum i >>= λ j.
            ipv4_send w (icmp_writer w) source destination protocol j ctx >>= then)
          end
  send_echo-IsSound i source destination protocol ctx h echo then end k =
      Post->>=-eq end (icmp_compute_checksum_and_update w.little_endian w.bitmatch w.checksum i) _
        (λ j e.
          Post->>= SoundResult end _ then
            (ipv4_send-IsSound w (icmp_writer w) source destination protocol j ctx h
              (echo-IsExactAt j (subst IsEcho (sym (updated-message i e)) echo)))
            k)

  after_send-IsSound :
      (now sequence : ℕ) (e : PingEntry) (r : SendResult × InterfaceContext)
      → IsSound r.1
      → IsSound (after_send w now sequence e r).2
  unfolding after_send
  after_send-IsSound now sequence e (sent, ctx) h = h
  after_send-IsSound now sequence e (failed error, ctx) h = h

  send_ping-IsSound :
      (now : ℕ) (e : PingEntry) (ctx : InterfaceContext)
      → IsSound ctx
      → Post (send_ping w now e ctx) (λ r. IsSound r.2)
  unfolding send_ping IsEcho new_echo_request
  send_ping-IsSound now e ctx h =
      let sequence = e.sent_count % 65536 in
      send_echo-IsSound (new_echo_request (unix_now w ctx.readings) e.identifier sequence) 0
        e.target icmp (record ctx { readings = ctx.readings + 1 })
        (asked-IsSound ctx ctx.arp_table (ctx.readings + 1) ctx.draws h) (refl, tt) _ _
        (λ r s. after_send-IsSound now sequence e r s)

  send_if_due-IsSound :
      (now : ℕ) (e : PingEntry) (ctx : InterfaceContext)
      → IsSound ctx
      → Post (send_if_due w now e ctx) (λ r. IsSound r.2)
  unfolding send_if_due
  send_if_due-IsSound now e ctx h = elim (Bool-cases (is_unfinished e)) [
    | inr over ↦ rw over h
    | inl unfinished ↦ elim (Bool-cases (is_due w now e)) [
      | inl due ↦ rw (unfinished, due) (send_ping-IsSound now e ctx h)
      | inr early ↦ rw (unfinished, early) (waiting e.last_sent)
    ]
  ]
    where
      waiting : (last_sent : Option ℕ) → Post (wait_interval w last_sent e ctx) (λ r. IsSound r.2)
      waiting none = tt
      waiting (some last) = h

  process_session-IsSound :
      (now : ℕ) (e : PingEntry) (ctx : InterfaceContext)
      → IsSound ctx
      → Post (process_timers_session w now e ctx) (λ r. IsSound r.0.2)
  unfolding process_timers_session
  process_session-IsSound now e ctx h =
      let left = (process_timeouts now e e.pending).0 in
      Post->>= (λ r. IsSound r.2) (λ r. IsSound r.0.2)
        (send_if_due w now (record e { pending = left }) ctx) _
        (send_if_due-IsSound now (record e { pending = left }) ctx h) (λ r s. s)

  process_sessions-IsSound :
      (now : ℕ) (es : List PingEntry) (ctx : InterfaceContext)
      → IsSound ctx
      → Post (process_sessions w now es ctx) (λ r. IsSound r.3)
  unfolding process_sessions
  process_sessions-IsSound now [] ctx h = h
  process_sessions-IsSound now (e ∷ es) ctx h =
      Post->>= (λ r. IsSound r.0.2) (λ r. IsSound r.3) (process_timers_session w now e ctx) _
        (process_session-IsSound now e ctx h)
        (λ first s.
          Post->>= (λ r. IsSound r.3) (λ r. IsSound r.3) (process_sessions w now es first.0.2) _
            (process_sessions-IsSound now es first.0.2 s) (λ rest t. t))

  pub ping_timers-IsSound :
      (p : PingManager) (ctx : InterfaceContext)
      → IsSound ctx
      → Post (ping_perform_timers w p ctx) (λ r. IsSound r.2)
  unfolding ping_perform_timers
  ping_timers-IsSound p ctx h =
      Post->>= {B = Option ℕ × PingManager × InterfaceContext} (λ r. IsSound r.3) (λ r. IsSound r.2)
        (process_sessions w (w.clock ctx.readings) (stop_sessions w p.stops p.sessions)
          (record ctx { readings = ctx.readings + 1 }))
        _
        (process_sessions-IsSound (w.clock ctx.readings) (stop_sessions w p.stops p.sessions) _
          (asked-IsSound ctx ctx.arp_table (ctx.readings + 1) ctx.draws h))
        (λ r s. s)
