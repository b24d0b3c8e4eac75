-- ===== src/Interface/Ping/Manager.antt =====
-- lib/src/runtime/interface/l4_managers/ping.rs: the operations of the manager.
use narth_network.Base.{
  ℕ, ◌+◌, ◌-◌, ◌%◌, ◌^◌, Bool, true, not, ◌||◌, Option, none, some, List, [], ◌∷◌, ◌++◌, ltb, leb,
  ◌==◌, if◌then◌else◌, Io, ok, err, panicked, ◌>>=◌,
}
use narth_network.Wire.{Bytes, u16_from_be, index}
use narth_network.Wire.Writer.{WriteToBuffer}
use narth_network.Ipv4.{Ipv4Header}
use narth_network.Ipv4.Fields.{icmp}
use narth_network.Icmp.{
  icmp_encoded_length, new_echo_request, parse_unix_data, icmp_compute_checksum_and_update,
  icmp_write,
}
use narth_network.Icmp.Message.{EchoMessage, IcmpMessage}
use narth_network.Icmp.UnixData.{EchoMessageDataUnix}
use narth_network.Interface.{
  SendError, SendResult, AsyncSendError, InterfaceContext, World, payload_too_large,
  payload_too_short, no_route_to_host, buffer_full, arp_resolve_buffer_full, arp_timeout, sent,
  failed, local_send_error, icmp_unreachable,
}
use narth_network.Interface.Ip.{ipv4_send}
use narth_network.Interface.Ping.{
  UnreachableText, PingReport, PingEntry, PingManager, find_session, write_session, remove_session,
  report, is_unfinished, garbage_collect, process_timeouts, remove_pending, is_pending,
  arp_timeout_text, send_error_text, code_text, success, unreachable,
}

module _ (w : World) where
  -- `impl WriteToBuffer for ICMPMessage`
  instance abbrev pub icmp_writer : WriteToBuffer IcmpMessage
  icmp_writer = record {
    encoded_length = icmp_encoded_length;
    write_to_buffer = icmp_write w.little_endian w.bitmatch w.checksum;
  }

  -- `EchoMessageDataUnix::now`, at a reading of the clocks.
  abbrev pub unix_now : ℕ → EchoMessageDataUnix
  unix_now n = record {
    since_epoc = w.system_time n;
    monotonic_instant = elim w.boot_time [ none ↦ none | some boot ↦ some (w.clock n - boot) ];
  }

  -- Whether the interval has passed since the last ping.
  abbrev pub is_due : ℕ → PingEntry → Bool
  is_due now e = elim e.last_sent [ none ↦ true | some last ↦ ltb e.interval (now - last) ]

  -- What comes back from one session: the session, its deadline and the context.
  abbrev Processed : Type 0
  Processed = PingEntry × Option ℕ × InterfaceContext

  unfoldable pub after_send : ℕ → ℕ → PingEntry → SendResult × InterfaceContext → Processed
  after_send now sequence e (sent, ctx) = (
    record e {
      pending = e.pending ++ ((sequence, now) ∷ []);
      last_sent = some now;
      sent_count = (e.sent_count + 1) % 2 ^ 64;
    },
    some (now + e.timeout),
    ctx,
  )
  after_send now sequence e (failed error, ctx) = (e, some now, ctx)

  -- The echo request that is due.
  unfoldable pub send_ping : ℕ → PingEntry → InterfaceContext → Io Processed
  unfolding after_send ipv4_send
  send_ping now e ctx = do
    let sequence = e.sent_count % 65536
    let unsummed = new_echo_request (unix_now ctx.readings) e.identifier sequence
    let clocked : InterfaceContext = record ctx { readings = ctx.readings + 1 }
    request ← icmp_compute_checksum_and_update w.little_endian w.bitmatch w.checksum unsummed
    result ← ipv4_send w icmp_writer 0 e.target icmp request clocked
    ok (after_send now sequence e result)

  -- A session whose interval has not passed: its deadline, by the `expect`ed time of its last ping.
  abbrev pub wait_interval : Option ℕ → PingEntry → InterfaceContext → Io Processed
  wait_interval none e ctx = panicked
  wait_interval (some last) e ctx = ok (e, some (last + e.interval), ctx)

  -- The second half of `process_timers_session`.
  unfoldable pub send_if_due : ℕ → PingEntry → InterfaceContext → Io Processed
  unfolding send_ping
  send_if_due now e ctx =
      if is_unfinished e
      then (if is_due now e then send_ping now e ctx else wait_interval e.last_sent e ctx)
      else ok (e, none, ctx)

  -- `process_timers_session`
  unfoldable pub process_timers_session :
      ℕ → PingEntry → InterfaceContext → Io (Processed × List PingReport)
  unfolding process_timeouts send_if_due
  process_timers_session now e ctx = do
    let (left, reports) = process_timeouts now e e.pending
    processed ← send_if_due now (record e { pending = left }) ctx
    ok (processed, reports)

  abbrev pub earlier : Option ℕ → Option ℕ → Option ℕ
  earlier none b = b
  earlier (some a) none = some a
  earlier (some a) (some b) = some (if leb a b then a else b)

  -- The sessions one after the other: each as it comes back, the smallest deadline, the reports.
  unfoldable pub process_sessions :
      ℕ
      → List PingEntry
      → InterfaceContext
      → Io (List PingEntry × Option ℕ × List PingReport × InterfaceContext)
  unfolding process_timers_session
  process_sessions now [] ctx = ok ([], none, [], ctx)
  process_sessions now (e ∷ es) ctx = do
    first ← process_timers_session now e ctx
    rest ← process_sessions now es first.0.2
    ok (first.0.0 ∷ rest.0, earlier first.0.1 rest.1, first.1 ++ rest.2, rest.3)

  -- The control messages of `perform_timers`.
  unfoldable pub stop_sessions : List (ℕ × ℕ) → List PingEntry → List PingEntry
  unfolding remove_session
  stop_sessions [] es = es
  stop_sessions ((target, identifier) ∷ keys) es =
      stop_sessions keys (remove_session target identifier es)

  -- `PingManager::perform_timers`
  unfoldable pub ping_perform_timers :
      PingManager → InterfaceContext → Io (Option ℕ × PingManager × InterfaceContext)
  unfolding stop_sessions process_sessions garbage_collect
  ping_perform_timers p ctx = do
    let left = stop_sessions p.stops p.sessions
    let timed : InterfaceContext = record ctx { readings = ctx.readings + 1 }
    done ← process_sessions (w.clock ctx.readings) left timed
    ok (
      done.1,
      garbage_collect (record p { sessions = done.0; stops = []; reports = p.reports ++ done.2 }),
      done.3,
    )

  -- `a.checked_sub(b)`
  abbrev checked_sub : ℕ → ℕ → Option ℕ
  checked_sub a b = if leb b a then some (a - b) else none

  abbrev or_else : Option ℕ → Option ℕ → Option ℕ
  or_else none b = b
  or_else (some a) b = some a

  -- How long the ping took, by the instant that its data carries, or else by the system's time.
  abbrev duration_by : EchoMessageDataUnix → ℕ → Option ℕ
  duration_by data_unix reading = elim data_unix.monotonic_instant [
    | none ↦ none
    | some instant ↦
        or_else
          (elim w.boot_time [
            | none ↦ none
            | some boot ↦ checked_sub (w.clock reading - boot) instant
          ])
          (checked_sub (w.system_time reading) data_unix.since_epoc)
  ]

  unfoldable pub duration_of : EchoMessage → ℕ → Io (Option ℕ)
  duration_of message reading = elim (parse_unix_data w.little_endian message) [
    | ok data_unix ↦ ok (duration_by data_unix reading)
    | err e ↦ ok none
    | panicked ↦ panicked
  ]

  -- The session of the reply, where it waits for it.
  unfoldable pub answer_session : EchoMessage → Option ℕ → PingEntry → PingManager → PingManager
  unfolding remove_pending
  answer_session message duration e p = record p {
    sessions =
        write_session (record e { pending = remove_pending message.sequence_number e.pending })
          p.sessions;
    reports = p.reports ++ (report e message.sequence_number (success duration) ∷ []);
  }

  unfoldable pub reply_to_session : EchoMessage → ℕ → PingEntry → PingManager → Io PingManager
  unfolding duration_of answer_session is_pending
  reply_to_session message reading e p =
      if is_pending message.sequence_number e.pending
      then (do duration ← duration_of message reading; ok (answer_session message duration e p))
      else ok p

  -- `on_echo_reply`, at a reading of the clocks.
  unfoldable pub on_echo_reply : Ipv4Header → EchoMessage → ℕ → PingManager → Io PingManager
  unfolding find_session reply_to_session garbage_collect
  on_echo_reply header message reading p = do
    answered ← elim (find_session header.source_address message.identifier p.sessions) [
      | none ↦ ok p
      | some e ↦ reply_to_session message reading e p
    ]
    ok (garbage_collect answered)

-- The text for an error.
abbrev text_of_send_error : SendError → UnreachableText
text_of_send_error arp_timeout = arp_timeout_text
text_of_send_error (payload_too_large max_size) = send_error_text
text_of_send_error payload_too_short = send_error_text
text_of_send_error no_route_to_host = send_error_text
text_of_send_error buffer_full = send_error_text
text_of_send_error arp_resolve_buffer_full = send_error_text

abbrev text_of_error : AsyncSendError → UnreachableText
text_of_error (local_send_error error header datagram) = text_of_send_error error
text_of_error (icmp_unreachable m) = code_text m.code

-- The header and the datagram of an error.
abbrev pub header_of : AsyncSendError → Ipv4Header
header_of (local_send_error error header datagram) = header
header_of (icmp_unreachable m) = m.ipv4header

abbrev pub datagram_of : AsyncSendError → Bytes
datagram_of (local_send_error error header datagram) = datagram
datagram_of (icmp_unreachable m) = m.datagram

-- What an error does to its session.
fail_session : ℕ → UnreachableText → PingEntry → PingManager → PingManager
unfolding remove_pending write_session
fail_session sequence text e p = record p {
  sessions = write_session (record e { pending = remove_pending sequence e.pending }) p.sessions;
  reports = p.reports ++ (report e sequence (unreachable text) ∷ []);
}

-- `on_async_send_error`
unfoldable pub on_async_send_error : AsyncSendError → PingManager → Io PingManager
unfolding find_session fail_session
on_async_send_error error p = do
  kind ← index (datagram_of error) 0
  code ← index (datagram_of error) 1
  if not (kind == 8) || not (code == 0) then ok p else (do
    b4 ← index (datagram_of error) 4
    b5 ← index (datagram_of error) 5
    b6 ← index (datagram_of error) 6
    b7 ← index (datagram_of error) 7
    ok (elim (find_session (header_of error).destination_address (u16_from_be b4 b5) p.sessions) [
      | none ↦ p
      | some e ↦ fail_session (u16_from_be b6 b7) (text_of_error error) e p
    ]))
