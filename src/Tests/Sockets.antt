-- ===== src/Tests/Sockets.antt =====
-- Pings and sockets at concrete inputs.
use narth_network.Base.{
  ℕ, zero, suc, ◌%◌, ◌<◌, ◌≡◌, refl, ap, subst, ◌↔◌, ◌⊎◌, inr, none, some, List, [], ◌∷◌, ◌++◌,
  arith, length, ok, panicked,
}
use narth_network.Wire.{Bytes, index, slice}
use narth_network.Ipv4.{
  Ipv4Header, ipv4_new, is_fragmented, ipv4_from_bytes, ipv4_front, ipv4_write,
}
use narth_network.Ipv4.Fields.{u8_of_tos, fragment_write, protocol_from, u8_of_protocol, icmp, udp}
use narth_network.UdpHeader.{udp_from_bytes}
use narth_network.PortBindings.{
  push_binding, binding_of, SocketAddr, UdpSocketHandle, get_mut, port_is_bindable, port_insert,
  port_get_mut, v4,
}
use narth_network.ReadyByBits.Flags.{flags}
use narth_network.ReadyByBits.Pick.{pick}
use narth_network.Interface.{World}
use narth_network.Interface.Ping.{
  PingEntry, PingManager, find_session, unwrap_sequence, report, is_pending, success, timeout,
}
use narth_network.Interface.Ping.Sequence.{unwrap_sequence-truncated}
use narth_network.Interface.Udp.{too_large, host_unreachable, undelivered, non_blocking}
use narth_network.Interface.Udp.Manager.{
  UdpManager, no_sockets, udp_manager_default, socket_addr, free_slot, new_endpoint, new_handle,
  bind_slot,
}
use narth_network.Interface.Udp.Stored.{
  Sharing, run_word, run_slot, run_word-run_slot, storing, resetting,
}
use narth_network.Interface.Udp.Draining.{Pass, process_buffers-Pass}
use narth_network.Interface.Managers.{managers_default}
use narth_network.Interface.Receive.{ipv4_recv}
use narth_network.Interface.Receive.Hostile.{ipv4_recv-panics, udp_recv-panicked}
use narth_network.Tests.Headers.{rfc_1071}
use narth_network.Tests.Ipv4.{documented}
use narth_network.Tests.Worker.{world, home}
use narth_network.Interface.Resolve.Queues.{header_bytes}
use narth_network.Ipv4.Codec.{read_back, ipv4-from_bytes-write}
use narth_network.Interface.Ip.{is_addr_acceptable}
use narth_network.Interface.Ping.Timers.{
  AreExpired, AreOver, timeouts, timeouts_of_all, ping_perform_timers-AreOver,
}
use narth_network.Interface.Ping.Manager.{
  stop_sessions, ping_perform_timers, duration_of, on_echo_reply,
}
use narth_network.Interface.Udp.Manager.Operations.{bind, udp_recv, process_buffers}
use narth_network.Interface.Ping.Replies.{occurrences, awaited, on_echo_reply-once}
use narth_network.Icmp.Message.{EchoMessage, raw}
use narth_network.Icmp.{parse_unix_data}
use narth_network.Icmp.UnixData.{unix_from_bytes}
use narth_network.Interface.Udp.Bound.{Serves, bind-Serves}
use narth_network.Base.Post.{Post}

unwrap_sequence-truncated_example : unwrap_sequence (131070 % 65536) 131080 ≡ 131070
unwrap_sequence-truncated_example =
    unwrap_sequence-truncated 131070 131080 (omega arith) (omega arith) (omega arith) (omega arith)

-- Two results of which the first is overwritten, and three resets around the second.
abbrev shared_steps : List Sharing
shared_steps =
    resetting
    ∷ storing (undelivered too_large)
    ∷ storing (undelivered host_unreachable)
    ∷ resetting
    ∷ resetting
    ∷ []

run_word-run_slot_example :
    run_word shared_steps 0 ≡ ok none ∷ ok (some (undelivered host_unreachable)) ∷ ok none ∷ []
unfolding run_slot
run_word-run_slot_example = run_word-run_slot shared_steps

abbrev any_port : SocketAddr
any_port = socket_addr (v4 0) 0

abbrev ephemeral : SocketAddr
ephemeral = socket_addr (v4 0) 49152

bind-Serves_example :
    Serves world home ephemeral (v4 0x0a000001) (bind world home any_port udp_manager_default).0.1
    × (ephemeral.ip ≡ any_port.ip)
unfolding bind bind_slot free_slot port_is_bindable
bind-Serves_example =
    bind-Serves world home any_port udp_manager_default (v4 0x0a000001) {found = ephemeral} {id = 0}
      refl refl

-- A manager with one word of flags, of which the second is set, for a socket that was bound and has a
-- datagram to send.
abbrev small_manager : UdpManager
small_manager = record (bind world home any_port udp_manager_default).0.1 {
  ready_bits = 2 ∷ [];
  socket_ids = some any_port ∷ some ephemeral ∷ no_sockets 62;
  endpoints =
      (
        0,
        record (new_endpoint 1472) {
          send_queue = non_blocking (socket_addr (v4 0x0a000009) 53) (1 ∷ 2 ∷ 3 ∷ []) ∷ [];
        },
      )
      ∷ [];
}

-- The socket is found under the address in its slot.
small_manager-waits :
    (handle : UdpSocketHandle) × (port_get_mut small_manager.sockets ephemeral ≡ some handle)
    × (handle.endpoint ≡ 0)
unfolding bind bind_slot free_slot port_is_bindable port_get_mut get_mut port_insert push_binding
    binding_of
small_manager-waits = (new_handle 0 ephemeral, refl, refl)

process_buffers-Pass_example :
    Pass world
      (pick (flags (2 ∷ [])) small_manager.socket_ids)
      (record small_manager { ready_bits = 0 ∷ [] })
      home
      (process_buffers world small_manager home)
    × Post (process_buffers world small_manager home) (λ r. r.0.ready_bits ≡ 0 ∷ [])
process_buffers-Pass_example = process_buffers-Pass world small_manager home (omega arith, tt) refl

-- A header that claims three bytes.
udp_recv-panicked_example :
    (udp_recv world (v4 1) (v4 2) (0 ∷ 80 ∷ 0 ∷ 81 ∷ 0 ∷ 3 ∷ 0 ∷ 0 ∷ []) udp_manager_default
      ≡ panicked)
    ↔ ((3 < 8) ⊎ (8 < 3))
unfolding udp_from_bytes index
udp_recv-panicked_example =
    udp_recv-panicked world 1 2 (0 ∷ 80 ∷ 0 ∷ 81 ∷ 0 ∷ 3 ∷ 0 ∷ 0 ∷ []) udp_manager_default
      (record { source_port = 80; destination_port = 81; datagram_length = 3; checksum = (0, 0) })
      refl

-- A packet for the broadcast address that claims 100 bytes and arrives with 20.
abbrev short_header : Ipv4Header
short_header = ipv4_new 7 udp 0x0a000009 0xffff_ffff 80

abbrev short_packet : Bytes
short_packet = header_bytes world short_header

short_packet-accepted :
    ipv4_from_bytes documented rfc_1071 short_packet
    ≡ ok (read_back documented rfc_1071 short_header)
unfolding ipv4_new protocol_from u8_of_protocol ipv4_write ipv4_front fragment_write u8_of_tos
short_packet-accepted =
    let (bytes, e, l, r) =
      ipv4-from_bytes-write documented rfc_1071 short_header [] refl (omega arith) refl in
    let p : bytes ≡ short_packet = cc in
    subst
      (λ b. ipv4_from_bytes documented rfc_1071 b ≡ ok (read_back documented rfc_1071 short_header))
      (ap (λ b. b ++ []) p) r

short_packet-length : length short_packet ≡ 20
unfolding ipv4_front fragment_write
short_packet-length = refl

ipv4_recv-panics_example : ipv4_recv world short_packet (home, managers_default) ≡ panicked
unfolding ipv4_new is_fragmented is_addr_acceptable
ipv4_recv-panics_example =
    ipv4_recv-panics world short_packet (read_back documented rfc_1071 short_header)
      (home, managers_default) short_packet-accepted refl refl
      (inr (omega (arith, short_packet-length)))

-- A session of two pings that were sent, of which the second waits since the instant 5.
abbrev finished_session : PingEntry
finished_session = record {
  target = 0x0a000009;
  identifier = 7;
  count = some 2;
  interval = 1_000_000_000;
  sent_count = 2;
  last_sent = some 5;
  pending = (1, 5) ∷ [];
  timeout = 10_000_000_000;
}

abbrev finished_pings : PingManager
finished_pings = record { sessions = finished_session ∷ []; stops = []; reports = [] }

-- Twenty seconds after the clock's start.
abbrev late_world : World
late_world = record world { clock = λ n. 20_000_000_000 }

ping_perform_timers-AreOver_example :
    ping_perform_timers late_world finished_pings home
    ≡ ok (
      none,
      record { sessions = []; stops = []; reports = report finished_session 1 timeout ∷ [] },
      record home { readings = 1 },
    )
unfolding AreOver AreExpired stop_sessions timeouts timeouts_of_all
ping_perform_timers-AreOver_example =
    ping_perform_timers-AreOver late_world finished_pings home (refl, (omega arith, tt), tt)

abbrev blank : ℕ → Bytes
blank zero = []
blank (suc n) = 0 ∷ blank n

-- The reply to the second ping, whose data carries the instant 5 ms.
abbrev second_reply : EchoMessage
second_reply = record {
  identifier = 7;
  sequence_number = 1;
  payload = raw (blank 16 ++ 64 ∷ 75 ∷ 76 ∷ blank 37);
}

abbrev from_peer : Ipv4Header
from_peer = ipv4_new 1 icmp 0x0a000009 0x0a000001 40

on_echo_reply-once_example :
    (q : PingManager) × (on_echo_reply world from_peer second_reply 20 finished_pings ≡ ok q)
    × (q.reports ≡ report finished_session 1 (success (some 15_000_000)) ∷ [])
    × (on_echo_reply world from_peer second_reply 30 q ≡ ok q)
unfolding ipv4_new find_session is_pending awaited occurrences duration_of parse_unix_data
    unix_from_bytes slice
on_echo_reply-once_example =
    on_echo_reply-once world from_peer second_reply 20 30 finished_pings finished_session
      (some 15_000_000) refl refl refl refl
