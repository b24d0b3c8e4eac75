-- ===== src/Tests/Icmp.antt =====
-- The ICMP messages at concrete inputs.
use narth_network.Base.{
  ◌+◌, ◌*◌, ◌/◌, ◌≡◌, refl, ◌≢◌, true, false, some, [], ◌∷◌, ◌++◌, arith, length, invalid_input, ok,
  err,
}
use narth_network.Wire.{Bytes}
use narth_network.Icmp.Codes.{
  unreachable_code_from, u8_of_unreachable_code, time_exceeded_code_from, u8_of_time_exceeded_code,
  redirect_code_from, u8_of_redirect_code, codes_round_trip, port_unreachable,
  fragment_reassembly_time_exceeded, to_host, to_service_and_host,
}
use narth_network.Icmp.UnixData.{EchoMessageDataUnix, unix_write, unix_from_bytes}
use narth_network.Icmp.Message.{EchoMessage, IcmpMessage, unix_like, source_quench}
use narth_network.Icmp.{
  icmp_encoded_length, icmp_compute_checksum_and_update, icmp_write, icmp_from_bytes,
}
use narth_network.Icmp.Codec.{echo_of, echo_back, icmp-from_bytes-write}
use narth_network.Icmp.Lengths.{unwritten, length-icmp_write}
use narth_network.Tests.Headers.{rfc_1071}
use narth_network.Tests.Ipv4.{documented}
use narth_network.Icmp.UnixRoundTrip.{unix_from_bytes-write}

abbrev ping : EchoMessage
ping = record {
  identifier = 513;
  sequence_number = 7;
  payload = unix_like (record { since_epoc = 1700000000123456000; monotonic_instant = some 42 });
}

icmp-from_bytes-write_example :
    (i : IcmpMessage) × (bytes : Bytes) × (icmp_compute_checksum_and_update true documented rfc_1071
        (record { checksum = (0, 0); message = echo_of false ping })
      ≡ ok i)
    × (icmp_write true documented rfc_1071 i ≡ ok bytes)
    × (icmp_from_bytes documented rfc_1071 bytes
        ≡ ok (record i { message = echo_of false (echo_back true documented rfc_1071 ping) }))
icmp-from_bytes-write_example = icmp-from_bytes-write true documented rfc_1071 false ping (0, 0)

abbrev quench : IcmpMessage
quench = record { checksum = (1, 2); message = source_quench (69 ∷ 0 ∷ []) }

length-icmp_write_example :
    (bytes : Bytes) × (icmp_write true documented rfc_1071 quench ≡ ok bytes)
    × (length bytes + unwritten quench.message ≡ icmp_encoded_length quench)
length-icmp_write_example = length-icmp_write true documented rfc_1071 quench tt

codes_round_trip_example :
    (unreachable_code_from (u8_of_unreachable_code port_unreachable) ≡ ok port_unreachable)
    × (time_exceeded_code_from (u8_of_time_exceeded_code fragment_reassembly_time_exceeded)
        ≡ ok fragment_reassembly_time_exceeded)
    × ((to_host ≢ to_service_and_host)
        → redirect_code_from (u8_of_redirect_code to_host) ≡ ok to_host)
    × (redirect_code_from (u8_of_redirect_code to_service_and_host) ≡ err invalid_input)
codes_round_trip_example =
    codes_round_trip port_unreachable fragment_reassembly_time_exceeded to_host

abbrev clock : EchoMessageDataUnix
clock = record { since_epoc = 1700000000123456789; monotonic_instant = some 42 }

unix_from_bytes-write_example :
    unix_from_bytes true (unix_write true clock ++ (9 ∷ []))
    ≡ ok (record clock { since_epoc = 1700000000123456789 / 1000 * 1000 })
unix_from_bytes-write_example =
    unix_from_bytes-write true clock (9 ∷ []) (omega arith) (omega arith, omega arith, refl)
