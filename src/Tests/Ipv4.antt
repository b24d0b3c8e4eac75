-- ===== src/Tests/Ipv4.antt =====
-- The IPv4 header at concrete inputs.
use narth_network.Base.{
  ◌+◌, ◌*◌, ◌%◌, ◌≡◌, refl, ◌≢◌, true, false, [], ◌∷◌, ◌++◌, arith, length, ok, panicked,
}
use narth_network.Wire.{Bytes, index}
use narth_network.Wire.Bitmatch.{agrees, bit, Bitmatch}
use narth_network.Ipv4.{Ipv4Header, header_len_from, ipv4_new, ipv4_from_bytes, ipv4_write}
use narth_network.Ipv4.Fields.{
  TypeOfService, tos_parse, u8_of_tos, FragmentDetails, protocol_from, u8_of_protocol,
  network_control, routine, udp,
}
use narth_network.Ipv4.FieldLaws.{tos_parse-u8_of_tos}
use narth_network.Ipv4.Codec.{read_back, ipv4-from_bytes-write}
use narth_network.Ipv4.Panics.{ipv4-from_bytes-ne-panicked, ipv4-from_bytes-panicked}
use narth_network.Tests.Headers.{rfc_1071}

-- What the patterns and packings are documented to mean.
abbrev pub documented : Bitmatch
documented = record {
  matches = λ ps n. agrees ps 128 n;
  pack_nibbles = λ a b. a * 16 + b;
  pack_tos = λ a b c d. a % 8 * 32 + bit b * 16 + bit c * 8 + bit d * 4;
  matches_lem = λ ps n h. refl;
  pack_nibbles_lem = λ a b p q. refl;
  pack_tos_lem = λ a b c d. refl;
}

abbrev urgent : TypeOfService
urgent = record {
  precedence = network_control;
  low_delay = true;
  high_throughput = false;
  high_reliability = true;
}

tos_parse-u8_of_tos_example :
    tos_parse documented (u8_of_tos documented urgent) ≡ record urgent { precedence = routine }
tos_parse-u8_of_tos_example = tos_parse-u8_of_tos documented urgent

abbrev last_fragment : FragmentDetails
last_fragment = record {
  identification = 4660;
  do_not_fragment = false;
  more_fragments = true;
  offset = 185;
}

abbrev packet_header : Ipv4Header
packet_header = ipv4_new 4660 udp 0x0a000001 0x0a000002 11

ipv4-from_bytes-write_example :
    (bytes : Bytes) × (ipv4_write documented rfc_1071 packet_header ≡ ok bytes)
    × (length bytes ≡ 20)
    × (ipv4_from_bytes documented rfc_1071 (bytes ++ (1 ∷ 2 ∷ []))
        ≡ ok (read_back documented rfc_1071 packet_header))
unfolding ipv4_new protocol_from u8_of_protocol
ipv4-from_bytes-write_example =
    ipv4-from_bytes-write documented rfc_1071 packet_header (1 ∷ 2 ∷ []) refl (omega arith) refl

-- Version 4 and five words, with nothing behind the first byte.
ipv4-from_bytes-ne-panicked_example : ipv4_from_bytes documented rfc_1071 (69 ∷ []) ≢ panicked
unfolding index header_len_from
ipv4-from_bytes-ne-panicked_example =
    ipv4-from_bytes-ne-panicked documented rfc_1071 (69 ∷ []) refl (omega arith)

-- Version 4 and two words, both there.
abbrev two_words : Bytes
two_words = 66 ∷ 0 ∷ 0 ∷ 8 ∷ 0 ∷ 0 ∷ 0 ∷ 0 ∷ []

ipv4-from_bytes-panicked_example : ipv4_from_bytes documented rfc_1071 two_words ≡ panicked
unfolding index header_len_from
ipv4-from_bytes-panicked_example =
    ipv4-from_bytes-panicked documented rfc_1071 two_words refl refl (omega arith) (omega arith)
