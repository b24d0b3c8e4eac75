-- ===== src/Ipv4/Codec.antt =====
-- An IPv4 header without options, written and read back.
use narth_network.Base.{◌≤◌, ◌≡◌, refl, ap, ◌∷◌, ◌++◌, arith, ltb-false, length, length-append, ok}
use narth_network.Wire.{Bytes, u16_from_be, index, slice, u16_of_slice, ipv4_of_slice}
use narth_network.Wire.Checksum.{Checksum, pair_eq_refl}
use narth_network.Wire.Bitmatch.{Bitmatch}
use narth_network.Ipv4.Fields.{offset_max, fragment_write, routine}
use narth_network.Ipv4.FieldLaws.{tos_parse-u8_of_tos, fragment_of_slice-write, IsNamed}
use narth_network.Ipv4.{
  Ipv4Header, header_len_from, ipv4_fields, ipv4_checksums, ipv4_from_bytes, ipv4_front, ipv4_back,
  ipv4_checksum, ipv4_write,
}

header_len_five : header_len_from 69 ≡ 5
unfolding header_len_from
header_len_five = refl

module _ (m : Bitmatch) (c : Checksum) where
  -- The header as it is read back: its checksum is filled in, and its precedence is lost.
  abbrev pub read_back : Ipv4Header → Ipv4Header
  read_back h =
      let sum = ipv4_checksum m c h in
      record h {
        type_of_service = record (h.type_of_service) { precedence = routine };
        header_checksum = u16_from_be sum.0 sum.1;
      }

  abbrev written : Ipv4Header → Bytes
  written h =
      ipv4_front m c h ++ ((ipv4_checksum m c h).0 ∷ (ipv4_checksum m c h).1 ∷ ipv4_back m c h)

  -- The receiver sums the same bytes as the sender, in three pieces.
  checksums-written :
      (h : Ipv4Header) (rest : Bytes)
      → ipv4_checksums m c 20 (written h ++ rest)
        ≡ ok (ipv4_checksum m c h, ((ipv4_checksum m c h).0, (ipv4_checksum m c h).1))
  unfolding ipv4_checksums ipv4_checksum ipv4_front fragment_write slice index
  checksums-written h rest =
      ap (λ s. ok (s, ((ipv4_checksum m c h).0, (ipv4_checksum m c h).1))) (c.streams _ _ refl)

  fields-written :
      (h : Ipv4Header) (rest : Bytes)
      → h.header_len ≡ 5
      → h.fragment_details.offset ≤ offset_max
      → IsNamed h.protocol
      → ipv4_fields m c 5 (written h ++ rest) ≡ ok (read_back h)
  unfolding ipv4_fields ipv4_front fragment_write slice index u16_of_slice ipv4_of_slice
  fields-written h rest five fits named =
      let fragment = fragment_of_slice-write m h.fragment_details fits in
      let tos = tos_parse-u8_of_tos m h.type_of_service in ground (arith, fragment, tos)

  index-written :
      (h : Ipv4Header) (rest : Bytes) → h.header_len ≡ 5 → index (written h ++ rest) 0 ≡ ok 69
  unfolding index ipv4_front
  index-written h rest five = ground (arith, m.pack_nibbles_lem 4 h.header_len)

  length-written : (h : Ipv4Header) → length (written h) ≡ 20
  unfolding ipv4_front fragment_write
  length-written h = refl

  -- Version, length and checksum are accepted.
  accepted :
      (h : Ipv4Header) (rest : Bytes)
      → h.header_len ≡ 5
      → h.fragment_details.offset ≤ offset_max
      → IsNamed h.protocol
      → ipv4_from_bytes m c (written h ++ rest) ≡ ok (read_back h)
  unfolding ipv4_from_bytes
  accepted h rest five fits named =
      let first = index-written h rest five in
      let long =
        ltb-false {a = length (written h ++ rest)} {b = 20}
          (omega (arith, length-append (written h) rest, length-written h)) in
      rw
        (first, header_len_five, long, checksums-written h rest, pair_eq_refl (ipv4_checksum m c h))
        (fields-written h rest five fits named)

  -- A header of five words, with a fragment offset of 13 bits and a protocol that its number
  -- names, is written in 20 bytes, and `from_bytes` on these with any bytes behind them gives the
  -- header back with its checksum filled in and its precedence routine.
  pub ipv4-from_bytes-write :
      (h : Ipv4Header) (rest : Bytes)
      → h.header_len ≡ 5
      → h.fragment_details.offset ≤ offset_max
      → IsNamed h.protocol
      → (bytes : Bytes) × (ipv4_write m c h ≡ ok bytes)
        × (length bytes ≡ 20)
        × (ipv4_from_bytes m c (bytes ++ rest) ≡ ok (read_back h))
  unfolding ipv4_write
  ipv4-from_bytes-write h rest five fits named =
      (written h, rw five, length-written h, accepted h rest five fits named)
