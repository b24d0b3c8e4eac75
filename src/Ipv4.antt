-- ===== src/Ipv4.antt =====
-- lib/src/protocols/ipv4.rs: the IPv4 header, read with its checksum and written without options.
pub mod Fields
pub mod FieldLaws
pub mod Codec
pub mod Panics
use narth_network.Base.{
  ℕ, ◌+◌, ◌*◌, ◌/◌, ◌%◌, bit_and, Bool, true, false, not, ◌||◌, [], ◌∷◌, ◌++◌, ltb, ◌==◌,
  if◌then◌else◌, length, Io, map_err, unexpected_eof, invalid_data, ok, err, panicked, ◌>>=◌,
}
use narth_network.Wire.{Bytes, put_u16, put_u32, index, slice, u16_of_slice, ipv4_of_slice}
use narth_network.Wire.Checksum.{Checksum, pair_eq}
use narth_network.Wire.Bitmatch.{Bitmatch}
use narth_network.Ipv4.Fields.{
  TypeOfService, tos_parse, u8_of_tos, FragmentDetails, fragment_of_slice, fragment_write, Protocol,
  protocol_from, u8_of_protocol, routine,
}
use narth_network.Wire.Writer.{WriteToBuffer}

pub record Ipv4Header : Type 0 where
  pub header_len : ℕ
  pub type_of_service : TypeOfService
  pub total_length : ℕ
  pub fragment_details : FragmentDetails
  pub time_to_live : ℕ
  pub protocol : Protocol
  pub header_checksum : ℕ
  pub source_address : ℕ
  pub destination_address : ℕ

-- `IPv4HeaderLengthWords`: from the first byte, in bytes, and into the first byte.
unfoldable pub header_len_from : ℕ → ℕ
header_len_from input = bit_and input 0x0f

abbrev pub byte_len : ℕ → ℕ
byte_len words = words * 4

-- `LENGTH_NO_OPTIONS`
abbrev pub length_no_options : ℕ
length_no_options = 20

-- `IPv4Header::new`. The random identification is an argument; the `u16` sum wraps, as in a release
-- build.
unfoldable pub ipv4_new : ℕ → Protocol → ℕ → ℕ → ℕ → Ipv4Header
ipv4_new identification protocol source destination payload_len = record {
  header_len = 5;
  type_of_service = record {
    precedence = routine;
    low_delay = false;
    high_throughput = false;
    high_reliability = false;
  };
  total_length = (byte_len 5 + payload_len) % 65536;
  fragment_details = record {
    identification = identification;
    do_not_fragment = true;
    more_fragments = false;
    offset = 0;
  };
  time_to_live = 64;
  protocol = protocol;
  header_checksum = 0;
  source_address = source;
  destination_address = destination;
}

unfoldable pub is_fragmented : Ipv4Header → Bool
is_fragmented h = h.fragment_details.more_fragments || ltb 0 h.fragment_details.offset

-- `impl WriteToBuffer`: `encoded_length`
unfoldable pub ipv4_encoded_length : Ipv4Header → ℕ
ipv4_encoded_length h = byte_len h.header_len

module _ (m : Bitmatch) (c : Checksum) where
  -- The struct literal at the end of `from_bytes`.
  pub ipv4_fields : ℕ → Bytes → Io Ipv4Header
  ipv4_fields header_len bytes = do
    tos ← index bytes 1
    len_slice ← slice 2 4 bytes
    total_length ← u16_of_slice len_slice
    fragment_slice ← slice 4 8 bytes
    fragment ← map_err unexpected_eof (fragment_of_slice m fragment_slice)
    ttl ← index bytes 8
    proto ← index bytes 9
    sum_slice ← slice 10 12 bytes
    checksum ← u16_of_slice sum_slice
    source_slice ← slice 12 16 bytes
    source ← ipv4_of_slice source_slice
    destination_slice ← slice 16 20 bytes
    destination ← ipv4_of_slice destination_slice
    ok (record {
      header_len = header_len;
      type_of_service = tos_parse m tos;
      total_length = total_length;
      fragment_details = fragment;
      time_to_live = ttl;
      protocol = protocol_from proto;
      header_checksum = checksum;
      source_address = source;
      destination_address = destination;
    })

  -- The checksum over the header with its checksum field taken as 0, and the stored one.
  pub ipv4_checksums : ℕ → Bytes → Io ((ℕ × ℕ) × (ℕ × ℕ))
  ipv4_checksums header_len_bytes bytes = do
    front ← slice 0 10 bytes
    back ← slice 12 header_len_bytes bytes
    s0 ← index bytes 10
    s1 ← index bytes 11
    ok (c.sum (front ∷ (0 ∷ 0 ∷ []) ∷ back ∷ []), (s0, s1))

  pub ipv4_from_bytes : Bytes → Io Ipv4Header
  ipv4_from_bytes bytes = do
    first ← index bytes 0
    if not (bit_and first 0xf0 / 16 == 4)
        then err invalid_data
        else if ltb (length bytes) (byte_len (header_len_from first))
        then err unexpected_eof
        else (do
          sums ← ipv4_checksums (byte_len (header_len_from first)) bytes
          if not (pair_eq sums.1 sums.0)
              then err invalid_data
              else ipv4_fields (header_len_from first) bytes)

  -- The ten bytes in front of the checksum field, and the addresses behind it.
  unfoldable pub ipv4_front : Ipv4Header → Bytes
  ipv4_front h =
      m.pack_nibbles 4 h.header_len
      ∷ u8_of_tos m h.type_of_service
      ∷ (put_u16 h.total_length
          ++ (fragment_write h.fragment_details
              ++ (h.time_to_live ∷ u8_of_protocol h.protocol ∷ [])))

  abbrev pub ipv4_back : Ipv4Header → Bytes
  ipv4_back h = put_u32 h.source_address ++ put_u32 h.destination_address

  pub ipv4_checksum : Ipv4Header → ℕ × ℕ
  ipv4_checksum h = c.sum ((ipv4_front h ++ (0x00 ∷ 0x00 ∷ ipv4_back h)) ∷ [])

  -- `impl WriteToBuffer`: only a header without options is written, with a fresh checksum.
  unfoldable pub ipv4_write : Ipv4Header → Io Bytes
  ipv4_write h =
      if h.header_len == 5
      then ok (ipv4_front h ++ ((ipv4_checksum h).0 ∷ (ipv4_checksum h).1 ∷ ipv4_back h))
      else panicked

  instance abbrev pub ipv4_writer : WriteToBuffer Ipv4Header
  ipv4_writer = record { encoded_length = ipv4_encoded_length; write_to_buffer = ipv4_write }
