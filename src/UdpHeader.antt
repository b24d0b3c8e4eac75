-- ===== src/UdpHeader.antt =====
-- lib/src/protocols/udp.rs: the UDP header and its checksum over the IPv4 pseudo-header.
pub mod Codec
pub mod Validation
use narth_network.Base.{
  ℕ, ◌+◌, ◌-◌, ◌%◌, Bool, [], ◌∷◌, ◌++◌, ltb, if◌then◌else◌, length, Io, unexpected_eof, ok, err,
  panicked, ◌>>=◌,
}
use narth_network.Wire.{Bytes, u16_from_be, put_u16, put_u32, index, slice}
use narth_network.Wire.Checksum.{Checksum, pair_eq}
use narth_network.Wire.Writer.{WriteToBuffer}

pub record UdpHeader : Type 0 where
  pub source_port : ℕ
  pub destination_port : ℕ
  pub datagram_length : ℕ
  pub checksum : ℕ × ℕ

abbrev pub udp_length : ℕ
udp_length = 8

-- `UdpHeader::new`; the `u16` sum wraps, as in a release build.
unfoldable pub udp_new : ℕ → ℕ → ℕ → UdpHeader
udp_new source destination payload_length = record {
  source_port = source;
  destination_port = destination;
  datagram_length = (payload_length + udp_length) % 65536;
  checksum = (0, 0);
}

unfoldable pub udp_from_bytes : Bytes → Io UdpHeader
udp_from_bytes bytes = if ltb (length bytes) udp_length then err unexpected_eof else (do
  b0 ← index bytes 0
  b1 ← index bytes 1
  b2 ← index bytes 2
  b3 ← index bytes 3
  b4 ← index bytes 4
  b5 ← index bytes 5
  b6 ← index bytes 6
  b7 ← index bytes 7
  ok (record {
    source_port = u16_from_be b0 b1;
    destination_port = u16_from_be b2 b3;
    datagram_length = u16_from_be b4 b5;
    checksum = (b6, b7);
  }))

unfoldable pub udp_write : UdpHeader → Bytes
udp_write h =
    put_u16 h.source_port
    ++ (put_u16 h.destination_port
        ++ (put_u16 h.datagram_length ++ (h.checksum.0 ∷ h.checksum.1 ∷ [])))

-- `impl WriteToBuffer for UdpHeader`
instance abbrev pub udp_writer : WriteToBuffer UdpHeader
udp_writer = record { encoded_length = λ _. udp_length; write_to_buffer = λ h. ok (udp_write h) }

-- `IPProtocolTypes::UDP.into()`
abbrev pub udp_protocol : ℕ
udp_protocol = 17

module _ (c : Checksum) where
  -- RFC 768: a computed 0 is sent as all ones.
  pub avoid_zero : ℕ × ℕ → ℕ × ℕ
  avoid_zero p = if pair_eq p (0x00, 0x00) then (0xff, 0xff) else p

  -- `data[..self.length as usize - Self::LENGTH]`: a length below 8 panics, by the subtraction
  -- or, where that wraps, by the slice.
  unfoldable pub checksum_data : UdpHeader → Bytes → Io Bytes
  checksum_data h payload =
      if ltb h.datagram_length udp_length
      then panicked
      else slice 0 (h.datagram_length - udp_length) payload

  unfoldable pub compute_checksum_v4 : UdpHeader → ℕ → ℕ → Bytes → Io (ℕ × ℕ)
  unfolding avoid_zero checksum_data
  compute_checksum_v4 h source destination payload = do
    body ← checksum_data h payload
    ok (
        avoid_zero (
          c.sum (
            put_u32 source
            ∷ put_u32 destination
            ∷ (0x00 ∷ udp_protocol ∷ [])
            ∷ put_u16 h.datagram_length
            ∷ put_u16 h.source_port
            ∷ put_u16 h.destination_port
            ∷ put_u16 h.datagram_length
            ∷ (0x00 ∷ 0x00 ∷ [])
            ∷ body
            ∷ [])))

  unfoldable pub validate_checksum_v4 : UdpHeader → ℕ → ℕ → Bytes → Io Bool
  validate_checksum_v4 h source destination payload = do
    computed ← compute_checksum_v4 h source destination payload
    ok (pair_eq computed h.checksum)

  pub compute_and_update_checksum_v4 : UdpHeader → ℕ → ℕ → Bytes → Io UdpHeader
  compute_and_update_checksum_v4 h source destination payload = do
    computed ← compute_checksum_v4 h source destination payload
    ok (record h { checksum = computed })
