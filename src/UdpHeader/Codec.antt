-- ===== src/UdpHeader/Codec.antt =====
-- The UDP header: written, then read back; and read only from the bytes that it is written as.
use narth_network.Base.{
  ◌+◌, ◌*◌, ◌≤◌, ◌<◌, ◌≡◌, [], ◌∷◌, ◌++◌, arith, ltb-true, length, unexpected_eof, ok, err,
}
use narth_network.Wire.{Bytes, AreBytes, index, slice}
use narth_network.UdpHeader.{UdpHeader, udp_from_bytes, udp_write}

-- Every UDP header is read back from what it is written as with any bytes behind it.
udp-from_bytes-write : (h : UdpHeader) (rest : Bytes) → udp_from_bytes (udp_write h ++ rest) ≡ ok h
unfolding udp_from_bytes udp_write index
udp-from_bytes-write h rest = ground arith

-- From 8 bytes on a UDP header is read, and the first 8 bytes are exactly those that it is written
-- as.
udp-write-from_bytes :
    (bytes : Bytes)
    → AreBytes bytes
    → 8 ≤ length bytes
    → (h : UdpHeader) × (udp_from_bytes bytes ≡ ok h) × (slice 0 8 bytes ≡ ok (udp_write h))
unfolding udp_from_bytes udp_write index slice
udp-write-from_bytes (b0 ∷ b1 ∷ b2 ∷ b3 ∷ b4 ∷ b5 ∷ b6 ∷ b7 ∷ rest) b l = (
  record {
    source_port = b0 * 256 + b1;
    destination_port = b2 * 256 + b3;
    datagram_length = b4 * 256 + b5;
    checksum = (b6, b7);
  },
  ground arith,
  ground arith,
)
udp-write-from_bytes [] b l = absurd (omega arith)
udp-write-from_bytes (_ ∷ []) b l = absurd (omega arith)
udp-write-from_bytes (_ ∷ _ ∷ []) b l = absurd (omega arith)
udp-write-from_bytes (_ ∷ _ ∷ _ ∷ []) b l = absurd (omega arith)
udp-write-from_bytes (_ ∷ _ ∷ _ ∷ _ ∷ []) b l = absurd (omega arith)
udp-write-from_bytes (_ ∷ _ ∷ _ ∷ _ ∷ _ ∷ []) b l = absurd (omega arith)
udp-write-from_bytes (_ ∷ _ ∷ _ ∷ _ ∷ _ ∷ _ ∷ []) b l = absurd (omega arith)
udp-write-from_bytes (_ ∷ _ ∷ _ ∷ _ ∷ _ ∷ _ ∷ _ ∷ []) b l = absurd (omega arith)

-- Shorter input is an error, so `from_bytes` never panics.
udp-from_bytes-short :
    (bytes : Bytes) → length bytes < 8 → udp_from_bytes bytes ≡ err unexpected_eof
unfolding udp_from_bytes
udp-from_bytes-short bytes h = rw (ltb-true {a = length bytes} {b = 8} h)
