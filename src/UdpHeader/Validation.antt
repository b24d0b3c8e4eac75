-- ===== src/UdpHeader/Validation.antt =====
-- The sender's checksum passes the receiver's validation.
use narth_network.Base.{
  ℕ, ◌+◌, ◌-◌, ◌≤◌, ◌≡◌, refl, ◌∙◌, ◌≢◌, true, [], ◌∷◌, arith, length, take, drop, ok,
}
use narth_network.Wire.{Bytes, put_u16, put_u32}
use narth_network.Wire.Slices.{slice-ok}
use narth_network.Wire.Checksum.{Checksum, pair_eq_refl}
use narth_network.UdpHeader.{
  UdpHeader, udp_protocol, avoid_zero, checksum_data, compute_checksum_v4, validate_checksum_v4,
  compute_and_update_checksum_v4,
}

module _ (c : Checksum) where
  -- The checksum field itself does not enter the sum.
  compute-update :
      (h : UdpHeader) (k : ℕ × ℕ) (s d : ℕ) (payload : Bytes)
      → compute_checksum_v4 c (record h { checksum = k }) s d payload
        ≡ compute_checksum_v4 c h s d payload
  unfolding compute_checksum_v4
  compute-update h k s d payload = refl

  checksum_data-ok :
      (h : UdpHeader) (payload : Bytes)
      → 8 ≤ h.datagram_length
      → h.datagram_length ≤ 8 + length payload
      → (body : Bytes) × (checksum_data c h payload ≡ ok body)
  unfolding checksum_data
  checksum_data-ok h payload l m =
      let body = take (h.datagram_length - 8 - 0) (drop 0 payload) in
      let cut = slice-ok 0 (h.datagram_length - 8) payload (omega arith) (omega arith) in
      (body, ground (arith, cut))

  avoid_zero-ne : (p : ℕ × ℕ) → avoid_zero c p ≢ (0, 0)
  unfolding avoid_zero
  avoid_zero-ne p = ground arith

  compute-ok :
      (h : UdpHeader) (s d : ℕ) (payload : Bytes)
      → 8 ≤ h.datagram_length
      → h.datagram_length ≤ 8 + length payload
      → (k : ℕ × ℕ) × (compute_checksum_v4 c h s d payload ≡ ok k) × (k ≢ (0, 0))
  unfolding compute_checksum_v4
  compute-ok h s d payload l m =
      let (body, e) = checksum_data-ok h payload l m in
      let total = c.sum (
        put_u32 s
        ∷ put_u32 d
        ∷ (0 ∷ udp_protocol ∷ [])
        ∷ put_u16 h.datagram_length
        ∷ put_u16 h.source_port
        ∷ put_u16 h.destination_port
        ∷ put_u16 h.datagram_length
        ∷ (0 ∷ 0 ∷ [])
        ∷ body
        ∷ []) in
      (avoid_zero c total, ground (arith, e), avoid_zero-ne total)

  -- For a header whose datagram length is at least 8 and at most 8 more than the payload's, the
  -- checksum is computed and is not zero, and the header updated with it validates against the
  -- same addresses and payload.
  pub validate-update :
      (h : UdpHeader) (s d : ℕ) (payload : Bytes)
      → 8 ≤ h.datagram_length
      → h.datagram_length ≤ 8 + length payload
      → (g : UdpHeader) × (compute_and_update_checksum_v4 c h s d payload ≡ ok g)
        × (validate_checksum_v4 c g s d payload ≡ ok true)
        × (g.checksum ≢ (0, 0))
  unfolding compute_and_update_checksum_v4 validate_checksum_v4
  validate-update h s d payload l m =
      let (k, e, ne) = compute-ok h s d payload l m in
      let same = compute-update h k s d payload ∙ e in
      (record h { checksum = k }, rw e, rw (same, pair_eq_refl k), ne)
