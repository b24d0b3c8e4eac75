-- ===== src/Ipv4/Panics.antt =====
-- When reading an IPv4 header panics, and when it cannot.
use native.Mathlib.Decide.{dec_le}
use narth_network.Base.{
  ℕ, ◌-◌, ◌/◌, ◌≤◌, ◌<◌, bit_and, ◌≡◌, refl, ◌≢◌, inl, inr, [], ◌∷◌, arith, ltb, ltb-false,
  le_of_ltb, Bool-cases, length, take, drop, ok, panicked,
}
use narth_network.Wire.{Bytes, index}
use narth_network.Wire.Slices.{
  index-ok, slice-ok, slice-short, slice-inverted, length-slice, u16-at, ipv4-at,
}
use narth_network.Wire.Checksum.{Checksum}
use narth_network.Wire.Bitmatch.{Bitmatch}
use narth_network.Ipv4.Fields.{
  FragmentDetails, offset_max, parse_do_not_fragment, parse_more_fragments, fragment_of_slice,
}
use narth_network.Ipv4.{header_len_from, byte_len, ipv4_fields, ipv4_checksums, ipv4_from_bytes}

module _ (m : Bitmatch) (c : Checksum) where
  fragment-ok : (s : Bytes) → length s ≡ 4 → (f : FragmentDetails) × (fragment_of_slice m s ≡ ok f)
  unfolding fragment_of_slice
  fragment-ok s l =
      let (raw_slice, raw, e₁, e₂) = u16-at 2 4 s refl (omega arith) in
      let (id_slice, id, e₃, e₄) = u16-at 0 2 s refl (omega arith) in
      let (flags, e₅) = index-ok s 2 (omega arith) in
      (
        record {
          identification = id;
          do_not_fragment = parse_do_not_fragment m flags;
          more_fragments = parse_more_fragments m flags;
          offset = bit_and raw offset_max;
        },
        ground (arith, e₁, e₂, e₃, e₄, e₅),
      )

  fields-ne-panicked :
      (words : ℕ) (bytes : Bytes) → 20 ≤ length bytes → ipv4_fields m c words bytes ≢ panicked
  unfolding ipv4_fields
  fields-ne-panicked words bytes l =
      let (tos, e₁) = index-ok bytes 1 (omega arith) in
      let (len_slice, len, e₂, e₃) = u16-at 2 4 bytes refl (omega arith) in
      let cut = slice-ok 4 8 bytes (omega arith) (omega arith) in
      let (fragment, e₄) = fragment-ok (take 4 (drop 4 bytes)) (length-slice 4 8 bytes cut) in
      let (ttl, e₅) = index-ok bytes 8 (omega arith) in
      let (proto, e₆) = index-ok bytes 9 (omega arith) in
      let (sum_slice, sum, e₇, e₈) = u16-at 10 12 bytes refl (omega arith) in
      let (source_slice, source, e₉, e₁₀) = ipv4-at 12 16 bytes refl (omega arith) in
      let (dest_slice, dest, e₁₁, e₁₂) = ipv4-at 16 20 bytes refl (omega arith) in
      rw (e₁, e₂, e₃, cut, e₄, e₅, e₆, e₇, e₈, e₉, e₁₀, e₁₁, e₁₂) (λ e. cc)

  checksums-ok :
      (n : ℕ) (bytes : Bytes)
      → 20 ≤ n
      → n ≤ length bytes
      → (p : (ℕ × ℕ) × (ℕ × ℕ)) × (ipv4_checksums m c n bytes ≡ ok p)
  unfolding ipv4_checksums
  checksums-ok n bytes l k =
      let front = slice-ok 0 10 bytes (omega arith) (omega arith) in
      let back = slice-ok 12 n bytes (omega arith) k in
      let (s0, e₀) = index-ok bytes 10 (omega arith) in
      let (s1, e₁) = index-ok bytes 11 (omega arith) in
      (
        (c.sum (take 10 bytes ∷ (0 ∷ 0 ∷ []) ∷ take (n - 12) (drop 12 bytes) ∷ []), (s0, s1)),
        ground (arith, front, back, e₀, e₁),
      )

  -- Where the first byte claims a header length of five words or more, `IPv4Header::from_bytes`
  -- does not panic.
  pub ipv4-from_bytes-ne-panicked :
      (bytes : Bytes) {first : ℕ}
      → index bytes 0 ≡ ok first
      → 5 ≤ header_len_from first
      → ipv4_from_bytes m c bytes ≢ panicked
  unfolding ipv4_from_bytes
  ipv4-from_bytes-ne-panicked bytes {first} e l =
      elim (Bool-cases (ltb (length bytes) (byte_len (header_len_from first)))) [
        | inl short ↦ rw (e, short) (ground arith)
        | inr long ↦
            let enough = le_of_ltb _ _ long in
            let (p, ep) =
              checksums-ok (byte_len (header_len_from first)) bytes (omega arith) enough in
            let fields = fields-ne-panicked (header_len_from first) bytes (omega arith) in
            rw (e, long, ep) (ground (arith, fields))
      ]

  -- Where the first byte has version 4 and claims a header length below three words, and the bytes
  -- have that length, `IPv4Header::from_bytes` panics.
  pub ipv4-from_bytes-panicked :
      (bytes : Bytes) {first : ℕ}
      → index bytes 0 ≡ ok first
      → bit_and first 0xf0 / 16 ≡ 4
      → header_len_from first < 3
      → byte_len (header_len_from first) ≤ length bytes
      → ipv4_from_bytes m c bytes ≡ panicked
  unfolding ipv4_from_bytes ipv4_checksums
  ipv4-from_bytes-panicked bytes {first} e v w l =
      let back = slice-inverted 12 (byte_len (header_len_from first)) bytes (omega arith) in
      elim (dec_le 10 (length bytes)) [
        | yes k ↦ rw (e, v, ltb-false l, back, slice-ok 0 10 bytes (omega arith) k)
        | no k ↦ rw (e, v, ltb-false l, back, slice-short 0 10 bytes (omega arith) (omega arith))
      ]
