-- ===== src/Arp/Total.antt =====
-- Reading an ARP message never panics.
use narth_network.Base.{
  ℕ, ◌+◌, ◌≤◌, ◌≡◌, refl, ◌≢◌, inl, inr, [], ◌∷◌, arith, ltb, le_of_ltb, Bool-cases, length,
  >>=-ne-panicked, ok, panicked,
}
use narth_network.Wire.{Bytes, slice, u16_of_slice}
use narth_network.Wire.Slices.{index-ok, u16-at, ipv4-at}
use narth_network.Ethernet.Panics.{mac-at}
use narth_network.Arp.{
  operation_from, arp_length, pair_of_slice, check_fixed, arp_fields, arp_fixed, arp_from_bytes,
}

pair_of_u16 : (s : Bytes) {n : ℕ} → u16_of_slice s ≡ ok n → (p : ℕ × ℕ) × (pair_of_slice s ≡ ok p)
unfolding pair_of_slice u16_of_slice
pair_of_u16 (a ∷ b ∷ []) e = ((a, b), refl)
pair_of_u16 _ e = cc

pair-at :
    (a b : ℕ) (bs : Bytes)
    → b ≡ a + 2
    → b ≤ length bs
    → (s : Bytes) × (p : ℕ × ℕ) × (slice a b bs ≡ ok s) × (pair_of_slice s ≡ ok p)
pair-at a b bs w h =
    let (s, n, p, q) = u16-at a b bs w h in let (t, r) = pair_of_u16 s q in (s, t, p, r)

operation_from-ne-panicked : (a b : ℕ) → operation_from a b ≢ panicked
unfolding operation_from
operation_from-ne-panicked a b = ground arith

check_fixed-ne-panicked : (h p : ℕ × ℕ) (m n : ℕ) → check_fixed h p m n ≢ panicked
unfolding check_fixed
check_fixed-ne-panicked h p m n = ground arith

fixed-ne-panicked : (bytes : Bytes) → 28 ≤ length bytes → arp_fixed bytes ≢ panicked
unfolding arp_fixed
fixed-ne-panicked bytes l =
    let (s, h, es, eh) = pair-at 0 2 bytes refl (omega arith) in
    let (t, p, et, ep) = pair-at 2 4 bytes refl (omega arith) in
    let (m, em) = index-ok bytes 4 (omega arith) in
    let (n, en) = index-ok bytes 5 (omega arith) in
    rw (es, eh, et, ep, em, en) (check_fixed-ne-panicked h p m n)

fields-ne-panicked : (bytes : Bytes) → 28 ≤ length bytes → arp_fields bytes ≢ panicked
unfolding arp_fields
fields-ne-panicked bytes l =
    let (os, o, eos, eo) = pair-at 6 8 bytes refl (omega arith) in
    let (ss, sa, ess, esa) = ipv4-at 14 18 bytes refl (omega arith) in
    let (ts, ta, ets, eta) = ipv4-at 24 28 bytes refl (omega arith) in
    let (sh, sm, esh, esm) = mac-at 8 14 bytes refl (omega arith) in
    let (th, tm, eth, etm) = mac-at 18 24 bytes refl (omega arith) in
    rw (eos, eo, ess, esa, ets, eta, esh, esm, eth, etm)
      (>>=-ne-panicked (operation_from o.0 o.1) _ (operation_from-ne-panicked o.0 o.1) (λ op e. cc))

-- Whatever bytes arrive, `ArpMessage::from_bytes` does not panic.
pub arp-from_bytes_total : (bytes : Bytes) → arp_from_bytes bytes ≢ panicked
unfolding arp_from_bytes
arp-from_bytes_total bytes = elim (Bool-cases (ltb (length bytes) arp_length)) [
  | inl short ↦ rw short (λ e. cc)
  | inr long ↦
      let l = le_of_ltb (length bytes) arp_length long in
      rw long (
        >>=-ne-panicked (arp_fixed bytes) _ (fixed-ne-panicked bytes l)
          (λ u. fields-ne-panicked bytes l))
]
