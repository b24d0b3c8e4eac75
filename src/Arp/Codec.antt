-- ===== src/Arp/Codec.antt =====
-- ARP messages: written, then read back; and read only from the bytes that they are written as.
use narth_network.Base.{
  ℕ, ◌≡◌, inl, inr, [], ◌∷◌, ◌++◌, arith, ltb, Bool-cases, length, >>=-eq-ok, ok,
}
use narth_network.Wire.{Bytes, AreBytes, put_u16, put_u32, index, slice, ipv4_of_slice}
use narth_network.Wire.Slices.{slice-join, slice-AreBytes, index-slice}
use narth_network.Ethernet.Mac.{mac_octets, mac_of_slice}
use narth_network.Ethernet.Codec.{mac_octets-of_slice}
use narth_network.Arp.{
  Operation, operation_from, u16_of_operation, ArpMessage, arp_length, pair_of_slice, check_fixed,
  arp_fields, arp_fixed, arp_from_bytes, arp_write,
}

-- Every ARP message is read back from what it is written as with any bytes behind it.
pub arp-from_bytes-write :
    (m : ArpMessage) (rest : Bytes) → arp_from_bytes (arp_write m ++ rest) ≡ ok m
unfolding arp_from_bytes arp_write slice index mac_octets mac_of_slice ipv4_of_slice pair_of_slice
    check_fixed operation_from
arp-from_bytes-write m rest = ground arith

put_pair : (s : Bytes) {p : ℕ × ℕ} → pair_of_slice s ≡ ok p → s ≡ p.0 ∷ p.1 ∷ []
unfolding pair_of_slice
put_pair s e = ground arith

put_u32-of_slice : (s : Bytes) {n : ℕ} → AreBytes s → ipv4_of_slice s ≡ ok n → put_u32 n ≡ s
unfolding ipv4_of_slice
put_u32-of_slice (a ∷ b ∷ c ∷ d ∷ []) h e = ground arith
put_u32-of_slice _ h e = cc

put_operation :
    (a b : ℕ) {o : Operation}
    → operation_from a b ≡ ok o
    → put_u16 (u16_of_operation o) ≡ a ∷ b ∷ []
unfolding operation_from u16_of_operation
put_operation a b e = ground arith

-- What the four checks let through.
check_fixed-ok :
    (h p : ℕ × ℕ) (m n : ℕ)
    → check_fixed h p m n ≡ ok tt
    → (h ≡ (0, 1)) × (p ≡ (8, 0)) × (m ≡ 6) × (n ≡ 4)
unfolding check_fixed
check_fixed-ok h p m n e = ground arith

fixed-slice :
    (bytes : Bytes) → arp_fixed bytes ≡ ok tt → slice 0 6 bytes ≡ ok (0 ∷ 1 ∷ 8 ∷ 0 ∷ 6 ∷ 4 ∷ [])
unfolding arp_fixed
fixed-slice bytes e =
    let (s, es, e₁) = >>=-eq-ok (slice 0 2 bytes) _ e in
    let (h, eh, e₂) = >>=-eq-ok (pair_of_slice s) _ e₁ in
    let (t, et, e₃) = >>=-eq-ok (slice 2 4 bytes) _ e₂ in
    let (p, ep, e₄) = >>=-eq-ok (pair_of_slice t) _ e₃ in
    let (m, em, e₅) = >>=-eq-ok (index bytes 4) _ e₄ in
    let (n, en, e₆) = >>=-eq-ok (index bytes 5) _ e₅ in
    let front = slice-join 0 2 4 bytes es et in
    let whole =
      slice-join 0 5 6 bytes (slice-join 0 4 5 bytes front (index-slice 4 bytes em))
        (index-slice 5 bytes en) in
    ground (arith, whole, put_pair s eh, put_pair t ep, check_fixed-ok h p m n e₆)

fields-slice :
    (bytes : Bytes) {m : ArpMessage}
    → AreBytes bytes
    → arp_fields bytes ≡ ok m
    → slice 6 28 bytes
      ≡ ok (
          put_u16 (u16_of_operation m.operation)
          ++ (mac_octets m.sender_hardware_addr
              ++ (put_u32 m.sender_protocol_addr
                  ++ (mac_octets m.target_hardware_addr ++ put_u32 m.target_protocol_addr))))
unfolding arp_fields
fields-slice bytes {m} b e =
    let (os, eos, e₁) = >>=-eq-ok (slice 6 8 bytes) _ e in
    let (op, eop, e₂) = >>=-eq-ok (pair_of_slice os) _ e₁ in
    let (o, eo, e₃) = >>=-eq-ok (operation_from op.0 op.1) _ e₂ in
    let (ss, ess, e₄) = >>=-eq-ok (slice 14 18 bytes) _ e₃ in
    let (sa, esa, e₅) = >>=-eq-ok (ipv4_of_slice ss) _ e₄ in
    let (ts, ets, e₆) = >>=-eq-ok (slice 24 28 bytes) _ e₅ in
    let (ta, eta, e₇) = >>=-eq-ok (ipv4_of_slice ts) _ e₆ in
    let (sh, esh, e₈) = >>=-eq-ok (slice 8 14 bytes) _ e₇ in
    let (sm, esm, e₉) = >>=-eq-ok (mac_of_slice sh) _ e₈ in
    let (th, eth, e₁₀) = >>=-eq-ok (slice 18 24 bytes) _ e₉ in
    let (tm, etm, e₁₁) = >>=-eq-ok (mac_of_slice th) _ e₁₀ in
    let whole = slice-join 6 8 28 bytes eos (
      slice-join 8 14 28 bytes esh
        (slice-join 14 18 28 bytes ess (slice-join 18 24 28 bytes eth ets))) in
    ground (
      arith,
      whole,
      e₁₁,
      put_pair os eop,
      put_operation op.0 op.1 eo,
      mac_octets-of_slice sh esm,
      mac_octets-of_slice th etm,
      put_u32-of_slice ss (slice-AreBytes 14 18 bytes b ess) esa,
      put_u32-of_slice ts (slice-AreBytes 24 28 bytes b ets) eta,
    )

-- Where `from_bytes` reads an ARP message from bytes, the first 28 of them are exactly those that
-- the message is written as.
arp-write-from_bytes :
    (bytes : Bytes) {m : ArpMessage}
    → AreBytes bytes
    → arp_from_bytes bytes ≡ ok m
    → slice 0 28 bytes ≡ ok (arp_write m)
unfolding arp_from_bytes arp_write
arp-write-from_bytes bytes {m} b e = elim (Bool-cases (ltb (length bytes) arp_length)) [
  | inl short ↦ cc (rw short at e)
  | inr long ↦
      let (u, eu, e₁) = >>=-eq-ok (arp_fixed bytes) _ (rw long at e) in
      slice-join 0 6 28 bytes (fixed-slice bytes eu) (fields-slice bytes b e₁)
]
