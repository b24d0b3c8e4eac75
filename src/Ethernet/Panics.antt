-- ===== src/Ethernet/Panics.antt =====
-- When parsing an Ethernet header panics.
use native.Mathlib.Decide.{dec_le, dec_lt}
use narth_network.Base.{
  ℕ, ◌+◌, ◌-◌, ◌≤◌, ◌<◌, ◌≡◌, refl, ◌↔◌, ◌⊎◌, inl, inr, true, false, Option, none, some, [], ◌∷◌,
  arith, ltb-true, ltb-false, Bool-cases, length, take, drop, unexpected_eof, ok, err, panicked,
}
use narth_network.Wire.{Bytes, slice, u16_of_slice}
use narth_network.Wire.Slices.{slice-ok, slice-short, slice-bounds, length-slice, u16-at}
use narth_network.Ethernet.Mac.{MacAddr, mac_of_slice}
use narth_network.Ethernet.{
  EtherType, ether_type_from, ether_type_of_slice, is_vlan, EthernetHeader, ethernet_addresses,
  read_vlan, ethernet_from_bytes,
}

-- Six bytes within the bounds are read as a MAC address.
pub mac-at :
    (a b : ℕ) (bs : Bytes)
    → b ≡ a + 6
    → b ≤ length bs
    → (s : Bytes) × (m : MacAddr) × (slice a b bs ≡ ok s) × (mac_of_slice s ≡ ok m)
unfolding mac_of_slice
mac-at a b bs six h = go (take (b - a) (drop a bs)) e (length-slice a b bs e)
  where
    e : slice a b bs ≡ ok (take (b - a) (drop a bs))
    e = slice-ok a b bs (omega arith) h

    go :
        (s : Bytes)
        → slice a b bs ≡ ok s
        → length s ≡ b - a
        → (t : Bytes) × (m : MacAddr) × (slice a b bs ≡ ok t) × (mac_of_slice t ≡ ok m)
    go (x ∷ y ∷ z ∷ u ∷ v ∷ w ∷ []) p l = (x ∷ y ∷ z ∷ u ∷ v ∷ w ∷ [], _, p, refl)
    go [] p l = absurd (omega arith)
    go (_ ∷ []) p l = absurd (omega arith)
    go (_ ∷ _ ∷ []) p l = absurd (omega arith)
    go (_ ∷ _ ∷ _ ∷ []) p l = absurd (omega arith)
    go (_ ∷ _ ∷ _ ∷ _ ∷ []) p l = absurd (omega arith)
    go (_ ∷ _ ∷ _ ∷ _ ∷ _ ∷ []) p l = absurd (omega arith)
    go (_ ∷ _ ∷ _ ∷ _ ∷ _ ∷ _ ∷ _ ∷ r) p l = absurd (omega arith)

ether_type-at :
    (a b : ℕ) (bs : Bytes)
    → b ≡ a + 2
    → b ≤ length bs
    → (s : Bytes) × (n : ℕ) × (slice a b bs ≡ ok s)
      × (ether_type_of_slice s ≡ ok (ether_type_from n))
unfolding ether_type_of_slice u16_of_slice
ether_type-at a b bs w h = let (s, n, p, q) = u16-at a b bs w h in (s, n, p, ground arith)

-- The first ethertype says that a VLAN tag follows.
abbrev pub NamesVlan : Bytes → Type 0
NamesVlan bytes =
    (s : Bytes) × (t : EtherType) × (slice 12 14 bytes ≡ ok s)
    × (ether_type_of_slice s ≡ ok t)
    × (is_vlan t ≡ true)

addresses-ok :
    (bytes : Bytes) (t : EtherType) (tag : Option ℕ)
    → 14 ≤ length bytes
    → (h : EthernetHeader) × (ethernet_addresses bytes t tag ≡ ok h)
unfolding ethernet_addresses
addresses-ok bytes t tag l =
    let (d, m, ed, em) = mac-at 0 6 bytes refl (omega arith) in
    let (s, n, es, en) = mac-at 6 12 bytes refl (omega arith) in
    (
      record { destination_address = m; source_address = n; ether_type = t; vlan_tag = tag },
      rw (ed, em, es, en),
    )

-- Behind a VLAN tag four more bytes are needed.
read_vlan-ok :
    (bytes : Bytes) (t : EtherType)
    → (is_vlan t ≡ false) ⊎ (18 ≤ length bytes)
    → (p : EtherType × Option ℕ) × (read_vlan bytes t ≡ ok p)
unfolding read_vlan
read_vlan-ok bytes t (inl v) = ((t, none), rw v)
read_vlan-ok bytes t (inr l) = elim (Bool-cases (is_vlan t)) [
  | inl v ↦
      let (s, n, es, en) = u16-at 14 16 bytes refl (omega arith) in
      let (r, i, er, ei) = ether_type-at 16 18 bytes refl (omega arith) in
      ((ether_type_from i, some n), rw (v, es, en, er, ei))
  | inr v ↦ ((t, none), rw v)
]

read_vlan-short :
    (bytes : Bytes) (t : EtherType)
    → is_vlan t ≡ true
    → length bytes < 18
    → read_vlan bytes t ≡ panicked
unfolding read_vlan
read_vlan-short bytes t v k = elim (dec_lt (length bytes) 16) [
  | yes p ↦ rw (v, slice-short 14 16 bytes (omega arith) p)
  | no p ↦
      let (s, n, es, en) = u16-at 14 16 bytes refl (omega arith) in
      rw (v, es, en, slice-short 16 18 bytes (omega arith) k)
]

from_bytes-short :
    (bytes : Bytes) → length bytes < 14 → ethernet_from_bytes bytes ≡ err unexpected_eof
unfolding ethernet_from_bytes
from_bytes-short bytes l = rw (ltb-true {a = length bytes} {b = 14} l)

-- Without a VLAN tag, or with the bytes behind it, a frame of 14 bytes is read.
from_bytes-ok :
    (bytes : Bytes) (s : Bytes) (n : ℕ)
    → 14 ≤ length bytes
    → slice 12 14 bytes ≡ ok s
    → ether_type_of_slice s ≡ ok (ether_type_from n)
    → (is_vlan (ether_type_from n) ≡ false) ⊎ (18 ≤ length bytes)
    → (h : EthernetHeader) × (ethernet_from_bytes bytes ≡ ok h)
unfolding ethernet_from_bytes
from_bytes-ok bytes s n l es en d =
    let (p, ep) = read_vlan-ok bytes (ether_type_from n) d in
    let (h, eh) = addresses-ok bytes p.0 p.1 l in (h, rw (ltb-false l, es, en, ep) eh)

-- `from_bytes` panics at the frames of 14 to 17 bytes whose ethertype names a VLAN tag, and at no
-- other frame.
pub from_bytes-panicked :
    (bytes : Bytes)
    → (ethernet_from_bytes bytes ≡ panicked) ↔ (NamesVlan bytes × (length bytes < 18))
from_bytes-panicked bytes = (to, from)
  where
    from : NamesVlan bytes × (length bytes < 18) → ethernet_from_bytes bytes ≡ panicked
    from ((s, t, es, et, v), k) =
        let (_, l) = slice-bounds 12 14 bytes es in
        unfold ethernet_from_bytes in rw (ltb-false l, es, et, read_vlan-short bytes t v k)

    to : ethernet_from_bytes bytes ≡ panicked → NamesVlan bytes × (length bytes < 18)
    to e = elim (dec_le 14 (length bytes)) [
      | no l ↦ cc (from_bytes-short bytes (omega arith))
      | yes l ↦
          let (s, n, es, en) = ether_type-at 12 14 bytes refl l in
          elim (Bool-cases (is_vlan (ether_type_from n))) [
            | inl v ↦ elim (dec_lt (length bytes) 18) [
              | yes k ↦ ((s, ether_type_from n, es, en, v), k)
              | no k ↦ cc (from_bytes-ok bytes s n l es en (inr (omega arith))).1
            ]
            | inr v ↦ cc (from_bytes-ok bytes s n l es en (inl v)).1
          ]
    ]
