-- ===== src/Ethernet/Codec.antt =====
-- Reading back what was written, and writing what was read, for the Ethernet header.
use mathlib.Core.List.{append_assoc}
use narth_network.Base.{
  ℕ, ◌+◌, ◌*◌, ◌≡◌, sym, ap, ◌∙◌, ◌≢◌, inl, inr, true, Option, none, some, [], ◌∷◌, ◌++◌, arith,
  ltb, Bool-cases, length, >>=-eq-ok, ok,
}
use narth_network.Wire.{Bytes, AreBytes, put_u16, slice, u16_of_slice}
use narth_network.Ethernet.Mac.{MacAddr, mac_octets, mac_of_slice}
use narth_network.Ethernet.{
  ether_type_vlan, EtherType, ether_type_from, ether_type_of_slice, u16_of_ether_type, is_vlan,
  EthernetHeader, min_length, ethernet_addresses, read_vlan, ethernet_from_bytes,
  ethernet_encoded_length, vlan_bytes, ethernet_write,
}
use narth_network.Wire.Slices.{slice-join, slice-AreBytes}

-- Every number is the number of the ethertype that it is read as.
u16_of_ether_type-from : (t : ℕ) → u16_of_ether_type (ether_type_from t) ≡ t
unfolding u16_of_ether_type ether_type_from
u16_of_ether_type-from t = ground arith

-- An ethertype that a frame can carry: the number it is written as is read as this ethertype.
abbrev IsCanonical : EtherType → Type 0
IsCanonical t = ether_type_from (u16_of_ether_type t) ≡ t

-- A header that `from_bytes` can return: a VLAN ethertype only behind a tag.
pub record IsReadable (h : EthernetHeader) : Type 0 where
  pub canonical : IsCanonical h.ether_type
  pub tagged : is_vlan h.ether_type ≡ true → h.vlan_tag ≢ none

-- A header whose ethertype is the one of its number, and which has a tag where the ethertype is
-- VLAN, is read back from what it is written as with any bytes behind it.
pub from_bytes-write :
    (h : EthernetHeader) (rest : Bytes)
    → IsReadable h
    → ethernet_from_bytes (ethernet_write h ++ rest) ≡ ok h
unfolding ethernet_from_bytes ethernet_write u16_of_ether_type ether_type_from slice mac_octets
    mac_of_slice u16_of_slice
from_bytes-write h rest v = ground arith

pub mac_octets-of_slice : (s : Bytes) {m : MacAddr} → mac_of_slice s ≡ ok m → mac_octets m ≡ s
unfolding mac_octets mac_of_slice
mac_octets-of_slice s h = ground arith

put_u16-of_slice : (s : Bytes) {n : ℕ} → AreBytes s → u16_of_slice s ≡ ok n → put_u16 n ≡ s
unfolding u16_of_slice
put_u16-of_slice (a ∷ b ∷ []) h e = ground arith
put_u16-of_slice _ h e = cc

put_ether_type :
    (s : Bytes) {t : EtherType}
    → AreBytes s
    → ether_type_of_slice s ≡ ok t
    → put_u16 (u16_of_ether_type t) ≡ s
unfolding ether_type_of_slice
put_ether_type (a ∷ b ∷ []) h e = ground (arith, u16_of_ether_type-from (a * 256 + b))
put_ether_type _ h e = cc

-- `put_u16 0x8100` is written for a VLAN ethertype alone.
put_vlan :
    (t : EtherType) → is_vlan t ≡ true → put_u16 (u16_of_ether_type t) ≡ put_u16 ether_type_vlan
unfolding u16_of_ether_type
put_vlan t h = ground arith

-- The tag and the ethertype that were read, as bytes.
type_bytes-slice :
    (bytes : Bytes) (t u : EtherType) (tag : Option ℕ)
    → AreBytes bytes
    → slice 12 14 bytes ≡ ok (put_u16 (u16_of_ether_type t))
    → read_vlan bytes t ≡ ok (u, tag)
    → slice 12 (elim tag [ none ↦ 14 | some _ ↦ 18 ]) bytes
      ≡ ok (vlan_bytes tag ++ put_u16 (u16_of_ether_type u))
unfolding read_vlan
type_bytes-slice bytes t u tag b outer e = elim (Bool-cases (is_vlan t)) [
  | inl v ↦
      let (s, es, e₁) = >>=-eq-ok (slice 14 16 bytes) _ (rw v at e) in
      let (n, en, e₂) = >>=-eq-ok (u16_of_slice s) _ e₁ in
      let (r, er, e₃) = >>=-eq-ok (slice 16 18 bytes) _ e₂ in
      let (i, ei, e₄) = >>=-eq-ok (ether_type_of_slice r) _ e₃ in
      let joined = slice-join 12 16 18 bytes (slice-join 12 14 16 bytes outer es) er in
      ground (
        arith,
        joined,
        put_vlan t v,
        put_u16-of_slice s (slice-AreBytes 14 16 bytes b es) en,
        put_ether_type r (slice-AreBytes 16 18 bytes b er) ei,
        e₄,
      )
  | inr v ↦ ground (arith, outer)
]

addresses-slice :
    (bytes : Bytes) (t : EtherType) (tag : Option ℕ) {h : EthernetHeader}
    → ethernet_addresses bytes t tag ≡ ok h
    → (slice 0 12 bytes ≡ ok (mac_octets h.destination_address ++ mac_octets h.source_address))
      × (h.ether_type ≡ t)
      × (h.vlan_tag ≡ tag)
unfolding ethernet_addresses
addresses-slice bytes t tag {h} e =
    let (d, ed, e₁) = >>=-eq-ok (slice 0 6 bytes) _ e in
    let (m, em, e₂) = >>=-eq-ok (mac_of_slice d) _ e₁ in
    let (s, es, e₃) = >>=-eq-ok (slice 6 12 bytes) _ e₂ in
    let (n, en, e₄) = >>=-eq-ok (mac_of_slice s) _ e₃ in
    let joined = slice-join 0 6 12 bytes ed es in
    ground (arith, joined, mac_octets-of_slice d em, mac_octets-of_slice s en, e₄)

frame-slice :
    (bytes : Bytes) (u : EtherType) (tag : Option ℕ) {h : EthernetHeader}
    → slice 12 (elim tag [ none ↦ 14 | some _ ↦ 18 ]) bytes
      ≡ ok (vlan_bytes tag ++ put_u16 (u16_of_ether_type u))
    → ethernet_addresses bytes u tag ≡ ok h
    → slice 0 (ethernet_encoded_length h) bytes ≡ ok (ethernet_write h)
unfolding ethernet_write ethernet_encoded_length
frame-slice bytes u tag {h} types e =
    let (front, same_type, same_tag) = addresses-slice bytes u tag e in
    let d = mac_octets h.destination_address in
    let s = mac_octets h.source_address in
    let whole = slice-join 0 12 (elim tag [ none ↦ 14 | some _ ↦ 18 ]) bytes front types in
    ground (arith, whole, append_assoc d s (vlan_bytes tag ++ put_u16 (u16_of_ether_type u)))

-- Where `from_bytes` reads a header from bytes, the bytes in front, as many as the header's
-- encoded length, are exactly those that the header is written as.
pub write-from_bytes :
    (bytes : Bytes) {h : EthernetHeader}
    → AreBytes bytes
    → ethernet_from_bytes bytes ≡ ok h
    → slice 0 (ethernet_encoded_length h) bytes ≡ ok (ethernet_write h)
unfolding ethernet_from_bytes
write-from_bytes bytes {h} b e = elim (Bool-cases (ltb (length bytes) min_length)) [
  | inl short ↦ cc (rw short at e)
  | inr long ↦
      let (s, es, e₁) = >>=-eq-ok (slice 12 14 bytes) _ (rw long at e) in
      let (t, et, e₂) = >>=-eq-ok (ether_type_of_slice s) _ e₁ in
      let (p, ep, e₃) = >>=-eq-ok (read_vlan bytes t) _ e₂ in
      let outer = es ∙ ap ok (sym (put_ether_type s (slice-AreBytes 12 14 bytes b es) et)) in
      frame-slice bytes p.0 p.1 (type_bytes-slice bytes t p.0 p.1 b outer ep) e₃
]
