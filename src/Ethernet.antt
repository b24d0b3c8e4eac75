-- ===== src/Ethernet.antt =====
-- lib/src/protocols/ethernet.rs: ethertypes and the Ethernet header with an optional VLAN tag.
pub mod Mac
pub mod Codec
pub mod Panics
use Mac.{MacAddr, mac_octets, mac_of_slice}
use narth_network.Base.{
  ℕ, Bool, true, false, Option, none, some, [], ◌∷◌, ◌++◌, ltb, leb, ◌==◌, if◌then◌else◌, length,
  Io, unexpected_eof, ok, err, ◌>>=◌,
}
use narth_network.Wire.{Bytes, u16_from_be, put_u16, slice, u16_of_slice}
use narth_network.Wire.Writer.{WriteToBuffer}

abbrev ether_type_ipv4 : ℕ
ether_type_ipv4 = 0x0800

abbrev ether_type_arp : ℕ
ether_type_arp = 0x0806

abbrev pub ether_type_vlan : ℕ
ether_type_vlan = 0x8100

abbrev ether_type_ipv6 : ℕ
ether_type_ipv6 = 0x86dd

pub data EtherType : Type 0 where
  ieee8023_length_field : ℕ → EtherType
  ipv4 arp vlan ipv6 : EtherType
  other : ℕ → EtherType

-- `From<[u8; 2]> for EtherType`, on the big-endian number of the two bytes.
unfoldable pub ether_type_from : ℕ → EtherType
ether_type_from t =
    if leb t 0x05dc
    then ieee8023_length_field t
    else if t == ether_type_ipv4
    then ipv4
    else if t == ether_type_arp
    then arp
    else if t == ether_type_vlan
    then vlan
    else if t == ether_type_ipv6
    then ipv6
    else other t

-- `TryFrom<&[u8]> for EtherType`
pub ether_type_of_slice : Bytes → Io EtherType
ether_type_of_slice (a ∷ b ∷ []) = ok (ether_type_from (u16_from_be a b))
ether_type_of_slice _ = err unexpected_eof

-- `From<EtherType> for u16`
unfoldable pub u16_of_ether_type : EtherType → ℕ
u16_of_ether_type (ieee8023_length_field v) = v
u16_of_ether_type ipv4 = ether_type_ipv4
u16_of_ether_type arp = ether_type_arp
u16_of_ether_type vlan = ether_type_vlan
u16_of_ether_type ipv6 = ether_type_ipv6
u16_of_ether_type (other v) = v

abbrev pub is_vlan : EtherType → Bool
is_vlan vlan = true
is_vlan _ = false

pub record EthernetHeader : Type 0 where
  pub destination_address : MacAddr
  pub source_address : MacAddr
  pub ether_type : EtherType
  pub vlan_tag : Option ℕ

unfoldable pub ethernet_new : EtherType → MacAddr → MacAddr → EthernetHeader
ethernet_new t source destination = record {
  destination_address = destination;
  source_address = source;
  ether_type = t;
  vlan_tag = none;
}

abbrev pub min_length : ℕ
min_length = 14

-- The end of `from_bytes`, once the ethertype and the VLAN tag are known.
pub ethernet_addresses : Bytes → EtherType → Option ℕ → Io EthernetHeader
ethernet_addresses bytes t tag = do
  d ← slice 0 6 bytes
  destination ← mac_of_slice d
  s ← slice 6 12 bytes
  source ← mac_of_slice s
  ok (record {
    destination_address = destination;
    source_address = source;
    ether_type = t;
    vlan_tag = tag;
  })

-- `if ether_type == EtherType::VLAN`: the tag, and the ethertype behind it.
pub read_vlan : Bytes → EtherType → Io (EtherType × Option ℕ)
unfolding ether_type_of_slice
read_vlan bytes t =
    if is_vlan t
    then (do
      v ← slice 14 16 bytes
      tag ← u16_of_slice v
      r ← slice 16 18 bytes
      inner ← ether_type_of_slice r
      ok (inner, some tag))
    else ok (t, none)

unfoldable pub ethernet_from_bytes : Bytes → Io EthernetHeader
unfolding ethernet_addresses read_vlan ether_type_of_slice
ethernet_from_bytes bytes = if ltb (length bytes) min_length then err unexpected_eof else do
  t ← slice 12 14 bytes
  outer ← ether_type_of_slice t
  p ← read_vlan bytes outer
  ethernet_addresses bytes p.0 p.1

unfoldable pub ethernet_encoded_length : EthernetHeader → ℕ
ethernet_encoded_length h = elim h.vlan_tag [ none ↦ 14 | some _ ↦ 18 ]

abbrev pub vlan_bytes : Option ℕ → Bytes
vlan_bytes none = []
vlan_bytes (some tag) = put_u16 ether_type_vlan ++ put_u16 tag

unfoldable pub ethernet_write : EthernetHeader → Bytes
unfolding u16_of_ether_type
ethernet_write h =
    mac_octets h.destination_address
    ++ (mac_octets h.source_address
        ++ (vlan_bytes h.vlan_tag ++ put_u16 (u16_of_ether_type h.ether_type)))

-- `impl WriteToBuffer for EthernetHeader`
instance abbrev pub ethernet_writer : WriteToBuffer EthernetHeader
ethernet_writer = record {
  encoded_length = ethernet_encoded_length;
  write_to_buffer = λ h. ok (ethernet_write h);
}
