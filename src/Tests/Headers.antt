-- ===== src/Tests/Headers.antt =====
-- The Ethernet, ARP and UDP headers at concrete inputs.
use narth_network.Base.{
  ℕ, zero, suc, ◌+◌, ◌-◌, ◌*◌, ◌/◌, ◌%◌, ◌<◌, ◌≡◌, refl, ap, ◌≢◌, ◌↔◌, true, List, [], ◌∷◌, ◌++◌,
  arith, length, ok, panicked,
}
use narth_network.Wire.{Bytes, AreBytes, slice}
use narth_network.Wire.Checksum.{flatten, Checksum}
use narth_network.Ethernet.{
  ether_type_from, u16_of_ether_type, EthernetHeader, ethernet_new, ethernet_from_bytes,
  ethernet_encoded_length, ethernet_write,
}
use narth_network.Ethernet.Mac.{MacAddr, mac_new, broadcast, mac_of_slice}
use narth_network.Ethernet.Codec.{IsReadable, from_bytes-write, write-from_bytes}
use narth_network.Ethernet.Panics.{NamesVlan, from_bytes-panicked}
use narth_network.Arp.{ArpMessage, arp_request, arp_from_bytes, arp_write}
use narth_network.Arp.Codec.{arp-from_bytes-write}
use narth_network.Arp.Total.{arp-from_bytes_total}
use narth_network.UdpHeader.{
  UdpHeader, udp_new, validate_checksum_v4, compute_and_update_checksum_v4,
}
use narth_network.UdpHeader.Validation.{validate-update}

abbrev station : MacAddr
station = mac_new 2 0 0 0 0 7

abbrev arp_header : EthernetHeader
arp_header = ethernet_new (ether_type_from 0x0806) station broadcast

arp_header-IsReadable : IsReadable arp_header
unfolding ethernet_new ether_type_from u16_of_ether_type
arp_header-IsReadable = record { canonical = refl; tagged = λ e. ground arith }

from_bytes-write_example :
    ethernet_from_bytes (ethernet_write arp_header ++ (1 ∷ 2 ∷ [])) ≡ ok arp_header
from_bytes-write_example = from_bytes-write arp_header (1 ∷ 2 ∷ []) arp_header-IsReadable

abbrev ipv4_frame : Bytes
ipv4_frame = 255 ∷ 255 ∷ 255 ∷ 255 ∷ 255 ∷ 255 ∷ 2 ∷ 0 ∷ 0 ∷ 0 ∷ 0 ∷ 7 ∷ 8 ∷ 0 ∷ 69 ∷ []

abbrev ipv4_frame_header : EthernetHeader
ipv4_frame_header = ethernet_new (ether_type_from 0x0800) station broadcast

ipv4_frame-AreBytes : AreBytes ipv4_frame
ipv4_frame-AreBytes = ground arith

write-from_bytes_example :
    slice 0 (ethernet_encoded_length ipv4_frame_header) ipv4_frame
    ≡ ok (ethernet_write ipv4_frame_header)
unfolding ethernet_from_bytes ethernet_new ether_type_from slice mac_of_slice
write-from_bytes_example = write-from_bytes ipv4_frame ipv4_frame-AreBytes refl

-- A frame that ends behind the number of the VLAN tag.
abbrev vlan_frame : Bytes
vlan_frame = 255 ∷ 255 ∷ 255 ∷ 255 ∷ 255 ∷ 255 ∷ 2 ∷ 0 ∷ 0 ∷ 0 ∷ 0 ∷ 7 ∷ 0x81 ∷ 0 ∷ []

from_bytes-panicked_example :
    (ethernet_from_bytes vlan_frame ≡ panicked) ↔ (NamesVlan vlan_frame × (length vlan_frame < 18))
from_bytes-panicked_example = from_bytes-panicked vlan_frame

abbrev question : ArpMessage
question = arp_request station 0x0a000001 0x0a000002

arp-from_bytes-write_example : arp_from_bytes (arp_write question ++ (0 ∷ [])) ≡ ok question
arp-from_bytes-write_example = arp-from_bytes-write question (0 ∷ [])

abbrev question_bytes : Bytes
question_bytes = arp_write question

abbrev dns_header : UdpHeader
dns_header = udp_new 40000 53 3

-- The checksum of RFC 1071, on the bytes put one behind the other.
abbrev words_total : Bytes → ℕ
words_total [] = 0
words_total (a ∷ []) = a * 256
words_total (a ∷ b ∷ bs) = a * 256 + b + words_total bs

abbrev folded : ℕ → ℕ
folded zero = 0
folded (suc n) = n % 65535 + 1

abbrev complement : List Bytes → ℕ
complement xs = 65535 - folded (words_total (flatten xs))

abbrev pub rfc_1071 : Checksum
rfc_1071 = record {
  sum = λ xs. (complement xs / 256, complement xs % 256);
  streams =
      λ xs ys e. ap (λ bs. let n : ℕ = 65535 - folded (words_total bs) in (n / 256, n % 256)) e;
  first_byte = λ xs. omega arith;
  second_byte = λ xs. omega arith;
}

validate-update_example :
    (g : UdpHeader) × (compute_and_update_checksum_v4 rfc_1071 dns_header 0x0a000001 0x0a000002
        (1 ∷ 2 ∷ 3 ∷ [])
      ≡ ok g)
    × (validate_checksum_v4 rfc_1071 g 0x0a000001 0x0a000002 (1 ∷ 2 ∷ 3 ∷ []) ≡ ok true)
    × (g.checksum ≢ (0, 0))
unfolding udp_new
validate-update_example =
    validate-update rfc_1071 dns_header 0x0a000001 0x0a000002 (1 ∷ 2 ∷ 3 ∷ []) (omega arith)
      (omega arith)

arp-from_bytes_total_example : arp_from_bytes (0 ∷ 9 ∷ question_bytes) ≢ panicked
arp-from_bytes_total_example = arp-from_bytes_total (0 ∷ 9 ∷ question_bytes)
