-- ===== src/Arp.antt =====
-- lib/src/protocols/arp.rs: ARP messages for IPv4 over Ethernet.
pub mod Codec
pub mod Total
use narth_network.Ethernet
use narth_network.Base.{
  ℕ, Bool, true, false, not, ◌&&◌, [], ◌∷◌, ◌++◌, ltb, ◌==◌, if◌then◌else◌, length, Io, ◌>>=◌,
  unexpected_eof, invalid_data, ok, err,
}
use narth_network.Wire.{Bytes, u16_from_be, put_u16, put_u32, index, slice, ipv4_of_slice}
use narth_network.Ethernet.Mac.{MacAddr, broadcast, mac_octets, mac_of_slice}
use narth_network.Wire.Writer.{WriteToBuffer}

pub data HardwareType : Type 0 where
  ethernet : HardwareType
  other_hardware : ℕ → HardwareType

-- `From<[u8; 2]> for HardwareType`
hardware_type_from : ℕ → ℕ → HardwareType
hardware_type_from a b =
    if a == 0x00 && b == 0x01 then ethernet else other_hardware (u16_from_be a b)

u16_of_hardware_type : HardwareType → ℕ
u16_of_hardware_type ethernet = 0x0001
u16_of_hardware_type (other_hardware v) = v

abbrev is_ethernet : HardwareType → Bool
is_ethernet ethernet = true
is_ethernet (other_hardware _) = false

pub data ProtocolType : Type 0 where
  ipv4 : ProtocolType
  other_protocol : ℕ → ProtocolType

-- `From<[u8; 2]> for ProtocolType`
protocol_type_from : ℕ → ℕ → ProtocolType
protocol_type_from a b = if a == 0x08 && b == 0x00 then ipv4 else other_protocol (u16_from_be a b)

u16_of_protocol_type : ProtocolType → ℕ
u16_of_protocol_type ipv4 = 0x0800
u16_of_protocol_type (other_protocol v) = v

abbrev pub is_ipv4 : ProtocolType → Bool
is_ipv4 ipv4 = true
is_ipv4 (other_protocol _) = false

pub data Operation : Type 0 where
  request reply : Operation

-- `TryFrom<[u8; 2]> for Operation`
pub operation_from : ℕ → ℕ → Io Operation
operation_from a b =
    if a == 0x00 && b == 0x01
    then ok request
    else if a == 0x00 && b == 0x02
    then ok reply
    else err invalid_data

pub u16_of_operation : Operation → ℕ
u16_of_operation request = 0x0001
u16_of_operation reply = 0x0002

pub record ArpMessage : Type 0 where
  pub operation : Operation
  pub sender_hardware_addr : MacAddr
  pub sender_protocol_addr : ℕ
  pub target_hardware_addr : MacAddr
  pub target_protocol_addr : ℕ

abbrev pub arp_length : ℕ
arp_length = 28

-- `ArpMessage::gratuitous`
unfoldable pub gratuitous : MacAddr → ℕ → ArpMessage
gratuitous mac addr = record {
  operation = request;
  sender_hardware_addr = mac;
  sender_protocol_addr = addr;
  target_hardware_addr = broadcast;
  target_protocol_addr = addr;
}

-- `ArpMessage::request`
unfoldable pub arp_request : MacAddr → ℕ → ℕ → ArpMessage
arp_request requester target sender = record {
  operation = request;
  sender_hardware_addr = requester;
  sender_protocol_addr = sender;
  target_hardware_addr = broadcast;
  target_protocol_addr = target;
}

-- `ArpMessage::reply`
unfoldable pub arp_reply : ArpMessage → MacAddr → ℕ → ArpMessage
arp_reply m mac addr = record {
  operation = reply;
  sender_hardware_addr = mac;
  sender_protocol_addr = addr;
  target_hardware_addr = m.sender_hardware_addr;
  target_protocol_addr = m.sender_protocol_addr;
}

-- `ArpMessage::create_ethernet`
unfoldable create_ethernet : ArpMessage → Ethernet.EthernetHeader
create_ethernet m = Ethernet.ethernet_new Ethernet.arp m.sender_hardware_addr m.target_hardware_addr

-- A slice into `[u8; 2]`.
pub pair_of_slice : Bytes → Io (ℕ × ℕ)
pair_of_slice (a ∷ b ∷ []) = ok (a, b)
pair_of_slice _ = err unexpected_eof

-- The four checks on the fixed fields, in the source's order.
pub check_fixed : ℕ × ℕ → ℕ × ℕ → ℕ → ℕ → Io (Unit {0})
unfolding hardware_type_from protocol_type_from
check_fixed hw proto hardware_len protocol_len =
    if not (is_ethernet (hardware_type_from hw.0 hw.1))
    then err invalid_data
    else if not (is_ipv4 (protocol_type_from proto.0 proto.1))
    then err invalid_data
    else if not (hardware_len == 6)
    then err invalid_data
    else if not (protocol_len == 4)
    then err invalid_data
    else ok tt

-- The fields of `from_bytes` behind the fixed part.
pub arp_fields : Bytes → Io ArpMessage
arp_fields bytes = do
  op_slice ← slice 6 8 bytes
  op_raw ← pair_of_slice op_slice
  op ← operation_from op_raw.0 op_raw.1
  sender_slice ← slice 14 18 bytes
  sender ← ipv4_of_slice sender_slice
  target_slice ← slice 24 28 bytes
  target ← ipv4_of_slice target_slice
  sender_mac_slice ← slice 8 14 bytes
  sender_mac ← mac_of_slice sender_mac_slice
  target_mac_slice ← slice 18 24 bytes
  target_mac ← mac_of_slice target_mac_slice
  ok (record {
    operation = op;
    sender_hardware_addr = sender_mac;
    sender_protocol_addr = sender;
    target_hardware_addr = target_mac;
    target_protocol_addr = target;
  })

-- The slices and bytes of the fixed part, and the checks on them.
pub arp_fixed : Bytes → Io (Unit {0})
arp_fixed bytes = do
  hw_slice ← slice 0 2 bytes
  hw ← pair_of_slice hw_slice
  proto_slice ← slice 2 4 bytes
  proto ← pair_of_slice proto_slice
  hardware_len ← index bytes 4
  protocol_len ← index bytes 5
  check_fixed hw proto hardware_len protocol_len

pub arp_from_bytes : Bytes → Io ArpMessage
unfolding arp_fixed arp_fields
arp_from_bytes bytes =
    if ltb (length bytes) arp_length
    then err unexpected_eof
    else arp_fixed bytes >>= λ _. arp_fields bytes

unfoldable pub arp_write : ArpMessage → Bytes
unfolding u16_of_hardware_type u16_of_protocol_type u16_of_operation
arp_write m =
    put_u16 (u16_of_hardware_type ethernet)
    ++ (put_u16 (u16_of_protocol_type ipv4)
        ++ (0x06 ∷ 0x04 ∷ put_u16 (u16_of_operation m.operation)
            ++ (mac_octets m.sender_hardware_addr
                ++ (put_u32 m.sender_protocol_addr
                    ++ (mac_octets m.target_hardware_addr ++ put_u32 m.target_protocol_addr)))))

-- `impl WriteToBuffer for ArpMessage`
instance abbrev pub arp_writer : WriteToBuffer ArpMessage
arp_writer = record { encoded_length = λ _. arp_length; write_to_buffer = λ m. ok (arp_write m) }
