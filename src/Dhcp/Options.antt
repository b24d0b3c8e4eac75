-- ===== src/Dhcp/Options.antt =====
-- lib/src/protocols/ipv4/dhcp.rs: the options of a DHCP message, and what each is parsed from.
use narth_network.Base.{
  ℕ, ◌-◌, ◌^◌, Option, none, some, List, [], ◌∷◌, ltb, ◌==◌, if◌then◌else◌, length,
}
use narth_network.Wire.{Bytes, u16_from_be, u32_from_be}
use narth_network.Ethernet.Mac.{MacAddr, mac_new}
use narth_network.Dhcp.Utf8.{is_utf8}

-- `i32`, as the library spells integers.
pub data ℤ : Type 0 where
  pos negsuc : ℕ → ℤ

pub data OptionsOverload : Type 0 where
  file server_name both : OptionsOverload

pub data DhcpMessageType : Type 0 where
  discover offer request decline ack nak release : DhcpMessageType

-- A text is its bytes, an address its number.
pub data DhcpOption : Type 0 where
  subnet_mask : ℕ → DhcpOption
  time_offset : ℤ → DhcpOption
  router_option : List ℕ → DhcpOption
  domain_name_server_option : List ℕ → DhcpOption
  host_name_option : Bytes → DhcpOption
  domain_name : Bytes → DhcpOption
  path_mtu_aging_timeout_option : ℕ → DhcpOption
  path_mtu_plateau_option : List ℕ → DhcpOption
  broadcast_address_option : ℕ → DhcpOption
  static_route_option : List (ℕ × ℕ) → DhcpOption
  network_time_protocol_servers_option : List ℕ → DhcpOption
  requested_ip_address : ℕ → DhcpOption
  ip_address_lease_time : ℕ → DhcpOption
  options_overload_option : OptionsOverload → DhcpOption
  dhcp_message_type : DhcpMessageType → DhcpOption
  server_identifier : ℕ → DhcpOption
  parameter_request_list : Bytes → DhcpOption
  message : Bytes → DhcpOption
  maximum_dhcp_message_size : ℕ → DhcpOption
  renewal_time_value : ℕ → DhcpOption
  rebinding_time_value : ℕ → DhcpOption
  class_identifier : Bytes → DhcpOption
  client_identifier : MacAddr → DhcpOption

parse_u16 : Bytes → Option ℕ
parse_u16 (a ∷ b ∷ []) = some (u16_from_be a b)
parse_u16 _ = none

parse_u32 : Bytes → Option ℕ
parse_u32 (a ∷ b ∷ c ∷ d ∷ []) = some (u32_from_be a b c d)
parse_u32 _ = none

-- Two's complement of 32 bits.
abbrev i32_of_u32 : ℕ → ℤ
i32_of_u32 n = if ltb n (2 ^ 31) then pos n else negsuc (2 ^ 32 - 1 - n)

parse_i32 : Bytes → Option ℤ
parse_i32 (a ∷ b ∷ c ∷ d ∷ []) = some (i32_of_u32 (u32_from_be a b c d))
parse_i32 _ = none

-- `chunks_exact` of 2, 4 and 8 bytes: what is left at the end is dropped.
u16_chunks : Bytes → List ℕ
u16_chunks (a ∷ b ∷ rest) = u16_from_be a b ∷ u16_chunks rest
u16_chunks _ = []

ipv4_chunks : Bytes → List ℕ
ipv4_chunks (a ∷ b ∷ c ∷ d ∷ rest) = u32_from_be a b c d ∷ ipv4_chunks rest
ipv4_chunks _ = []

ipv4_pair_chunks : Bytes → List (ℕ × ℕ)
ipv4_pair_chunks (a ∷ b ∷ c ∷ d ∷ e ∷ f ∷ g ∷ h ∷ rest) =
    (u32_from_be a b c d, u32_from_be e f g h) ∷ ipv4_pair_chunks rest
ipv4_pair_chunks _ = []

parse_vec_u16 : Bytes → Option (List ℕ)
unfolding u16_chunks
parse_vec_u16 bytes = if ltb (length bytes) 2 then none else some (u16_chunks bytes)

parse_string : Bytes → Option Bytes
parse_string bytes = if is_utf8 bytes then some bytes else none

parse_ipv4_address : Bytes → Option ℕ
parse_ipv4_address (a ∷ b ∷ c ∷ d ∷ []) = some (u32_from_be a b c d)
parse_ipv4_address _ = none

parse_vec_ipv4_address : Bytes → Option (List ℕ)
unfolding ipv4_chunks
parse_vec_ipv4_address bytes = if ltb (length bytes) 4 then none else some (ipv4_chunks bytes)

parse_vec_ipv4_address_tuple : Bytes → Option (List (ℕ × ℕ))
unfolding ipv4_pair_chunks
parse_vec_ipv4_address_tuple bytes =
    if ltb (length bytes) 8 then none else some (ipv4_pair_chunks bytes)

parse_options_overload : Bytes → Option OptionsOverload
parse_options_overload (b ∷ []) =
    if b == 1
    then some file
    else if b == 2
    then some server_name
    else if b == 3
    then some both
    else none
parse_options_overload _ = none

parse_dhcp_message_type : Bytes → Option DhcpMessageType
parse_dhcp_message_type (b ∷ []) =
    if b == 1
    then some discover
    else if b == 2
    then some offer
    else if b == 3
    then some request
    else if b == 4
    then some decline
    else if b == 5
    then some ack
    else if b == 6
    then some nak
    else if b == 7
    then some release
    else none
parse_dhcp_message_type _ = none

-- Hardware type 1 and six bytes; anything else is dropped.
parse_mac : Bytes → Option MacAddr
parse_mac (t ∷ a ∷ b ∷ c ∷ d ∷ e ∷ f ∷ []) = if t == 1 then some (mac_new a b c d e f) else none
parse_mac _ = none

abbrev map_option : {A B : Type 0} → (A → B) → Option A → Option B
map_option f none = none
map_option f (some a) = some (f a)

-- `DHCPOption::parse`
unfoldable pub parse_option : ℕ → Bytes → Option DhcpOption
unfolding parse_u16 parse_u32 parse_i32 parse_vec_u16 parse_string parse_ipv4_address
    parse_vec_ipv4_address parse_vec_ipv4_address_tuple parse_options_overload
    parse_dhcp_message_type parse_mac
parse_option code bytes =
    if code == 1
    then map_option subnet_mask (parse_ipv4_address bytes)
    else if code == 2
    then map_option time_offset (parse_i32 bytes)
    else if code == 3
    then map_option router_option (parse_vec_ipv4_address bytes)
    else if code == 6
    then map_option domain_name_server_option (parse_vec_ipv4_address bytes)
    else if code == 12
    then map_option host_name_option (parse_string bytes)
    else if code == 15
    then map_option domain_name (parse_string bytes)
    else if code == 24
    then map_option path_mtu_aging_timeout_option (parse_u32 bytes)
    else if code == 25
    then map_option path_mtu_plateau_option (parse_vec_u16 bytes)
    else if code == 28
    then map_option broadcast_address_option (parse_ipv4_address bytes)
    else if code == 33
    then map_option static_route_option (parse_vec_ipv4_address_tuple bytes)
    else if code == 42
    then map_option network_time_protocol_servers_option (parse_vec_ipv4_address bytes)
    else if code == 50
    then map_option requested_ip_address (parse_ipv4_address bytes)
    else if code == 51
    then map_option ip_address_lease_time (parse_u32 bytes)
    else if code == 52
    then map_option options_overload_option (parse_options_overload bytes)
    else if code == 53
    then map_option dhcp_message_type (parse_dhcp_message_type bytes)
    else if code == 54
    then map_option server_identifier (parse_ipv4_address bytes)
    else if code == 55
    then some (parameter_request_list bytes)
    else if code == 56
    then map_option message (parse_string bytes)
    else if code == 57
    then map_option maximum_dhcp_message_size (parse_u16 bytes)
    else if code == 58
    then map_option renewal_time_value (parse_u32 bytes)
    else if code == 59
    then map_option rebinding_time_value (parse_u32 bytes)
    else if code == 60
    then map_option class_identifier (parse_string bytes)
    else if code == 61
    then map_option client_identifier (parse_mac bytes)
    else none
