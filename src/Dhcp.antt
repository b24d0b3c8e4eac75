-- ===== src/Dhcp.antt =====
-- lib/src/protocols/ipv4/dhcp.rs: the option loop and the header of a DHCP message.
pub mod Utf8
pub mod Options
pub mod Encoded
pub mod Total
use narth_network.Base.{
  ℕ, zero, suc, ◌+◌, Bool, true, false, not, ◌&&◌, Option, none, some, List, [], ◌∷◌, ◌++◌, ltb,
  leb, ◌==◌, if◌then◌else◌, length, take, drop, Io, unexpected_eof, invalid_data, ok, err, panicked,
  ◌>>=◌,
}
use narth_network.Wire.{Bytes, u16_from_be, u32_from_be, index, slice_from, slice}
use narth_network.Dhcp.Options.{
  OptionsOverload, DhcpOption, parse_option, file, server_name, both, options_overload_option,
}
use narth_network.Dhcp.Utf8.{is_utf8}
use narth_network.Arp.{HardwareType, ethernet}

pub data DhcpOperation : Type 0 where
  boot_request boot_reply : DhcpOperation

-- `Flags`: only the broadcast flag.
pub dhcp_flags_from : ℕ → ℕ → Io Bool
dhcp_flags_from a b =
    if a == 0b0000_0000 && b == 0b0000_0000
    then ok false
    else if a == 0b1000_0000 && b == 0b0000_0000
    then ok true
    else err invalid_data

abbrev pub pushed : Option DhcpOption → List DhcpOption → List DhcpOption
pushed none options = options
pushed (some option) options = option ∷ options

-- What one round of the loop finds: an end or a break, a byte of padding, or a code with its
-- data; and what is left.
pub data Found : Type 0 where
  nothing : Found
  padding : Bytes → Found
  tagged : ℕ → Bytes → Bytes → Found

pub found_data : ℕ → Bytes → Found
found_data code [] = nothing
found_data code (len ∷ body) =
    if leb (length body) len then nothing else tagged code (take len body) (drop len body)

pub read_option : Bytes → Found
unfolding found_data
read_option [] = nothing
read_option (code ∷ rest) =
    if code == 255 then nothing else if code == 0 then padding rest else found_data code rest

abbrev pub behind : Option DhcpOption → Option (List DhcpOption) → Option (List DhcpOption)
behind option none = none
behind option (some options) = some (pushed option options)

abbrev pub with_found : (Bytes → Option (List DhcpOption)) → Found → Option (List DhcpOption)
with_found rest_of nothing = some []
with_found rest_of (padding rest) = rest_of rest
with_found rest_of (tagged code bytes rest) = behind (parse_option code bytes) (rest_of rest)

-- `From<&[u8]> for DHCPOptions`, on the bytes from `position` on. `none` means that the fuel ran
-- out.
pub options_loop : ℕ → Bytes → Option (List DhcpOption)
unfolding read_option
options_loop zero value = none
options_loop (suc fuel) value = with_found (options_loop fuel) (read_option value)

-- `options_overload`
unfoldable pub options_overload : List DhcpOption → Option OptionsOverload
options_overload [] = none
options_overload (options_overload_option o ∷ options) = some o
options_overload (_ ∷ options) = options_overload options

-- `str_from_null_terminated_utf8`: the bytes in front of the first 0.
pub before_null : Bytes → Option Bytes
before_null [] = none
before_null (b ∷ bs) = elim (b == 0) [
  | true ↦ some []
  | false ↦ elim (before_null bs) [ none ↦ none | some front ↦ some (b ∷ front) ]
]

pub text_of : Option Bytes → Io (Option Bytes)
text_of none = err invalid_data
text_of (some []) = ok none
text_of (some (b ∷ bs)) = if is_utf8 (b ∷ bs) then ok (some (b ∷ bs)) else err invalid_data

pub str_from_null_terminated_utf8 : Bytes → Io (Option Bytes)
unfolding before_null text_of
str_from_null_terminated_utf8 s = text_of (before_null s)

pub record Dhcp : Type 0 where
  pub operation : DhcpOperation
  pub hardware_type : HardwareType
  pub hops : ℕ
  pub transaction_id : ℕ
  pub secs : ℕ
  pub broadcast_flag : Bool
  pub client_ip_addr : Option ℕ
  pub your_ip_addr : Option ℕ
  pub next_server_ip_addr : Option ℕ
  pub relay_agent_ip_addr : Option ℕ
  pub client_hardware_addr : Bytes
  pub server_hostname : Option Bytes
  pub boot_file_name : Option Bytes
  pub options : List DhcpOption

-- Four bytes one by one, as a number; an address of zeros is none.
pub u32_at : ℕ → Bytes → Io ℕ
u32_at i value = do
  a ← index value i
  b ← index value (i + 1)
  c ← index value (i + 2)
  d ← index value (i + 3)
  ok (u32_from_be a b c d)

abbrev nonzero : ℕ → Option ℕ
nonzero n = if n == 0 then none else some n

pub dhcp_operation_from : ℕ → Io DhcpOperation
dhcp_operation_from n =
    if n == 1 then ok boot_request else if n == 2 then ok boot_reply else err invalid_data

-- `value.into()`, with fuel for every byte. Running out of fuel would be a panic.
abbrev pub or_panic : {A : Type 0} → Option A → Io A
or_panic none = panicked
or_panic (some a) = ok a

pub options_of : Bytes → Io (List DhcpOption)
options_of value = or_panic (options_loop (length value + 1) value)

-- Whether an overloaded field holds options.
abbrev pub holds_file : Option OptionsOverload → Bool
holds_file none = false
holds_file (some file) = true
holds_file (some server_name) = false
holds_file (some both) = true

abbrev pub holds_server_name : Option OptionsOverload → Bool
holds_server_name none = false
holds_server_name (some file) = false
holds_server_name (some server_name) = true
holds_server_name (some both) = true

-- A field that is text or holds options, as the overload says: the text, and the options so far
-- with those that it holds.
pub overloaded : Bool → Bytes → List DhcpOption → Io (Option Bytes × List DhcpOption)
overloaded holds field options =
    if holds
    then (do more ← options_of field; ok (none, options ++ more))
    else (do text ← str_from_null_terminated_utf8 field; ok (text, options))

-- The options, the host name and the file name at the end of `try_from`.
pub dhcp_options : Bytes → Io (Option Bytes × Option Bytes × List DhcpOption)
unfolding overloaded
dhcp_options value = do
  option_bytes ← slice_from 240 value
  options ← options_of option_bytes
  let overload = options_overload options
  name_field ← slice 44 108 value
  named ← overloaded (holds_server_name overload) name_field options
  file_field ← slice 108 236 value
  filed ← overloaded (holds_file overload) file_field named.1
  ok (named.0, filed.0, filed.1)

-- The fields behind the checks of `try_from`.
pub dhcp_fields : DhcpOperation → Bytes → Io Dhcp
unfolding dhcp_options
dhcp_fields operation value = do
  hops ← index value 3
  transaction_id ← u32_at 4 value
  s0 ← index value 8
  s1 ← index value 9
  f0 ← index value 10
  f1 ← index value 11
  flags ← dhcp_flags_from f0 f1
  client ← u32_at 12 value
  your ← u32_at 16 value
  next_server ← u32_at 20 value
  relay ← u32_at 24 value
  hardware ← slice 28 44 value
  texts ← dhcp_options value
  ok (record {
    operation = operation;
    hardware_type = ethernet;
    hops = hops;
    transaction_id = transaction_id;
    secs = u16_from_be s0 s1;
    broadcast_flag = flags;
    client_ip_addr = nonzero client;
    your_ip_addr = nonzero your;
    next_server_ip_addr = nonzero next_server;
    relay_agent_ip_addr = nonzero relay;
    client_hardware_addr = hardware;
    server_hostname = texts.0;
    boot_file_name = texts.1;
    options = texts.2;
  })

abbrev pub is_cookie : Bytes → Bool
is_cookie (a ∷ b ∷ c ∷ d ∷ []) = a == 0x63 && (b == 0x82 && (c == 0x53 && d == 0x63))
is_cookie _ = false

-- The operation and the hardware type, and the fields behind them.
pub dhcp_body : Bytes → Io Dhcp
unfolding dhcp_fields
dhcp_body value = do
  op ← index value 0
  operation ← dhcp_operation_from op
  htype ← index value 1
  if not (htype == 1) then err invalid_data else dhcp_fields operation value

-- `TryFrom<&[u8]> for DHCP`
pub dhcp_from_bytes : Bytes → Io Dhcp
unfolding dhcp_body
dhcp_from_bytes value = if ltb (length value) 240 then err unexpected_eof else (do
  cookie ← slice 236 240 value
  if not (is_cookie cookie) then err invalid_data else dhcp_body value)
