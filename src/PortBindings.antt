-- ===== src/PortBindings.antt =====
-- lib/src/runtime/interface/l4_managers/udp/port_binding.rs: which socket holds which address and
-- port. An address of either kind is a number: 32 bits for IPv4, 128 for IPv6.
pub mod Ports
pub mod Compatible
pub mod Delivery
use narth_network.Base.{
  ℕ, Bool, true, false, not, ◌&&◌, ◌||◌, Option, none, some, List, [], ◌∷◌, ◌++◌, ◌==◌,
  if◌then◌else◌,
}

pub data IpAddr : Type 0 where
  v4 : ℕ → IpAddr
  v6 : ℕ → IpAddr

-- `SocketAddr`; the last two fields are 0 for IPv4.
pub record SocketAddr : Type 0 where
  pub ip : IpAddr
  pub port : ℕ
  pub flowinfo : ℕ
  pub scope_id : ℕ

-- `UdpSocketHandle`: `endpoint` stands for the ring buffers, the shared state and the wake handles.
pub record UdpSocketHandle : Type 0 where
  pub endpoint : ℕ
  pub local_addr : SocketAddr
  pub peer_addr : Option SocketAddr
  pub allow_reuse : Bool

pub data AddressBindingTarget : Type 0 where
  any_ip : AddressBindingTarget
  any_ipv4 : AddressBindingTarget
  any_ipv6 : AddressBindingTarget
  specific : IpAddr → AddressBindingTarget

pub record AddressBinding : Type 0 where
  pub target : AddressBindingTarget
  pub original : SocketAddr
  pub handle : UdpSocketHandle

abbrev ip_is_ipv4 : IpAddr → Bool
ip_is_ipv4 (v4 a) = true
ip_is_ipv4 (v6 a) = false

abbrev ip_is_ipv6 : IpAddr → Bool
ip_is_ipv6 (v4 a) = false
ip_is_ipv6 (v6 a) = true

abbrev is_unspecified : IpAddr → Bool
is_unspecified (v4 a) = a == 0
is_unspecified (v6 a) = a == 0

abbrev pub ip_eq : IpAddr → IpAddr → Bool
ip_eq (v4 a) (v4 b) = a == b
ip_eq (v4 a) (v6 b) = false
ip_eq (v6 a) (v4 b) = false
ip_eq (v6 a) (v6 b) = a == b

abbrev pub addr_eq : SocketAddr → SocketAddr → Bool
addr_eq a b =
    (ip_eq a.ip b.ip && (a.port == b.port))
    && ((a.flowinfo == b.flowinfo) && (a.scope_id == b.scope_id))

-- `AddressBinding::is_any`
abbrev is_any : AddressBindingTarget → Bool
is_any any_ip = true
is_any any_ipv4 = true
is_any any_ipv6 = true
is_any (specific ip) = false

-- `is_ipv4` and its like, on the binding's target.
abbrev pub is_ipv4 : AddressBindingTarget → Bool
is_ipv4 any_ip = true
is_ipv4 any_ipv4 = true
is_ipv4 any_ipv6 = false
is_ipv4 (specific ip) = ip_is_ipv4 ip

abbrev is_only_ipv4 : AddressBindingTarget → Bool
is_only_ipv4 any_ip = false
is_only_ipv4 any_ipv4 = true
is_only_ipv4 any_ipv6 = false
is_only_ipv4 (specific ip) = ip_is_ipv4 ip

abbrev is_ipv6 : AddressBindingTarget → Bool
is_ipv6 any_ip = true
is_ipv6 any_ipv4 = false
is_ipv6 any_ipv6 = true
is_ipv6 (specific ip) = ip_is_ipv6 ip

abbrev is_only_ipv6 : AddressBindingTarget → Bool
is_only_ipv6 any_ip = false
is_only_ipv6 any_ipv4 = false
is_only_ipv6 any_ipv6 = true
is_only_ipv6 (specific ip) = ip_is_ipv6 ip

abbrev pub matches : AddressBindingTarget → IpAddr → Bool
matches any_ip ip = true
matches any_ipv4 ip = ip_is_ipv4 ip
matches any_ipv6 ip = not (ip_is_ipv4 ip)
matches (specific l) ip = ip_eq ip l

abbrev pub allows_reuse : AddressBinding → Bool
allows_reuse b = b.handle.allow_reuse

-- `Iterator::any`, `all`, `filter`, `find`
abbrev pub any : (AddressBinding → Bool) → List AddressBinding → Bool
any p [] = false
any p (b ∷ bs) = p b || any p bs

abbrev all : (AddressBinding → Bool) → List AddressBinding → Bool
all p [] = true
all p (b ∷ bs) = p b && all p bs

abbrev filter : (AddressBinding → Bool) → List AddressBinding → List AddressBinding
filter p [] = []
filter p (b ∷ bs) = let rest = filter p bs in if p b then b ∷ rest else rest

abbrev pub find : (AddressBinding → Bool) → List AddressBinding → Option AddressBinding
find p [] = none
find p (b ∷ bs) = let rest = find p bs in if p b then some b else rest

abbrev is_empty : List AddressBinding → Bool
is_empty [] = true
is_empty (b ∷ bs) = false

-- The loop over the bindings, with its early return.
abbrev none_matches : IpAddr → List AddressBinding → Bool
none_matches ip [] = true
none_matches ip (b ∷ bs) =
    let rest = none_matches ip bs in if matches b.target ip then false else rest

is_bindable_exclusive : List AddressBinding → SocketAddr → Bool → Bool
is_bindable_exclusive bs request unspecified_binds_dual_stack =
    if is_unspecified request.ip
    then (if unspecified_binds_dual_stack
        then is_empty bs
        else (if ip_is_ipv4 request.ip
            then not (any (λ a. is_ipv4 a.target) bs)
            else not (any (λ a. is_ipv6 a.target) bs)))
    else none_matches request.ip bs

unfoldable pub is_bindable_allow_reuse : List AddressBinding → SocketAddr → Bool → Bool
is_bindable_allow_reuse bs request unspecified_binds_dual_stack =
    if is_unspecified request.ip
    then (if unspecified_binds_dual_stack
        then all allows_reuse bs
        else (if ip_is_ipv4 request.ip
            then all allows_reuse (filter (λ a. is_ipv4 a.target) bs)
            else all allows_reuse (filter (λ a. is_ipv6 a.target) bs)))
    else not (any (λ a. not (allows_reuse a)) (filter (λ a. matches a.target request.ip) bs))

unfoldable pub is_bindable : List AddressBinding → SocketAddr → Bool → Bool → Bool
unfolding is_bindable_exclusive is_bindable_allow_reuse
is_bindable bs request allow_reuse unspecified_binds_dual_stack =
    if allow_reuse
    then is_bindable_allow_reuse bs request unspecified_binds_dual_stack
    else is_bindable_exclusive bs request unspecified_binds_dual_stack

unfoldable pub get_mut : List AddressBinding → IpAddr → Option UdpSocketHandle
get_mut bs request = elim (find (λ b. matches b.target request) bs) [
  | none ↦ none
  | some b ↦ some b.handle
]

-- The target that `AddressBindings::insert` chooses, and the binding it makes.
abbrev pub target_of : IpAddr → Bool → AddressBindingTarget
target_of ip unspecified_binds_dual_stack =
    if is_unspecified ip
    then (if unspecified_binds_dual_stack
        then any_ip
        else (if ip_is_ipv4 ip then any_ipv4 else any_ipv6))
    else specific ip

unfoldable pub binding_of : SocketAddr → UdpSocketHandle → Bool → AddressBinding
binding_of addr handle unspecified_binds_dual_stack = record {
  target = target_of addr.ip unspecified_binds_dual_stack;
  original = addr;
  handle = handle;
}

-- `AddressBindings::insert`
unfoldable pub push_binding :
    List AddressBinding → SocketAddr → UdpSocketHandle → Bool → List AddressBinding
push_binding bs addr handle unspecified_binds_dual_stack =
    bs ++ (binding_of addr handle unspecified_binds_dual_stack ∷ [])

-- `AddressBindings::remove`: the first binding that was made for the address.
pub remove_binding : List AddressBinding → SocketAddr → List AddressBinding
remove_binding [] addr = []
remove_binding (b ∷ bs) addr =
    let rest = remove_binding bs addr in if addr_eq b.original addr then bs else b ∷ rest

-- `PortBindings`: what stands at each port.
abbrev pub PortBindings : Type 0
PortBindings = ℕ → Option (List AddressBinding)

abbrev pub no_bindings : PortBindings
no_bindings p = none

abbrev pub write_port : PortBindings → ℕ → List AddressBinding → PortBindings
write_port ports p bs q = if p == q then some bs else ports q

unfoldable pub port_is_bindable : PortBindings → SocketAddr → Bool → Bool → Bool
port_is_bindable ports addr allow_reuse unspecified_binds_dual_stack = elim (ports addr.port) [
  | none ↦ true
  | some bs ↦ is_bindable bs addr allow_reuse unspecified_binds_dual_stack
]

unfoldable pub port_insert : PortBindings → SocketAddr → UdpSocketHandle → Bool → PortBindings
port_insert ports addr handle unspecified_binds_dual_stack = elim (ports addr.port) [
  | none ↦ write_port ports addr.port (push_binding [] addr handle unspecified_binds_dual_stack)
  | some bs ↦ write_port ports addr.port (push_binding bs addr handle unspecified_binds_dual_stack)
]

unfoldable pub port_get_mut : PortBindings → SocketAddr → Option UdpSocketHandle
port_get_mut ports input = elim (ports input.port) [ none ↦ none | some bs ↦ get_mut bs input.ip ]

unfoldable pub port_remove : PortBindings → SocketAddr → PortBindings
port_remove ports original = elim (ports original.port) [
  | none ↦ ports
  | some bs ↦ write_port ports original.port (remove_binding bs original)
]
