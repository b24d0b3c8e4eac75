-- ===== src/AddressTable.antt =====
-- lib/src/runtime/address_table.rs: the addresses of an interface, with the copy behind the
-- `RwLock` as the field `shared`.
pub mod Subnets
pub mod Updates
pub mod Search
use narth_network.Base.{
  ℕ, ◌-◌, bit_and, bit_or, Bool, false, ◌||◌, Option, none, some, List, [], ◌∷◌, ◌++◌, ◌==◌,
  if◌then◌else◌,
}

pub record InterfaceAddr : Type 0 where
  pub address : ℕ
  pub mask : ℕ
  pub broadcast : ℕ
  pub network : ℕ

-- `!mask` on 32 bits.
abbrev pub not32 : ℕ → ℕ
not32 n = 0xffff_ffff - n

unfoldable pub interface_addr_new : ℕ → ℕ → InterfaceAddr
interface_addr_new address mask =
    let network : ℕ = bit_and address mask in
    record {
      address = address;
      mask = mask;
      broadcast = bit_or network (not32 mask);
      network = network;
    }

pub record AddressTable : Type 0 where
  pub local : List InterfaceAddr
  pub shared : List (ℕ × ℕ)

-- The list that `update` publishes.
abbrev pub published : List InterfaceAddr → List (ℕ × ℕ)
published [] = []
published (a ∷ as_list) = (a.address, a.mask) ∷ published as_list

unfoldable pub update : AddressTable → AddressTable
update t = record t { shared = published t.local }

unfoldable pub insert_addr : ℕ → ℕ → AddressTable → AddressTable
unfolding interface_addr_new update
insert_addr addr mask t =
    update (record t { local = t.local ++ (interface_addr_new addr mask ∷ []) })

-- `position` and `remove`: the first entry of the address goes.
pub remove_first : ℕ → List InterfaceAddr → List InterfaceAddr
remove_first value [] = []
remove_first value (a ∷ rest) = if a.address == value then rest else a ∷ remove_first value rest

unfoldable pub remove_addr : ℕ → AddressTable → AddressTable
unfolding remove_first update
remove_addr value t = update (record t { local = remove_first value t.local })

unfoldable pub any_addr : (InterfaceAddr → Bool) → List InterfaceAddr → Bool
any_addr p [] = false
any_addr p (a ∷ rest) = p a || any_addr p rest

unfoldable pub contains : ℕ → AddressTable → Bool
unfolding any_addr
contains value t = any_addr (λ a. a.address == value) t.local

unfoldable pub contains_as_address_or_broadcast : ℕ → AddressTable → Bool
unfolding any_addr
contains_as_address_or_broadcast value t =
    any_addr (λ a. a.address == value || a.broadcast == value) t.local

-- "TODO implement me" in the source.
unfoldable pub contains_ephemeral_multicast : ℕ → AddressTable → Bool
contains_ephemeral_multicast value t = false

-- The predicate of `first_with_subnet_containing`.
pub in_subnet : ℕ → InterfaceAddr → Bool
in_subnet value a = bit_and value a.mask == a.network

pub first_in_subnet : ℕ → List InterfaceAddr → Option ℕ
first_in_subnet value [] = none
first_in_subnet value (a ∷ rest) =
    if in_subnet value a then some a.address else first_in_subnet value rest

pub first_with_subnet_containing : ℕ → AddressTable → Option ℕ
unfolding first_in_subnet in_subnet
first_with_subnet_containing value t = first_in_subnet value t.local
