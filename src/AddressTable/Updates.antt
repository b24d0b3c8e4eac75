-- ===== src/AddressTable/Updates.antt =====
-- Inserting and removing addresses.
use narth_network.Base.{
  ℕ, ◌+◌, ◌-◌, ◌≡◌, refl, List, [], ◌∷◌, ◌++◌, arith, ltb, ◌==◌, if◌then◌else◌,
}
use narth_network.AddressTable.{
  InterfaceAddr, interface_addr_new, AddressTable, published, update, insert_addr, remove_first,
  remove_addr, any_addr, contains,
}

-- How often an address is in the table.
abbrev times : ℕ → List InterfaceAddr → ℕ
times value [] = 0
times value (a ∷ rest) = (if a.address == value then 1 else 0) + times value rest

times-append :
    (value : ℕ) (xs ys : List InterfaceAddr)
    → times value (xs ++ ys) ≡ times value xs + times value ys
times-append value [] ys = omega arith
times-append value (x ∷ xs) ys = omega (arith, times-append value xs ys)

times-remove_first :
    (value other : ℕ) (xs : List InterfaceAddr)
    → times other (remove_first value xs) ≡ times other xs - (if other == value then 1 else 0)
unfolding remove_first
times-remove_first value other [] = omega arith
times-remove_first value other (x ∷ xs) = ground (arith, times-remove_first value other xs)

any_addr-times :
    (value : ℕ) (xs : List InterfaceAddr)
    → any_addr (λ a. a.address == value) xs ≡ ltb 0 (times value xs)
unfolding any_addr
any_addr-times value [] = refl
any_addr-times value (x ∷ xs) = ground (arith, any_addr-times value xs)

-- `contains` tells whether the address is in the table at least once.
contains-times : (value : ℕ) (t : AddressTable) → contains value t ≡ ltb 0 (times value t.local)
unfolding contains
contains-times value t = any_addr-times value t.local

-- An insertion adds one entry of its address and a removal takes one away where there is one,
-- neither changes how often another address is there, and both publish the new list.
insert_remove_lem :
    (addr mask value : ℕ) (t : AddressTable)
    → (times value (insert_addr addr mask t).local
        ≡ times value t.local + (if value == addr then 1 else 0))
      × (times value (remove_addr addr t).local
          ≡ times value t.local - (if value == addr then 1 else 0))
      × ((insert_addr addr mask t).shared ≡ published (insert_addr addr mask t).local)
      × ((remove_addr addr t).shared ≡ published (remove_addr addr t).local)
unfolding insert_addr remove_addr update
insert_remove_lem addr mask value t = (
  ground (arith, times-append value t.local (interface_addr_new addr mask ∷ [])),
  times-remove_first addr value t.local,
  refl,
  refl,
)
