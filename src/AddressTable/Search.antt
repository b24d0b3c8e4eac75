-- ===== src/AddressTable/Search.antt =====
-- The search for an address of the interface in the subnet of another address.
use mathlib.Core.List.{Memᴰ}
use narth_network.Base.{
  ℕ, ◌≡◌, refl, ap, ◌∙◌, inl, inr, true, false, Option, none, some, List, [], ◌∷◌, ◌++◌, Bool-cases,
}
use narth_network.AddressTable.{
  InterfaceAddr, AddressTable, in_subnet, first_in_subnet, first_with_subnet_containing,
}

-- The outcome of the search, told from the list alone: an entry whose subnet has the value, behind
-- entries whose subnets do not; or none among all entries.
abbrev IsFirst : ℕ → List InterfaceAddr → Option ℕ → Type 0
IsFirst value xs none = (a : InterfaceAddr) → Memᴰ a xs → in_subnet value a ≡ false
IsFirst value xs (some address) =
    (before : List InterfaceAddr) × (a : InterfaceAddr) × (after : List InterfaceAddr) × (xs
      ≡ before ++ (a ∷ after))
    × (a.address ≡ address)
    × (in_subnet value a ≡ true)
    × ((b : InterfaceAddr) → Memᴰ b before → in_subnet value b ≡ false)

none_in :
    (value : ℕ) (x : InterfaceAddr) (xs : List InterfaceAddr)
    → in_subnet value x ≡ false
    → ((a : InterfaceAddr) → Memᴰ a xs → in_subnet value a ≡ false)
    → (a : InterfaceAddr) → Memᴰ a (x ∷ xs)
    → in_subnet value a ≡ false
none_in value x xs miss h a (Memᴰ.head e) = ap (in_subnet value) e ∙ miss
none_in value x xs miss h a (Memᴰ.tail m) = h a m

IsFirst-cons :
    (value : ℕ) (x : InterfaceAddr) (xs : List InterfaceAddr) (found : Option ℕ)
    → in_subnet value x ≡ false
    → IsFirst value xs found
    → IsFirst value (x ∷ xs) found
IsFirst-cons value x xs none miss h = none_in value x xs miss h
IsFirst-cons value x xs (some address) miss (before, a, after, e, same, hit, h) =
    (x ∷ before, a, after, ap (λ ys. x ∷ ys) e, same, hit, none_in value x before miss h)

first_in_subnet-IsFirst :
    (value : ℕ) (xs : List InterfaceAddr) → IsFirst value xs (first_in_subnet value xs)
unfolding first_in_subnet
first_in_subnet-IsFirst value [] = λ a m. elim m [ ]
first_in_subnet-IsFirst value (x ∷ xs) = elim (Bool-cases (in_subnet value x)) [
  | inl hit ↦ rw hit ([], x, xs, refl, refl, hit, λ b m. elim m [ ])
  | inr miss ↦
      rw miss
        (IsFirst-cons value x xs (first_in_subnet value xs) miss (first_in_subnet-IsFirst value xs))
]

-- The search for an interface address gives the address of the first entry whose subnet has the
-- value, and finds none only where no entry's subnet has it.
first_with_subnet_containing-IsFirst :
    (value : ℕ) (t : AddressTable) → IsFirst value t.local (first_with_subnet_containing value t)
unfolding first_with_subnet_containing
first_with_subnet_containing-IsFirst value t = first_in_subnet-IsFirst value t.local
