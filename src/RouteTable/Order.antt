-- ===== src/RouteTable/Order.antt =====
-- The table stays sorted and free of duplicates, and its readers see it as it is.
use narth_network.Base.{
  ℕ, ◌<◌, ◌≡◌, refl, ◌⊎◌, inl, inr, Bool, Option, List, [], ◌∷◌, arith, Bool-cases,
}
use narth_network.RouteTable.{
  Route, RouteTable, Ordering, route_cmp, update_shared, write_at, search_and_write,
  insert_or_update, retain_not, remove_matching, empty_table, less, equal, greater,
}

-- Each route of the list stands behind `r`: a smaller mask, or the same and a larger target.
abbrev Before : Route → Route → Type 0
Before r s = (s.mask < r.mask) ⊎ ((s.mask ≡ r.mask) × (r.target < s.target))

abbrev pub AllAfter : Route → List Route → Type 0
AllAfter r [] = Unit
AllAfter r (s ∷ rs) = Before r s × AllAfter r rs

abbrev pub IsSorted : List Route → Type 0
IsSorted [] = Unit
IsSorted (r ∷ rs) = AllAfter r rs × IsSorted rs

-- Sorted, without duplicates, and shared as it is.
pub record IsValid (t : RouteTable) : Type 0 where
  pub sorted : IsSorted t.routes
  pub published : t.shared ≡ t.routes

route_cmp-less : (r s : Route) → route_cmp r s ≡ less → Before r s
unfolding route_cmp
route_cmp-less r s h = ground arith

route_cmp-equal : (r s : Route) → route_cmp r s ≡ equal → (r.mask ≡ s.mask) × (r.target ≡ s.target)
unfolding route_cmp
route_cmp-equal r s h = ground arith

route_cmp-greater : (r s : Route) → route_cmp r s ≡ greater → Before s r
unfolding route_cmp
route_cmp-greater r s h = ground arith

Before-trans : (r s u : Route) → Before r s → Before s u → Before r u
Before-trans r s u h k = ground arith

AllAfter-weaken : (r s : Route) (rs : List Route) → Before r s → AllAfter s rs → AllAfter r rs
AllAfter-weaken r s [] b h = tt
AllAfter-weaken r s (u ∷ rs) b (p, h) = (Before-trans r s u b p, AllAfter-weaken r s rs b h)

-- A route with the same key stands where the other did.
AllAfter-same :
    (r s : Route) (rs : List Route)
    → r.mask ≡ s.mask
    → r.target ≡ s.target
    → AllAfter r rs
    → AllAfter s rs
AllAfter-same r s [] p q h = tt
AllAfter-same r s (u ∷ rs) p q (b, h) = (ground arith, AllAfter-same r s rs p q h)

AllAfter-write_at :
    (o : Ordering) (r new s : Route) (rs rest : List Route)
    → Before r new
    → Before r s
    → AllAfter r rs
    → AllAfter r rest
    → AllAfter r (write_at o new s rs rest)
AllAfter-write_at less r new s rs rest b p h k = (p, k)
AllAfter-write_at equal r new s rs rest b p h k = (b, h)
AllAfter-write_at greater r new s rs rest b p h k = (b, (p, h))

AllAfter-search_and_write :
    (r new : Route) (rs : List Route)
    → Before r new
    → AllAfter r rs
    → AllAfter r (search_and_write new rs)
unfolding search_and_write
AllAfter-search_and_write r new [] b h = (b, tt)
AllAfter-search_and_write r new (s ∷ rs) b (p, h) =
    AllAfter-write_at (route_cmp s new) r new s rs (search_and_write new rs) b p h
      (AllAfter-search_and_write r new rs b h)

write_at-IsSorted :
    (o : Ordering) (new r : Route) (rs : List Route)
    → route_cmp r new ≡ o
    → AllAfter r rs
    → IsSorted rs
    → IsSorted (search_and_write new rs)
    → IsSorted (write_at o new r rs (search_and_write new rs))
write_at-IsSorted less new r rs e a h k =
    (AllAfter-search_and_write r new rs (route_cmp-less r new e) a, k)
write_at-IsSorted equal new r rs e a h k =
    let (p, q) = route_cmp-equal r new e in (AllAfter-same r new rs p q a, h)
write_at-IsSorted greater new r rs e a h k =
    let b = route_cmp-greater r new e in ((b, AllAfter-weaken new r rs b a), (a, h))

search_and_write-IsSorted :
    (new : Route) (rs : List Route) → IsSorted rs → IsSorted (search_and_write new rs)
unfolding search_and_write
search_and_write-IsSorted new [] h = (tt, tt)
search_and_write-IsSorted new (r ∷ rs) (a, h) =
    write_at-IsSorted (route_cmp r new) new r rs refl a h (search_and_write-IsSorted new rs h)

retain_not-AllAfter :
    (r : Route) (p : Route → Bool) (rs : List Route) → AllAfter r rs → AllAfter r (retain_not p rs)
retain_not-AllAfter r p [] h = tt
retain_not-AllAfter r p (s ∷ rs) (b, h) =
    let rest = retain_not-AllAfter r p rs h in
    elim (Bool-cases (p s)) [ inl e ↦ rw e rest | inr e ↦ rw e (b, rest) ]

retain_not-IsSorted :
    (p : Route → Bool) (rs : List Route) → IsSorted rs → IsSorted (retain_not p rs)
retain_not-IsSorted p [] h = tt
retain_not-IsSorted p (r ∷ rs) (a, h) =
    let rest = retain_not-IsSorted p rs h in
    let after = retain_not-AllAfter r p rs a in
    elim (Bool-cases (p r)) [ inl e ↦ rw e rest | inr e ↦ rw e (after, rest) ]

-- A new table is valid, and both updates keep a table valid: sorted by mask and target, one route
-- to a key, and the shared copy equal to the routes.
pub empty_table-IsValid : IsValid empty_table
unfolding empty_table
empty_table-IsValid = record { sorted = tt; published = refl }

-- `insert_or_update` keeps a valid table valid: sorted by falling mask and then by target, one
-- route to a mask and target, and the shared copy equal to the routes.
pub insert_or_update-IsValid :
    (target mask source : ℕ) (next_hop : Option ℕ) (t : RouteTable)
    → IsValid t
    → IsValid (insert_or_update target mask source next_hop t)
unfolding insert_or_update update_shared
insert_or_update-IsValid target mask source next_hop t v = record {
  sorted = search_and_write-IsSorted _ t.routes v.sorted;
  published = refl;
}

-- `remove_matching` keeps a valid table valid, whatever its predicate.
pub remove_matching-IsValid :
    (p : Route → Bool) (t : RouteTable) → IsValid t → IsValid (remove_matching p t)
unfolding remove_matching update_shared
remove_matching-IsValid p t v = record {
  sorted = retain_not-IsSorted p t.routes v.sorted;
  published = refl;
}
