-- ===== src/RouteTable/Lookup.antt =====
-- `lookup` finds a longest matching prefix, and `insert_or_update` writes one key.
use mathlib.Core.List.{Memᴰ}
use narth_network.Base.{
  ℕ, ◌≤◌, ◌≡◌, refl, ap, ◌∙◌, inl, inr, Bool, true, false, ◌&&◌, Option, none, some, List, [], ◌∷◌,
  arith, ◌==◌, if◌then◌else◌, Bool-cases,
}
use narth_network.RouteTable.{
  Route, RouteTable, Ordering, route_cmp, update_shared, write_at, search_and_write,
  insert_or_update, route_matches, find_route, lookup_route, less, equal, greater,
}
use narth_network.RouteTable.Order.{AllAfter, IsSorted, IsValid}

-- The outcome of a lookup, told from the routes alone.
abbrev pub IsLongest : ℕ → List Route → Option Route → Type 0
IsLongest target rs none = (r : Route) → Memᴰ r rs → route_matches target r ≡ false
IsLongest target rs (some r) =
    Memᴰ r rs
    × (route_matches target r ≡ true)
    × ((s : Route) → Memᴰ s rs → route_matches target s ≡ true → s.mask ≤ r.mask)

AllAfter-mask : (r s : Route) (rs : List Route) → AllAfter r rs → Memᴰ s rs → s.mask ≤ r.mask
AllAfter-mask r s [] h m = elim m [ ]
AllAfter-mask r s (u ∷ rs) (b, h) (Memᴰ.head e) = ground (arith, ap (λ (x : Route). x.mask) e)
AllAfter-mask r s (u ∷ rs) (b, h) (Memᴰ.tail m) = AllAfter-mask r s rs h m

none-cons :
    (target : ℕ) (r s : Route) (rs : List Route)
    → route_matches target r ≡ false
    → ((u : Route) → Memᴰ u rs → route_matches target u ≡ false)
    → Memᴰ s (r ∷ rs)
    → route_matches target s ≡ false
none-cons target r s rs no_match h (Memᴰ.head e) = ap (route_matches target) e ∙ no_match
none-cons target r s rs no_match h (Memᴰ.tail m) = h s m

some-cons :
    (target : ℕ) (r f s : Route) (rs : List Route)
    → route_matches target r ≡ false
    → ((u : Route) → Memᴰ u rs → route_matches target u ≡ true → u.mask ≤ f.mask)
    → Memᴰ s (r ∷ rs)
    → route_matches target s ≡ true
    → s.mask ≤ f.mask
some-cons target r f s rs no_match best (Memᴰ.head e) hit =
    let same = ap (route_matches target) e in cc
some-cons target r f s rs no_match best (Memᴰ.tail m) hit = best s m hit

head-largest : (r s : Route) (rs : List Route) → AllAfter r rs → Memᴰ s (r ∷ rs) → s.mask ≤ r.mask
head-largest r s rs a (Memᴰ.head e) = ground (arith, ap (λ (x : Route). x.mask) e)
head-largest r s rs a (Memᴰ.tail m) = AllAfter-mask r s rs a m

IsLongest-cons :
    (target : ℕ) (r : Route) (rs : List Route) (found : Option Route)
    → route_matches target r ≡ false
    → IsLongest target rs found
    → IsLongest target (r ∷ rs) found
IsLongest-cons target r rs none no_match h = λ s m. none-cons target r s rs no_match h m
IsLongest-cons target r rs (some f) no_match (m, hit, best) =
    (Memᴰ.tail m, hit, λ s k e. some-cons target r f s rs no_match best k e)

find_route-IsLongest :
    (target : ℕ) (rs : List Route) → IsSorted rs → IsLongest target rs (find_route target rs)
unfolding find_route
find_route-IsLongest target [] h = λ r m. elim m [ ]
find_route-IsLongest target (r ∷ rs) (a, h) = elim (Bool-cases (route_matches target r)) [
  | inl hit ↦ rw hit (Memᴰ.head refl, hit, λ s m e. head-largest r s rs a m)
  | inr no_match ↦ rw no_match (
      IsLongest-cons target r rs (find_route target rs) no_match (find_route-IsLongest target rs h))
]

-- In a valid table the route that `lookup` finds is in the table and matches the target, and no
-- matching route of the table has a larger mask; where none is found, no route of the table
-- matches.
pub lookup_route-IsLongest :
    (target : ℕ) (t : RouteTable) → IsValid t → IsLongest target t.routes (lookup_route target t)
unfolding lookup_route
lookup_route-IsLongest target t v = find_route-IsLongest target t.routes v.sorted

-- The route of a key, which is a mask and a target.
abbrev same_key : ℕ → ℕ → Route → Bool
same_key mask target r = r.mask == mask && r.target == target

abbrev pub route_at : ℕ → ℕ → List Route → Option Route
route_at mask target [] = none
route_at mask target (r ∷ rs) = if same_key mask target r then some r else route_at mask target rs

route_at-write_at :
    (o : Ordering) (mask target : ℕ) (new r : Route) (rs rest : List Route)
    → route_cmp r new ≡ o
    → route_at mask target rest
      ≡ (if same_key mask target new then some new else route_at mask target rs)
    → route_at mask target (write_at o new r rs rest)
      ≡ (if same_key mask target new then some new else route_at mask target (r ∷ rs))
unfolding route_cmp
route_at-write_at less mask target new r rs rest e ih = ground arith
route_at-write_at equal mask target new r rs rest e ih = ground arith
route_at-write_at greater mask target new r rs rest e ih = ground arith

route_at-search_and_write :
    (mask target : ℕ) (new : Route) (rs : List Route)
    → route_at mask target (search_and_write new rs)
      ≡ (if same_key mask target new then some new else route_at mask target rs)
unfolding search_and_write
route_at-search_and_write mask target new [] = refl
route_at-search_and_write mask target new (r ∷ rs) =
    route_at-write_at (route_cmp r new) mask target new r rs _ refl
      (route_at-search_and_write mask target new rs)

-- After `insert_or_update` its mask and target have the new route, and any other mask and target
-- have the route that they had.
pub route_at-insert_or_update :
    (k_mask k_target target mask source : ℕ) (next_hop : Option ℕ) (t : RouteTable)
    → route_at k_mask k_target (insert_or_update target mask source next_hop t).routes ≡ (
        if mask == k_mask && target == k_target
        then some (record { target = target; mask = mask; source = source; next_hop = next_hop })
        else route_at k_mask k_target t.routes)
unfolding insert_or_update update_shared
route_at-insert_or_update k_mask k_target target mask source next_hop t =
    route_at-search_and_write k_mask k_target _ t.routes
