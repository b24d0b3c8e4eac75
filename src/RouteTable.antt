-- ===== src/RouteTable.antt =====
-- lib/src/runtime/route_table.rs: the route table, at `T` = `Ipv4Addr`, which is its 32-bit number
-- with the order and the `&` of numbers. The list behind the `RwLock` is the field `shared`.
pub mod Order
pub mod Lookup
use narth_network.Base.{
  ℕ, bit_and, Bool, Option, none, some, List, [], ◌∷◌, ltb, ◌==◌, if◌then◌else◌,
}

pub record Route : Type 0 where
  pub target : ℕ
  pub mask : ℕ
  pub source : ℕ
  pub next_hop : Option ℕ

pub record RouteTable : Type 0 where
  pub routes : List Route
  pub shared : List Route

pub data Ordering : Type 0 where
  less equal greater : Ordering

-- `Ord for Ipv4Addr`
abbrev addr_cmp : ℕ → ℕ → Ordering
addr_cmp a b = if ltb a b then less else if a == b then equal else greater

abbrev then_with : Ordering → Ordering → Ordering
then_with equal o = o
then_with less o = less
then_with greater o = greater

-- `Ord for RouteInformation`: the larger mask first, then the smaller target.
unfoldable pub route_cmp : Route → Route → Ordering
route_cmp self other = then_with (addr_cmp other.mask self.mask) (addr_cmp self.target other.target)

-- `update_shared`
unfoldable pub update_shared : RouteTable → RouteTable
update_shared t = record t { shared = t.routes }

-- What is done with `new` where it is compared with `r`: go on to `rest`, replace, or insert.
abbrev pub write_at : Ordering → Route → Route → List Route → List Route → List Route
write_at less new r rs rest = r ∷ rest
write_at equal new r rs rest = new ∷ rs
write_at greater new r rs rest = new ∷ r ∷ rs

-- `binary_search`, and the write at the place that it finds: the documented result on a sorted
-- slice is the equal element, or the place in front of the first greater one. Only on a sorted list is
-- the search from the front the same.
unfoldable pub search_and_write : Route → List Route → List Route
search_and_write new [] = new ∷ []
search_and_write new (r ∷ rs) = write_at (route_cmp r new) new r rs (search_and_write new rs)

unfoldable pub insert_or_update : ℕ → ℕ → ℕ → Option ℕ → RouteTable → RouteTable
unfolding search_and_write update_shared
insert_or_update target mask source next_hop t =
    let new : Route = record {
      target = target;
      mask = mask;
      source = source;
      next_hop = next_hop;
    } in
    update_shared (record t { routes = search_and_write new t.routes })

abbrev pub retain_not : (Route → Bool) → List Route → List Route
retain_not p [] = []
retain_not p (r ∷ rs) = if p r then retain_not p rs else r ∷ retain_not p rs

pub remove_matching : (Route → Bool) → RouteTable → RouteTable
unfolding update_shared
remove_matching p t = update_shared (record t { routes = retain_not p t.routes })

-- The predicate of `lookup`.
abbrev pub route_matches : ℕ → Route → Bool
route_matches target r = bit_and target r.mask == r.target

unfoldable pub find_route : ℕ → List Route → Option Route
find_route target [] = none
find_route target (r ∷ rs) = if route_matches target r then some r else find_route target rs

unfoldable pub lookup_route : ℕ → RouteTable → Option Route
unfolding find_route
lookup_route target t = find_route target t.routes

unfoldable pub empty_table : RouteTable
empty_table = record { routes = []; shared = [] }
