-- ===== src/Tests/Tables.antt =====
-- The ARP, route and address tables at concrete inputs.
use narth_network.Base.{
  ℕ, ◌+◌, ◌-◌, ◌*◌, ◌/◌, ◌^◌, ◌≡◌, refl, inl, true, false, ◌&&◌, none, some, List, [], ◌∷◌, arith,
  ltb, ◌==◌, if◌then◌else◌,
}
use narth_network.Base.Dict.{lookup}
use narth_network.Ethernet.Mac.{MacAddr, mac_new}
use narth_network.ArpTable.{
  ArpTable, nanos_per_sec, arp_request_timeout, update_or_insert, request_occupied, request,
  can_send_request, timeout, known, timed_out,
}
use narth_network.ArpTable.Aging.{aged, request-update_or_insert}
use narth_network.ArpTable.Retries.{
  attempt, attempts, AreLate, total, attempts-timeout, can_send_request-stale,
}
use narth_network.RouteTable.{Route, RouteTable, insert_or_update, lookup_route}
use narth_network.RouteTable.Order.{IsValid, insert_or_update-IsValid}
use narth_network.RouteTable.Lookup.{
  IsLongest, lookup_route-IsLongest, route_at, route_at-insert_or_update,
}
use narth_network.AddressTable.{interface_addr_new, AddressTable}
use narth_network.AddressTable.Subnets.{interface_addr_new-range}

abbrev neighbour : MacAddr
neighbour = mac_new 2 0 0 0 0 1

-- 10.0.0.1, 10.0.0.2 and 10.0.0.9
abbrev gateway : ℕ
gateway = 0x0a000001

abbrev host : ℕ
host = 0x0a000002

abbrev stranger : ℕ
stranger = 0x0a000009

-- The gateway was seen at instant 7.
abbrev arp_cache : ArpTable
arp_cache = (gateway, known 7 neighbour) ∷ []

abbrev thirty_one : ℕ
thirty_one = 31 * nanos_per_sec + 7

-- Four late rounds.
abbrev late_gaps : List ℕ
late_gaps =
    (arp_request_timeout + 1)
    ∷ (arp_request_timeout + 2)
    ∷ (arp_request_timeout + 3)
    ∷ (arp_request_timeout + 4)
    ∷ []

late_gaps-AreLate : AreLate late_gaps
late_gaps-AreLate = (omega arith, (omega arith, (omega arith, (omega arith, tt))))

attempts-timeout_example :
    let late = late_gaps in
    let u = (attempt 5 stranger host arp_cache).0 in
    let (v, sent) = attempts late 5 stranger host u in
    let (w, answer) = request (5 + total late + (arp_request_timeout + 5)) 99 stranger host v in
    ((attempt 5 stranger host arp_cache).1 ≡ true)
    × (sent ≡ 4)
    × (answer ≡ timeout)
    × (lookup stranger w ≡ some (timed_out 99))
unfolding lookup
attempts-timeout_example =
    attempts-timeout late_gaps 5 (arp_request_timeout + 5) stranger host 99 arp_cache refl
      late_gaps-AreLate refl (omega arith)

can_send_request-stale_example :
    let (u, sent) = can_send_request 8 gateway 3 (request thirty_one 8 gateway host arp_cache).0 in
    (sent ≡ false) × ((k : ℕ) → lookup k u ≡ lookup k arp_cache)
unfolding request request_occupied lookup
can_send_request-stale_example =
    can_send_request-stale thirty_one 8 gateway host 3 neighbour arp_cache refl

request-update_or_insert_example :
    let u = (update_or_insert 7 neighbour stranger arp_cache).0 in
    ((request thirty_one 8 stranger host u).1 ≡ aged (thirty_one - 7) neighbour)
    × (lookup stranger (request thirty_one 8 stranger host u).0
        ≡ (if ltb (thirty_one - 7) (60 * nanos_per_sec) then some (known 7 neighbour) else none))
request-update_or_insert_example =
    request-update_or_insert 7 thirty_one 8 stranger host neighbour arp_cache

-- A default route and a route to 10.0.0.0/8.
abbrev default_route : Route
default_route = record { target = 0; mask = 0; source = host; next_hop = some gateway }

abbrev local_route : Route
local_route = record { target = 0x0a000000; mask = 0xff000000; source = host; next_hop = none }

abbrev two_routes : RouteTable
two_routes = record {
  routes = local_route ∷ default_route ∷ [];
  shared = local_route ∷ default_route ∷ [];
}

two_routes-IsValid : IsValid two_routes
two_routes-IsValid = record { sorted = ((inl (omega arith), tt), (tt, tt)); published = refl }

lookup_route-IsLongest_example :
    IsLongest stranger two_routes.routes (lookup_route stranger two_routes)
lookup_route-IsLongest_example = lookup_route-IsLongest stranger two_routes two_routes-IsValid

insert_or_update-IsValid_example :
    IsValid (insert_or_update 0x0a000000 0xffff0000 host none two_routes)
insert_or_update-IsValid_example =
    insert_or_update-IsValid 0x0a000000 0xffff0000 host none two_routes two_routes-IsValid

route_at-insert_or_update_example :
    route_at 0 0 (insert_or_update 0 0 host none two_routes).routes ≡ (
      if 0 == 0 && 0 == 0
      then some (record { target = 0; mask = 0; source = host; next_hop = none })
      else route_at 0 0 two_routes.routes)
route_at-insert_or_update_example = route_at-insert_or_update 0 0 0 0 host none two_routes

interface_addr_new-range_example :
    let a = interface_addr_new host ((2 ^ 24 - 1) * 2 ^ 8) in
    (a.network ≡ host / 2 ^ 8 * 2 ^ 8) × (a.broadcast ≡ a.network + (2 ^ 8 - 1))
interface_addr_new-range_example = interface_addr_new-range 24 8 refl host (omega arith)

abbrev one_address : AddressTable
one_address = record {
  local = interface_addr_new host 0xffffff00 ∷ [];
  shared = (host, 0xffffff00) ∷ [];
}
