-- ===== src/ArpTable.antt =====
-- lib/src/runtime/interface/l2_ethernet/arp_table.rs: the ARP table. An `Instant` is a number of
-- nanoseconds. A method that reads the clock takes what it reads: `now` where an age is measured,
-- `stamp` where an instant is stored.
pub mod Aging
pub mod Retries
use narth_network.Base.{
  ℕ, ◌+◌, ◌-◌, ◌*◌, ◌/◌, ◌%◌, Bool, true, false, Option, none, some, List, [], ◌∷◌, ltb, leb,
  if◌then◌else◌,
}
use narth_network.Base.Dict.{lookup, remove, insert}
use narth_network.Ethernet.Mac.{MacAddr}

pub data ArpState : Type 0 where
  pending_retry : ℕ → ArpState
  restart : ArpState
  pending_wait : ℕ → ArpState
  timeout : ArpState
  resolved : MacAddr → ArpState
  resolved_stale : MacAddr → ArpState

-- `ArpTableEntry`: since, retry count and source; last seen and address; since.
pub data ArpTableEntry : Type 0 where
  pending : ℕ → ℕ → ℕ → ArpTableEntry
  known : ℕ → MacAddr → ArpTableEntry
  timed_out : ℕ → ArpTableEntry

abbrev pub ArpTable : Type 0
ArpTable = List (ℕ × ArpTableEntry)

abbrev pub nanos_per_sec : ℕ
nanos_per_sec = 1_000_000_000

abbrev pub arp_request_timeout : ℕ
arp_request_timeout = 100_000_000

abbrev arp_request_max_retry : ℕ
arp_request_max_retry = 5

abbrev arp_lifetime_sec : ℕ
arp_lifetime_sec = 30

abbrev arp_lifetime : ℕ
arp_lifetime = arp_lifetime_sec * nanos_per_sec

abbrev arp_lifetime_stale_sec : ℕ
arp_lifetime_stale_sec = 60

abbrev is_some {ℓ} : {A : Type ℓ} → Option A → Bool
is_some none = false
is_some (some _) = true

unfoldable pub update_or_insert : ℕ → MacAddr → ℕ → ArpTable → ArpTable × Bool
update_or_insert stamp mac ip t = (insert ip (known stamp mac) t, is_some (lookup ip t))

pub update_only : ℕ → MacAddr → ℕ → ArpTable → ArpTable × Bool
update_only stamp mac ip t = elim (lookup ip t) [
  | some _ ↦ (insert ip (known stamp mac) t, true)
  | none ↦ (t, false)
]

-- `request` at an occupied entry. `elapsed` is 0 where the clock stands before the instant.
unfoldable pub request_occupied : ℕ → ℕ → ℕ → ArpTableEntry → ArpTable → ArpTable × ArpState
request_occupied now stamp target (pending since retry_count source) t =
    if ltb arp_request_timeout (now - since)
    then (if leb arp_request_max_retry retry_count
        then (insert target (timed_out stamp) t, timeout)
        else (t, pending_retry source))
    else (t, pending_wait (since + arp_request_timeout))
request_occupied now stamp target (timed_out since) t =
    if ltb arp_lifetime (now - since) then (remove target t, restart) else (t, timeout)
request_occupied now stamp target (known last_seen address) t =
    let age = (now - last_seen) / nanos_per_sec in
    if leb arp_lifetime_stale_sec age
    then (remove target t, restart)
    else if leb arp_lifetime_sec age
    then (t, resolved_stale address)
    else (t, resolved address)

unfoldable pub request : ℕ → ℕ → ℕ → ℕ → ArpTable → ArpTable × ArpState
unfolding request_occupied
request now stamp target source t = elim (lookup target t) [
  | some entry ↦ request_occupied now stamp target entry t
  | none ↦ (insert target (pending stamp 0 source) t, pending_retry source)
]

-- `pending`: the addresses under resolution, with the source of each.
unfoldable pub pending_addresses : ArpTable → List (ℕ × ℕ)
pending_addresses [] = []
pending_addresses ((ip, pending _ _ source) ∷ t) = (ip, source) ∷ pending_addresses t
pending_addresses ((ip, known _ _) ∷ t) = pending_addresses t
pending_addresses ((ip, timed_out _) ∷ t) = pending_addresses t

-- `and_modify`: the `u8` counter wraps, as in a release build.
unfoldable pub bump_retry : ℕ → ArpTableEntry → ArpTableEntry
bump_retry now (pending since retry_count source) = pending now ((retry_count + 1) % 256) source
bump_retry now (known last_seen address) = known last_seen address
bump_retry now (timed_out since) = timed_out since

abbrev is_pending : ArpTableEntry → Bool
is_pending (pending _ _ _) = true
is_pending (known _ _) = false
is_pending (timed_out _) = false

unfoldable pub can_send_request : ℕ → ℕ → ℕ → ArpTable → ArpTable × Bool
unfolding bump_retry
can_send_request now target source t =
    let entry : ArpTableEntry = elim (lookup target t) [
      | some e ↦ bump_retry now e
      | none ↦ pending now 0 source
    ] in
    (insert target entry t, is_pending entry)
