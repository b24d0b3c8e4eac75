-- ===== src/ArpTable/Aging.antt =====
-- How an answer ages, and that one address does not disturb another.
use narth_network.Base.{ℕ, ◌-◌, ◌*◌, ◌≡◌, ◌≢◌, ◌&&◌, none, some, arith, ltb, ◌==◌, if◌then◌else◌}
use narth_network.Base.Dict.{lookup, insert, lookup-insert, lookup-remove}
use narth_network.Ethernet.Mac.{MacAddr}
use narth_network.ArpTable.{
  ArpState, ArpTable, nanos_per_sec, update_or_insert, update_only, request_occupied, request,
  restart, resolved, resolved_stale, pending, known, timed_out,
}

-- What `request` answers for an address that was resolved `age` nanoseconds ago.
abbrev pub aged : ℕ → MacAddr → ArpState
aged age mac =
    if ltb age (30 * nanos_per_sec)
    then resolved mac
    else if ltb age (60 * nanos_per_sec)
    then resolved_stale mac
    else restart

-- An answer that was recorded is given as current for 30 seconds and as stale for 30 more, and the
-- entry stays; from then on the resolution restarts and the entry is removed.
pub request-update_or_insert :
    (stamp now later target source : ℕ) (mac : MacAddr) (t : ArpTable)
    → let u = (update_or_insert stamp mac target t).0 in
      ((request now later target source u).1 ≡ aged (now - stamp) mac)
      × (lookup target (request now later target source u).0
          ≡ (if ltb (now - stamp) (60 * nanos_per_sec) then some (known stamp mac) else none))
unfolding request update_or_insert
request-update_or_insert stamp now later target source mac t = ground (
  arith,
  lookup-insert target target (known stamp mac) t,
  lookup-remove target target (insert target (known stamp mac) t),
)

-- A request changes no other address's entry.
request-other :
    (now stamp target source other : ℕ) (t : ArpTable)
    → other ≢ target
    → lookup other (request now stamp target source t).0 ≡ lookup other t
unfolding request request_occupied
request-other now stamp target source other t ne = ground (
  arith,
  lookup-insert target other (pending stamp 0 source) t,
  lookup-insert target other (timed_out stamp) t,
  lookup-remove target other t,
)

-- After `update_only` its address has the new answer where the operation says that it updated, and
-- every other address has the entry that it had.
pub update_only_lem :
    (stamp ip j : ℕ) (mac : MacAddr) (t : ArpTable)
    → lookup j (update_only stamp mac ip t).0
      ≡ (if (update_only stamp mac ip t).1 && ip == j then some (known stamp mac) else lookup j t)
unfolding update_only
update_only_lem stamp ip j mac t = ground (arith, lookup-insert ip j (known stamp mac) t)
