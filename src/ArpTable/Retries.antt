-- ===== src/ArpTable/Retries.antt =====
-- Retries of a resolution that nobody answers.
use narth_network.Base.{
  ℕ, ◌+◌, ◌≤◌, ◌<◌, ◌≡◌, ap, ◌∙◌, inl, inr, Bool, true, false, none, some, List, [], ◌∷◌, arith,
  if◌then◌else◌, Option-cases, length,
}
use narth_network.Base.Dict.{lookup, insert, lookup-insert}
use narth_network.Ethernet.Mac.{MacAddr}
use narth_network.ArpTable.{
  ArpTable, arp_request_timeout, request_occupied, request, can_send_request, pending_retry,
  timeout, resolved_stale, pending, known, timed_out,
}

-- A round of resolution at an instant: `request`, and where that asks for a retry, the
-- `can_send_request` in front of the ARP request. Whether one is sent comes back.
pub attempt : ℕ → ℕ → ℕ → ArpTable → ArpTable × Bool
attempt now target source t =
    let (u, state) = request now now target source t in
    elim state [ pending_retry s ↦ can_send_request now target s u | _ ↦ (u, false) ]

-- Rounds at growing distances from an instant, and the number of ARP requests sent.
pub attempts : List ℕ → ℕ → ℕ → ℕ → ArpTable → ArpTable × ℕ
unfolding attempt
attempts [] now target source t = (t, 0)
attempts (gap ∷ gaps) now target source t =
    let (u, sent) = attempt (now + gap) target source t in
    let (v, more) = attempts gaps (now + gap) target source u in (v, (if sent then 1 else 0) + more)

-- Each round comes after the request timeout of the one before.
abbrev pub AreLate : List ℕ → Type 0
AreLate [] = Unit
AreLate (gap ∷ gaps) = (arp_request_timeout < gap) × AreLate gaps

abbrev pub total : List ℕ → ℕ
total [] = 0
total (gap ∷ gaps) = gap + total gaps

-- A late round at a pending entry sends a request and counts it, up to the fifth.
attempt-pending :
    (since gap n target source s : ℕ) (t : ArpTable)
    → lookup target t ≡ some (pending since n s)
    → arp_request_timeout < gap
    → n < 5
    → ((attempt (since + gap) target source t).1 ≡ true)
      × (lookup target (attempt (since + gap) target source t).0
          ≡ some (pending (since + gap) (n + 1) s))
unfolding attempt request request_occupied can_send_request
attempt-pending since gap n target source s t e late few =
    ground (arith, lookup-insert target target (pending (since + gap) (n + 1) s) t)

attempt-vacant :
    (now target source : ℕ) (t : ArpTable)
    → lookup target t ≡ none
    → ((attempt now target source t).1 ≡ true)
      × (lookup target (attempt now target source t).0 ≡ some (pending now 1 source))
unfolding attempt request can_send_request
attempt-vacant now target source t e =
    let u = insert target (pending now 0 source) t in
    let at_once = lookup-insert target target (pending now 0 source) t in
    ground (arith, at_once, lookup-insert target target (pending now 1 source) u)

attempts-pending :
    (gaps : List ℕ) (since n target source s : ℕ) (t : ArpTable)
    → lookup target t ≡ some (pending since n s)
    → AreLate gaps
    → n + length gaps ≤ 5
    → ((attempts gaps since target source t).1 ≡ length gaps)
      × (lookup target (attempts gaps since target source t).0
          ≡ some (pending (since + total gaps) (n + length gaps) s))
unfolding attempts
attempts-pending [] since n target source s t e late few = ground arith
attempts-pending (gap ∷ gaps) since n target source s t e (l, late) few =
    let (sent, next) = attempt-pending since gap n target source s t e l (omega arith) in
    let u = (attempt (since + gap) target source t).0 in
    let (more, end) =
      attempts-pending gaps (since + gap) (n + 1) target source s u next late (omega arith) in
    ground (arith, sent, more, end)

-- For an address without an entry, a round of resolution sends a request; of four more rounds,
-- each later than the request timeout after the one before, all four send one; and a request that
-- is late once more answers that the resolution timed out and records that.
pub attempts-timeout :
    (gaps : List ℕ) (now gap target source stamp : ℕ) (t : ArpTable)
    → lookup target t ≡ none
    → AreLate gaps
    → length gaps ≡ 4
    → arp_request_timeout < gap
    → let u = (attempt now target source t).0 in
      let (v, sent) = attempts gaps now target source u in
      let (w, answer) = request (now + total gaps + gap) stamp target source v in
      ((attempt now target source t).1 ≡ true)
      × (sent ≡ 4)
      × (answer ≡ timeout)
      × (lookup target w ≡ some (timed_out stamp))
unfolding request request_occupied
attempts-timeout gaps now gap target source stamp t e late four l =
    let (first, pending_one) = attempt-vacant now target source t e in
    let u = (attempt now target source t).0 in
    let (sent, end) =
      attempts-pending gaps now 1 target source source u pending_one late (omega arith) in
    let v = (attempts gaps now target source u).0 in
    ground (arith, first, sent, end, lookup-insert target target (timed_out stamp) v)

-- A stale answer comes from a known entry, which stays.
request-stale :
    (now stamp target source : ℕ) (mac : MacAddr) (t : ArpTable)
    → (request now stamp target source t).1 ≡ resolved_stale mac
    → (seen : ℕ) × ((request now stamp target source t).0 ≡ t)
      × (lookup target t ≡ some (known seen mac))
unfolding request request_occupied
request-stale now stamp target source mac t e = elim (Option-cases (lookup target t)) [
  | inl vacant ↦ absurd (ground arith)
  | inr (pending since n s, o) ↦ absurd (ground arith)
  | inr (timed_out since, o) ↦ absurd (ground arith)
  | inr (known seen m, o) ↦ (seen, ground arith, ground arith)
]

-- Where `request` answers with a stale address, `can_send_request` for the same target then
-- refuses, and every entry is as it was before the request.
pub can_send_request-stale :
    (now stamp target source s : ℕ) (mac : MacAddr) (t : ArpTable)
    → (request now stamp target source t).1 ≡ resolved_stale mac
    → let (u, sent) = can_send_request stamp target s (request now stamp target source t).0 in
      (sent ≡ false) × ((k : ℕ) → lookup k u ≡ lookup k t)
unfolding can_send_request
can_send_request-stale now stamp target source s mac t e =
    let (seen, same, entry) = request-stale now stamp target source mac t e in
    let back : lookup target (request now stamp target source t).0 ≡ some (known seen mac) =
      ap (lookup target) same ∙ entry in
    (
      rw back,
      λ k. rw (back, same) (ground (arith, entry, lookup-insert target k (known seen mac) t)),
    )
