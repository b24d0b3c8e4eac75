-- ===== src/Interface/Ping/Replies.antt =====
-- lib/src/runtime/interface/l4_managers/ping.rs: a reply and its copies.
use narth_network.Base.{
  ℕ, ◌+◌, ◌≤◌, ◌≡◌, refl, ap, ◌∙◌, subst, inl, inr, true, false, Option, some, List, [], ◌∷◌, ◌++◌,
  arith, ◌==◌, if◌then◌else◌, Bool-cases, Option-cases, ok,
}
use narth_network.Ipv4.{Ipv4Header}
use narth_network.Icmp.Message.{EchoMessage}
use narth_network.Interface.{World}
use narth_network.Interface.Ping.{
  PingEntry, PingManager, has_key, find_session, write_session, report, is_live, retain_live,
  garbage_collect, remove_pending, is_pending, success,
}
use narth_network.Interface.Ping.Manager.{
  duration_of, answer_session, reply_to_session, on_echo_reply,
}

-- How many pings with this sequence number are pending.
unfoldable pub occurrences : ℕ → List (ℕ × ℕ) → ℕ
occurrences sequence [] = 0
occurrences sequence ((s, sent_at) ∷ later) =
    let rest = occurrences sequence later in if s == sequence then 1 + rest else rest

-- How many pings to this address, with this identifier and sequence number, wait for a reply.
unfoldable pub awaited : ℕ → ℕ → ℕ → List PingEntry → ℕ
unfolding occurrences
awaited target identifier sequence [] = 0
awaited target identifier sequence (e ∷ es) =
    let rest = awaited target identifier sequence es in
    if has_key target identifier e then occurrences sequence e.pending + rest else rest

occurrences-remove_pending :
    (sequence : ℕ) (pings : List (ℕ × ℕ))
    → is_pending sequence pings ≡ true
    → occurrences sequence pings ≡ 1 + occurrences sequence (remove_pending sequence pings)
unfolding occurrences remove_pending is_pending
occurrences-remove_pending sequence [] h = cc
occurrences-remove_pending sequence ((s, sent_at) ∷ later) h = elim (Bool-cases (s == sequence)) [
  | inl e ↦ rw e refl
  | inr e ↦ rw (e, occurrences-remove_pending sequence later (rw e at h)) (rw e refl)
]

is_pending-unless :
    (sequence : ℕ) (pings : List (ℕ × ℕ))
    → occurrences sequence pings ≡ 0
    → is_pending sequence pings ≡ false
unfolding occurrences is_pending
is_pending-unless sequence [] h = refl
is_pending-unless sequence ((s, sent_at) ∷ later) h = elim (Bool-cases (s == sequence)) [
  | inl e ↦ absurd (omega (arith, rw e at h))
  | inr e ↦ rw e (is_pending-unless sequence later (rw e at h))
]

awaited-retain_live :
    (target identifier sequence : ℕ) (es : List PingEntry)
    → awaited target identifier sequence (retain_live es) ≤ awaited target identifier sequence es
unfolding awaited retain_live
awaited-retain_live target identifier sequence [] = omega arith
awaited-retain_live target identifier sequence (e ∷ es) =
    let rest = awaited-retain_live target identifier sequence es in ground arith

awaited-find_session :
    (target identifier sequence : ℕ) (es : List PingEntry) (e : PingEntry)
    → awaited target identifier sequence es ≡ 0
    → find_session target identifier es ≡ some e
    → occurrences sequence e.pending ≡ 0
unfolding awaited find_session
awaited-find_session target identifier sequence [] e h found = cc
awaited-find_session target identifier sequence (x ∷ es) e h found =
    elim (Bool-cases (has_key target identifier x)) [
      | inl k ↦
          let same : some x ≡ some e = rw k at found in
          let alike : x ≡ e = cc in
          let none_here : occurrences sequence x.pending + awaited target identifier sequence es
              ≡ 0 =
            rw k at h in
          let zero_here : occurrences sequence x.pending ≡ 0 = omega arith in
          subst (λ y. occurrences sequence y.pending ≡ 0) alike zero_here
      | inr k ↦ awaited-find_session target identifier sequence es e (rw k at h) (rw k at found)
    ]

retain_live-retain_live : (es : List PingEntry) → retain_live (retain_live es) ≡ retain_live es
unfolding retain_live
retain_live-retain_live [] = refl
retain_live-retain_live (e ∷ es) = elim (Bool-cases (is_live e)) [
  | inl l ↦ rw l (rw (l, retain_live-retain_live es) refl)
  | inr l ↦ rw l (retain_live-retain_live es)
]

find_session-key :
    (target identifier : ℕ) (es : List PingEntry) (e : PingEntry)
    → find_session target identifier es ≡ some e
    → (e.target ≡ target) × (e.identifier ≡ identifier)
unfolding find_session
find_session-key target identifier [] e found = cc
find_session-key target identifier (x ∷ es) e found =
    elim (Bool-cases (has_key target identifier x)) [
      | inl k ↦
          let same : some x ≡ some e = rw k at found in
          let alike : x ≡ e = cc in
          subst (λ y. (y.target ≡ target) × (y.identifier ≡ identifier)) alike
            (ground arith, ground arith)
      | inr k ↦ find_session-key target identifier es e (rw k at found)
    ]

-- The session, with one ping less to wait for.
abbrev answered_entry : ℕ → PingEntry → PingEntry
answered_entry sequence e = record e { pending = remove_pending sequence e.pending }

awaited-write_session :
    (target identifier sequence : ℕ) (es : List PingEntry) (e : PingEntry)
    → find_session target identifier es ≡ some e
    → is_pending sequence e.pending ≡ true
    → awaited target identifier sequence es
      ≡ 1 + awaited target identifier sequence (write_session (answered_entry sequence e) es)
unfolding awaited find_session write_session
awaited-write_session target identifier sequence [] e found waits = cc
awaited-write_session target identifier sequence (x ∷ es) e found waits =
    let (et, ei) = find_session-key target identifier (x ∷ es) e found in
    elim (Bool-cases (has_key target identifier x)) [
      | inl k ↦
          let same : some x ≡ some e = rw k at found in
          let alike : x ≡ e = cc in
          let mine : has_key e.target e.identifier x ≡ true = rw (et, ei) k in
          let kept : has_key target identifier e ≡ true =
            subst (λ y. has_key target identifier y ≡ true) alike k in
          let pings : occurrences sequence x.pending ≡ occurrences sequence e.pending =
            ap (λ y. occurrences sequence y.pending) alike in
          let fewer = occurrences-remove_pending sequence e.pending waits in
          rw (k, mine) (rw kept (omega arith))
      | inr k ↦
          let other : has_key e.target e.identifier x ≡ false = rw (et, ei) k in
          rw (k, other)
            (rw (k, awaited-write_session target identifier sequence es e (rw k at found) waits)
              refl)
    ]

module _ (w : World) where
  -- A reply that no session waits for leaves the sessions to be collected.
  unawaited-garbage_collect :
      (header : Ipv4Header) (message : EchoMessage) (reading : ℕ) (p : PingManager)
      → awaited header.source_address message.identifier message.sequence_number p.sessions ≡ 0
      → on_echo_reply w header message reading p ≡ ok (garbage_collect p)
  unfolding on_echo_reply reply_to_session
  unawaited-garbage_collect header message reading p h =
      elim (Option-cases (find_session header.source_address message.identifier p.sessions)) [
        | inl e ↦ rw e refl
        | inr (s, e) ↦
            let quiet = is_pending-unless message.sequence_number s.pending (
              awaited-find_session header.source_address message.identifier message.sequence_number
                p.sessions s h e) in
            rw (e, quiet) refl
      ]

  -- Where the session of an echo reply waits for the reply's sequence number, no other ping with
  -- that address, identifier and number is awaited, and the reply's data gives a duration or none,
  -- `on_echo_reply` reports the ping once with that, and a second copy of the reply changes
  -- nothing.
  pub on_echo_reply-once :
      (header : Ipv4Header) (message : EchoMessage) (first second : ℕ) (p : PingManager)
      (e : PingEntry) (duration : Option ℕ)
      → find_session header.source_address message.identifier p.sessions ≡ some e
      → is_pending message.sequence_number e.pending ≡ true
      → awaited header.source_address message.identifier message.sequence_number p.sessions ≡ 1
      → duration_of w message first ≡ ok duration
      → (q : PingManager) × (on_echo_reply w header message first p ≡ ok q)
        × (q.reports ≡ p.reports ++ (report e message.sequence_number (success duration) ∷ []))
        × (on_echo_reply w header message second q ≡ ok q)
  unfolding on_echo_reply reply_to_session garbage_collect answer_session
  on_echo_reply-once header message first second p e duration found waits single d =
      let a = answer_session w message duration e p in
      let fewer =
        awaited-write_session header.source_address message.identifier message.sequence_number
          p.sessions e found waits in
      let still =
        awaited-retain_live header.source_address message.identifier message.sequence_number
          a.sessions in
      (
        garbage_collect a,
        rw (found, waits, d) refl,
        refl,
        unawaited-garbage_collect header message second (garbage_collect a) (omega arith)
            ∙ ap (λ es. ok (record a { sessions = es })) (retain_live-retain_live a.sessions),
      )
