-- ===== src/Interface/Ping.antt =====
-- lib/src/runtime/interface/l4_managers/ping.rs: the manager of pings.
pub mod Manager
pub mod Replies
pub mod Sequence
pub mod Timers
use narth_network.Base.{
  ℕ, ◌+◌, ◌-◌, ◌%◌, ◌^◌, Bool, true, false, ◌&&◌, ◌||◌, Option, none, some, List, [], ◌∷◌, ltb,
  ◌==◌, if◌then◌else◌,
}
use narth_network.Icmp.Codes.{DestinationUnreachableCode}

-- The texts of `Unreachable`: one for each code of an unreachable destination.
pub data UnreachableText : Type 0 where
  arp_timeout_text send_error_text : UnreachableText
  code_text : DestinationUnreachableCode → UnreachableText

pub data PingResultStatus : Type 0 where
  success : Option ℕ → PingResultStatus
  timeout : PingResultStatus
  unreachable : UnreachableText → PingResultStatus

-- What was sent to a session's receiver: the session's target and identifier, the sequence number
-- and the status.
pub record PingReport : Type 0 where
  pub target : ℕ
  pub identifier : ℕ
  pub sequence : ℕ
  pub status : PingResultStatus

pub record PingEntry : Type 0 where
  pub target : ℕ
  pub identifier : ℕ
  pub count : Option ℕ
  pub interval : ℕ
  pub sent_count : ℕ
  pub last_sent : Option ℕ
  pub pending : List (ℕ × ℕ)
  pub timeout : ℕ

-- The sessions in the order in which the map gives them, each under its target and identifier; the
-- keys that the sessions' owners asked to stop; and all that was sent to the receivers.
pub record PingManager : Type 0 where
  pub sessions : List PingEntry
  pub stops : List (ℕ × ℕ)
  pub reports : List PingReport

abbrev pub has_key : ℕ → ℕ → PingEntry → Bool
has_key target identifier e = e.target == target && e.identifier == identifier

unfoldable pub find_session : ℕ → ℕ → List PingEntry → Option PingEntry
find_session target identifier [] = none
find_session target identifier (e ∷ es) =
    if has_key target identifier e then some e else find_session target identifier es

-- What a change through `get_mut` leaves.
pub write_session : PingEntry → List PingEntry → List PingEntry
write_session new [] = []
write_session new (e ∷ es) =
    if has_key new.target new.identifier e then new ∷ es else e ∷ write_session new es

pub remove_session : ℕ → ℕ → List PingEntry → List PingEntry
remove_session target identifier [] = []
remove_session target identifier (e ∷ es) =
    let rest = remove_session target identifier es in
    if has_key target identifier e then rest else e ∷ rest

-- `unwrap_sequence`: the distance on the ring of 16 bits, as a signed number, added to the count;
-- both sums wrap at 64 bits.
pub unwrap_sequence : ℕ → ℕ → ℕ
unwrap_sequence sequence total =
    let diff : ℕ = (sequence + 65536 - total % 65536) % 65536 in
    if ltb diff 32768 then (total + diff) % 2 ^ 64 else (total + (2 ^ 64 - (65536 - diff))) % 2 ^ 64

abbrev pub report : PingEntry → ℕ → PingResultStatus → PingReport
report e sequence status = record {
  target = e.target;
  identifier = e.identifier;
  sequence = unwrap_sequence sequence e.sent_count;
  status = status;
}

-- The predicate of `garbage_collect`.
abbrev pub is_unfinished : PingEntry → Bool
is_unfinished e = elim e.count [ none ↦ true | some count ↦ ltb e.sent_count count ]

abbrev pub is_live : PingEntry → Bool
is_live e = elim e.pending [ [] ↦ is_unfinished e | p ∷ ps ↦ true ]

pub retain_live : List PingEntry → List PingEntry
retain_live [] = []
retain_live (e ∷ es) = let rest = retain_live es in if is_live e then e ∷ rest else rest

pub garbage_collect : PingManager → PingManager
unfolding retain_live
garbage_collect p = record p { sessions = retain_live p.sessions }

-- The first loop of `process_timers_session`: pings in front that are older than the timeout.
pub process_timeouts : ℕ → PingEntry → List (ℕ × ℕ) → List (ℕ × ℕ) × List PingReport
process_timeouts now e [] = ([], [])
process_timeouts now e ((sequence, sent_at) ∷ later) =
    let (left, reports) = process_timeouts now e later in
    if ltb e.timeout (now - sent_at)
    then (left, report e sequence timeout ∷ reports)
    else ((sequence, sent_at) ∷ later, [])

-- `position` by the sequence number, and `remove`.
pub remove_pending : ℕ → List (ℕ × ℕ) → List (ℕ × ℕ)
remove_pending sequence [] = []
remove_pending sequence ((s, sent_at) ∷ later) =
    if s == sequence then later else (s, sent_at) ∷ remove_pending sequence later

unfoldable pub is_pending : ℕ → List (ℕ × ℕ) → Bool
is_pending sequence [] = false
is_pending sequence ((s, sent_at) ∷ later) = s == sequence || is_pending sequence later
