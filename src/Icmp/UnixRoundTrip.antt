-- ===== src/Icmp/UnixRoundTrip.antt =====
-- Echo data written and read back.
use native.Mathlib.Nat.{pow-suc}
use mathlib.Core.List.{append_assoc}
use narth_network.Base.{
  ℕ, zero, suc, ◌+◌, ◌-◌, ◌*◌, ◌/◌, ◌%◌, ◌^◌, ◌≤◌, ◌<◌, ◌≡◌, refl, ap, ◌∙◌, Bool, true, false,
  Option, none, some, [], ◌∷◌, ◌++◌, arith, ltb, leb, leb-true, ltb-false, length, length-append,
  ok,
}
use narth_network.Wire.{Bytes, take_exact, slice_from, slice}
use narth_network.Icmp.UnixData.{
  EchoMessageDataUnix, unix_length, put_le, put_be, put_ne, counting, unix_tail, unix_write, get_le,
  get_be, get_ne, bytes_eq, duration_max, unix_instant, unix_from_bytes, length-put_ne,
}

get_le-put_le : (w n : ℕ) → n < 256 ^ w → get_le (put_le w n) ≡ n
get_le-put_le zero n h = omega arith
get_le-put_le (suc w) n h =
    omega (arith, pow-suc 256 w, get_le-put_le w (n / 256) (omega (arith, pow-suc 256 w)))

get_be-last :
    (before : ℕ) (bs : Bytes) (b : ℕ) → get_be before (bs ++ (b ∷ [])) ≡ get_be before bs * 256 + b
get_be-last before [] b = refl
get_be-last before (a ∷ bs) b = get_be-last (before * 256 + a) bs b

get_be-put_be : (w n : ℕ) → n < 256 ^ w → get_be 0 (put_be w n) ≡ n
get_be-put_be zero n h = omega arith
get_be-put_be (suc w) n h = omega (
  arith,
  get_be-last 0 (put_be w (n / 256)) (n % 256),
  get_be-put_be w (n / 256) (omega (arith, pow-suc 256 w)),
)

get_ne-put_ne :
    (little_endian : Bool) (w n : ℕ)
    → n < 256 ^ w
    → get_ne little_endian (put_ne little_endian w n) ≡ n
get_ne-put_ne true w n h = get_le-put_le w n h
get_ne-put_ne false w n h = get_be-put_be w n h

-- A piece that stands between two others.
take_exact-piece : (piece after : Bytes) → take_exact (length piece) (piece ++ after) ≡ ok piece
unfolding take_exact
take_exact-piece [] after = refl
take_exact-piece (b ∷ piece) after = rw (take_exact-piece piece after)

slice_from-piece : (before rest : Bytes) → slice_from (length before) (before ++ rest) ≡ ok rest
unfolding slice_from
slice_from-piece [] rest = refl
slice_from-piece (b ∷ before) rest = slice_from-piece before rest

slice-piece :
    (before piece after : Bytes) (a b : ℕ)
    → length before ≡ a
    → a + length piece ≡ b
    → slice a b (before ++ (piece ++ after)) ≡ ok piece
unfolding slice
slice-piece before piece after a b la lb =
    let inside : leb a b ≡ true = ground arith in
    let width : b - a ≡ length piece = omega arith in
    let front = slice_from-piece before (piece ++ after) in
    rw (inside, width, ← la, front) (take_exact-piece piece after)

-- An instant that the reader takes as one, or none at all.
abbrev IsInstant : Bool → Option ℕ → Type 0
IsInstant little_endian none = Unit
IsInstant little_endian (some n) =
    (0 < n) × (n < duration_max) × (bytes_eq (put_ne little_endian 16 n) (counting 16 16) ≡ false)

-- The 16 bytes behind the time, and those behind them.
tail_split :
    (little_endian : Bool) (o : Option ℕ)
    → IsInstant little_endian o
    → (piece : Bytes) × (after : Bytes) × (unix_tail little_endian o ≡ piece ++ after)
      × (length piece ≡ 16)
      × (length after ≡ 24)
      × (unix_instant little_endian piece ≡ o)
tail_split little_endian none h = (counting 16 16, counting 32 24, refl, refl, refl, refl)
tail_split little_endian (some n) (p, q, r) =
    let back = get_ne-put_ne little_endian 16 n (omega arith) in
    (
      put_ne little_endian 16 n,
      counting 32 (unix_length - 32),
      refl,
      length-put_ne little_endian 16 n,
      refl,
      ground (arith, back),
    )

-- Four pieces and what stands behind them, regrouped from the front.
regroup : (a b t p q r : Bytes) → t ≡ p ++ q → (a ++ (b ++ t)) ++ r ≡ a ++ (b ++ (p ++ (q ++ r)))
regroup a b t p q r e =
    rw (e, append_assoc a (b ++ (p ++ q)) r, append_assoc b (p ++ q) r, append_assoc p q r)

read_pieces :
    (little_endian : Bool) (s u : ℕ) (sec micros piece after : Bytes)
    → get_ne little_endian sec ≡ s
    → get_ne little_endian micros ≡ u
    → length sec ≡ 8
    → length micros ≡ 8
    → length piece ≡ 16
    → 24 ≤ length after
    → s * 1000000000 + u * 1000 % 2 ^ 64 ≤ duration_max
    → unix_from_bytes little_endian (sec ++ (micros ++ (piece ++ after)))
      ≡ ok (record {
        since_epoc = s * 1000000000 + u * 1000 % 2 ^ 64;
        monotonic_instant = unix_instant little_endian piece;
      })
unfolding unix_from_bytes
read_pieces little_endian s u sec micros piece after es eu ls lm lp la fits =
    let whole = sec ++ (micros ++ (piece ++ after)) in
    let joined : (sec ++ micros) ++ (piece ++ after) ≡ whole =
      append_assoc sec micros (piece ++ after) in
    let long : ltb (length whole) 56 ≡ false = ltb-false (
      omega (
        arith,
        length-append sec (micros ++ (piece ++ after)),
        length-append micros (piece ++ after),
        length-append piece after,
      )) in
    let first = slice-piece [] sec (micros ++ (piece ++ after)) 0 8 refl (omega arith) in
    let second = slice-piece sec micros (piece ++ after) 8 16 ls (omega arith) in
    let third =
      slice-piece (sec ++ micros) piece after 16 32 (omega (arith, length-append sec micros))
        (omega arith) in
    let third' : slice 16 32 whole ≡ ok piece = rw (← joined) third in
    rw (long, first, second, es, eu, leb-true fits, third') refl

-- The time loses what is below a microsecond.
truncated :
    (n : ℕ) → n / 1000000000 * 1000000000 + n % 1000000000 / 1000 * 1000 % 2 ^ 64 ≡ n / 1000 * 1000
truncated n = omega arith

-- Where the time since the epoch is a duration, and the instant, if there is one, is above 0 and
-- below the longest duration and not written as the padding bytes, echo data written with any
-- bytes behind it is read back with its time cut to microseconds and the same instant.
pub unix_from_bytes-write :
    (little_endian : Bool) (d : EchoMessageDataUnix) (rest : Bytes)
    → d.since_epoc ≤ duration_max
    → IsInstant little_endian d.monotonic_instant
    → unix_from_bytes little_endian (unix_write little_endian d ++ rest)
      ≡ ok (record d { since_epoc = d.since_epoc / 1000 * 1000 })
unfolding unix_write
unix_from_bytes-write little_endian d rest h k =
    let sec = put_ne little_endian 8 (d.since_epoc / 1000000000) in
    let micros = put_ne little_endian 8 (d.since_epoc % 1000000000 / 1000) in
    let (piece, after, e, lp, la, back) = tail_split little_endian d.monotonic_instant k in
    let sec_back = get_ne-put_ne little_endian 8 (d.since_epoc / 1000000000) (omega arith) in
    let micros_back =
      get_ne-put_ne little_endian 8 (d.since_epoc % 1000000000 / 1000) (omega arith) in
    let same = truncated d.since_epoc in
    let read =
      read_pieces little_endian (d.since_epoc / 1000000000) (d.since_epoc % 1000000000 / 1000) sec
        micros piece (after ++ rest) sec_back micros_back
        (length-put_ne little_endian 8 (d.since_epoc / 1000000000))
        (length-put_ne little_endian 8 (d.since_epoc % 1000000000 / 1000)) lp
        (omega (arith, la, length-append after rest)) (omega (arith, same, h)) in
    let grouped =
      regroup sec micros (unix_tail little_endian d.monotonic_instant) piece after rest e in
    ap (unix_from_bytes little_endian) grouped ∙ read ∙ rw (same, back) refl
