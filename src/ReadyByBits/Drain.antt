-- ===== src/ReadyByBits/Drain.antt =====
-- A client's loop over the iterator that `iter_by_ready_bits` makes, as `for item in ...` runs it.
use narth_network.Base.{
  ℕ, zero, suc, ◌+◌, ◌*◌, ◌≤◌, ◌<◌, ◌≡◌, refl, Bool, true, false, Option, none, some, List, [], ◌∷◌,
  arith, ◌==◌, length, Io, ok, err, panicked,
}
use narth_network.ReadyByBits.{ReadyByBits, ready_new, next, capture_and_reset, iter_by_ready_bits}
use narth_network.ReadyByBits.Flags.{flags, ZeroBelow}
use narth_network.ReadyByBits.Chunks.{AreWords, length-flags}
use narth_network.ReadyByBits.Pick.{pick, consumed, wanted, IsValid, count, measure}
use narth_network.ReadyByBits.Iteration.{Delivers, next-Delivers}

-- The items of a list that an iterator hands out, behind one that it handed out before.
abbrev behind : {T : Type 0} → T → Option (Io (List T)) → Option (Io (List T))
behind x none = none
behind x (some (ok xs)) = some (ok (x ∷ xs))
behind x (some (err e)) = some (err e)
behind x (some panicked) = some panicked

-- Calls `next` until it says that there is nothing more; the outer `none` means that fuel ran out.
pub drain : {T : Type 0} → ℕ → ReadyByBits T → Option (Io (List T))
drain zero it = none
drain (suc fuel) it = elim (next (suc fuel) it) [
  | none ↦ none
  | some result ↦ elim result [
    | ok item ↦ elim item [
      | none ↦ some (ok [])
      | some found ↦ behind (found.0) (drain fuel (found.1))
    ]
    | err e ↦ some (err e)
    | panicked ↦ some panicked
  ]
]

count-le : (fs : List Bool) → count fs ≤ length fs
count-le [] = omega arith
count-le (true ∷ fs) = omega (arith, count-le fs)
count-le (false ∷ fs) = omega (arith, count-le fs)

ZeroBelow-start : (chunks : List ℕ) → ZeroBelow chunks 0
ZeroBelow-start [] = tt
ZeroBelow-start (b ∷ bs) = tt

eqb_refl : (n : ℕ) → (n == n) ≡ true
eqb_refl n = ground arith

-- `capture_and_reset` hands on every word and leaves zeros.
abbrev pub zeros : List ℕ → List ℕ
zeros [] = []
zeros (w ∷ ws) = 0 ∷ zeros ws

capture_and_reset_lem : (ws : List ℕ) → capture_and_reset ws ≡ (ws, zeros ws)
unfolding capture_and_reset
capture_and_reset_lem [] = refl
capture_and_reset_lem (w ∷ ws) = rw (capture_and_reset_lem ws)

module _ {T : Type 0} where
  drain-step :
      (fuel : ℕ) (it : ReadyByBits T) (xs : List T)
      → Delivers it xs (next (suc fuel) it)
      → ((it' : ReadyByBits T)
          → IsValid it'
          → measure it' < measure it
          → drain fuel it' ≡ some (ok (wanted it')))
      → drain (suc fuel) it ≡ some (ok xs)
  unfolding drain
  drain-step fuel it [] d rest = rw (d, drain)
  drain-step fuel it (x ∷ xs) (it', e, v, w, less) rest = rw (e, drain, rest it' v less, w)

  drain-wanted :
      (fuel : ℕ) (it : ReadyByBits T)
      → IsValid it
      → measure it < fuel
      → drain fuel it ≡ some (ok (wanted it))
  drain-wanted zero it v m = absurd (omega arith)
  drain-wanted (suc fuel) it v m =
      drain-step fuel it (wanted it) (next-Delivers (suc fuel) it v m)
        (λ it' v' less. drain-wanted fuel it' v' (omega arith))

  abbrev fresh : List (Option T) → List ℕ → ReadyByBits T
  fresh items words = record { items = items; ready_bits = words; current_chunk = 0 }

  fresh-drain :
      (items : List (Option T)) (words : List ℕ)
      → AreWords words
      → length items ≡ length words * 64
      → drain (length words * 65 + 1) (fresh items words) ≡ some (ok (pick (flags words) items))
  fresh-drain items words h same =
      let start : consumed (fresh items words) ≡ 0 = omega arith in
      let v : IsValid (fresh items words) = record {
        fits = omega arith;
        words = h;
        passed = ZeroBelow-start words;
        quiet = rw start;
      } in
      let run =
        drain-wanted (length words * 65 + 1) (fresh items words) v
          (omega (arith, count-le (flags words), length-flags words)) in
      rw start at run

  -- For words of 64 bits and as many items as they have bits, `iter_by_ready_bits` makes an
  -- iterator and leaves every word 0, and a loop of `next` over that iterator ends within 65 units
  -- of fuel for each word and one more, without a panic, having handed out exactly the items that
  -- are there and whose flag is set, in order.
  pub iter_by_ready_bits-drain :
      (items : List (Option T)) (words : List ℕ)
      → AreWords words
      → length items ≡ length words * 64
      → (it : ReadyByBits T) × (iter_by_ready_bits items words ≡ ok (it, zeros words))
        × (drain (length words * 65 + 1) it ≡ some (ok (pick (flags words) items)))
  unfolding iter_by_ready_bits ready_new
  iter_by_ready_bits-drain items words h same = (
    fresh items words,
    rw (capture_and_reset_lem words, same, eqb_refl (length words * 64)),
    fresh-drain items words h same,
  )
