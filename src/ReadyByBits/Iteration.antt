-- ===== src/ReadyByBits/Iteration.antt =====
-- Whole runs of the iterator: `next` on enough fuel, and a loop over it.
use narth_network.Base.{
  ℕ, zero, suc, ◌<◌, ◌≡◌, refl, Option, none, some, List, [], ◌∷◌, arith, Io, ok,
}
use narth_network.ReadyByBits.{ReadyByBits, Turn, turn, next, finished, again, yielded, fault}
use narth_network.ReadyByBits.Pick.{wanted, IsValid, measure}
use narth_network.ReadyByBits.Next.{Outcome, turn-Outcome}

-- The result that `next` owes when these items are wanted.
abbrev pub Delivers :
    {T : Type 0} → ReadyByBits T → List T → Option (Io (Option (T × ReadyByBits T))) → Type 0
Delivers it [] result = result ≡ some (ok none)
Delivers {T} it (x ∷ xs) result =
    (it' : ReadyByBits T) × (result ≡ some (ok (some (x, it'))))
    × IsValid it'
    × (wanted it' ≡ xs)
    × (measure it' < measure it)

module _ {T : Type 0} where
  Delivers-later :
      (it it' : ReadyByBits T) (xs : List T) (r : Option (Io (Option (T × ReadyByBits T))))
      → measure it' < measure it
      → Delivers it' xs r
      → Delivers it xs r
  Delivers-later it it' [] r m d = d
  Delivers-later it it' (x ∷ xs) r m (u, e, v, w, l) = (u, e, v, w, omega arith)

  -- What one more turn of fuel owes, given what the rest of the run owes.
  next-turn :
      (fuel : ℕ) (it : ReadyByBits T) (t : Turn T)
      → turn it ≡ t
      → Outcome it t
      → ((it' : ReadyByBits T)
          → IsValid it'
          → measure it' < measure it
          → Delivers it' (wanted it') (next fuel it'))
      → Delivers it (wanted it) (next (suc fuel) it)
  unfolding next
  next-turn fuel it finished e o rest = rw (o, e, next) refl
  next-turn fuel it (again it') e (v, same, less) rest =
      rw (e, next, ← same)
        (Delivers-later it it' (wanted it') (next fuel it') less (rest it' v less))
  next-turn fuel it (yielded x it') e (v, same, less) rest =
      rw (same, e, next) (it', refl, v, refl, less)
  next-turn fuel it fault e o rest = absurd o

  -- On a valid iterator, with fuel above its measure, `next` returns without a panic: the first
  -- item wanted and a valid iterator of smaller measure that wants the others, or that there is
  -- none.
  pub next-Delivers :
      (fuel : ℕ) (it : ReadyByBits T)
      → IsValid it
      → measure it < fuel
      → Delivers it (wanted it) (next fuel it)
  next-Delivers zero it v m = absurd (omega arith)
  next-Delivers (suc fuel) it v m =
      next-turn fuel it (turn it) refl (turn-Outcome it v)
        (λ it' v' less. next-Delivers fuel it' v' (omega arith))
