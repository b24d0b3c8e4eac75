-- ===== src/Tests/Ready.antt =====
-- The iterator over ready bits at concrete inputs.
use narth_network.Base.{
  ℕ, zero, suc, ◌+◌, ◌^◌, ◌≡◌, refl, Option, none, some, List, [], ◌∷◌, arith, ok,
}
use narth_network.ReadyByBits.{ReadyByBits, iter_by_ready_bits}
use narth_network.ReadyByBits.Flags.{flags}
use narth_network.ReadyByBits.Pick.{pick, IsValid}
use narth_network.ReadyByBits.Drain.{drain, iter_by_ready_bits-drain}

-- The items 0 to 63, with the third one missing.
abbrev numbers : ℕ → ℕ → List (Option ℕ)
numbers zero start = []
numbers (suc n) start = some start ∷ numbers n (start + 1)

abbrev slots : List (Option ℕ)
slots = some 0 ∷ some 1 ∷ none ∷ numbers 61 3

-- Bits 2, 4 and 63.
abbrev ready_words : List ℕ
ready_words = (4 + 16 + 2 ^ 63) ∷ []

iter_by_ready_bits-drain_example :
    (it : ReadyByBits ℕ) × (iter_by_ready_bits slots ready_words ≡ ok (it, 0 ∷ []))
    × (drain 66 it ≡ some (ok (pick (flags ready_words) slots)))
iter_by_ready_bits-drain_example = iter_by_ready_bits-drain slots ready_words (omega arith, tt) refl

picked : pick (flags ready_words) slots ≡ 4 ∷ 63 ∷ []
unfolding flags
picked = refl

abbrev fresh_iterator : ReadyByBits ℕ
fresh_iterator = record { items = slots; ready_bits = ready_words; current_chunk = 0 }

fresh_iterator-IsValid : IsValid fresh_iterator
unfolding flags
fresh_iterator-IsValid = record {
  fits = omega arith;
  words = (omega arith, tt);
  passed = tt;
  quiet = refl;
}
