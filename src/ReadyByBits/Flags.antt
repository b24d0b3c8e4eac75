-- ===== src/ReadyByBits/Flags.antt =====
-- The ready bits as one list of flags, lowest bit of the first chunk first.
use mathlib.Core.Path.{subst}
use native.Mathlib.Nat.{pow-suc, zero-add, suc-add}
use mathlib.Core.List.{append_assoc}
use narth_network.Base.{
  ℕ, zero, suc, ◌+◌, ◌-◌, ◌*◌, ◌/◌, ◌%◌, ◌^◌, ◌≤◌, ◌<◌, bit_and, ◌≡◌, refl, ap, ◌∙◌, inl, inr, Bool,
  true, false, some, List, [], ◌∷◌, ◌++◌, arith, ◌==◌, Bool-cases, get_elem?,
}
use narth_network.Wire.Words.{bit_and-halves}
use narth_network.ReadyByBits.{trailing_zeros, set}

abbrev pub bits : ℕ → ℕ → List Bool
bits zero n = []
bits (suc w) n = (n % 2 == 1) ∷ bits w (n / 2)

unfoldable pub flags : List ℕ → List Bool
flags [] = []
flags (b ∷ bs) = bits 64 b ++ flags bs

abbrev pub falses : ℕ → List Bool
falses zero = []
falses (suc n) = false ∷ falses n

-- The flags of two words that differ in one place: the first one that is set is cleared.
abbrev ClearsFirst : ℕ → List Bool → List Bool → Type 0
ClearsFirst p fs gs =
    (rest : List Bool) × (fs ≡ falses p ++ (true ∷ rest)) × (gs ≡ falses p ++ (false ∷ rest))

bit_and_self_below : (k n : ℕ) → n ≤ k → bit_and n n ≡ n
bit_and_self_below k zero h = refl
bit_and_self_below zero (suc n) h = absurd (omega arith)
bit_and_self_below (suc k) (suc n) h =
    omega (arith, bit_and-halves (suc n) (suc n), bit_and_self_below k (suc n / 2) (omega arith))

bit_and_self : (n : ℕ) → bit_and n n ≡ n
bit_and_self n = bit_and_self_below n n (omega arith)

-- `n & (n - 1)` of an odd and of an even number.
clear-odd : (m : ℕ) → bit_and (m * 2 + 1) (m * 2 + 1 - 1) ≡ m * 2
clear-odd m = ground (arith, bit_and-halves (m * 2 + 1) (m * 2 + 1 - 1), bit_and_self m)

clear-even : (m : ℕ) → 0 < m → bit_and (m * 2) (m * 2 - 1) ≡ bit_and m (m - 1) * 2
clear-even m h = ground (arith, bit_and-halves (m * 2) (m * 2 - 1))

bits-double : (w m : ℕ) → bits (suc w) (m * 2) ≡ false ∷ bits w m
bits-double w m =
    let even : m * 2 % 2 ≡ 0 = omega arith in
    let half : m * 2 / 2 ≡ m = omega arith in rw (even, half)

clears-odd :
    (w m : ℕ)
    → let n = m * 2 + 1 in
      ClearsFirst (trailing_zeros (suc w) n) (bits (suc w) n) (bits (suc w) (bit_and n (n - 1)))
unfolding trailing_zeros
clears-odd w m =
    let odd : (m * 2 + 1) % 2 ≡ 1 = omega arith in
    let half : (m * 2 + 1) / 2 ≡ m = omega arith in
    (bits w m, rw (odd, half), rw (odd, clear-odd m) (bits-double w m))

clears-even :
    (w m : ℕ)
    → 0 < m
    → ClearsFirst (trailing_zeros w m) (bits w m) (bits w (bit_and m (m - 1)))
    → let n = m * 2 in
      ClearsFirst (trailing_zeros (suc w) n) (bits (suc w) n) (bits (suc w) (bit_and n (n - 1)))
unfolding trailing_zeros
clears-even w m p (rest, e, f) =
    let even : m * 2 % 2 ≡ 0 = omega arith in
    let half : m * 2 / 2 ≡ m = omega arith in
    (
      rest,
      rw (even, half, e),
      rw (even, half, clear-even m p) (bits-double w (bit_and m (m - 1)) ∙ ap (◌∷◌ false) f),
    )

-- For a word that is not 0, clearing by `n & (n - 1)` clears the first flag that is set, which
-- stands where `trailing_zeros` says, and no other.
clear_lowest :
    (w n : ℕ)
    → 0 < n
    → n < 2 ^ w
    → ClearsFirst (trailing_zeros w n) (bits w n) (bits w (bit_and n (n - 1)))
clear_lowest zero n p q = absurd (omega arith)
clear_lowest (suc w) n p q = elim (Bool-cases (n % 2 == 1)) [
  | inl odd ↦
      let e : n / 2 * 2 + 1 ≡ n = ground arith in
      subst
        (λ x.
          ClearsFirst (trailing_zeros (suc w) x) (bits (suc w) x)
            (bits (suc w) (bit_and x (x - 1))))
        e (clears-odd w (n / 2))
  | inr even ↦
      let e : n / 2 * 2 ≡ n = ground arith in
      let h : 0 < n / 2 = omega arith in
      subst
        (λ x.
          ClearsFirst (trailing_zeros (suc w) x) (bits (suc w) x)
            (bits (suc w) (bit_and x (x - 1))))
        e (clears-even w (n / 2) h (clear_lowest w (n / 2) h (omega (arith, pow-suc 2 w))))
]

pub falses-add : (m n : ℕ) → falses (m + n) ≡ falses m ++ falses n
falses-add zero n = rw zero-add
falses-add (suc m) n = rw suc-add (ap (◌∷◌ false) (falses-add m n))

ClearsFirst-after :
    (m p : ℕ) (fs gs : List Bool)
    → ClearsFirst p fs gs
    → ClearsFirst (m + p) (falses m ++ fs) (falses m ++ gs)
ClearsFirst-after m p fs gs (rest, e, f) =
    (rest, rw (e, falses-add m p, append_assoc), rw (f, falses-add m p, append_assoc))

ClearsFirst-before :
    (p : ℕ) (fs gs hs : List Bool) → ClearsFirst p fs gs → ClearsFirst p (fs ++ hs) (gs ++ hs)
ClearsFirst-before p fs gs hs (rest, e, f) =
    (rest ++ hs, rw (e, append_assoc), rw (f, append_assoc))

-- All chunks in front of the current one are 0.
abbrev pub ZeroBelow : List ℕ → ℕ → Type 0
ZeroBelow [] c = Unit
ZeroBelow (b ∷ bs) zero = Unit
ZeroBelow (b ∷ bs) (suc c) = (b ≡ 0) × ZeroBelow bs c

-- Clearing the lowest bit of the first chunk that is not 0 clears the first flag of all.
pub clear_chunk :
    (chunks : List ℕ) (c n : ℕ)
    → ZeroBelow chunks c
    → get_elem? chunks c ≡ some n
    → 0 < n
    → n < 2 ^ 64
    → ClearsFirst
        (64 * c + trailing_zeros 64 n)
        (flags chunks)
        (flags (set chunks c (bit_and n (n - 1))))
unfolding flags
clear_chunk [] c n z e p q = cc
clear_chunk (b ∷ bs) zero n z e p q =
    let same : b ≡ n = ground arith in
    let none_before : 64 * 0 + trailing_zeros 64 n ≡ trailing_zeros 64 n = omega arith in
    rw (same, none_before) (ClearsFirst-before _ _ _ (flags bs) (clear_lowest 64 n p q))
clear_chunk (b ∷ bs) (suc c) n (b0, z) e p q =
    let shift : 64 * suc c + trailing_zeros 64 n ≡ 64 + (64 * c + trailing_zeros 64 n) =
      omega arith in
    rw (b0, shift) (ClearsFirst-after 64 _ _ _ (clear_chunk bs c n z e p q))
