-- ===== src/ReadyByBits/Pick.antt =====
-- What the iterator has to hand out, and the invariant of its loop.
use narth_network.Base.{
  ℕ, zero, suc, ◌+◌, ◌-◌, ◌≤◌, ◌<◌, ◌≡◌, refl, ap, Bool, true, false, Option, none, some, List, [],
  ◌∷◌, ◌++◌, arith, length, get_elem?, drop,
}
use narth_network.ReadyByBits.{ReadyByBits, full_length}
use narth_network.ReadyByBits.Flags.{flags, falses, ZeroBelow}
use narth_network.ReadyByBits.Chunks.{AreWords}

-- The specification: the items that are there and whose flag is set, in the order of the slice.
abbrev pub pick : {T : Type 0} → List Bool → List (Option T) → List T
pick [] items = []
pick (f ∷ fs) [] = []
pick (false ∷ fs) (x ∷ items) = pick fs items
pick (true ∷ fs) (none ∷ items) = pick fs items
pick (true ∷ fs) (some x ∷ items) = x ∷ pick fs items

module _ {T : Type 0} where
  -- How many items stood in front of those that are left.
  abbrev pub consumed : ReadyByBits T → ℕ
  consumed it = full_length it.ready_bits - length it.items

  -- What the iterator has yet to hand out.
  abbrev pub wanted : ReadyByBits T → List T
  wanted it = pick (drop (consumed it) (flags it.ready_bits)) it.items

  -- What holds between two turns: the items left are the end of the full slice, chunks already
  -- passed are 0, and so is each flag in front of the items left.
  pub record IsValid (it : ReadyByBits T) : Type 0 where
    pub fits : length it.items ≤ full_length it.ready_bits
    pub words : AreWords it.ready_bits
    pub passed : ZeroBelow it.ready_bits it.current_chunk
    pub quiet :
        flags it.ready_bits ≡ falses (consumed it) ++ drop (consumed it) (flags it.ready_bits)

abbrev pub count : List Bool → ℕ
count [] = 0
count (true ∷ fs) = suc (count fs)
count (false ∷ fs) = count fs

-- Each turn lowers the flags that are set, or the chunks ahead.
abbrev pub measure : {T : Type 0} → ReadyByBits T → ℕ
measure it = count (flags it.ready_bits) + (length it.ready_bits - it.current_chunk)

pub drop-falses : (n : ℕ) (fs : List Bool) → drop n (falses n ++ fs) ≡ fs
drop-falses zero fs = refl
drop-falses (suc n) fs = drop-falses n fs

pub count-falses : (n : ℕ) (fs : List Bool) → count (falses n ++ fs) ≡ count fs
count-falses zero fs = refl
count-falses (suc n) fs = count-falses n fs

pub length-falses : (n : ℕ) → length (falses n) ≡ n
length-falses zero = refl
length-falses (suc n) = ap suc (length-falses n)

-- The first flag that is set stands behind any run of flags that are not.
pub first_after :
    (p o : ℕ) (rest behind : List Bool)
    → falses p ++ (true ∷ rest) ≡ falses o ++ behind
    → (o ≤ p) × (behind ≡ falses (p - o) ++ (true ∷ rest))
first_after p zero rest behind e = (omega arith, ground arith)
first_after zero (suc o) rest behind e = absurd (ground arith)
first_after (suc p) (suc o) rest behind e =
    let (h, k) = first_after p o rest behind (ground arith) in
    let fewer : suc p - suc o ≡ p - o = omega arith in (omega arith, rw fewer k)

pub pick-none :
    {T : Type 0} (d : ℕ) (rest : List Bool) (items : List (Option T))
    → get_elem? items d ≡ some none
    → pick (falses d ++ (true ∷ rest)) items ≡ pick (falses d ++ (false ∷ rest)) items
pick-none d rest [] e = cc
pick-none zero rest (x ∷ items) e = ground arith
pick-none (suc d) rest (x ∷ items) e = pick-none d rest items e

pub pick-some :
    {T : Type 0} (d : ℕ) (rest : List Bool) (items : List (Option T)) (x : T)
    → get_elem? items d ≡ some (some x)
    → pick (falses d ++ (true ∷ rest)) items ≡ x ∷ pick rest (drop (d + 1) items)
pick-some d rest [] x e = cc
pick-some zero rest (y ∷ items) x e = ground arith
pick-some (suc d) rest (y ∷ items) x e =
    let next_one : suc d + 1 ≡ suc (d + 1) = omega arith in rw next_one (pick-some d rest items x e)

pub pick-falses : {T : Type 0} (n : ℕ) (items : List (Option T)) → pick (falses n) items ≡ []
pick-falses zero items = refl
pick-falses (suc n) [] = refl
pick-falses (suc n) (x ∷ items) = pick-falses n items

pub drop-falses-sub : (o n : ℕ) → drop o (falses n) ≡ falses (n - o)
drop-falses-sub zero n = let whole : n - 0 ≡ n = omega arith in rw whole
drop-falses-sub (suc o) zero = let nothing : 0 - suc o ≡ 0 = omega arith in rw nothing
drop-falses-sub (suc o) (suc n) =
    let fewer : suc n - suc o ≡ n - o = omega arith in rw fewer (drop-falses-sub o n)

-- A run of unset flags splits anywhere.
pub falses-split :
    (p o : ℕ) (fs : List Bool) → o ≤ p → falses p ++ fs ≡ falses o ++ (falses (p - o) ++ fs)
falses-split p zero fs h = let whole : p - 0 ≡ p = omega arith in rw whole
falses-split zero (suc o) fs h = absurd (omega arith)
falses-split (suc p) (suc o) fs h =
    let fewer : suc p - suc o ≡ p - o = omega arith in
    rw fewer (ap (◌∷◌ false) (falses-split p o fs (omega arith)))

pub falses-next : (p : ℕ) (fs : List Bool) → falses p ++ (false ∷ fs) ≡ falses (p + 1) ++ fs
falses-next zero fs = refl
falses-next (suc p) fs =
    let later : suc p + 1 ≡ suc (p + 1) = omega arith in
    rw later (ap (◌∷◌ false) (falses-next p fs))

module _ {ℓ} {A : Type ℓ} where
  pub get_elem?-lt : (xs : List A) (i : ℕ) {a : A} → get_elem? xs i ≡ some a → i < length xs
  get_elem?-lt [] i e = cc
  get_elem?-lt (x ∷ xs) zero e = omega arith
  get_elem?-lt (x ∷ xs) (suc i) e = omega (arith, get_elem?-lt xs i e)

  pub get_elem?-some : (xs : List A) (i : ℕ) → i < length xs → (a : A) × (get_elem? xs i ≡ some a)
  get_elem?-some [] i h = elim h [ ]
  get_elem?-some (x ∷ xs) zero h = (x, refl)
  get_elem?-some (x ∷ xs) (suc i) h = get_elem?-some xs i (omega arith)
