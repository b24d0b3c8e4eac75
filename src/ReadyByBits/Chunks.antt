-- ===== src/ReadyByBits/Chunks.antt =====
-- The chunks behind the flags: words, lengths, and chunks that are done.
use narth_network.Base.{
  ℕ, zero, suc, ◌+◌, ◌*◌, ◌/◌, ◌^◌, ◌<◌, bit_and, ◌≡◌, refl, sym, ap, none, some, List, [], ◌∷◌,
  arith, length, get_elem?, length-append,
}
use narth_network.Wire.Words.{bit_and-le}
use narth_network.ReadyByBits.{set}
use narth_network.ReadyByBits.Flags.{bits, flags, falses, falses-add, ZeroBelow}

-- Every chunk is a `u64`.
abbrev pub AreWords : List ℕ → Type 0
AreWords [] = Unit
AreWords (b ∷ bs) = (b < 2 ^ 64) × AreWords bs

pub AreWords-set :
    (chunks : List ℕ) (c n m : ℕ)
    → AreWords chunks
    → n < 2 ^ 64
    → AreWords (set chunks c (bit_and n m))
AreWords-set [] c n m h p = tt
AreWords-set (b ∷ bs) zero n m (q, h) p = (omega (arith, bit_and-le n m), h)
AreWords-set (b ∷ bs) (suc c) n m (q, h) p = (q, AreWords-set bs c n m h p)

pub AreWords-at :
    (chunks : List ℕ) (c : ℕ) {n : ℕ} → AreWords chunks → get_elem? chunks c ≡ some n → n < 2 ^ 64
AreWords-at [] c h e = cc
AreWords-at (b ∷ bs) zero (q, h) e = ground arith
AreWords-at (b ∷ bs) (suc c) (q, h) e = AreWords-at bs c h e

pub ZeroBelow-set : (chunks : List ℕ) (c n : ℕ) → ZeroBelow chunks c → ZeroBelow (set chunks c n) c
ZeroBelow-set [] c n z = tt
ZeroBelow-set (b ∷ bs) zero n z = tt
ZeroBelow-set (b ∷ bs) (suc c) n (b0, z) = (b0, ZeroBelow-set bs c n z)

pub ZeroBelow-suc :
    (chunks : List ℕ) (c : ℕ)
    → ZeroBelow chunks c
    → get_elem? chunks c ≡ some 0
    → ZeroBelow chunks (suc c)
ZeroBelow-suc [] c z e = tt
ZeroBelow-suc (b ∷ []) zero z e = (ground arith, tt)
ZeroBelow-suc (b ∷ d ∷ bs) zero z e = (ground arith, tt)
ZeroBelow-suc (b ∷ bs) (suc c) (b0, z) e = (b0, ZeroBelow-suc bs c z e)

pub length-set : (chunks : List ℕ) (c n : ℕ) → length (set chunks c n) ≡ length chunks
length-set [] c n = refl
length-set (b ∷ bs) zero n = refl
length-set (b ∷ bs) (suc c) n = ap suc (length-set bs c n)

length-bits : (w n : ℕ) → length (bits w n) ≡ w
length-bits zero n = refl
length-bits (suc w) n = ap suc (length-bits w (n / 2))

pub length-flags : (chunks : List ℕ) → length (flags chunks) ≡ length chunks * 64
unfolding flags
length-flags [] = refl
length-flags (b ∷ bs) =
    omega (arith, length-append (bits 64 b) (flags bs), length-bits 64 b, length-flags bs)

-- Behind the last chunk nothing is left.
pub flags-zero :
    (chunks : List ℕ) (c : ℕ)
    → ZeroBelow chunks c
    → get_elem? chunks c ≡ none
    → flags chunks ≡ falses (length chunks * 64)
unfolding flags
flags-zero [] c z e = refl
flags-zero (b ∷ bs) zero z e = cc
flags-zero (b ∷ bs) (suc c) (b0, z) e =
    let more : suc (length bs) * 64 ≡ 64 + length bs * 64 = omega arith in
    rw (b0, more, flags-zero bs c z e) (sym (falses-add 64 (length bs * 64)))
