-- ===== src/Wire/Slices.antt =====
-- When indexing and slicing succeed, and what they return.
use mathlib.Core.Path.{subst₂}
use native.Mathlib.Nat.{zero-add, add-zero, suc-add}
use native.Mathlib.Decide.{dec_le}
use narth_network.Base.{
  ℕ, zero, suc, ◌+◌, ◌-◌, ◌*◌, ◌≤◌, ◌<◌, ◌≡◌, refl, ap, ◌∙◌, ◌⊎◌, inl, inr, [], ◌∷◌, ◌++◌, arith,
  leb-false, leb-true, length, take, drop, length-drop, length-take, ok, panicked,
}
use narth_network.Wire.{
  Bytes, AreBytes, index, take_exact, slice_from, slice, u16_of_slice, ipv4_of_slice,
}

pub index-ok : (bs : Bytes) (i : ℕ) → i < length bs → (b : ℕ) × (index bs i ≡ ok b)
unfolding index
index-ok [] i h = elim h [ ]
index-ok (b ∷ bs) zero h = (b, refl)
index-ok (b ∷ bs) (suc i) h = index-ok bs i (omega arith)

pub slice_from-ok : (n : ℕ) (bs : Bytes) → n ≤ length bs → slice_from n bs ≡ ok (drop n bs)
unfolding slice_from
slice_from-ok zero bs h = refl
slice_from-ok (suc n) [] h = elim h [ ]
slice_from-ok (suc n) (b ∷ bs) h = slice_from-ok n bs (omega arith)

take_exact-ok : (n : ℕ) (bs : Bytes) → n ≤ length bs → take_exact n bs ≡ ok (take n bs)
unfolding take_exact
take_exact-ok zero bs h = refl
take_exact-ok (suc n) [] h = elim h [ ]
take_exact-ok (suc n) (b ∷ bs) h = rw (take_exact-ok n bs (omega arith))

take_exact-short : (n : ℕ) (bs : Bytes) → length bs < n → take_exact n bs ≡ panicked
unfolding take_exact
take_exact-short zero bs h = elim h [ ]
take_exact-short (suc n) [] h = refl
take_exact-short (suc n) (b ∷ bs) h = rw (take_exact-short n bs (omega arith))

slice_from-short : (n : ℕ) (bs : Bytes) → length bs < n → slice_from n bs ≡ panicked
unfolding slice_from
slice_from-short zero bs h = elim h [ ]
slice_from-short (suc n) [] h = refl
slice_from-short (suc n) (b ∷ bs) h = slice_from-short n bs (omega arith)

-- A slice within the bounds is the bytes at those places.
pub slice-ok :
    (a b : ℕ) (bs : Bytes) → a ≤ b → b ≤ length bs → slice a b bs ≡ ok (take (b - a) (drop a bs))
unfolding slice
slice-ok a b bs h k = rw (leb-true h) (
    rw (slice_from-ok a bs (omega arith))
      (take_exact-ok (b - a) (drop a bs) (omega (arith, length-drop a bs))))

-- A slice that ends past the end panics.
pub slice-short : (a b : ℕ) (bs : Bytes) → a ≤ b → length bs < b → slice a b bs ≡ panicked
unfolding slice
slice-short a b bs h k = elim (dec_le a (length bs)) [
  | yes l ↦ rw (leb-true h) (
      rw (slice_from-ok a bs l)
        (take_exact-short (b - a) (drop a bs) (omega (arith, length-drop a bs))))
  | no l ↦ rw (leb-true h) (rw (slice_from-short a bs (omega arith)))
]

-- So does one that ends before it starts.
pub slice-inverted : (a b : ℕ) (bs : Bytes) → b < a → slice a b bs ≡ panicked
unfolding slice
slice-inverted a b bs h = rw (leb-false h)

-- Either way.
pub slice_out_of_range :
    (a b : ℕ) (bs : Bytes) → (b < a) ⊎ (length bs < b) → slice a b bs ≡ panicked
slice_out_of_range a b bs (inl h) = slice-inverted a b bs h
slice_out_of_range a b bs (inr h) = elim (dec_le a b) [
  | yes p ↦ slice-short a b bs p h
  | no p ↦ slice-inverted a b bs (omega arith)
]

pub slice-bounds :
    (a b : ℕ) (bs : Bytes) {s : Bytes} → slice a b bs ≡ ok s → (a ≤ b) × (b ≤ length bs)
slice-bounds a b bs h = elim (dec_le a b) [
  | yes p ↦ elim (dec_le b (length bs)) [
    | yes q ↦ (p, q)
    | no q ↦ cc (slice-short a b bs p (omega arith))
  ]
  | no p ↦ cc (slice-inverted a b bs (omega arith))
]

slice-eq : (a b : ℕ) (bs : Bytes) {s : Bytes} → slice a b bs ≡ ok s → s ≡ take (b - a) (drop a bs)
slice-eq a b bs h = let (p, q) = slice-bounds a b bs h in cc (slice-ok a b bs p q)

take-add : (m n : ℕ) (xs : Bytes) → take (m + n) xs ≡ take m xs ++ take n (drop m xs)
take-add zero n xs = rw zero-add
take-add (suc m) zero [] = rw (add-zero)
take-add (suc m) (suc n) [] = rw suc-add
take-add (suc m) n (x ∷ xs) = rw suc-add (ap (◌∷◌ x) (take-add m n xs))

drop-add : (m n : ℕ) (xs : Bytes) → drop (m + n) xs ≡ drop n (drop m xs)
drop-add zero n xs = rw zero-add
drop-add (suc m) zero [] = rw add-zero
drop-add (suc m) (suc n) [] = rw suc-add
drop-add (suc m) n (x ∷ xs) = rw suc-add (drop-add m n xs)

take-drop-add :
    (a m n : ℕ) (xs : Bytes)
    → take (m + n) (drop a xs) ≡ take m (drop a xs) ++ take n (drop (a + m) xs)
take-drop-add a m n xs = rw (drop-add a m xs) (take-add m n (drop a xs))

take_between :
    (a b c : ℕ) (xs : Bytes)
    → a ≤ b
    → b ≤ c
    → take (c - a) (drop a xs) ≡ take (b - a) (drop a xs) ++ take (c - b) (drop b xs)
take_between a b c xs p q =
    let e : a + (b - a) ≡ b = omega arith in
    let f : (b - a) + (c - b) ≡ c - a = omega arith in
    subst₂ (λ m k. take m (drop a xs) ≡ take (b - a) (drop a xs) ++ take (c - b) (drop k xs)) f e
      (take-drop-add a (b - a) (c - b) xs)

-- Two adjacent slices are one.
pub slice-join :
    (a b c : ℕ) (bs : Bytes) {s t : Bytes}
    → slice a b bs ≡ ok s
    → slice b c bs ≡ ok t
    → slice a c bs ≡ ok (s ++ t)
slice-join a b c bs h k =
    let (p, _) = slice-bounds a b bs h in
    let (q, r) = slice-bounds b c bs k in
    slice-ok a c bs (omega arith) r
    ∙ ap ok (rw (slice-eq a b bs h, slice-eq b c bs k) (take_between a b c bs p q))

take-AreBytes : (n : ℕ) (bs : Bytes) → AreBytes bs → AreBytes (take n bs)
take-AreBytes zero bs h = tt
take-AreBytes (suc n) [] h = tt
take-AreBytes (suc n) (b ∷ bs) (p, h) = (p, take-AreBytes n bs h)

drop-AreBytes : (n : ℕ) (bs : Bytes) → AreBytes bs → AreBytes (drop n bs)
drop-AreBytes zero bs h = h
drop-AreBytes (suc n) [] h = tt
drop-AreBytes (suc n) (b ∷ bs) (p, h) = drop-AreBytes n bs h

pub slice-AreBytes :
    (a b : ℕ) (bs : Bytes) {s : Bytes} → AreBytes bs → slice a b bs ≡ ok s → AreBytes s
slice-AreBytes a b bs h e =
    rw (slice-eq a b bs e) (take-AreBytes (b - a) (drop a bs) (drop-AreBytes a bs h))

-- The length of a slice.
pub length-slice : (a b : ℕ) (bs : Bytes) {s : Bytes} → slice a b bs ≡ ok s → length s ≡ b - a
length-slice a b bs e =
    let (p, q) = slice-bounds a b bs e in
    rw (slice-eq a b bs e) (omega (arith, length-take (b - a) (drop a bs), length-drop a bs))

-- Two bytes within the bounds are read as a `u16`, four as an address.
pub u16-at :
    (a b : ℕ) (bs : Bytes)
    → b ≡ a + 2
    → b ≤ length bs
    → (s : Bytes) × (n : ℕ) × (slice a b bs ≡ ok s) × (u16_of_slice s ≡ ok n)
unfolding u16_of_slice
u16-at a b bs w h = go (take (b - a) (drop a bs)) e (length-slice a b bs e)
  where
    e : slice a b bs ≡ ok (take (b - a) (drop a bs))
    e = slice-ok a b bs (omega arith) h

    go :
        (s : Bytes)
        → slice a b bs ≡ ok s
        → length s ≡ b - a
        → (t : Bytes) × (n : ℕ) × (slice a b bs ≡ ok t) × (u16_of_slice t ≡ ok n)
    go (x ∷ y ∷ []) p l = (x ∷ y ∷ [], x * 256 + y, p, refl)
    go [] p l = absurd (omega arith)
    go (x ∷ []) p l = absurd (omega arith)
    go (x ∷ y ∷ z ∷ r) p l = absurd (omega arith)

pub ipv4-at :
    (a b : ℕ) (bs : Bytes)
    → b ≡ a + 4
    → b ≤ length bs
    → (s : Bytes) × (n : ℕ) × (slice a b bs ≡ ok s) × (ipv4_of_slice s ≡ ok n)
unfolding ipv4_of_slice
ipv4-at a b bs w h = go (take (b - a) (drop a bs)) e (length-slice a b bs e)
  where
    e : slice a b bs ≡ ok (take (b - a) (drop a bs))
    e = slice-ok a b bs (omega arith) h

    go :
        (s : Bytes)
        → slice a b bs ≡ ok s
        → length s ≡ b - a
        → (t : Bytes) × (n : ℕ) × (slice a b bs ≡ ok t) × (ipv4_of_slice t ≡ ok n)
    go (x ∷ y ∷ z ∷ u ∷ []) p l = (x ∷ y ∷ z ∷ u ∷ [], _, p, refl)
    go [] p l = absurd (omega arith)
    go (x ∷ []) p l = absurd (omega arith)
    go (x ∷ y ∷ []) p l = absurd (omega arith)
    go (x ∷ y ∷ z ∷ []) p l = absurd (omega arith)
    go (x ∷ y ∷ z ∷ u ∷ v ∷ r) p l = absurd (omega arith)

index-drop :
    (bs : Bytes) (i : ℕ) {b : ℕ}
    → index bs i ≡ ok b
    → (r : Bytes) × (drop i bs ≡ b ∷ r) × (i < length bs)
unfolding index
index-drop [] i e = cc
index-drop (x ∷ bs) zero e = (bs, ground arith, omega arith)
index-drop (x ∷ bs) (suc i) e = let (r, p, l) = index-drop bs i e in (r, p, omega arith)

-- One byte is a slice of length one.
pub index-slice :
    (i : ℕ) (bs : Bytes) {b : ℕ} → index bs i ≡ ok b → slice i (i + 1) bs ≡ ok (b ∷ [])
index-slice i bs e =
    let (r, p, l) = index-drop bs i e in
    let one : i + 1 - i ≡ 1 = omega arith in
    slice-ok i (i + 1) bs (omega arith) (omega arith) ∙ rw (one, p)
