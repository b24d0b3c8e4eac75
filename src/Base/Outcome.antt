-- ===== src/Base/Outcome.antt =====
-- Outcomes of fallible code: `std::io::Result`, with a panic (an index or a slice out of range, a
-- failed assertion) as a third case. Of an error only its `ErrorKind` is kept, not its text.
use mathlib.Core.Path.{◌≡◌, refl}
use mathlib.Core.Logic.{◌≢◌}

pub data ErrorKind : Type 0 where
  unexpected_eof invalid_data invalid_input : ErrorKind

pub data Io {ℓ} (A : Type ℓ) : Type ℓ where
  ok : A → Io A
  err : ErrorKind → Io A
  panicked : Io A

-- `?`, and the unwinding of a panic.
infixl 5 ◌>>=◌
abbrev pub ◌>>=◌ {ℓ κ} : {A : Type ℓ} {B : Type κ} → Io A → (A → Io B) → Io B
ok a >>= f = f a
err e >>= f = err e
panicked >>= f = panicked

-- `map_err` to a fixed kind.
abbrev pub map_err {ℓ} : {A : Type ℓ} → ErrorKind → Io A → Io A
map_err k (ok a) = ok a
map_err k (err e) = err k
map_err k panicked = panicked

-- Where a chain succeeds, each of its two parts does.
pub >>=-eq-ok {ℓ κ} :
    {A : Type ℓ} {B : Type κ} (first : Io A) (then : A → Io B) {result : B}
    → (first >>= then) ≡ ok result
    → (middle : A) × (first ≡ ok middle) × (then middle ≡ ok result)
>>=-eq-ok panicked then e = cc
>>=-eq-ok (err kind) then e = cc
>>=-eq-ok (ok middle) then e = (middle, refl, e)

-- Code that cannot panic at any step cannot panic.
pub >>=-ne-panicked {ℓ κ} :
    {A : Type ℓ} {B : Type κ} (m : Io A) (f : A → Io B)
    → m ≢ panicked
    → ((a : A) → f a ≢ panicked)
    → (m >>= f) ≢ panicked
>>=-ne-panicked (ok a) f h k = k a
>>=-ne-panicked (err e) f h k = λ p. cc
>>=-ne-panicked panicked f h k = absurd (h refl)
