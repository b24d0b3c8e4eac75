-- ===== src/Base/Post.antt =====
-- What holds of the result of fallible code, where it has one.
use mathlib.Core.Path.{◌≡◌, refl, subst}
use narth_network.Base.Outcome.{Io, ok, err, panicked, ◌>>=◌}

abbrev pub Post {ℓ} : {A : Type ℓ} → Io A → (A → Type 0) → Type 0
Post (ok a) holds = holds a
Post (err e) holds = Unit
Post panicked holds = Unit

-- A chain: what holds behind its first part leads to what holds behind its second.
pub Post->>= {ℓ κ} :
    {A : Type ℓ} {B : Type κ} (mid : A → Type 0) (end : B → Type 0) (first : Io A) (then : A → Io B)
    → Post first mid
    → ((a : A) → mid a → Post (then a) end)
    → Post (first >>= then) end
Post->>= mid end (ok a) then h k = k a h
Post->>= mid end (err e) then h k = tt
Post->>= mid end panicked then h k = tt

-- A chain whose first part is known by its equation only.
pub Post->>=-eq {ℓ κ} :
    {A : Type ℓ} {B : Type κ} (end : B → Type 0) (first : Io A) (then : A → Io B)
    → ((a : A) → first ≡ ok a → Post (then a) end)
    → Post (first >>= then) end
Post->>=-eq end (ok a) then k = k a refl
Post->>=-eq end (err e) then k = tt
Post->>=-eq end panicked then k = tt

pub Post-eq {ℓ} :
    {A : Type ℓ} (holds : A → Type 0) (m : Io A) {a : A} → Post m holds → m ≡ ok a → holds a
Post-eq holds (ok b) {a = a} h e = let p : b ≡ a = cc in subst holds p h
Post-eq holds (err kind) h e = cc
Post-eq holds panicked h e = cc
