-- ===== src/Wire/Checksum.antt =====
-- The crate internet_checksum, which the headers call and which is not part of this repository: an
-- interface that every checksummed header takes as a parameter.
use narth_network.Base.{ℕ, ◌<◌, ◌≡◌, Bool, true, ◌&&◌, List, [], ◌∷◌, ◌++◌, arith, ◌==◌}
use narth_network.Wire.{Bytes}

-- All slices, one behind the other.
abbrev pub flatten : List Bytes → Bytes
flatten [] = []
flatten (s ∷ ss) = s ++ flatten ss

-- `Checksum::new`, one `add_bytes` for each slice, and `checksum`. The crate documents that bytes
-- may be added in any number of pieces, and that the result is an array of two bytes.
pub record Checksum : Type 0 where
  pub sum : List Bytes → ℕ × ℕ
  pub streams : (xs ys : List Bytes) → flatten xs ≡ flatten ys → sum xs ≡ sum ys
  pub first_byte : (xs : List Bytes) → (sum xs).0 < 256
  pub second_byte : (xs : List Bytes) → (sum xs).1 < 256

-- `==` on `[u8; 2]`.
abbrev pub pair_eq : ℕ × ℕ → ℕ × ℕ → Bool
pair_eq p q = p.0 == q.0 && p.1 == q.1

pub pair_eq_refl : (p : ℕ × ℕ) → pair_eq p p ≡ true
pair_eq_refl p = ground arith
