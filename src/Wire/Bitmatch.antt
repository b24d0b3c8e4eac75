-- ===== src/Wire/Bitmatch.antt =====
-- The macro crate bitmatch, which the IPv4 header uses for bit patterns and which is not part of
-- this repository: an interface over the patterns that the source writes.
use narth_network.Base.{
  ℕ, ◌+◌, ◌*◌, ◌/◌, ◌%◌, ◌<◌, ◌≡◌, Bool, true, not, ◌&&◌, List, [], ◌∷◌, ◌==◌, if◌then◌else◌,
}

-- One place of a pattern, `0`, `1` or `?`; a pattern lists them from the highest bit.
pub data PatternBit : Type 0 where
  zero_bit one_bit any_bit : PatternBit

abbrev agrees_bit : PatternBit → Bool → Bool
agrees_bit zero_bit b = not b
agrees_bit one_bit b = b
agrees_bit any_bit b = true

-- The documented meaning of a pattern: each `0` and `1` stands at a bit of that value. The number
-- is the weight of the pattern's first place.
abbrev pub agrees : List PatternBit → ℕ → ℕ → Bool
agrees [] weight n = true
agrees (p ∷ ps) weight n = agrees_bit p (n / weight % 2 == 1) && agrees ps (weight / 2) n

abbrev pub bit : Bool → ℕ
bit b = if b then 1 else 0

pub record Bitmatch : Type 0 where
  -- `#[bitmatch] match` on a `u8`: whether an arm's pattern matches.
  pub matches : List PatternBit → ℕ → Bool
  -- `bitpack!("aaaabbbb")`
  pub pack_nibbles : ℕ → ℕ → ℕ
  -- `bitpack!("aaab_cd00")`
  pub pack_tos : ℕ → Bool → Bool → Bool → ℕ
  pub matches_lem : (ps : List PatternBit) (n : ℕ) → n < 256 → matches ps n ≡ agrees ps 128 n
  pub pack_nibbles_lem : (a b : ℕ) → a < 16 → b < 16 → pack_nibbles a b ≡ a * 16 + b
  -- A letter that stands three times takes the lowest three bits of its variable.
  pub pack_tos_lem :
      (a : ℕ) (b c d : Bool) → pack_tos a b c d ≡ a % 8 * 32 + bit b * 16 + bit c * 8 + bit d * 4
