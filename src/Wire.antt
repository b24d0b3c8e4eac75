-- ===== src/Wire.antt =====
-- Bytes on the wire: big-endian words, indexing and slicing, and the trait of
-- lib/src/write_to_buffer.rs.
pub mod Slices
pub mod Checksum
pub mod Bitmatch
pub mod Words
pub mod Writer
use narth_network.Base.{
  ℕ, zero, suc, ◌+◌, ◌-◌, ◌*◌, ◌/◌, ◌%◌, ◌<◌, List, [], ◌∷◌, leb, if◌then◌else◌, Io, unexpected_eof,
  ok, err, panicked, ◌>>=◌,
}

abbrev pub Bytes : Type 0
Bytes = List ℕ

-- Each byte is below 256.
abbrev pub AreBytes : Bytes → Type 0
AreBytes [] = Unit
AreBytes (b ∷ bs) = (b < 256) × AreBytes bs

-- `u16::from_be_bytes`, `u32::from_be_bytes`.
abbrev pub u16_from_be : ℕ → ℕ → ℕ
u16_from_be a b = a * 256 + b

abbrev pub u32_from_be : ℕ → ℕ → ℕ → ℕ → ℕ
u32_from_be a b c d = ((a * 256 + b) * 256 + c) * 256 + d

-- `put_u16`, `u16::to_be_bytes`.
abbrev pub put_u16 : ℕ → Bytes
put_u16 n = n / 256 ∷ n % 256 ∷ []

abbrev pub put_u32 : ℕ → Bytes
put_u32 n = n / 16777216 ∷ n / 65536 % 256 ∷ n / 256 % 256 ∷ n % 256 ∷ []

-- `bytes[i]`: a panic when out of range.
unfoldable pub index : Bytes → ℕ → Io ℕ
index [] i = panicked
index (b ∷ bs) zero = ok b
index (b ∷ bs) (suc i) = index bs i

-- The first `n` bytes, all of them there.
unfoldable pub take_exact : ℕ → Bytes → Io Bytes
take_exact zero bs = ok []
take_exact (suc n) [] = panicked
take_exact (suc n) (b ∷ bs) = do rest ← take_exact n bs; ok (b ∷ rest)

-- `bytes[n..]`
unfoldable pub slice_from : ℕ → Bytes → Io Bytes
slice_from zero bs = ok bs
slice_from (suc n) [] = panicked
slice_from (suc n) (b ∷ bs) = slice_from n bs

-- `bytes[a..b]`: a panic when `b` is past the end or below `a`.
unfoldable pub slice : ℕ → ℕ → Bytes → Io Bytes
unfolding slice_from take_exact
slice a b bs = if leb a b then slice_from a bs >>= take_exact (b - a) else panicked

-- A slice into `[u8; 2]` and on into a big-endian `u16`; `TryFromSliceError` becomes
-- `UnexpectedEof`, as `parse_eol_error` and `err_as_eof` make it.
unfoldable pub u16_of_slice : Bytes → Io ℕ
u16_of_slice (a ∷ b ∷ []) = ok (u16_from_be a b)
u16_of_slice _ = err unexpected_eof

-- A slice into `[u8; 4]` and on into an `Ipv4Addr`, which is its 32-bit number.
unfoldable pub ipv4_of_slice : Bytes → Io ℕ
ipv4_of_slice (a ∷ b ∷ c ∷ d ∷ []) = ok (u32_from_be a b c d)
ipv4_of_slice _ = err unexpected_eof
