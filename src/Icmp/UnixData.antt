-- ===== src/Icmp/UnixData.antt =====
-- lib/src/protocols/ipv4/icmp.rs: the data that `ping` puts into an echo request.
use narth_network.Base.{
  ℕ, zero, suc, ◌+◌, ◌-◌, ◌*◌, ◌/◌, ◌%◌, ◌^◌, ◌≡◌, refl, ap, Bool, true, false, ◌&&◌, Option, none,
  some, [], ◌∷◌, ◌++◌, arith, ltb, leb, ◌==◌, if◌then◌else◌, length, length-append, Io,
  unexpected_eof, ok, err, panicked, ◌>>=◌,
}
use narth_network.Wire.{Bytes, slice}

-- Durations, in nanoseconds.
pub record EchoMessageDataUnix : Type 0 where
  pub since_epoc : ℕ
  pub monotonic_instant : Option ℕ

-- `LENGTH`
abbrev pub unix_length : ℕ
unix_length = 56

-- `put_u64_ne` and its like: so many bytes of the machine's order.
abbrev pub put_le : ℕ → ℕ → Bytes
put_le zero n = []
put_le (suc w) n = n % 256 ∷ put_le w (n / 256)

abbrev pub put_be : ℕ → ℕ → Bytes
put_be zero n = []
put_be (suc w) n = put_be w (n / 256) ++ (n % 256 ∷ [])

abbrev pub put_ne : Bool → ℕ → ℕ → Bytes
put_ne little_endian w n = if little_endian then put_le w n else put_be w n

-- `EMPTY[from..]`: so many bytes that count up.
abbrev pub counting : ℕ → ℕ → Bytes
counting start zero = []
counting start (suc n) = start ∷ counting (start + 1) n

-- What stands behind the two words of the time: the optional instant, and padding to the length.
abbrev pub unix_tail : Bool → Option ℕ → Bytes
unix_tail little_endian none = counting 16 (unix_length - 16)
unix_tail little_endian (some instant) =
    put_ne little_endian 16 instant ++ counting 32 (unix_length - 32)

-- `EchoMessageDataUnix::write_to_buffer`
unfoldable pub unix_write : Bool → EchoMessageDataUnix → Bytes
unix_write little_endian d =
    put_ne little_endian 8 (d.since_epoc / 1000000000)
    ++ (put_ne little_endian 8 (d.since_epoc % 1000000000 / 1000)
        ++ unix_tail little_endian d.monotonic_instant)

-- `u64::from_ne_bytes` and `u128::from_ne_bytes`.
abbrev pub get_le : Bytes → ℕ
get_le [] = 0
get_le (b ∷ bs) = b + get_le bs * 256

abbrev pub get_be : ℕ → Bytes → ℕ
get_be before [] = before
get_be before (b ∷ bs) = get_be (before * 256 + b) bs

abbrev pub get_ne : Bool → Bytes → ℕ
get_ne little_endian bs = if little_endian then get_le bs else get_be 0 bs

abbrev pub bytes_eq : Bytes → Bytes → Bool
bytes_eq [] [] = true
bytes_eq [] (b ∷ bs) = false
bytes_eq (a ∷ as_left) [] = false
bytes_eq (a ∷ as_left) (b ∷ bs) = a == b && bytes_eq as_left bs

-- `Duration::MAX`, and `Duration::from_nanos_u128`, which panics beyond it.
abbrev pub duration_max : ℕ
duration_max = (2 ^ 64 - 1) * 1000000000 + 999999999

abbrev from_nanos : ℕ → Io ℕ
from_nanos n = if leb n duration_max then ok n else panicked

-- The instant, unless the bytes are the padding that stands there without one, or out of range.
abbrev pub unix_instant : Bool → Bytes → Option ℕ
unix_instant little_endian bs =
    let nanos : ℕ = get_ne little_endian bs in
    if bytes_eq bs (counting 16 16)
    then none
    else if ltb 0 nanos && ltb nanos duration_max
    then some nanos
    else none

-- `TryFrom<&Bytes> for EchoMessageDataUnix`; the `u64` product wraps, as in a release build.
unfoldable pub unix_from_bytes : Bool → Bytes → Io EchoMessageDataUnix
unix_from_bytes little_endian value =
    if ltb (length value) unix_length then err unexpected_eof else (do
      sec_slice ← slice 0 8 value
      let sec : ℕ = get_ne little_endian sec_slice
      micros_slice ← slice 8 16 value
      let micros : ℕ = get_ne little_endian micros_slice
      since_epoc ← from_nanos (sec * 1000000000 + micros * 1000 % 2 ^ 64)
      instant_slice ← slice 16 32 value
      ok (record {
        since_epoc = since_epoc;
        monotonic_instant = unix_instant little_endian instant_slice;
      }))

length-put_le : (w n : ℕ) → length (put_le w n) ≡ w
length-put_le zero n = refl
length-put_le (suc w) n = ap suc (length-put_le w (n / 256))

length-put_be : (w n : ℕ) → length (put_be w n) ≡ w
length-put_be zero n = refl
length-put_be (suc w) n =
    omega (arith, length-append (put_be w (n / 256)) (n % 256 ∷ []), length-put_be w (n / 256))

pub length-put_ne : (little_endian : Bool) (w n : ℕ) → length (put_ne little_endian w n) ≡ w
length-put_ne true w n = length-put_le w n
length-put_ne false w n = length-put_be w n

length-unix_tail : (little_endian : Bool) (o : Option ℕ) → length (unix_tail little_endian o) ≡ 40
length-unix_tail little_endian none = refl
length-unix_tail true (some instant) = refl
length-unix_tail false (some instant) = refl

pub length-unix_write :
    (little_endian : Bool) (d : EchoMessageDataUnix)
    → length (unix_write little_endian d) ≡ unix_length
unfolding unix_write
length-unix_write little_endian d =
    let seconds = put_ne little_endian 8 (d.since_epoc / 1000000000) in
    let micros = put_ne little_endian 8 (d.since_epoc % 1000000000 / 1000) in
    let tail = unix_tail little_endian d.monotonic_instant in
    omega (
      arith,
      length-append seconds (micros ++ tail),
      length-append micros tail,
      length-put_ne little_endian 8 (d.since_epoc / 1000000000),
      length-put_ne little_endian 8 (d.since_epoc % 1000000000 / 1000),
      length-unix_tail little_endian d.monotonic_instant,
    )
