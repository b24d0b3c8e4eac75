-- ===== src/Dhcp/Utf8.antt =====
-- Texts of DHCP messages, as their bytes: `from_utf8`, which lib/src/protocols/ipv4/dhcp.rs calls.
use narth_network.Base.{
  ℕ, ◌-◌, Bool, false, ◌&&◌, Option, none, some, [], ◌∷◌, leb, ◌==◌, if◌then◌else◌,
}
use narth_network.Wire.{Bytes}

-- How many bytes of a character are still to come, and the bounds of the next one.
pub record Utf8State : Type 0 where
  pub pending : ℕ
  pub low : ℕ
  pub high : ℕ

abbrev within : ℕ → ℕ → ℕ → Bool
within low high b = leb low b && leb b high

abbrev ahead : ℕ → ℕ → ℕ → Option Utf8State
ahead n low high = some (record { pending = n; low = low; high = high })

-- The bounds of the second byte rule out overlong forms, surrogates and numbers beyond 0x10ffff.
abbrev utf8_lead : ℕ → Option Utf8State
utf8_lead b =
    if leb b 0x7f
    then ahead 0 0 0
    else if within 0xc2 0xdf b
    then ahead 1 0x80 0xbf
    else if b == 0xe0
    then ahead 2 0xa0 0xbf
    else if b == 0xed
    then ahead 2 0x80 0x9f
    else if within 0xe1 0xef b
    then ahead 2 0x80 0xbf
    else if b == 0xf0
    then ahead 3 0x90 0xbf
    else if within 0xf1 0xf3 b
    then ahead 3 0x80 0xbf
    else if b == 0xf4
    then ahead 3 0x80 0x8f
    else none

abbrev utf8_next : Utf8State → ℕ → Option Utf8State
utf8_next s b =
    if s.pending == 0
    then utf8_lead b
    else if within s.low s.high b
    then ahead (s.pending - 1) 0x80 0xbf
    else none

unfoldable utf8_from : Utf8State → Bytes → Bool
utf8_from s [] = s.pending == 0
utf8_from s (b ∷ bs) = elim (utf8_next s b) [ none ↦ false | some t ↦ utf8_from t bs ]

unfoldable pub is_utf8 : Bytes → Bool
unfolding utf8_from
is_utf8 bytes = utf8_from (record { pending = 0; low = 0; high = 0 }) bytes
