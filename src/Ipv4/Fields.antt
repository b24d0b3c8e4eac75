-- ===== src/Ipv4/Fields.antt =====
-- lib/src/protocols/ipv4.rs: the structured fields of the IPv4 header, and `prefix_to_mask`.
use narth_network.Base.{
  ℕ, ◌-◌, ◌*◌, ◌%◌, ◌^◌, bit_and, bit_or, Bool, List, [], ◌∷◌, ◌++◌, leb, ◌==◌, if◌then◌else◌, Io,
  ok, panicked, ◌>>=◌,
}
use narth_network.Wire.{Bytes, put_u16, index, slice, u16_of_slice}
use narth_network.Wire.Bitmatch.{PatternBit, Bitmatch, zero_bit, one_bit, any_bit}

pub data Precedence : Type 0 where
  network_control internetwork_control critical_and_emergency_call_processing : Precedence
  flash_override flash immediate priority routine : Precedence

pub record TypeOfService : Type 0 where
  pub precedence : Precedence
  pub low_delay : Bool
  pub high_throughput : Bool
  pub high_reliability : Bool

-- `From<TypeOfServicePrecedence> for u8`
pub u8_of_precedence : Precedence → ℕ
u8_of_precedence network_control = 0b1110_0000
u8_of_precedence internetwork_control = 0b1100_0000
u8_of_precedence critical_and_emergency_call_processing = 0b1010_0000
u8_of_precedence flash_override = 0b1000_0000
u8_of_precedence flash = 0b0110_0000
u8_of_precedence immediate = 0b0100_0000
u8_of_precedence priority = 0b0010_0000
u8_of_precedence routine = 0b0000_0000

-- Three given bits in front of `?_????`.
abbrev top_three : PatternBit → PatternBit → PatternBit → List PatternBit
top_three a b c = a ∷ b ∷ c ∷ any_bit ∷ any_bit ∷ any_bit ∷ any_bit ∷ any_bit ∷ []

module _ (m : Bitmatch) where
  -- `From<u8> for TypeOfServicePrecedence`; the last arm, `111?_????`, takes what is left.
  precedence_from : ℕ → Precedence
  precedence_from n =
      if m.matches (top_three zero_bit zero_bit zero_bit) n
      then routine
      else if m.matches (top_three zero_bit zero_bit one_bit) n
      then priority
      else if m.matches (top_three zero_bit one_bit zero_bit) n
      then immediate
      else if m.matches (top_three zero_bit one_bit one_bit) n
      then flash
      else if m.matches (top_three one_bit zero_bit zero_bit) n
      then flash_override
      else if m.matches (top_three one_bit zero_bit one_bit) n
      then critical_and_emergency_call_processing
      else if m.matches (top_three one_bit one_bit zero_bit) n
      then internetwork_control
      else network_control

  -- The three one-bit parsers: the arm for 1.
  parse_low_delay : ℕ → Bool
  parse_low_delay =
      m.matches (any_bit ∷ any_bit ∷ any_bit ∷ one_bit ∷ any_bit ∷ any_bit ∷ any_bit ∷ any_bit ∷ [])

  parse_high_throughput : ℕ → Bool
  parse_high_throughput =
      m.matches (any_bit ∷ any_bit ∷ any_bit ∷ any_bit ∷ one_bit ∷ any_bit ∷ any_bit ∷ any_bit ∷ [])

  parse_high_reliability : ℕ → Bool
  parse_high_reliability =
      m.matches (any_bit ∷ any_bit ∷ any_bit ∷ any_bit ∷ any_bit ∷ one_bit ∷ any_bit ∷ any_bit ∷ [])

  -- `TypeOfService::parse`
  unfoldable pub tos_parse : ℕ → TypeOfService
  unfolding precedence_from parse_low_delay parse_high_throughput parse_high_reliability
  tos_parse n = record {
    precedence = precedence_from n;
    low_delay = parse_low_delay n;
    high_throughput = parse_high_throughput n;
    high_reliability = parse_high_reliability n;
  }

  -- `From<TypeOfService> for u8`
  unfoldable pub u8_of_tos : TypeOfService → ℕ
  unfolding u8_of_precedence
  u8_of_tos t =
      m.pack_tos (u8_of_precedence t.precedence) t.low_delay t.high_throughput t.high_reliability

pub record FragmentDetails : Type 0 where
  pub identification : ℕ
  pub do_not_fragment : Bool
  pub more_fragments : Bool
  pub offset : ℕ

abbrev pub offset_max : ℕ
offset_max = 0x1fff

module _ (m : Bitmatch) where
  unfoldable pub parse_do_not_fragment : ℕ → Bool
  parse_do_not_fragment =
      m.matches (any_bit ∷ one_bit ∷ any_bit ∷ any_bit ∷ any_bit ∷ any_bit ∷ any_bit ∷ any_bit ∷ [])

  unfoldable pub parse_more_fragments : ℕ → Bool
  parse_more_fragments =
      m.matches (any_bit ∷ any_bit ∷ one_bit ∷ any_bit ∷ any_bit ∷ any_bit ∷ any_bit ∷ any_bit ∷ [])

  -- `TryFrom<&[u8]> for FragmentDetails`
  unfoldable pub fragment_of_slice : Bytes → Io FragmentDetails
  unfolding parse_do_not_fragment parse_more_fragments
  fragment_of_slice value = do
    s ← slice 2 4 value
    raw ← u16_of_slice s
    t ← slice 0 2 value
    identification ← u16_of_slice t
    flags ← index value 2
    ok (record {
      identification = identification;
      do_not_fragment = parse_do_not_fragment flags;
      more_fragments = parse_more_fragments flags;
      offset = bit_and raw offset_max;
    })

-- The flags and the offset, or-ed into one `u16`.
unfoldable pub fragment_raw : FragmentDetails → ℕ
fragment_raw f =
    bit_or
      (bit_or (bit_or 0 (if f.do_not_fragment then 2 ^ 14 else 0))
        (if f.more_fragments then 2 ^ 13 else 0))
      (bit_and f.offset offset_max)

-- `impl WriteToBuffer for FragmentDetails`
unfoldable pub fragment_write : FragmentDetails → Bytes
unfolding fragment_raw
fragment_write f = put_u16 f.identification ++ put_u16 (fragment_raw f)

pub data Protocol : Type 0 where
  icmp tcp udp : Protocol
  other_protocol : ℕ → Protocol

-- `From<u8> for IPProtocolTypes`
unfoldable pub protocol_from : ℕ → Protocol
protocol_from n =
    if n == 1 then icmp else if n == 6 then tcp else if n == 17 then udp else other_protocol n

-- `From<IPProtocolTypes> for u8`
unfoldable pub u8_of_protocol : Protocol → ℕ
u8_of_protocol icmp = 1
u8_of_protocol tcp = 6
u8_of_protocol udp = 17
u8_of_protocol (other_protocol i) = i

-- `prefix_to_mask`, with its assertion; a `u32` shift drops what leaves the word.
unfoldable pub prefix_to_mask : ℕ → Io ℕ
prefix_to_mask prefix =
    if leb prefix 32
    then ok (if prefix == 0 then 0 else 0xffff_ffff * 2 ^ (32 - prefix) % 2 ^ 32)
    else panicked
