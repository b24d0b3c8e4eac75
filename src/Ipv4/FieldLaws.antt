-- ===== src/Ipv4/FieldLaws.antt =====
-- What survives when the structured fields of the IPv4 header are written and read.
use narth_network.Base.{
  ℕ, ◌+◌, ◌*◌, ◌/◌, ◌%◌, ◌^◌, ◌≤◌, ◌<◌, ◌≡◌, ◌∙◌, Bool, true, false, List, arith, ok,
}
use narth_network.Wire.{index, slice, u16_of_slice}
use narth_network.Wire.Words.{bit_or-add, bit_and-mask}
use narth_network.Wire.Bitmatch.{PatternBit, agrees, bit, Bitmatch}
use narth_network.Ipv4.Fields.{
  TypeOfService, u8_of_precedence, tos_parse, u8_of_tos, FragmentDetails, offset_max,
  parse_do_not_fragment, parse_more_fragments, fragment_of_slice, fragment_raw, fragment_write,
  Protocol, protocol_from, u8_of_protocol, routine,
}

module _ (m : Bitmatch) where
  u8_of_tos-eq :
      (t : TypeOfService)
      → u8_of_tos m t
        ≡ bit t.low_delay * 16 + bit t.high_throughput * 8 + bit t.high_reliability * 4
  unfolding u8_of_tos
  u8_of_tos-eq t = ground (
    arith,
    m.pack_tos_lem (u8_of_precedence t.precedence) t.low_delay t.high_throughput t.high_reliability,
  )

  -- Every byte is parsed place by place.
  matches-at : (n : ℕ) → n < 256 → (ps : List PatternBit) → m.matches ps n ≡ agrees ps 128 n
  matches-at n h ps = m.matches_lem ps n h

  tos_parse-bits :
      (b c d : Bool)
      → tos_parse m (bit b * 16 + bit c * 8 + bit d * 4)
        ≡ record { precedence = routine; low_delay = b; high_throughput = c; high_reliability = d }
  unfolding tos_parse
  tos_parse-bits false false false = simp (matches-at 0 (omega arith))
  tos_parse-bits false false true = simp (matches-at 4 (omega arith))
  tos_parse-bits false true false = simp (matches-at 8 (omega arith))
  tos_parse-bits false true true = simp (matches-at 12 (omega arith))
  tos_parse-bits true false false = simp (matches-at 16 (omega arith))
  tos_parse-bits true false true = simp (matches-at 20 (omega arith))
  tos_parse-bits true true false = simp (matches-at 24 (omega arith))
  tos_parse-bits true true true = simp (matches-at 28 (omega arith))

  -- A type of service packed into its byte and parsed again keeps its three flags, and its
  -- precedence becomes routine, whichever it was.
  pub tos_parse-u8_of_tos :
      (t : TypeOfService) → tos_parse m (u8_of_tos m t) ≡ record t { precedence = routine }
  tos_parse-u8_of_tos t =
      rw (u8_of_tos-eq t) (tos_parse-bits t.low_delay t.high_throughput t.high_reliability)

-- The or-ed word is a sum of its fields.
fragment_raw-eq :
    (f : FragmentDetails)
    → f.offset ≤ offset_max
    → fragment_raw f ≡ bit f.do_not_fragment * 2 ^ 14 + bit f.more_fragments * 2 ^ 13 + f.offset
unfolding fragment_raw
fragment_raw-eq f h =
    let low = bit_and-mask 13 f.offset in
    ground (
      arith,
      low,
      bit_or-add 13 0 f.offset,
      bit_or-add 13 1 f.offset,
      bit_or-add 13 2 f.offset,
      bit_or-add 13 3 f.offset,
    )

module _ (m : Bitmatch) where
  flags-read :
      (f : FragmentDetails)
      → f.offset ≤ offset_max
      → (parse_do_not_fragment m (fragment_raw f / 256) ≡ f.do_not_fragment)
        × (parse_more_fragments m (fragment_raw f / 256) ≡ f.more_fragments)
  unfolding parse_do_not_fragment parse_more_fragments
  flags-read f h =
      let raw = fragment_raw-eq f h in
      let byte : fragment_raw f / 256 < 256 = ground (arith, raw) in
      (
        m.matches_lem _ (fragment_raw f / 256) byte ∙ ground (arith, raw),
        m.matches_lem _ (fragment_raw f / 256) byte ∙ ground (arith, raw),
      )

  -- Fragment details whose offset has 13 bits are read back from what they are written as.
  pub fragment_of_slice-write :
      (f : FragmentDetails) → f.offset ≤ offset_max → fragment_of_slice m (fragment_write f) ≡ ok f
  unfolding fragment_of_slice fragment_write slice index u16_of_slice
  fragment_of_slice-write f h = ground (
    arith,
    flags-read f h,
    fragment_raw-eq f h,
    bit_and-mask 13 (fragment_raw f / 256 * 256 + fragment_raw f % 256),
  )

-- Every number is the number of the protocol that it is read as.
u8_of_protocol-from : (n : ℕ) → u8_of_protocol (protocol_from n) ≡ n
unfolding u8_of_protocol protocol_from
u8_of_protocol-from n = ground arith

-- The protocols that `protocol_from` can return: a known number is not kept as `other_protocol`.
abbrev pub IsNamed : Protocol → Type 0
IsNamed p = protocol_from (u8_of_protocol p) ≡ p
