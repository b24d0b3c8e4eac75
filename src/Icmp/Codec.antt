-- ===== src/Icmp/Codec.antt =====
-- Echo messages, written with their checksum and read back.
use narth_network.Base.{ℕ, ◌≡◌, refl, Bool, true, false, [], ◌∷◌, ◌++◌, arith, if◌then◌else◌, ok}
use narth_network.Wire.{Bytes, put_u16, index, slice}
use narth_network.Wire.Checksum.{Checksum, pair_eq_refl}
use narth_network.Wire.Bitmatch.{Bitmatch}
use narth_network.Icmp.{
  echo_data_write, icmp_compute_checksum, icmp_compute_checksum_and_update, icmp_write,
  types_from_bytes, icmp_from_bytes,
}
use narth_network.Icmp.Message.{
  EchoMessage, IcmpMessageTypes, IcmpMessage, raw, echo_reply, echo_request,
}

-- A reply or a request.
abbrev pub echo_of : Bool → EchoMessage → IcmpMessageTypes
echo_of true e = echo_reply e
echo_of false e = echo_request e

abbrev echo_type : Bool → ℕ
echo_type is_reply = if is_reply then 0 else 8

module _ (little_endian : Bool) (m : Bitmatch) (c : Checksum) where
  -- The message that is read back: its data has become bytes.
  abbrev pub echo_back : EchoMessage → EchoMessage
  echo_back e = record e { payload = raw (echo_data_write little_endian e.payload) }

  abbrev echo_tail : EchoMessage → Bytes
  echo_tail e =
      put_u16 e.identifier ++ (put_u16 e.sequence_number ++ echo_data_write little_endian e.payload)

  abbrev echo_sum : Bool → EchoMessage → ℕ × ℕ
  echo_sum is_reply e = c.sum (
      (echo_type is_reply ∷ 0 ∷ [])
      ∷ (0 ∷ 0 ∷ [])
      ∷ put_u16 e.identifier
      ∷ put_u16 e.sequence_number
      ∷ echo_data_write little_endian e.payload
      ∷ [])

  abbrev echo_bytes : Bool → EchoMessage → Bytes
  echo_bytes is_reply e =
      echo_type is_reply ∷ 0 ∷ (echo_sum is_reply e).0 ∷ (echo_sum is_reply e).1 ∷ echo_tail e

  -- The receiver adds the same bytes in other pieces.
  same_sum :
      (is_reply : Bool) (e : EchoMessage)
      → c.sum ((echo_type is_reply ∷ 0 ∷ []) ∷ (0 ∷ 0 ∷ []) ∷ echo_tail e ∷ [])
        ≡ echo_sum is_reply e
  same_sum is_reply e = c.streams _ _ refl

  read_echo :
      (is_reply : Bool) (e : EchoMessage)
      → icmp_from_bytes m c (echo_bytes is_reply e)
        ≡ ok (record { checksum = echo_sum is_reply e; message = echo_of is_reply (echo_back e) })
  unfolding icmp_from_bytes types_from_bytes slice index
  read_echo true e = ground (arith, same_sum true e, pair_eq_refl (echo_sum true e))
  read_echo false e = ground (arith, same_sum false e, pair_eq_refl (echo_sum false e))

  -- For an echo request or reply with any data, the checksum is computed and the updated message
  -- is written, and `from_bytes` on the bytes written gives the updated message back, its data as
  -- the bytes that it was written as.
  pub icmp-from_bytes-write :
      (is_reply : Bool) (e : EchoMessage) (before : ℕ × ℕ)
      → (i : IcmpMessage) × (bytes : Bytes) × (icmp_compute_checksum_and_update little_endian m c
            (record { checksum = before; message = echo_of is_reply e })
          ≡ ok i)
        × (icmp_write little_endian m c i ≡ ok bytes)
        × (icmp_from_bytes m c bytes ≡ ok (record i { message = echo_of is_reply (echo_back e) }))
  unfolding icmp_compute_checksum_and_update icmp_compute_checksum icmp_write
  icmp-from_bytes-write true e before = (
    record { checksum = echo_sum true e; message = echo_reply e },
    echo_bytes true e,
    refl,
    refl,
    read_echo true e,
  )
  icmp-from_bytes-write false e before = (
    record { checksum = echo_sum false e; message = echo_request e },
    echo_bytes false e,
    refl,
    refl,
    read_echo false e,
  )
