-- ===== src/Icmp.antt =====
-- lib/src/protocols/ipv4/icmp.rs: the ICMP messages, their parsing, writing and checksum.
pub mod Codes
pub mod UnixData
pub mod Message
pub mod UnixRoundTrip
pub mod Codec
pub mod Lengths
use narth_network.Base.{
  ℕ, zero, suc, ◌+◌, Bool, not, List, [], ◌∷◌, ◌++◌, ltb, ◌==◌, if◌then◌else◌, length, Io, map_err,
  unexpected_eof, invalid_data, invalid_input, ok, err, ◌>>=◌,
}
use narth_network.Wire.{Bytes, u16_from_be, put_u16, index, slice_from, slice, ipv4_of_slice}
use narth_network.Wire.Checksum.{Checksum, pair_eq}
use narth_network.Wire.Bitmatch.{Bitmatch}
use narth_network.Ipv4.{ipv4_encoded_length, ipv4_from_bytes, ipv4_write}
use narth_network.Icmp.Codes.{
  unreachable_code_from, u8_of_unreachable_code, time_exceeded_code_from, u8_of_time_exceeded_code,
  redirect_code_from, u8_of_redirect_code,
}
use narth_network.Icmp.UnixData.{EchoMessageDataUnix, unix_length, unix_write, unix_from_bytes}
use narth_network.Icmp.Message.{
  datagram_portion_length, DestinationUnreachableMessage, EchoMessageData, EchoMessage,
  IcmpMessageTypes, IcmpMessage, raw, unix_like, echo_reply, destination_unreachable, source_quench,
  redirect, echo_request, time_exceeded, parameter_problem,
}

pub echo_data_length : EchoMessageData → ℕ
echo_data_length (raw b) = length b
echo_data_length (unix_like d) = unix_length

-- `ICMPMessageTypes::encoded_length`
pub types_encoded_length : IcmpMessageTypes → ℕ
unfolding echo_data_length
types_encoded_length (echo_reply m) = 2 + 2 + echo_data_length m.payload
types_encoded_length (echo_request m) = 2 + 2 + echo_data_length m.payload
types_encoded_length (destination_unreachable m) =
    4 + ipv4_encoded_length m.ipv4header + length m.datagram
types_encoded_length (source_quench b) = 4 + length b
types_encoded_length (redirect m) = 4 + length m.payload
types_encoded_length (time_exceeded m) = 4 + length m.payload
types_encoded_length (parameter_problem m) = 1 + 3 + length m.payload

-- `ICMPMessage::encoded_length`
pub icmp_encoded_length : IcmpMessage → ℕ
icmp_encoded_length i = 1 + 1 + 2 + types_encoded_length i.message

pub type_and_code : IcmpMessageTypes → ℕ × ℕ
type_and_code (echo_reply m) = (0, 0)
type_and_code (destination_unreachable m) = (3, u8_of_unreachable_code m.code)
type_and_code (source_quench b) = (4, 0)
type_and_code (redirect m) = (5, u8_of_redirect_code m.code)
type_and_code (echo_request m) = (8, 0)
type_and_code (time_exceeded m) = (11, u8_of_time_exceeded_code m.code)
type_and_code (parameter_problem m) = (12, 0)

-- `ICMPMessage::echo_reply`; `new_echo_request` takes the clock's data as an argument.
unfoldable pub echo_reply_to : EchoMessage → IcmpMessage
echo_reply_to original = record { checksum = (0, 0); message = echo_reply original }

unfoldable pub new_echo_request : EchoMessageDataUnix → ℕ → ℕ → IcmpMessage
new_echo_request now identifier sequence = record {
  checksum = (0, 0);
  message =
      echo_request
        (record { identifier = identifier; sequence_number = sequence; payload = unix_like now });
}

-- `TryFrom<&Bytes> for EchoMessage`
echo_from_bytes : Bytes → Io EchoMessage
echo_from_bytes bytes = do
  b4 ← index bytes 4
  b5 ← index bytes 5
  b6 ← index bytes 6
  b7 ← index bytes 7
  rest ← slice_from 8 bytes
  ok (record {
    identifier = u16_from_be b4 b5;
    sequence_number = u16_from_be b6 b7;
    payload = raw rest;
  })

-- `EchoMessage::parse_unix_data`
unfoldable pub parse_unix_data : Bool → EchoMessage → Io EchoMessageDataUnix
parse_unix_data little_endian e = elim e.payload [
  | raw bytes ↦ unix_from_bytes little_endian bytes
  | unix_like d ↦ ok d
]

abbrev pub zeros : ℕ → Bytes
zeros zero = []
zeros (suc n) = 0 ∷ zeros n

module _ (little_endian : Bool) where
  pub echo_data_write : EchoMessageData → Bytes
  echo_data_write (raw b) = b
  echo_data_write (unix_like d) = unix_write little_endian d

  module _ (m : Bitmatch) (c : Checksum) where
    -- `ICMPMessageTypes::write_to_buffer`
    pub types_write : IcmpMessageTypes → Io Bytes
    unfolding echo_data_write
    types_write (echo_request e) =
        ok (put_u16 e.identifier ++ (put_u16 e.sequence_number ++ echo_data_write e.payload))
    types_write (echo_reply e) =
        ok (put_u16 e.identifier ++ (put_u16 e.sequence_number ++ echo_data_write e.payload))
    types_write (destination_unreachable d) = do
      header ← ipv4_write m c d.ipv4header
      ok (header ++ d.datagram)
    types_write (source_quench b) = ok b
    types_write (redirect r) = ok r.payload
    types_write (time_exceeded t) = ok t.payload
    types_write (parameter_problem p) = ok p.payload

    -- `add_to_checksum`: the slices added. The header of an unreachable datagram is appended to a
    -- vector that already holds as many zeros.
    checksum_slices : IcmpMessageTypes → Io (List Bytes)
    unfolding echo_data_write
    checksum_slices (echo_reply e) =
        ok (put_u16 e.identifier ∷ put_u16 e.sequence_number ∷ echo_data_write e.payload ∷ [])
    checksum_slices (echo_request e) =
        ok (put_u16 e.identifier ∷ put_u16 e.sequence_number ∷ echo_data_write e.payload ∷ [])
    checksum_slices (destination_unreachable d) = do
      header ← ipv4_write m c d.ipv4header
      ok ((zeros (ipv4_encoded_length d.ipv4header) ++ header) ∷ d.datagram ∷ [])
    checksum_slices (source_quench b) = ok (b ∷ [])
    checksum_slices (redirect r) = ok (r.payload ∷ [])
    checksum_slices (time_exceeded t) = ok (t.payload ∷ [])
    checksum_slices (parameter_problem p) = ok (p.payload ∷ [])

    pub icmp_compute_checksum : IcmpMessage → Io (ℕ × ℕ)
    unfolding type_and_code checksum_slices
    icmp_compute_checksum i = do
      slices ← checksum_slices i.message
      let (t, code) = type_and_code i.message
      ok (c.sum ((t ∷ code ∷ []) ∷ (0 ∷ 0 ∷ []) ∷ slices))

    unfoldable pub icmp_compute_checksum_and_update : IcmpMessage → Io IcmpMessage
    icmp_compute_checksum_and_update i = do
      computed ← icmp_compute_checksum i
      ok (record i { checksum = computed })

    -- `ICMPMessage::write_to_buffer`
    pub icmp_write : IcmpMessage → Io Bytes
    unfolding types_write type_and_code
    icmp_write i = do
      body ← types_write i.message
      let (t, code) = type_and_code i.message
      ok (t ∷ code ∷ i.checksum.0 ∷ i.checksum.1 ∷ body)

module _ (m : Bitmatch) (c : Checksum) where
  -- `TryFrom<(u8, Bytes)> for DestinationUnreachableMessage`; an error of the IPv4 header keeps
  -- its kind.
  unreachable_from_bytes : ℕ → Bytes → Io DestinationUnreachableMessage
  unreachable_from_bytes code bytes = do
    header ← ipv4_from_bytes m c bytes
    let header_len = ipv4_encoded_length header
    if ltb (length bytes) (header_len + datagram_portion_length) then err unexpected_eof else (do
      datagram ← slice header_len (header_len + datagram_portion_length) bytes
      parsed ← unreachable_code_from code
      ok (record { code = parsed; ipv4header = header; datagram = datagram }))

  -- The match on the type in `from_bytes`.
  pub types_from_bytes : ℕ → ℕ → Bytes → Bytes → Io IcmpMessageTypes
  unfolding echo_from_bytes unreachable_from_bytes
  types_from_bytes t code bytes rest =
      if t == 0
      then (do e ← echo_from_bytes bytes; ok (echo_reply e))
      else if t == 3
      then (do d ← unreachable_from_bytes code rest; ok (destination_unreachable d))
      else if t == 4
      then ok (source_quench rest)
      else if t == 5
      then (do
        parsed ← redirect_code_from code
        gateway_slice ← slice 4 8 bytes
        gateway ← map_err invalid_data (ipv4_of_slice gateway_slice)
        ok (redirect (record { code = parsed; gateway = gateway; payload = rest })))
      else if t == 8
      then (do e ← echo_from_bytes bytes; ok (echo_request e))
      else if t == 11
      then (do
        parsed ← time_exceeded_code_from code
        ok (time_exceeded (record { code = parsed; payload = rest })))
      else if t == 12
      then (do
        pointer ← index bytes 5
        ok (parameter_problem (record { pointer = pointer; payload = rest })))
      else err invalid_input

  pub icmp_from_bytes : Bytes → Io IcmpMessage
  unfolding types_from_bytes
  icmp_from_bytes bytes = if ltb (length bytes) 8 then err unexpected_eof else (do
    front ← slice 0 2 bytes
    back ← slice_from 4 bytes
    let computed = c.sum (front ∷ (0 ∷ 0 ∷ []) ∷ back ∷ [])
    b2 ← index bytes 2
    b3 ← index bytes 3
    if not (pair_eq (b2, b3) computed) then err invalid_data else (do
      code ← index bytes 1
      rest ← slice_from 8 bytes
      t ← index bytes 0
      message ← types_from_bytes t code bytes rest
      ok (record { checksum = (b2, b3); message = message })))
