-- ===== src/Icmp/Lengths.antt =====
-- How many bytes a message is written in, against what its `encoded_length` says.
use narth_network.Base.{
  ℕ, ◌+◌, ◌≡◌, refl, Bool, ◌∷◌, ◌++◌, arith, length, length-append, >>=-eq-ok, ok,
}
use narth_network.Wire.{Bytes}
use narth_network.Wire.Checksum.{Checksum}
use narth_network.Wire.Bitmatch.{Bitmatch}
use narth_network.Ipv4.{
  Ipv4Header, ipv4_encoded_length, ipv4_front, ipv4_back, ipv4_checksum, ipv4_write,
}
use narth_network.Icmp.UnixData.{length-unix_write}
use narth_network.Icmp.{
  echo_data_length, types_encoded_length, icmp_encoded_length, type_and_code, echo_data_write,
  types_write, icmp_write,
}
use narth_network.Ipv4.Fields.{fragment_write}
use narth_network.Icmp.Message.{
  EchoMessageData, IcmpMessageTypes, IcmpMessage, raw, unix_like, echo_reply,
  destination_unreachable, source_quench, redirect, echo_request, time_exceeded, parameter_problem,
}

-- The bytes of the reserved word, gateway or pointer behind the checksum, echo messages having none.
abbrev pub unwritten : IcmpMessageTypes → ℕ
unwritten (echo_reply e) = 0
unwritten (echo_request e) = 0
unwritten (destination_unreachable d) = 4
unwritten (source_quench b) = 4
unwritten (redirect r) = 4
unwritten (time_exceeded t) = 4
unwritten (parameter_problem p) = 4

-- A header without options, where the message carries one.
abbrev pub IsWritable : IcmpMessageTypes → Type 0
IsWritable (echo_reply e) = Unit
IsWritable (echo_request e) = Unit
IsWritable (destination_unreachable d) = d.ipv4header.header_len ≡ 5
IsWritable (source_quench b) = Unit
IsWritable (redirect r) = Unit
IsWritable (time_exceeded t) = Unit
IsWritable (parameter_problem p) = Unit

module _ (little_endian : Bool) (m : Bitmatch) (c : Checksum) where
  length-echo_data :
      (d : EchoMessageData) → length (echo_data_write little_endian d) ≡ echo_data_length d
  unfolding echo_data_write echo_data_length
  length-echo_data (raw b) = refl
  length-echo_data (unix_like d) = length-unix_write little_endian d

  pub length-ipv4_write :
      (h : Ipv4Header) {bytes : Bytes}
      → ipv4_write m c h ≡ ok bytes
      → length bytes ≡ ipv4_encoded_length h
  unfolding ipv4_write ipv4_front fragment_write ipv4_encoded_length
  length-ipv4_write h e = ground arith

  length-types_write :
      (t : IcmpMessageTypes) {bytes : Bytes}
      → types_write little_endian m c t ≡ ok bytes
      → length bytes + unwritten t ≡ types_encoded_length t
  unfolding types_write types_encoded_length
  length-types_write (echo_reply r) e = ground (arith, length-echo_data r.payload)
  length-types_write (echo_request r) e = ground (arith, length-echo_data r.payload)
  length-types_write (destination_unreachable d) e =
      let (header, p, q) = >>=-eq-ok (ipv4_write m c d.ipv4header) _ e in
      ground (arith, length-ipv4_write d.ipv4header p, length-append header d.datagram)
  length-types_write (source_quench b) e = ground arith
  length-types_write (redirect r) e = ground arith
  length-types_write (time_exceeded t) e = ground arith
  length-types_write (parameter_problem p) e = ground arith

  ipv4_write-ok :
      (h : Ipv4Header) → h.header_len ≡ 5 → (bytes : Bytes) × (ipv4_write m c h ≡ ok bytes)
  unfolding ipv4_write
  ipv4_write-ok h five =
      let sum = ipv4_checksum m c h in
      (ipv4_front m c h ++ (sum.0 ∷ sum.1 ∷ ipv4_back m c h), rw five refl)

  types_write-ok :
      (t : IcmpMessageTypes)
      → IsWritable t
      → (bytes : Bytes) × (types_write little_endian m c t ≡ ok bytes)
  unfolding types_write
  types_write-ok (echo_reply e) h = (_, refl)
  types_write-ok (echo_request e) h = (_, refl)
  types_write-ok (destination_unreachable d) h =
      let (header, e) = ipv4_write-ok d.ipv4header h in (header ++ d.datagram, rw e refl)
  types_write-ok (source_quench b) h = (_, refl)
  types_write-ok (redirect r) h = (_, refl)
  types_write-ok (time_exceeded t) h = (_, refl)
  types_write-ok (parameter_problem p) h = (_, refl)

  -- Every message whose IPv4 header, where it carries one, has five words is written: echo
  -- messages in as many bytes as their encoded length, and messages of every other type in four
  -- bytes fewer.
  pub length-icmp_write :
      (i : IcmpMessage)
      → IsWritable i.message
      → (bytes : Bytes) × (icmp_write little_endian m c i ≡ ok bytes)
        × (length bytes + unwritten i.message ≡ icmp_encoded_length i)
  unfolding icmp_write icmp_encoded_length type_and_code
  length-icmp_write i h =
      let (body, e) = types_write-ok i.message h in
      let (t, code) = type_and_code i.message in
      (
        t ∷ code ∷ i.checksum.0 ∷ i.checksum.1 ∷ body,
        rw e refl,
        omega (arith, length-types_write i.message e),
      )
