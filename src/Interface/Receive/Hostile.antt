-- ===== src/Interface/Receive/Hostile.antt =====
-- Packets whose lengths are not checked.
use native.Mathlib.Decide.{dec_le}
use narth_network.Base.{
  ℕ, ◌+◌, ◌-◌, ◌≤◌, ◌<◌, ◌≡◌, refl, ◌≢◌, ◌↔◌, ◌⊎◌, inl, inr, true, false, arith, ltb, ltb-false,
  length, take, drop, >>=-ne-panicked, ok, panicked,
}
use narth_network.Wire.{Bytes, slice}
use narth_network.Wire.Slices.{slice-ok, slice_out_of_range, length-slice}
use narth_network.Ipv4.{Ipv4Header, is_fragmented, ipv4_encoded_length, ipv4_from_bytes}
use narth_network.UdpHeader.{
  UdpHeader, udp_from_bytes, checksum_data, compute_checksum_v4, validate_checksum_v4,
}
use narth_network.PortBindings.{v4}
use narth_network.Interface.{InterfaceContext, World}
use narth_network.Interface.Ip.{is_addr_acceptable}
use narth_network.Interface.Managers.{Managers}
use narth_network.Interface.Udp.Manager.{UdpManager}
use narth_network.Interface.Receive.{accept_ipv4, ipv4_recv}
use narth_network.Interface.Udp.Manager.Operations.{recv_datagram, recv_parsed, udp_recv}

module _ (w : World) where
  -- An IPv4 packet for this host that is whole, and whose total length is below its header's
  -- length or beyond the bytes that arrived, panics.
  pub ipv4_recv-panics :
      (bytes : Bytes) (header : Ipv4Header) (state : InterfaceContext × Managers)
      → ipv4_from_bytes w.bitmatch w.checksum bytes ≡ ok header
      → is_fragmented header ≡ false
      → is_addr_acceptable state.0 header.destination_address ≡ true
      → (header.total_length < ipv4_encoded_length header) ⊎ (length bytes < header.total_length)
      → ipv4_recv w bytes state ≡ panicked
  unfolding ipv4_recv accept_ipv4
  ipv4_recv-panics bytes header state e whole ours h =
      let out : slice (ipv4_encoded_length header) header.total_length bytes ≡ panicked =
        slice_out_of_range (ipv4_encoded_length header) header.total_length bytes h in
      rw (e, whole, ours, out) refl

  validate-ne-panicked :
      (header : UdpHeader) (source destination : ℕ) (payload : Bytes)
      → 8 ≤ header.datagram_length
      → header.datagram_length ≤ length payload + 8
      → validate_checksum_v4 w.checksum header source destination payload ≢ panicked
  unfolding validate_checksum_v4 compute_checksum_v4 checksum_data
  validate-ne-panicked header source destination payload l h =
      let long : ltb header.datagram_length 8 ≡ false = ltb-false l in
      rw (long, slice-ok 0 (header.datagram_length - 8) payload (omega arith) (omega arith))
        (λ e. cc)

  udp_recv-ne-panicked :
      (source destination : ℕ) (bytes : Bytes) (u : UdpManager) (header : UdpHeader)
      → udp_from_bytes bytes ≡ ok header
      → 8 ≤ header.datagram_length
      → header.datagram_length ≤ length bytes
      → udp_recv w (v4 source) (v4 destination) bytes u ≢ panicked
  unfolding udp_recv recv_parsed recv_datagram
  udp_recv-ne-panicked source destination bytes u header e l h =
      let body = slice-ok 8 header.datagram_length bytes l h in
      let size = length-slice 8 header.datagram_length bytes body in
      let payload = take (header.datagram_length - 8) (drop 8 bytes) in
      rw (e, body)
        (>>=-ne-panicked (validate_checksum_v4 w.checksum header source destination payload) _
          (validate-ne-panicked header source destination payload l (omega (arith, size)))
          (λ valid p. cc))

  -- `UdpManager::recv` panics at a datagram between two IPv4 addresses whose length field is below
  -- eight or beyond the bytes that arrived, whatever the manager holds, and at no other whose
  -- header can be read.
  pub udp_recv-panicked :
      (source destination : ℕ) (bytes : Bytes) (u : UdpManager) (header : UdpHeader)
      → udp_from_bytes bytes ≡ ok header
      → (udp_recv w (v4 source) (v4 destination) bytes u ≡ panicked)
        ↔ ((header.datagram_length < 8) ⊎ (length bytes < header.datagram_length))
  unfolding udp_recv recv_parsed
  udp_recv-panicked source destination bytes u header e = (
    λ p. elim (dec_le 8 header.datagram_length) [
      | no low ↦ inl (omega arith)
      | yes high ↦ elim (dec_le header.datagram_length (length bytes)) [
        | no beyond ↦ inr (omega arith)
        | yes inside ↦
            absurd (udp_recv-ne-panicked source destination bytes u header e high inside p)
      ]
    ],
    λ out. rw (e, slice_out_of_range 8 header.datagram_length bytes out) refl,
  )
