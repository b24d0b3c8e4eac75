-- ===== src/Interface/Ip.antt =====
-- lib/src/runtime/interface/l3_ipv4.rs: sending through the IPv4 handler.
use narth_network.Base.{
  ℕ, ◌+◌, ◌-◌, ◌/◌, ◌%◌, ◌^◌, Bool, true, none, some, ltb, leb, ◌==◌, if◌then◌else◌, ok,
}
use narth_network.Wire.Writer.{WriteToBuffer}
use narth_network.Ipv4.{length_no_options, ipv4_new}
use narth_network.Ipv4.Fields.{Protocol}
use narth_network.AddressTable.{contains_as_address_or_broadcast, contains_ephemeral_multicast}
use narth_network.RouteTable.{Route, lookup_route}
use narth_network.Interface.{
  InterfaceContext, World, Sending, payload_too_large, payload_too_short, no_route_to_host, failed,
}
use narth_network.Interface.Link.{link_send_ipv4}

-- `or_unspecified`
abbrev pub or_unspecified : ℕ → ℕ → ℕ
or_unspecified addr other = if addr == 0 then other else addr

-- `usize` subtraction, which wraps in a release build.
abbrev pub sub_usize : ℕ → ℕ → ℕ
sub_usize a b = if leb b a then a - b else a + 2 ^ 64 - b

-- `is_broadcast` and `is_multicast` of the address type.
abbrev is_broadcast : ℕ → Bool
is_broadcast addr = addr == 0xffff_ffff

abbrev is_multicast : ℕ → Bool
is_multicast addr = addr / 0x1000_0000 == 14

-- `is_addr_acceptable`
unfoldable pub is_addr_acceptable : InterfaceContext → ℕ → Bool
is_addr_acceptable ctx addr =
    if is_broadcast addr
    then true
    else if is_multicast addr
    then contains_ephemeral_multicast addr ctx.ipv4_addresses
    else contains_as_address_or_broadcast addr ctx.ipv4_addresses

abbrev pub next_hop_of : Route → ℕ → ℕ
next_hop_of route destination = elim route.next_hop [ none ↦ destination | some hop ↦ hop ]

module _ (w : World) where
  -- What `IPv4Handler::send` does with the route that it found.
  unfoldable pub send_by :
      {P : Type 0} → WriteToBuffer P → Route → ℕ → ℕ → Protocol → P → InterfaceContext → Sending
  unfolding link_send_ipv4
  send_by writer route source destination protocol payload ctx =
      let from = or_unspecified source route.source in
      let header =
        ipv4_new (w.random ctx.draws) protocol from destination
          (writer.encoded_length payload % 65536) in
      link_send_ipv4 w writer (next_hop_of route destination) from header payload
        (record ctx { draws = ctx.draws + 1 })

  -- `IPv4Handler::send`
  unfoldable pub ipv4_send :
      {P : Type 0} → WriteToBuffer P → ℕ → ℕ → Protocol → P → InterfaceContext → Sending
  unfolding send_by
  ipv4_send writer source destination protocol payload ctx =
      if ltb (writer.encoded_length payload) 8
      then ok (failed payload_too_short, ctx)
      else if ltb ctx.mtu (writer.encoded_length payload + length_no_options)
      then ok (failed (payload_too_large (sub_usize ctx.mtu length_no_options)), ctx)
      else elim (lookup_route destination ctx.ipv4_route_table) [
        | none ↦ ok (failed no_route_to_host, ctx)
        | some route ↦ send_by writer route source destination protocol payload ctx
      ]
