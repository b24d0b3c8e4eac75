-- ===== src/Interface/Link/Oversize.antt =====
-- Packets that the IPv4 handler accepts and that do not fit a frame.
use narth_network.Base.{ℕ, ◌+◌, ◌%◌, ◌≤◌, ◌<◌, ◌≡◌, false, some, arith, ltb, ltb-false, panicked}
use narth_network.Wire.Writer.{WriteToBuffer}
use narth_network.Ethernet.Mac.{MacAddr}
use narth_network.Ethernet.{ipv4}
use narth_network.Ipv4.{ipv4_new, ipv4_encoded_length}
use narth_network.Ipv4.Fields.{Protocol}
use narth_network.ArpTable.{ArpTable, request, resolved}
use narth_network.RouteTable.{Route, lookup_route}
use narth_network.Interface.{InterfaceContext, World}
use narth_network.Interface.Link.{arp_state, frame_writer, deliver_ipv4, link_send_ipv4}
use narth_network.Interface.Link.Pushes.{ethernet_send-panics}
use narth_network.Interface.Ip.{or_unspecified, next_hop_of, send_by, ipv4_send}

module _ (w : World) where
  -- A payload of at least eight bytes that leaves fewer than 14 bytes of the interface's `mtu`
  -- behind the IPv4 header is not refused as too large, and panics once the next hop is resolved.
  pub ipv4_send-panics :
      {P : Type 0} (writer : WriteToBuffer P) (source destination : ℕ) (protocol : Protocol)
      (payload : P) (ctx : InterfaceContext) (route : Route) (mac : MacAddr) (table : ArpTable)
      → 8 ≤ writer.encoded_length payload
      → writer.encoded_length payload + 20 ≤ ctx.mtu
      → ctx.mtu < writer.encoded_length payload + 34
      → lookup_route destination ctx.ipv4_route_table ≡ some route
      → request
          (w.clock ctx.readings)
          (w.clock (ctx.readings + 1))
          (next_hop_of route destination)
          (or_unspecified source route.source)
          ctx.arp_table
        ≡ (table, resolved mac)
      → ipv4_send w writer source destination protocol payload ctx ≡ panicked
  unfolding ipv4_send send_by link_send_ipv4 arp_state deliver_ipv4 ipv4_encoded_length ipv4_new
  ipv4_send-panics writer source destination protocol payload ctx route mac table l s g found held =
      let long : ltb (writer.encoded_length payload) 8 ≡ false = ltb-false l in
      let small : ltb ctx.mtu (writer.encoded_length payload + 20) ≡ false = ltb-false s in
      rw (long, small, found, held)
        (ethernet_send-panics w (frame_writer w writer) mac ipv4
          (
            ipv4_new (w.random ctx.draws) protocol (or_unspecified source route.source) destination
                (writer.encoded_length payload % 65536),
            payload,
          )
          (record ctx { arp_table = table; readings = ctx.readings + 2; draws = ctx.draws + 1 })
          (omega (arith, g)))
