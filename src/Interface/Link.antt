-- ===== src/Interface/Link.antt =====
-- lib/src/runtime/interface/l2_ethernet.rs: sending through the Ethernet handler.
pub mod Pushes
pub mod Oversize
use narth_network.Arp
use narth_network.Base.{
  ℕ, ◌+◌, Option, none, some, List, [], ◌∷◌, ◌++◌, ltb, leb, if◌then◌else◌, length, ok, panicked,
  ◌>>=◌,
}
use narth_network.Base.Dict.{lookup, insert}
use narth_network.Wire.{Bytes}
use narth_network.Wire.Writer.{WriteToBuffer, pair_writer}
use narth_network.Ethernet.Mac.{MacAddr}
use narth_network.Ethernet.{
  EtherType, ethernet_new, ethernet_encoded_length, ethernet_writer, ipv4, arp,
}
use narth_network.Ipv4.{Ipv4Header, ipv4_writer}
use narth_network.ArpTable.{
  ArpState, request, can_send_request, pending_retry, restart, pending_wait, timeout, resolved,
  resolved_stale,
}
use narth_network.Interface.{
  InterfaceContext, World, Sending, unless_failed, context_send, arp_resolve_buffer_full,
  arp_timeout, sent, failed,
}

-- `MAX_IPV4_PENDING_BUFFER_SIZE`
abbrev max_ipv4_pending_buffer_size : ℕ
max_ipv4_pending_buffer_size = 5

module _ (w : World) where
  -- `arp_table.request`, with the clock: the reading that an age is measured by, and the one that
  -- an entry is stamped with.
  unfoldable pub arp_state : ℕ → ℕ → InterfaceContext → ArpState × InterfaceContext
  arp_state target source ctx =
      let (table, state) =
        request (w.clock ctx.readings) (w.clock (ctx.readings + 1)) target source ctx.arp_table in
      (state, record ctx { arp_table = table; readings = ctx.readings + 2 })

  -- `EthernetHandler::send`, with its assertion.
  unfoldable pub ethernet_send :
      {P : Type 0} → WriteToBuffer P → MacAddr → EtherType → P → InterfaceContext → Sending
  ethernet_send writer destination ether_type payload ctx =
      let header = ethernet_new ether_type ctx.mac_addr destination in
      if leb (ethernet_encoded_length header + writer.encoded_length payload) ctx.mtu
      then context_send w (pair_writer ethernet_writer writer) (header, payload) ctx
      else panicked

  -- `send_arp_request`
  unfoldable pub send_arp_request : ℕ → ℕ → InterfaceContext → Sending
  unfolding ethernet_send
  send_arp_request target source ctx =
      let (table, allowed) = can_send_request (w.clock ctx.readings) target source ctx.arp_table in
      let asked : InterfaceContext = record ctx {
        arp_table = table;
        readings = ctx.readings + 1;
      } in
      if allowed
      then (let message = Arp.arp_request ctx.mac_addr target source in
          ethernet_send Arp.arp_writer message.target_hardware_addr arp message asked)
      else ok (sent, asked)

  -- `send_gratuitous_arp`
  unfoldable pub send_gratuitous_arp : ℕ → InterfaceContext → Sending
  unfolding ethernet_send
  send_gratuitous_arp addr ctx =
      let message = Arp.gratuitous ctx.mac_addr addr in
      ethernet_send Arp.arp_writer message.target_hardware_addr arp message ctx

  abbrev pub frame_writer : {P : Type 0} → WriteToBuffer P → WriteToBuffer (Ipv4Header × P)
  frame_writer writer = pair_writer (ipv4_writer w.bitmatch w.checksum) writer

  -- The queue of packets that wait for an address.
  abbrev pub queue_of : ℕ → InterfaceContext → List (Ipv4Header × Bytes)
  queue_of addr ctx = elim (lookup addr ctx.ipv4_send_buffer) [ none ↦ [] | some queue ↦ queue ]

  -- The packet is queued behind those that wait for the next hop. Where the queue is full it stands
  -- in the map already.
  unfoldable pub buffer_ipv4 :
      {P : Type 0} → WriteToBuffer P → ℕ → Ipv4Header → P → InterfaceContext → Sending
  buffer_ipv4 writer next_hop header payload ctx =
      let queue = queue_of next_hop ctx in
      if ltb (length queue) max_ipv4_pending_buffer_size
      then (do
        bytes ← writer.write_to_buffer payload
        ok (
          sent,
          record ctx {
            ipv4_send_buffer =
                insert next_hop (queue ++ ((header, bytes) ∷ [])) ctx.ipv4_send_buffer;
          },
        ))
      else ok (failed arp_resolve_buffer_full, ctx)

  -- The first match of `send_ipv4`: whether a request goes out, and for which source.
  abbrev pub request_source : ℕ → ArpState → Option ℕ
  request_source source (pending_retry pending_source) = some pending_source
  request_source source restart = some source
  request_source source (pending_wait deadline) = none
  request_source source timeout = none
  request_source source (resolved mac) = none
  request_source source (resolved_stale mac) = some source

  abbrev pub resolve : ℕ → Option ℕ → InterfaceContext → Sending
  resolve next_hop none ctx = ok (sent, ctx)
  resolve next_hop (some source) ctx = send_arp_request next_hop source ctx

  -- The second match.
  unfoldable pub deliver_ipv4 :
      {P : Type 0} → WriteToBuffer P → ArpState → ℕ → Ipv4Header → P → InterfaceContext → Sending
  unfolding ethernet_send buffer_ipv4
  deliver_ipv4 writer (pending_retry source) next_hop header payload ctx =
      buffer_ipv4 writer next_hop header payload ctx
  deliver_ipv4 writer restart next_hop header payload ctx =
      buffer_ipv4 writer next_hop header payload ctx
  deliver_ipv4 writer (pending_wait deadline) next_hop header payload ctx =
      buffer_ipv4 writer next_hop header payload ctx
  deliver_ipv4 writer timeout next_hop header payload ctx = ok (failed arp_timeout, ctx)
  deliver_ipv4 writer (resolved mac) next_hop header payload ctx =
      ethernet_send (frame_writer writer) mac ipv4 (header, payload) ctx
  deliver_ipv4 writer (resolved_stale mac) next_hop header payload ctx =
      ethernet_send (frame_writer writer) mac ipv4 (header, payload) ctx

  -- `EthernetHandler::send_ipv4`
  unfoldable pub link_send_ipv4 :
      {P : Type 0} → WriteToBuffer P → ℕ → ℕ → Ipv4Header → P → InterfaceContext → Sending
  unfolding send_arp_request deliver_ipv4
  link_send_ipv4 writer next_hop source header payload ctx =
      let (state, asked) = arp_state next_hop source ctx in
      do
        resolution ← resolve next_hop (request_source source state) asked
        unless_failed resolution (deliver_ipv4 writer state next_hop header payload)
