-- ===== src/Interface/Receive.antt =====
-- lib/src/runtime/interface/l2_ethernet.rs and lib/src/runtime/interface/l3_ipv4.rs: frames that
-- arrive.
pub mod Answers
pub mod Hostile
use narth_network.Arp
use narth_network.Base.{◌+◌, Bool, true, false, not, if◌then◌else◌, Io, ok, err, panicked, ◌>>=◌}
use narth_network.Wire.{Bytes, slice_from, slice}
use narth_network.Ethernet.{
  EtherType, ethernet_from_bytes, ethernet_encoded_length, ieee8023_length_field, ipv4, arp, vlan,
  ipv6, other,
}
use narth_network.Ipv4.{Ipv4Header, is_fragmented, ipv4_encoded_length, ipv4_from_bytes}
use narth_network.Ipv4.Fields.{Protocol, icmp, tcp, udp, other_protocol}
use narth_network.Icmp.{echo_reply_to, icmp_compute_checksum_and_update, icmp_from_bytes}
use narth_network.Icmp.Message.{
  EchoMessage, IcmpMessageTypes, echo_reply, destination_unreachable, source_quench, redirect,
  echo_request, time_exceeded, parameter_problem,
}
use narth_network.ArpTable.{update_or_insert, update_only, request}
use narth_network.AddressTable.{contains}
use narth_network.PortBindings.{v4}
use narth_network.Interface.{InterfaceContext, World, icmp_unreachable}
use narth_network.Interface.Ip.{is_addr_acceptable, ipv4_send}
use narth_network.Interface.Link.{ethernet_send}
use narth_network.Interface.Managers.{Managers, forward_async_error}
use narth_network.Interface.Resolve.{Handling, dequeue_pending_ipv4}
use narth_network.Interface.Ping.Manager.{icmp_writer, on_echo_reply}
use narth_network.Interface.Udp.Manager.Operations.{udp_recv}

module _ (w : World) where
  -- A `from_bytes` whose error is logged, and ends the handler.
  abbrev pub parsed_or :
      {A : Type 0} → Io A → InterfaceContext × Managers → (A → Handling) → Handling
  parsed_or (ok a) state handle = handle a
  parsed_or (err e) state handle = ok state
  parsed_or panicked state handle = panicked

  -- The reply to an echo request, from the address that it was sent to.
  unfoldable pub answer_echo : Ipv4Header → EchoMessage → InterfaceContext × Managers → Handling
  unfolding ipv4_send echo_reply_to
  answer_echo header echo (ctx, managers) = do
    reply ←
        icmp_compute_checksum_and_update w.little_endian w.bitmatch w.checksum (echo_reply_to echo)
    result ←
        ipv4_send w (icmp_writer w) header.destination_address header.source_address icmp reply ctx
    ok (result.1, managers)

  -- The match of `recv_icmp`; `eprintln` is left out.
  unfoldable pub handle_icmp :
      Ipv4Header → IcmpMessageTypes → InterfaceContext × Managers → Handling
  unfolding answer_echo on_echo_reply forward_async_error
  handle_icmp header (echo_request echo) state = answer_echo header echo state
  handle_icmp header (echo_reply reply) (ctx, managers) = do
    p ← on_echo_reply w header reply ctx.readings managers.ping_manager
    ok (record ctx { readings = ctx.readings + 1 }, record managers { ping_manager = p })
  handle_icmp header (destination_unreachable m) (ctx, managers) = do
    told ← forward_async_error (icmp_unreachable m) managers
    ok (ctx, told)
  handle_icmp header (source_quench b) state = ok state
  handle_icmp header (redirect m) state = ok state
  handle_icmp header (time_exceeded m) state = ok state
  handle_icmp header (parameter_problem m) state = ok state

  -- `recv_icmp`
  unfoldable pub recv_icmp : Ipv4Header → Bytes → InterfaceContext × Managers → Handling
  unfolding handle_icmp
  recv_icmp header payload state =
      parsed_or (icmp_from_bytes w.bitmatch w.checksum payload) state
        (λ message. handle_icmp header message.message state)

  -- The match on the protocol.
  unfoldable pub handle_ipv4 :
      Protocol → Ipv4Header → Bytes → InterfaceContext × Managers → Handling
  unfolding recv_icmp udp_recv
  handle_ipv4 icmp header payload state = recv_icmp header payload state
  handle_ipv4 udp header payload (ctx, managers) = do
    u ←
        udp_recv w (v4 header.source_address) (v4 header.destination_address) payload
          managers.udp_manager
    ok (ctx, record managers { udp_manager = u })
  handle_ipv4 tcp header payload state = ok state
  handle_ipv4 (other_protocol n) header payload state = ok state

  -- `IPv4Handler::recv` behind the header: fragments and other hosts' packets are dropped.
  unfoldable pub accept_ipv4 : Bytes → Ipv4Header → InterfaceContext × Managers → Handling
  unfolding is_fragmented is_addr_acceptable handle_ipv4
  accept_ipv4 bytes header state =
      if is_fragmented header
      then ok state
      else if not (is_addr_acceptable state.0 header.destination_address)
      then ok state
      else (do
        payload ← slice (ipv4_encoded_length header) header.total_length bytes
        handle_ipv4 header.protocol header payload state)

  -- `IPv4Handler::recv`
  unfoldable pub ipv4_recv : Bytes → InterfaceContext × Managers → Handling
  unfolding accept_ipv4
  ipv4_recv bytes state =
      parsed_or (ipv4_from_bytes w.bitmatch w.checksum bytes) state
        (λ header. accept_ipv4 bytes header state)

  abbrev pub is_request : Arp.Operation → Bool
  is_request Arp.request = true
  is_request Arp.reply = false

  -- The reply to a request for one of our addresses.
  unfoldable pub answer_arp : Arp.ArpMessage → InterfaceContext → Io InterfaceContext
  unfolding ethernet_send
  answer_arp message ctx =
      if is_request message.operation
      then (do
        let reply = Arp.arp_reply message ctx.mac_addr message.target_protocol_addr
        result ← ethernet_send w Arp.arp_writer reply.target_hardware_addr arp reply ctx
        ok result.1)
      else ok ctx

  -- The entry of the sender, where it is there or where the target is ours.
  abbrev pub merge_sender : Arp.ArpMessage → InterfaceContext → InterfaceContext × Bool
  merge_sender message ctx =
      let (table, merged) =
        update_only (w.clock ctx.readings) message.sender_hardware_addr message.sender_protocol_addr
          ctx.arp_table in
      (record ctx { arp_table = table; readings = ctx.readings + 1 }, merged)

  abbrev pub insert_sender : Arp.ArpMessage → InterfaceContext → InterfaceContext
  insert_sender message ctx = record ctx {
    arp_table =
        (update_or_insert (w.clock ctx.readings) message.sender_hardware_addr
          message.sender_protocol_addr ctx.arp_table).0;
    readings = ctx.readings + 1;
  }

  abbrev pub or_insert_sender : Arp.ArpMessage → InterfaceContext × Bool → InterfaceContext
  or_insert_sender message (ctx, true) = ctx
  or_insert_sender message (ctx, false) = insert_sender message ctx

  -- What `recv_arp` does with a message.
  unfoldable pub handle_arp : Arp.ArpMessage → InterfaceContext × Managers → Handling
  unfolding answer_arp dequeue_pending_ipv4
  handle_arp message (ctx, managers) =
      let (updated, merged) = merge_sender message ctx in
      if contains message.target_protocol_addr updated.ipv4_addresses
      then (do
        answered ← answer_arp message (or_insert_sender message (updated, merged))
        dequeue_pending_ipv4 w message.sender_hardware_addr message.sender_protocol_addr
            (answered, managers))
      else if merged
      then dequeue_pending_ipv4 w message.sender_hardware_addr message.sender_protocol_addr
          (updated, managers)
      else ok (updated, managers)

  -- `recv_arp`
  unfoldable pub recv_arp : Bytes → InterfaceContext × Managers → Handling
  unfolding handle_arp
  recv_arp bytes state =
      parsed_or (Arp.arp_from_bytes bytes) state (λ message. handle_arp message state)

  unfoldable pub handle_frame : EtherType → Bytes → InterfaceContext × Managers → Handling
  unfolding recv_arp ipv4_recv
  handle_frame arp payload state = recv_arp payload state
  handle_frame ipv4 payload state = ipv4_recv payload state
  handle_frame ipv6 payload state = ok state
  handle_frame vlan payload state = ok state
  handle_frame (ieee8023_length_field n) payload state = ok state
  handle_frame (other n) payload state = ok state

  -- `EthernetHandler::recv`
  unfoldable pub ethernet_recv : Bytes → InterfaceContext × Managers → Handling
  unfolding handle_frame
  ethernet_recv bytes state = parsed_or (ethernet_from_bytes bytes) state (λ header. (do
    payload ← slice_from (ethernet_encoded_length header) bytes
    handle_frame header.ether_type payload state))
