-- ===== src/Interface/Sound/Arrived.antt =====
-- Whatever frame arrives, handling it keeps the context sound.
use narth_network.Arp
use narth_network.Base.{◌+◌, refl, inl, inr, Bool, true, false, Bool-cases, Io, ok, err, panicked}
use narth_network.Base.Post.{Post, Post->>=, Post->>=-eq}
use narth_network.Wire.{Bytes, slice_from, slice}
use narth_network.Ethernet.{
  EtherType, ethernet_from_bytes, ethernet_encoded_length, ieee8023_length_field, ipv4, arp, vlan,
  ipv6, other,
}
use narth_network.Ipv4.{Ipv4Header, is_fragmented, ipv4_encoded_length, ipv4_from_bytes}
use narth_network.Ipv4.Fields.{Protocol, icmp, tcp, udp, other_protocol}
use narth_network.Icmp.{echo_reply_to, icmp_from_bytes}
use narth_network.Icmp.Message.{
  EchoMessage, IcmpMessageTypes, IcmpMessage, echo_reply, destination_unreachable, source_quench,
  redirect, echo_request, time_exceeded, parameter_problem,
}
use narth_network.AddressTable.{contains}
use narth_network.PortBindings.{v4}
use narth_network.Interface.{InterfaceContext, World, icmp_unreachable}
use narth_network.Interface.Ip.{is_addr_acceptable}
use narth_network.Interface.Managers.{Managers, forward_async_error}
use narth_network.Interface.Resolve.{Handling}
use narth_network.Interface.Receive.{
  parsed_or, answer_echo, handle_icmp, recv_icmp, handle_ipv4, accept_ipv4, ipv4_recv, is_request,
  answer_arp, merge_sender, or_insert_sender, handle_arp, recv_arp, handle_frame, ethernet_recv,
}
use narth_network.Interface.Sound.{
  IsSound, SoundResult, arp-IsExactAt, asked-IsSound, ethernet_send-IsSound,
}
use narth_network.Interface.Sound.Received.{SoundState, dequeue-IsSound}
use narth_network.Interface.Ping.Manager.{on_echo_reply}
use narth_network.Interface.Sound.Pings.{IsEcho, send_echo-IsSound}
use narth_network.Interface.Udp.Manager.Operations.{udp_recv}

module _ (w : World) where
  parsed_or-IsSound :
      {A : Type 0} (m : Io A) (state : InterfaceContext × Managers) (handle : A → Handling)
      → SoundState state
      → ((a : A) → Post (handle a) SoundState)
      → Post (parsed_or w m state handle) SoundState
  parsed_or-IsSound (ok a) state handle h k = k a
  parsed_or-IsSound (err e) state handle h k = h
  parsed_or-IsSound panicked state handle h k = tt

  answer_echo-IsSound :
      (header : Ipv4Header) (echo : EchoMessage) (state : InterfaceContext × Managers)
      → SoundState state
      → Post (answer_echo w header echo state) SoundState
  unfolding answer_echo IsEcho echo_reply_to
  answer_echo-IsSound header echo (ctx, managers) h =
      send_echo-IsSound w (echo_reply_to echo) header.destination_address header.source_address icmp
        ctx h (refl, tt) _ SoundState (λ r s. s)

  handle_icmp-IsSound :
      (header : Ipv4Header) (message : IcmpMessageTypes) (state : InterfaceContext × Managers)
      → SoundState state
      → Post (handle_icmp w header message state) SoundState
  unfolding handle_icmp
  handle_icmp-IsSound header (echo_request echo) state h = answer_echo-IsSound header echo state h
  handle_icmp-IsSound header (echo_reply reply) (ctx, managers) h =
      Post->>=-eq SoundState (on_echo_reply w header reply ctx.readings managers.ping_manager) _
        (λ p e. asked-IsSound ctx ctx.arp_table (ctx.readings + 1) ctx.draws h)
  handle_icmp-IsSound header (destination_unreachable m) (ctx, managers) h =
      Post->>=-eq SoundState (forward_async_error (icmp_unreachable m) managers) _ (λ told e. h)
  handle_icmp-IsSound header (source_quench b) state h = h
  handle_icmp-IsSound header (redirect m) state h = h
  handle_icmp-IsSound header (time_exceeded m) state h = h
  handle_icmp-IsSound header (parameter_problem m) state h = h

  handle_ipv4-IsSound :
      (protocol : Protocol) (header : Ipv4Header) (payload : Bytes)
      (state : InterfaceContext × Managers)
      → SoundState state
      → Post (handle_ipv4 w protocol header payload state) SoundState
  unfolding handle_ipv4 recv_icmp
  handle_ipv4-IsSound icmp header payload state h =
      parsed_or-IsSound {A = IcmpMessage} (icmp_from_bytes w.bitmatch w.checksum payload) state
        (λ message. handle_icmp w header message.message state) h
        (λ message. handle_icmp-IsSound header message.message state h)
  handle_ipv4-IsSound udp header payload (ctx, managers) h =
      Post->>=-eq SoundState
        (udp_recv w (v4 header.source_address) (v4 header.destination_address) payload
          managers.udp_manager)
        _ (λ u e. h)
  handle_ipv4-IsSound tcp header payload state h = h
  handle_ipv4-IsSound (other_protocol n) header payload state h = h

  accept_ipv4-IsSound :
      (bytes : Bytes) (header : Ipv4Header) (state : InterfaceContext × Managers)
      → SoundState state
      → Post (accept_ipv4 w bytes header state) SoundState
  unfolding accept_ipv4
  accept_ipv4-IsSound bytes header state h = elim (Bool-cases (is_fragmented header)) [
    | inl fragment ↦ rw fragment h
    | inr whole ↦ elim (Bool-cases (is_addr_acceptable state.0 header.destination_address)) [
      | inr foreign ↦ rw (whole, foreign) h
      | inl ours ↦
          rw (whole, ours)
            (Post->>=-eq SoundState (slice (ipv4_encoded_length header) header.total_length bytes) _
              (λ payload e. handle_ipv4-IsSound header.protocol header payload state h))
    ]
  ]

  answer_arp-IsSound :
      (m : Arp.ArpMessage) (ctx : InterfaceContext)
      → IsSound ctx
      → Post (answer_arp w m ctx) IsSound
  unfolding answer_arp
  answer_arp-IsSound m ctx h = elim (Bool-cases (is_request w m.operation)) [
    | inl asks ↦ rw asks (
        Post->>= SoundResult IsSound _ _
          (ethernet_send-IsSound w Arp.arp_writer _ arp _ ctx h (arp-IsExactAt _)) (λ r s. s))
    | inr answers ↦ rw answers h
  ]

  insert-IsSound :
      (m : Arp.ArpMessage) (r : InterfaceContext × Bool)
      → IsSound r.0
      → IsSound (or_insert_sender w m r)
  insert-IsSound m (ctx, true) h = h
  insert-IsSound m (ctx, false) h = asked-IsSound ctx _ (ctx.readings + 1) ctx.draws h

  handle_arp-IsSound :
      (m : Arp.ArpMessage) (state : InterfaceContext × Managers)
      → SoundState state
      → Post (handle_arp w m state) SoundState
  unfolding handle_arp
  handle_arp-IsSound m (ctx, managers) h =
      let r = merge_sender w m ctx in
      let s = asked-IsSound ctx _ (ctx.readings + 1) ctx.draws h in
      let from = dequeue-IsSound w m.sender_hardware_addr m.sender_protocol_addr in
      elim (Bool-cases (contains m.target_protocol_addr ctx.ipv4_addresses)) [
        | inl ours ↦ rw ours (
            Post->>= IsSound SoundState (answer_arp w m (or_insert_sender w m r)) _
              (answer_arp-IsSound m _ (insert-IsSound m r s))
              (λ answered t. from (answered, managers) t))
        | inr foreign ↦ elim (Bool-cases r.1) [
          | inl merged ↦ rw (foreign, merged) (from (r.0, managers) s)
          | inr unchanged ↦ rw (foreign, unchanged) s
        ]
      ]

  handle_frame-IsSound :
      (t : EtherType) (payload : Bytes) (state : InterfaceContext × Managers)
      → SoundState state
      → Post (handle_frame w t payload state) SoundState
  unfolding handle_frame recv_arp ipv4_recv
  handle_frame-IsSound arp payload state h =
      parsed_or-IsSound (Arp.arp_from_bytes payload) state _ h (λ m. handle_arp-IsSound m state h)
  handle_frame-IsSound ipv4 payload state h =
      parsed_or-IsSound (ipv4_from_bytes w.bitmatch w.checksum payload) state _ h
        (λ header. accept_ipv4-IsSound payload header state h)
  handle_frame-IsSound ipv6 payload state h = h
  handle_frame-IsSound vlan payload state h = h
  handle_frame-IsSound (ieee8023_length_field n) payload state h = h
  handle_frame-IsSound (other n) payload state h = h

  pub ethernet_recv-IsSound :
      (bytes : Bytes) (state : InterfaceContext × Managers)
      → SoundState state
      → Post (ethernet_recv w bytes state) SoundState
  unfolding ethernet_recv
  ethernet_recv-IsSound bytes state h =
      parsed_or-IsSound (ethernet_from_bytes bytes) state _ h (λ header.
        Post->>=-eq SoundState (slice_from (ethernet_encoded_length header) bytes) _
          (λ payload e. handle_frame-IsSound header.ether_type payload state h))
