-- ===== src/Interface/Sound/Sockets.antt =====
-- The sending of sockets keeps the context sound.
use narth_network.Base.{
  ℕ, inl, inr, Option, none, some, List, [], ◌∷◌, arith, ltb, Bool-cases, length,
}
use narth_network.Base.Post.{Post, Post->>=, Post->>=-eq}
use narth_network.Base.Dict.{lookup}
use narth_network.Wire.{Bytes}
use narth_network.Wire.Writer.{bytes_writer, pair_writer}
use narth_network.UdpHeader.{UdpHeader, udp_write, udp_writer, compute_and_update_checksum_v4}
use narth_network.Ipv4.Fields.{udp}
use narth_network.PortBindings.{IpAddr, SocketAddr, UdpSocketHandle, port_get_mut, v4, v6}
use narth_network.ReadyByBits.{iter_by_ready_bits}
use narth_network.Interface.{
  SendResult, InterfaceContext, World, payload_too_large, payload_too_short, no_route_to_host,
  buffer_full, arp_resolve_buffer_full, arp_timeout, sent, failed,
}
use narth_network.Interface.Udp.{
  UdpSendMessage, Endpoint, connect_to, Handled, set_peer, connect_handle, udp_send_error,
  udp_result, source_ip, udp_send_from, udp_send_if, udp_send_ipv4, send_between, send_datagram,
  drain_message, drain_send, no_address, non_blocking, blocking, update_read_wake_handle,
  update_write_wake_handle, connect, drop_socket,
}
use narth_network.Interface.Udp.Manager.{UdpManager}
use narth_network.Interface.Sound.{IsSound, SoundResult, IsExactAt, pair-IsExactAt, bytes-IsExactAt}
use narth_network.Interface.Sound.Handlers.{ipv4_send-IsSound}
use narth_network.Interface.Udp.Manager.Operations.{
  process_handle, process_shared, process_found, process_ready, process_all, process_buffers,
}

module _ (w : World) where
  udp-IsExactAt : (header : UdpHeader) → IsExactAt udp_writer header
  unfolding IsExactAt udp_write
  udp-IsExactAt header bytes e = ground arith

  udp_send_from-IsSound :
      (source source_port destination destination_port : ℕ) (payload : Bytes)
      (ctx : InterfaceContext)
      → IsSound ctx
      → Post
          (udp_send_from w source source_port destination destination_port payload ctx)
          SoundResult
  unfolding udp_send_from
  udp_send_from-IsSound source source_port destination destination_port payload ctx h =
      elim (Bool-cases (ltb 65535 (length payload))) [
        | inl long ↦ rw long tt
        | inr fits ↦ rw fits (
            Post->>=-eq SoundResult
              (compute_and_update_checksum_v4 w.checksum _ source destination payload) _
              (λ header e.
                ipv4_send-IsSound w (pair_writer udp_writer bytes_writer) source destination udp
                  (header, payload) ctx h
                  (pair-IsExactAt udp_writer bytes_writer header payload (udp-IsExactAt header)
                    (bytes-IsExactAt payload))))
      ]

  udp_send_if-IsSound :
      (source : Option ℕ) (source_port destination destination_port : ℕ) (payload : Bytes)
      (ctx : InterfaceContext)
      → IsSound ctx
      → Post (udp_send_if w source source_port destination destination_port payload ctx) SoundResult
  unfolding udp_send_if
  udp_send_if-IsSound none source_port destination destination_port payload ctx h = h
  udp_send_if-IsSound (some ip) source_port destination destination_port payload ctx h =
      udp_send_from-IsSound ip source_port destination destination_port payload ctx h

  send_between-IsSound :
      (local : IpAddr) (source_port : ℕ) (remote : IpAddr) (destination_port : ℕ) (payload : Bytes)
      (ctx : InterfaceContext)
      → IsSound ctx
      → Post (send_between w local source_port remote destination_port payload ctx) SoundResult
  unfolding send_between udp_send_ipv4
  send_between-IsSound (v4 s) source_port (v4 d) destination_port payload ctx h =
      udp_send_if-IsSound (source_ip w s d ctx.ipv4_route_table) source_port d destination_port
        payload ctx h
  send_between-IsSound (v4 s) source_port (v6 d) destination_port payload ctx h = h
  send_between-IsSound (v6 s) source_port (v4 d) destination_port payload ctx h = h
  send_between-IsSound (v6 s) source_port (v6 d) destination_port payload ctx h = tt

  udp_result-IsSound :
      (r : SendResult × InterfaceContext) (e : Endpoint)
      → IsSound r.1
      → Post (udp_result r e) (λ x. IsSound x.2)
  unfolding udp_send_error
  udp_result-IsSound (sent, ctx) e h = h
  udp_result-IsSound (failed (payload_too_large n), ctx) e h = h
  udp_result-IsSound (failed payload_too_short, ctx) e h = tt
  udp_result-IsSound (failed no_route_to_host, ctx) e h = h
  udp_result-IsSound (failed buffer_full, ctx) e h = h
  udp_result-IsSound (failed arp_resolve_buffer_full, ctx) e h = h
  udp_result-IsSound (failed arp_timeout, ctx) e h = h

  send_datagram-IsSound :
      (destination : SocketAddr) (payload : Bytes) (state : Handled)
      → IsSound state.2
      → Post (send_datagram w destination payload state) (λ r. IsSound r.2)
  unfolding send_datagram
  send_datagram-IsSound destination payload (handle, e, ctx) h =
      Post->>= SoundResult (λ r. IsSound r.2)
        (send_between w handle.local_addr.ip handle.local_addr.port destination.ip destination.port
          payload ctx)
        _
        (send_between-IsSound handle.local_addr.ip handle.local_addr.port destination.ip
          destination.port payload ctx h)
        (λ r s. udp_result-IsSound r e s)

  connect_handle-IsSound :
      (potentials : List SocketAddr) (state : Handled)
      → IsSound state.2
      → IsSound (connect_handle potentials state).2
  unfolding connect_handle
  connect_handle-IsSound potentials (handle, e, ctx) h =
      go (connect_to ctx.ipv4_route_table no_address potentials).0 _
    where
      go :
          (peer : Option SocketAddr) (shared : Endpoint)
          → IsSound (set_peer peer (handle, shared, ctx)).2
      go none shared = h
      go (some p) shared = h

  drain_message-IsSound :
      (m : UdpSendMessage) (state : Handled)
      → IsSound state.2
      → Post (drain_message w m state) (λ r. IsSound r.0.2)
  unfolding drain_message
  drain_message-IsSound (non_blocking destination payload) (handle, e, ctx) h =
      Post->>= (λ r. IsSound r.2) (λ r. IsSound r.0.2) _ _
        (send_datagram-IsSound destination payload (handle, e, ctx) h) (λ r s. s)
  drain_message-IsSound (blocking destination payload) (handle, e, ctx) h =
      Post->>= (λ r. IsSound r.2) (λ r. IsSound r.0.2) _ _
        (send_datagram-IsSound destination payload (handle, e, ctx) h) (λ r s. s)
  drain_message-IsSound update_read_wake_handle (handle, e, ctx) h = h
  drain_message-IsSound update_write_wake_handle (handle, e, ctx) h = h
  drain_message-IsSound (connect potentials) (handle, e, ctx) h =
      connect_handle-IsSound potentials (handle, e, ctx) h
  drain_message-IsSound drop_socket (handle, e, ctx) h = h

  drain_send-IsSound :
      (messages : List UdpSendMessage) (state : Handled)
      → IsSound state.2
      → Post (drain_send w messages state) (λ r. IsSound r.0.2)
  unfolding drain_send
  drain_send-IsSound [] (handle, e, ctx) h = h
  drain_send-IsSound (m ∷ messages) (handle, e, ctx) h =
      Post->>= (λ r. IsSound r.0.2) (λ r. IsSound r.0.2) (drain_message w m _) _
        (drain_message-IsSound m (handle, record e { send_queue = messages }, ctx) h)
        (λ step s. elim (Bool-cases step.1) [
          | inl dropped ↦ rw dropped s
          | inr kept ↦ rw kept (drain_send-IsSound messages step.0 s)
        ])

  process_shared-IsSound :
      (addr : SocketAddr) (handle : UdpSocketHandle) (shared : Option Endpoint) (u : UdpManager)
      (ctx : InterfaceContext)
      → IsSound ctx
      → Post (process_shared w addr handle shared u ctx) (λ r. IsSound r.1)
  unfolding process_shared process_handle
  process_shared-IsSound addr handle none u ctx h = h
  process_shared-IsSound addr handle (some e) u ctx h =
      Post->>= {B = UdpManager × InterfaceContext} (λ r. IsSound r.0.2) (λ r. IsSound r.1)
        (drain_send w e.send_queue (handle, e, ctx)) _
        (drain_send-IsSound e.send_queue (handle, e, ctx) h) (λ r s. s)

  process_found-IsSound :
      (addr : SocketAddr) (held : Option UdpSocketHandle) (u : UdpManager) (ctx : InterfaceContext)
      → IsSound ctx
      → Post (process_found w addr held u ctx) (λ r. IsSound r.1)
  unfolding process_found
  process_found-IsSound addr none u ctx h = h
  process_found-IsSound addr (some handle) u ctx h =
      process_shared-IsSound addr handle (lookup handle.endpoint u.endpoints) u ctx h

  process_all-IsSound :
      (addrs : List SocketAddr) (u : UdpManager) (ctx : InterfaceContext)
      → IsSound ctx
      → Post (process_all w addrs u ctx) (λ r. IsSound r.1)
  unfolding process_all process_ready
  process_all-IsSound [] u ctx h = h
  process_all-IsSound (addr ∷ addrs) u ctx h =
      Post->>= (λ r. IsSound r.1) (λ r. IsSound r.1) (process_ready w addr u ctx) _
        (process_found-IsSound addr (port_get_mut u.sockets addr) u ctx h)
        (λ step s. process_all-IsSound addrs step.0 step.1 s)

  pub process_buffers-IsSound :
      (u : UdpManager) (ctx : InterfaceContext)
      → IsSound ctx
      → Post (process_buffers w u ctx) (λ r. IsSound r.1)
  unfolding process_buffers
  process_buffers-IsSound u ctx h =
      Post->>=-eq {B = UdpManager × InterfaceContext} (λ r. IsSound r.1)
        (iter_by_ready_bits u.socket_ids u.ready_bits) _
        (λ ready e.
          Post->>=-eq {B = UdpManager × InterfaceContext} (λ r. IsSound r.1) _ _
            (λ addrs f. process_all-IsSound addrs (record u { ready_bits = ready.1 }) ctx h))
