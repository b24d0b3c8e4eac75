-- ===== src/Interface/Udp/Manager/Operations.antt =====
-- lib/src/runtime/interface/l4_managers/udp/manager.rs: `bind`, `recv` and `process_buffers`.
use narth_network.Base.{
  ℕ, zero, suc, ◌+◌, ◌*◌, true, false, not, Option, none, some, List, [], ◌∷◌, ◌==◌, if◌then◌else◌,
  length, Io, ok, err, panicked, ◌>>=◌,
}
use narth_network.Base.Dict.{lookup, insert}
use narth_network.Wire.{Bytes, slice}
use narth_network.UdpHeader.{UdpHeader, udp_length, udp_from_bytes, validate_checksum_v4}
use narth_network.PortBindings.{
  IpAddr, SocketAddr, UdpSocketHandle, PortBindings, port_is_bindable, port_get_mut, port_remove,
  v4, v6,
}
use narth_network.ReadyByBits.{iter_by_ready_bits}
use narth_network.ReadyByBits.Drain.{drain}
use narth_network.Interface.{InterfaceContext, World}
use narth_network.Interface.Udp.{Endpoint, drain_send}
use narth_network.Interface.Udp.Manager.{
  UdpManager, BindResult, addr_is_ipv4, socket_addr, max_ephemeral_port_attempts, bind_addr,
  pass_to_socket, port_write_handle, unsupported, addr_in_use, refused,
}

module _ (w : World) where
  -- The loop that looks for an ephemeral port, on the attempts that are left, with the count of the
  -- random numbers drawn.
  unfoldable pub propose_port : ℕ → PortBindings → IpAddr → ℕ × ℕ → ℕ → Option SocketAddr × ℕ
  propose_port zero sockets ip range draws = (none, draws)
  propose_port (suc attempts) sockets ip range draws =
      let proposed = socket_addr ip (w.random_in range draws) in
      let rest = propose_port attempts sockets ip range (draws + 1) in
      if port_is_bindable sockets proposed false true then (some proposed, draws + 1) else rest

  unfoldable pub bind_proposed :
      InterfaceContext → UdpManager → Option SocketAddr × ℕ → (BindResult × UdpManager) × ℕ
  bind_proposed ctx u (none, draws) = ((refused addr_in_use, u), draws)
  bind_proposed ctx u (some found, draws) = (bind_addr ctx found u, draws)

  -- `UdpManager::bind`
  unfoldable pub bind : InterfaceContext → SocketAddr → UdpManager → (BindResult × UdpManager) × ℕ
  unfolding propose_port bind_proposed
  bind ctx addr u =
      if not (addr_is_ipv4 addr)
      then ((refused unsupported, u), ctx.draws)
      else if addr.port == 0
      then bind_proposed ctx u
          (propose_port max_ephemeral_port_attempts u.sockets addr.ip ctx.ephemeral_ports ctx.draws)
      else if not (port_is_bindable u.sockets addr false true)
      then ((refused addr_in_use, u), ctx.draws)
      else (bind_addr ctx addr u, ctx.draws)

  -- The payload behind the header, by the header's length, and its checksum.
  unfoldable pub recv_datagram : IpAddr → IpAddr → UdpHeader → Bytes → UdpManager → Io UdpManager
  unfolding pass_to_socket
  recv_datagram source destination header payload u = elim source [
    | v4 s ↦ elim destination [
      | v4 d ↦ (do
        valid ← validate_checksum_v4 w.checksum header s d payload
        ok (
            if valid
            then pass_to_socket (socket_addr (v4 s) header.source_port) (v4 d)
                header.destination_port payload u
            else u))
      | v6 d ↦ ok u
    ]
    | v6 s ↦ elim destination [ v4 d ↦ ok u | v6 d ↦ panicked ]
  ]

  unfoldable pub recv_parsed : IpAddr → IpAddr → Bytes → UdpManager → Io UdpHeader → Io UdpManager
  unfolding recv_datagram
  recv_parsed source destination bytes u (ok header) = do
    payload ← slice udp_length header.datagram_length bytes
    recv_datagram source destination header payload u
  recv_parsed source destination bytes u (err e) = ok u
  recv_parsed source destination bytes u panicked = panicked

  -- `UdpManager::recv`
  unfoldable pub udp_recv : IpAddr → IpAddr → Bytes → UdpManager → Io UdpManager
  unfolding recv_parsed
  udp_recv source destination bytes u =
      recv_parsed source destination bytes u (udp_from_bytes bytes)

  -- One socket that is ready.
  unfoldable pub process_handle :
      SocketAddr
      → UdpSocketHandle
      → Endpoint
      → UdpManager
      → InterfaceContext
      → Io (UdpManager × InterfaceContext)
  unfolding drain_send port_write_handle
  process_handle addr handle e u ctx = do
    done ← drain_send w e.send_queue (handle, e, ctx)
    let (after, shared, left) = done.0
    let sockets = port_write_handle u.sockets addr after
    let written : UdpManager = record u {
      sockets = elim done.1 [ true ↦ port_remove sockets addr | false ↦ sockets ];
      endpoints = insert handle.endpoint shared u.endpoints;
    }
    ok (written, left)

  -- What the socket shares with its handle, where it is there.
  unfoldable pub process_shared :
      SocketAddr
      → UdpSocketHandle
      → Option Endpoint
      → UdpManager
      → InterfaceContext
      → Io (UdpManager × InterfaceContext)
  unfolding process_handle
  process_shared addr handle none u ctx = ok (u, ctx)
  process_shared addr handle (some e) u ctx = process_handle addr handle e u ctx

  -- The socket that `get_mut` finds.
  unfoldable pub process_found :
      SocketAddr
      → Option UdpSocketHandle
      → UdpManager
      → InterfaceContext
      → Io (UdpManager × InterfaceContext)
  unfolding process_shared
  process_found addr none u ctx = ok (u, ctx)
  process_found addr (some handle) u ctx =
      process_shared addr handle (lookup handle.endpoint u.endpoints) u ctx

  -- The body of the loop in `process_buffers`.
  unfoldable pub process_ready :
      SocketAddr → UdpManager → InterfaceContext → Io (UdpManager × InterfaceContext)
  unfolding process_found
  process_ready addr u ctx = process_found addr (port_get_mut u.sockets addr) u ctx

  unfoldable pub process_all :
      List SocketAddr → UdpManager → InterfaceContext → Io (UdpManager × InterfaceContext)
  unfolding process_ready
  process_all [] u ctx = ok (u, ctx)
  process_all (addr ∷ addrs) u ctx = do
    step ← process_ready addr u ctx
    process_all addrs step.0 step.1

  -- `process_buffers`, with fuel for every word and flag of the iterator.
  unfoldable pub process_buffers :
      UdpManager → InterfaceContext → Io (UdpManager × InterfaceContext)
  unfolding process_all
  process_buffers u ctx = do
    ready ← iter_by_ready_bits u.socket_ids u.ready_bits
    addrs ← elim (drain (length u.ready_bits * 65 + 1) ready.0) [
      | none ↦ panicked
      | some result ↦ result
    ]
    process_all addrs (record u { ready_bits = ready.1 }) ctx
