-- ===== src/Interface/Udp/Draining.antt =====
-- Which sockets `process_buffers` drains, in which order, and what it leaves.
use narth_network.Base.{
  ℕ, ◌*◌, ◌≡◌, refl, ◌∙◌, subst, ◌≢◌, inl, inr, Bool, true, false, Option, none, some, List, [],
  ◌∷◌, arith, Bool-cases, length, ErrorKind, Io, ◌>>=◌, ok, err, panicked,
}
use narth_network.Base.Dict.{lookup, insert, lookup-insert}
use narth_network.PortBindings.{
  SocketAddr, UdpSocketHandle, PortBindings, port_get_mut, port_remove,
}
use narth_network.ReadyByBits.Drain.{zeros, iter_by_ready_bits-drain}
use narth_network.ReadyByBits.Pick.{pick}
use narth_network.ReadyByBits.Flags.{flags}
use narth_network.Interface.{InterfaceContext, World}
use narth_network.Interface.Udp.{UdpSendMessage, Endpoint, Handled, drain_message, drain_send}
use narth_network.Interface.Udp.Manager.{UdpManager, port_write_handle}
use narth_network.ReadyByBits.Chunks.{AreWords}
use narth_network.Interface.Udp.Manager.Operations.{
  process_handle, process_shared, process_found, process_ready, process_all, process_buffers,
}
use narth_network.Base.Post.{Post, Post->>=-eq, Post-eq}
use narth_network.Interface.Udp.Manager.Handles.{
  port_get_mut-port_write_handle, port_write_handle-other, port_remove-other,
}

-- Between two managers only the socket at an address and what stands under one endpoint's number
-- may differ.
pub record IsElsewhereSame (addr : SocketAddr) (endpoint : ℕ) (u after : UdpManager) : Type 0 where
  pub flags_kept : after.ready_bits ≡ u.ready_bits
  pub slots_kept : after.socket_ids ≡ u.socket_ids
  pub ports_kept : (port : ℕ) → port ≢ addr.port → after.sockets port ≡ u.sockets port
  pub endpoints_kept : (n : ℕ) → n ≢ endpoint → lookup n after.endpoints ≡ lookup n u.endpoints

-- What a visit of one address may come to.
pub data Visit (w : World) (addr : SocketAddr) (u : UdpManager) (ctx : InterfaceContext)
    : Io (UdpManager × InterfaceContext) → Type 0 where
  no_socket : port_get_mut u.sockets addr ≡ none → Visit w addr u ctx (ok (u, ctx))
  no_endpoint :
      (handle : UdpSocketHandle)
      → port_get_mut u.sockets addr ≡ some handle
      → lookup handle.endpoint u.endpoints ≡ none
      → Visit w addr u ctx (ok (u, ctx))
  socket_drained :
      (handle left : UdpSocketHandle) (e shared : Endpoint) (after : UdpManager)
      (then : InterfaceContext)
      → port_get_mut u.sockets addr ≡ some handle
      → lookup handle.endpoint u.endpoints ≡ some e
      → drain_send w e.send_queue (handle, e, ctx) ≡ ok ((left, shared, then), false)
      → IsElsewhereSame addr handle.endpoint u after
      → lookup handle.endpoint after.endpoints ≡ some shared
      → shared.send_queue ≡ []
      → port_get_mut after.sockets addr ≡ some left
      → Visit w addr u ctx (ok (after, then))
  socket_dropped :
      (handle left : UdpSocketHandle) (e shared : Endpoint) (after : UdpManager)
      (then : InterfaceContext)
      → port_get_mut u.sockets addr ≡ some handle
      → lookup handle.endpoint u.endpoints ≡ some e
      → drain_send w e.send_queue (handle, e, ctx) ≡ ok ((left, shared, then), true)
      → IsElsewhereSame addr handle.endpoint u after
      → lookup handle.endpoint after.endpoints ≡ some shared
      → after.sockets ≡ port_remove (port_write_handle u.sockets addr left) addr
      → Visit w addr u ctx (ok (after, then))
  visit_failed :
      (handle : UdpSocketHandle) (e : Endpoint) (kind : ErrorKind)
      → port_get_mut u.sockets addr ≡ some handle
      → lookup handle.endpoint u.endpoints ≡ some e
      → drain_send w e.send_queue (handle, e, ctx) ≡ err kind
      → Visit w addr u ctx (err kind)
  visit_panicked :
      (handle : UdpSocketHandle) (e : Endpoint)
      → port_get_mut u.sockets addr ≡ some handle
      → lookup handle.endpoint u.endpoints ≡ some e
      → drain_send w e.send_queue (handle, e, ctx) ≡ panicked
      → Visit w addr u ctx panicked

-- A pass visits the addresses one after the other, each on what the one before it left, up to a
-- panic.
pub data Pass (w : World)
    : List SocketAddr
      → UdpManager
      → InterfaceContext
      → Io (UdpManager × InterfaceContext)
      → Type 0 where
  passed : {u : UdpManager} {ctx : InterfaceContext} → Pass w [] u ctx (ok (u, ctx))
  visited :
      {addr : SocketAddr} {addrs : List SocketAddr} {u after : UdpManager}
      {ctx then : InterfaceContext} {end : Io (UdpManager × InterfaceContext)}
      → Visit w addr u ctx (ok (after, then))
      → Pass w addrs after then end
      → Pass w (addr ∷ addrs) u ctx end
  ended_early :
      {addr : SocketAddr} {addrs : List SocketAddr} {u : UdpManager} {ctx : InterfaceContext}
      {kind : ErrorKind}
      → Visit w addr u ctx (err kind)
      → Pass w (addr ∷ addrs) u ctx (err kind)
  ended_by_panic :
      {addr : SocketAddr} {addrs : List SocketAddr} {u : UdpManager} {ctx : InterfaceContext}
      → Visit w addr u ctx panicked
      → Pass w (addr ∷ addrs) u ctx panicked

module _ (w : World) where
  -- A socket that is not dropped is left without messages.
  drain_send-empties :
      (messages : List UdpSendMessage) (state : Handled)
      → Post (drain_send w messages state) (λ r. r.1 ≡ false → r.0.1.send_queue ≡ [])
  unfolding drain_send
  drain_send-empties [] (handle, e, ctx) = λ kept. refl
  drain_send-empties (m ∷ messages) (handle, e, ctx) =
      Post->>=-eq (λ r. r.1 ≡ false → r.0.1.send_queue ≡ [])
        (drain_message w m (handle, record e { send_queue = messages }, ctx)) _
        (λ step s. elim (Bool-cases step.1) [
          | inl dropped ↦ rw dropped (λ kept. cc)
          | inr kept ↦ rw kept (drain_send-empties messages step.0)
        ])

  -- What `process_handle` writes, whatever it does to the sockets of the address's port.
  elsewhere :
      (addr : SocketAddr) (n : ℕ) (shared : Endpoint) (sockets : PortBindings) (u : UdpManager)
      → ((port : ℕ) → port ≢ addr.port → sockets port ≡ u.sockets port)
      → IsElsewhereSame addr n u
          (record u { sockets = sockets; endpoints = insert n shared u.endpoints })
  elsewhere addr n shared sockets u ports = record {
    flags_kept = refl;
    slots_kept = refl;
    ports_kept = ports;
    endpoints_kept = λ m other. ground (arith, lookup-insert n m shared u.endpoints);
  }

  handled-Visit :
      (addr : SocketAddr) (handle : UdpSocketHandle) (e : Endpoint) (u : UdpManager)
      (ctx : InterfaceContext) (done : Io (Handled × Bool))
      → port_get_mut u.sockets addr ≡ some handle
      → lookup handle.endpoint u.endpoints ≡ some e
      → drain_send w e.send_queue (handle, e, ctx) ≡ done
      → Visit w addr u ctx (process_handle w addr handle e u ctx)
  unfolding process_handle
  handled-Visit addr handle e u ctx (err kind) found shares d =
      rw d (visit_failed handle e kind found shares d)
  handled-Visit addr handle e u ctx panicked found shares d =
      rw d (visit_panicked handle e found shares d)
  handled-Visit addr handle e u ctx (ok ((left, shared, then), false)) found shares d =
      let sockets = port_write_handle u.sockets addr left in
      let after : UdpManager = record u {
        sockets = sockets;
        endpoints = insert handle.endpoint shared u.endpoints;
      } in
      rw d (
        socket_drained handle left e shared after then found shares d
          (elsewhere addr handle.endpoint shared sockets u
            (port_write_handle-other u.sockets addr left))
          (ground (arith, lookup-insert handle.endpoint handle.endpoint shared u.endpoints))
          (Post-eq (λ r. r.1 ≡ false → r.0.1.send_queue ≡ [])
            (drain_send w e.send_queue (handle, e, ctx))
            (drain_send-empties e.send_queue (handle, e, ctx)) d refl)
          (port_get_mut-port_write_handle u.sockets addr handle left found))
  handled-Visit addr handle e u ctx (ok ((left, shared, then), true)) found shares d =
      let written = port_write_handle u.sockets addr left in
      let sockets = port_remove written addr in
      let after : UdpManager = record u {
        sockets = sockets;
        endpoints = insert handle.endpoint shared u.endpoints;
      } in
      rw d (
        socket_dropped handle left e shared after then found shares d
          (elsewhere addr handle.endpoint shared sockets u (λ port other.
            port_remove-other written addr port other
            ∙ port_write_handle-other u.sockets addr left port other))
          (ground (arith, lookup-insert handle.endpoint handle.endpoint shared u.endpoints)) refl)

  shared-Visit :
      (addr : SocketAddr) (handle : UdpSocketHandle) (shared : Option Endpoint) (u : UdpManager)
      (ctx : InterfaceContext)
      → port_get_mut u.sockets addr ≡ some handle
      → lookup handle.endpoint u.endpoints ≡ shared
      → Visit w addr u ctx (process_shared w addr handle shared u ctx)
  unfolding process_shared
  shared-Visit addr handle none u ctx found shares = no_endpoint handle found shares
  shared-Visit addr handle (some e) u ctx found shares =
      handled-Visit addr handle e u ctx (drain_send w e.send_queue (handle, e, ctx)) found shares
        refl

  found-Visit :
      (addr : SocketAddr) (found : Option UdpSocketHandle) (u : UdpManager) (ctx : InterfaceContext)
      → port_get_mut u.sockets addr ≡ found
      → Visit w addr u ctx (process_found w addr found u ctx)
  unfolding process_found
  found-Visit addr none u ctx e = no_socket e
  found-Visit addr (some handle) u ctx e =
      shared-Visit addr handle (lookup handle.endpoint u.endpoints) u ctx e refl

  ready-Visit :
      (addr : SocketAddr) (u : UdpManager) (ctx : InterfaceContext)
      → Visit w addr u ctx (process_ready w addr u ctx)
  unfolding process_ready
  ready-Visit addr u ctx = found-Visit addr (port_get_mut u.sockets addr) u ctx refl

  -- The rest of a pass behind its first visit.
  visited-Pass :
      (addr : SocketAddr) (addrs : List SocketAddr) (u : UdpManager) (ctx : InterfaceContext)
      (first : Io (UdpManager × InterfaceContext))
      (rest : UdpManager × InterfaceContext → Io (UdpManager × InterfaceContext))
      → Visit w addr u ctx first
      → ((r : UdpManager × InterfaceContext) → Pass w addrs r.0 r.1 (rest r))
      → Pass w (addr ∷ addrs) u ctx (first >>= rest)
  visited-Pass addr addrs u ctx (ok r) rest v p = visited v (p r)
  visited-Pass addr addrs u ctx (err kind) rest v p = ended_early v
  visited-Pass addr addrs u ctx panicked rest v p = ended_by_panic v

  process_all-Pass :
      (addrs : List SocketAddr) (u : UdpManager) (ctx : InterfaceContext)
      → Pass w addrs u ctx (process_all w addrs u ctx)
  unfolding process_all
  process_all-Pass [] u ctx = passed
  process_all-Pass (addr ∷ addrs) u ctx =
      visited-Pass addr addrs u ctx (process_ready w addr u ctx) _ (ready-Visit addr u ctx)
        (λ r. process_all-Pass addrs r.0 r.1)

  -- No visit sets a flag.
  Visit-flags :
      {addr : SocketAddr} {u : UdpManager} {ctx : InterfaceContext}
      {end : Io (UdpManager × InterfaceContext)}
      → Visit w addr u ctx end
      → Post end (λ r. r.0.ready_bits ≡ u.ready_bits)
  Visit-flags (no_socket found) = refl
  Visit-flags (no_endpoint handle found shares) = refl
  Visit-flags (socket_drained handle left e shared after then found shares d same known out got) =
      same.flags_kept
  Visit-flags (socket_dropped handle left e shared after then found shares d same known gone) =
      same.flags_kept
  Visit-flags (visit_failed handle e kind found shares d) = tt
  Visit-flags (visit_panicked handle e found shares d) = tt

  Pass-flags :
      {addrs : List SocketAddr} {u : UdpManager} {ctx : InterfaceContext}
      {end : Io (UdpManager × InterfaceContext)}
      → Pass w addrs u ctx end
      → Post end (λ r. r.0.ready_bits ≡ u.ready_bits)
  Pass-flags passed = refl
  Pass-flags {end = end} (visited v p) =
      subst (λ bits. Post end (λ r. r.0.ready_bits ≡ bits)) (Visit-flags v) (Pass-flags p)
  Pass-flags (ended_early v) = tt
  Pass-flags (ended_by_panic v) = tt

  -- For words of 64 bits and as many socket slots as they have bits, `process_buffers` visits the
  -- addresses in the slots whose flag is set, in the order of the slots, up to a visit that fails
  -- or panics. A visit drains the socket that is found at the address: it is left without
  -- messages, or it is removed if it was dropped; its handle and what it shares are written back,
  -- and no flag, slot, other port or other endpoint changes. Where `process_buffers` returns,
  -- every flag is clear.
  pub process_buffers-Pass :
      (u : UdpManager) (ctx : InterfaceContext)
      → AreWords u.ready_bits
      → length u.socket_ids ≡ length u.ready_bits * 64
      → Pass w
          (pick (flags u.ready_bits) u.socket_ids)
          (record u { ready_bits = zeros u.ready_bits })
          ctx
          (process_buffers w u ctx)
        × Post (process_buffers w u ctx) (λ r. r.0.ready_bits ≡ zeros u.ready_bits)
  unfolding process_buffers
  process_buffers-Pass u ctx words size =
      let (it, e, d) = iter_by_ready_bits-drain u.socket_ids u.ready_bits words size in
      let pass =
        process_all-Pass (pick (flags u.ready_bits) u.socket_ids)
          (record u { ready_bits = zeros u.ready_bits }) ctx in
      rw (e, d) (pass, Pass-flags pass)
