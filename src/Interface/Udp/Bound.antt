-- ===== src/Interface/Udp/Bound.antt =====
-- Where the datagrams for a new socket go.
use narth_network.Base.{
  ℕ, zero, suc, ◌+◌, ◌≡◌, refl, sym, ap, ◌∙◌, subst, inl, inr, true, false, Option, none, some, [],
  ◌∷◌, arith, ◌==◌, Bool-cases,
}
use narth_network.Base.Dict.{lookup, lookup-insert}
use narth_network.Wire.{Bytes}
use narth_network.PortBindings.{
  IpAddr, SocketAddr, UdpSocketHandle, matches, target_of, PortBindings, port_is_bindable,
  port_get_mut,
}
use narth_network.PortBindings.Delivery.{port_get_mut-insert}
use narth_network.Interface.{InterfaceContext, World}
use narth_network.Interface.Udp.{Endpoint}
use narth_network.Interface.Udp.Manager.{
  UdpManager, addr_is_ipv4, socket_addr, max_ephemeral_port_attempts, free_slot, new_endpoint,
  new_handle, bind_slot, find_socket, push_received, write_endpoint, pass_to_socket, bound,
}
use narth_network.Interface.Ip.{sub_usize}
use narth_network.Interface.Udp.Manager.Operations.{propose_port, bind_proposed, bind}

module _ (w : World) where
  -- A port that is proposed is free.
  propose_port-free :
      (attempts : ℕ) (sockets : PortBindings) (ip : IpAddr) (range : ℕ × ℕ) (draws : ℕ)
      {found : SocketAddr}
      → (propose_port w attempts sockets ip range draws).0 ≡ some found
      → (port_is_bindable sockets found false true ≡ true) × (found.ip ≡ ip)
  unfolding propose_port
  propose_port-free zero sockets ip range draws e = cc
  propose_port-free (suc attempts) sockets ip range draws {found} e =
      let proposed = socket_addr ip (w.random_in range draws) in
      elim (Bool-cases (port_is_bindable sockets proposed false true)) [
        | inl free ↦
            let p : some proposed ≡ some found = rw free at e in
            let q : proposed ≡ found = cc in
            (
              subst (λ a. port_is_bindable sockets a false true ≡ true) q free,
              ap (λ a. a.ip) (sym q),
            )
        | inr taken ↦ propose_port-free attempts sockets ip range (draws + 1) (rw taken at e)
      ]

  -- A socket is bound at an address, and is found for datagrams to another one of its port: the
  -- first datagram there stands alone in its receive queue.
  abbrev pub Serves : InterfaceContext → SocketAddr → IpAddr → UdpManager → Type 0
  Serves ctx found ip u =
      let fresh = new_endpoint (sub_usize (sub_usize ctx.mtu 20) 8) in
      (handle : UdpSocketHandle) × (find_socket u.sockets ip found.port ≡ some handle)
      × (handle.local_addr ≡ found)
      × (lookup handle.endpoint u.endpoints ≡ some fresh)
      × ((source : SocketAddr) (payload : Bytes)
          → lookup handle.endpoint (pass_to_socket source ip found.port payload u).endpoints
            ≡ some (record fresh { recv_queue = (source, payload) ∷ [] }))

  -- What stands under a number, changed.
  lookup-write_endpoint :
      (n : ℕ) (change : Endpoint → Endpoint) (u : UdpManager) (e : Endpoint)
      → lookup n u.endpoints ≡ some e
      → lookup n (write_endpoint n change u).endpoints ≡ some (change e)
  lookup-write_endpoint n change u e h =
      rw (write_endpoint, h) (ground (arith, lookup-insert n n (change e) u.endpoints))

  -- The first datagram for a socket without a peer.
  pass_to_socket-first :
      (source : SocketAddr) (ip : IpAddr) (port : ℕ) (payload : Bytes) (u : UdpManager)
      (handle : UdpSocketHandle) (limit : ℕ)
      → find_socket u.sockets ip port ≡ some handle
      → handle.peer_addr ≡ none
      → lookup handle.endpoint u.endpoints ≡ some (new_endpoint limit)
      → lookup handle.endpoint (pass_to_socket source ip port payload u).endpoints
        ≡ some (record (new_endpoint limit) { recv_queue = (source, payload) ∷ [] })
  unfolding pass_to_socket push_received
  pass_to_socket-first source ip port payload u handle limit found unpaired shares =
      rw (pass_to_socket, found, unpaired)
        (lookup-write_endpoint handle.endpoint (push_received source payload) u (new_endpoint limit)
          shares)

  find_socket-own :
      (sockets : PortBindings) (ip : IpAddr) (port : ℕ) (handle : UdpSocketHandle)
      → port_get_mut sockets (socket_addr ip port) ≡ some handle
      → find_socket sockets ip port ≡ some handle
  unfolding find_socket
  find_socket-own sockets ip port handle e = rw (find_socket, e) refl

  bind_slot-Serves :
      (slot : Option ℕ) (ctx : InterfaceContext) (addr : SocketAddr) (u : UdpManager) (ip : IpAddr)
      {found : SocketAddr} {id : ℕ}
      → port_is_bindable u.sockets addr false true ≡ true
      → (bind_slot slot ctx addr u).0 ≡ bound found id
      → matches (target_of found.ip true) ip ≡ true
      → Serves ctx found ip (bind_slot slot ctx addr u).1 × (found ≡ addr)
  unfolding bind_slot
  bind_slot-Serves none ctx addr u ip free e m = cc
  bind_slot-Serves (some slot) ctx addr u ip {found} free e m =
      let same : found ≡ addr = cc in
      let limit = sub_usize (sub_usize ctx.mtu 20) 8 in
      let n = u.next_endpoint in
      let m' = subst (λ a. matches (target_of a.ip true) ip ≡ true) same m in
      let handle = new_handle n addr in
      let after = (bind_slot (some slot) ctx addr u).1 in
      let held =
        port_get_mut-insert u.sockets addr (socket_addr ip addr.port) handle true free refl m' in
      let at_addr = find_socket-own after.sockets ip addr.port handle held in
      let here =
        subst (λ a. find_socket after.sockets ip a.port ≡ some handle) (sym same) at_addr in
      let shares : lookup n after.endpoints ≡ some (new_endpoint limit) =
        ground (arith, lookup-insert n n (new_endpoint limit) u.endpoints) in
      (
        (
          handle,
          here,
          sym same,
          shares,
          λ source payload.
              pass_to_socket-first source ip found.port payload after handle limit here refl shares,
        ),
        same,
      )

  bind_proposed-Serves :
      (proposed : Option SocketAddr × ℕ) (ctx : InterfaceContext) (u : UdpManager)
      (ip target : IpAddr) {found : SocketAddr} {id : ℕ}
      → ((a : SocketAddr)
          → proposed.0 ≡ some a
          → (port_is_bindable u.sockets a false true ≡ true) × (a.ip ≡ target))
      → (bind_proposed w ctx u proposed).0.0 ≡ bound found id
      → matches (target_of found.ip true) ip ≡ true
      → Serves ctx found ip (bind_proposed w ctx u proposed).0.1 × (found.ip ≡ target)
  unfolding bind_proposed
  bind_proposed-Serves (none, draws) ctx u ip target free e m = cc
  bind_proposed-Serves (some a, draws) ctx u ip target free e m =
      let (bindable, kept) = free a refl in
      let (serves, same) = bind_slot-Serves (free_slot u.socket_ids) ctx a u ip bindable e m in
      (serves, ap (λ s. s.ip) same ∙ kept)

  -- Where `bind` answers with an address, that has the IP address asked for, and for a datagram to
  -- its port and any IP address that its binding takes, the socket found is one of that address,
  -- whose buffers are new and empty: the first such datagram that is passed on, from whichever
  -- source, stands alone in the socket's receive queue.
  pub bind-Serves :
      (ctx : InterfaceContext) (addr : SocketAddr) (u : UdpManager) (ip : IpAddr)
      {found : SocketAddr} {id : ℕ}
      → (bind w ctx addr u).0.0 ≡ bound found id
      → matches (target_of found.ip true) ip ≡ true
      → Serves ctx found ip (bind w ctx addr u).0.1 × (found.ip ≡ addr.ip)
  unfolding bind
  bind-Serves ctx addr u ip e m = elim (Bool-cases (addr_is_ipv4 addr)) [
    | inr six ↦ cc (rw six at e)
    | inl four ↦ elim (Bool-cases (addr.port == 0)) [
      | inl ephemeral ↦
          rw (four, ephemeral)
            (bind_proposed-Serves
              (propose_port w max_ephemeral_port_attempts u.sockets addr.ip ctx.ephemeral_ports
                ctx.draws)
              ctx u ip addr.ip
              (λ a p.
                propose_port-free max_ephemeral_port_attempts u.sockets addr.ip ctx.ephemeral_ports
                  ctx.draws p)
              (rw (four, ephemeral) at e) m)
      | inr given ↦ elim (Bool-cases (port_is_bindable u.sockets addr false true)) [
        | inr taken ↦ cc (rw (four, given, taken) at e)
        | inl free ↦
            let (serves, same) =
              bind_slot-Serves (free_slot u.socket_ids) ctx addr u ip free
                (rw (four, given, free) at e) m in
            rw (four, given, free) (serves, ap (λ s. s.ip) same)
      ]
    ]
  ]
