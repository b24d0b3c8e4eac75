-- ===== src/Interface/Receive/Answers.antt =====
-- A request for one of the interface's addresses, from the frame that arrives to the frame that
-- answers it.
use narth_network.Arp
use narth_network.Base.{
  ℕ, ◌+◌, ◌≤◌, ◌≡◌, refl, sym, ap, ◌∙◌, inl, inr, Bool, true, false, Option, none, some, List, [],
  ◌∷◌, ◌++◌, arith, Bool-cases, ok,
}
use narth_network.Base.Dict.{lookup, lookup-insert}
use narth_network.Wire.{Bytes, slice_from}
use narth_network.Ethernet.{
  ether_type_from, u16_of_ether_type, ethernet_new, ethernet_encoded_length, ethernet_write, arp,
}
use narth_network.Ethernet.Mac.{MacAddr, mac_octets}
use narth_network.Ethernet.Codec.{IsReadable, from_bytes-write}
use narth_network.Arp.Codec.{arp-from_bytes-write}
use narth_network.ArpTable.{update_or_insert, update_only, known}
use narth_network.AddressTable.{contains}
use narth_network.Interface.{InterfaceContext, World, packet}
use narth_network.Interface.Link.Pushes.{pushing, frame_of, HasRoom, ethernet_send-pushes}
use narth_network.Interface.Managers.{Managers}
use narth_network.Interface.Resolve.{Handling, send_found, dequeue_pending_ipv4}
use narth_network.Interface.Receive.{
  is_request, answer_arp, merge_sender, insert_sender, or_insert_sender, handle_arp, recv_arp,
  handle_frame, ethernet_recv,
}
use narth_network.ArpTable.Aging.{update_only_lem}
use narth_network.Ipv4.{Ipv4Header}

-- The frame that carries an ARP message to its target.
abbrev arp_frame : MacAddr → Arp.ArpMessage → Bytes
arp_frame source m = frame_of arp source m.target_hardware_addr (Arp.arp_write m)

header-IsReadable :
    (source destination : MacAddr) → IsReadable (ethernet_new arp source destination)
unfolding ethernet_new ether_type_from u16_of_ether_type
header-IsReadable source destination = record { canonical = refl; tagged = λ e. cc }

behind_header :
    (source destination : MacAddr) (body : Bytes)
    → slice_from 14 (frame_of arp source destination body) ≡ ok body
unfolding slice_from ethernet_write ethernet_new mac_octets
behind_header source destination body = refl

append_nil : (xs : Bytes) → xs ++ [] ≡ xs
append_nil [] = refl
append_nil (x ∷ xs) = ap (◌∷◌ x) (append_nil xs)

module _ (w : World) where
  -- An untagged frame of an ARP message, to whichever address and with whatever padding behind the
  -- message, is received as that message.
  ethernet_recv-padded :
      (source destination : MacAddr) (m : Arp.ArpMessage) (padding : Bytes)
      (state : InterfaceContext × Managers)
      → ethernet_recv w (frame_of arp source destination (Arp.arp_write m ++ padding)) state
        ≡ handle_arp w m state
  unfolding ethernet_recv handle_frame recv_arp slice_from ethernet_encoded_length ethernet_new
  ethernet_recv-padded source destination m padding state =
      let body = Arp.arp_write m ++ padding in
      let header =
        from_bytes-write (ethernet_new arp source destination) body
          (header-IsReadable source destination) in
      rw (header, behind_header source destination body, arp-from_bytes-write m padding) refl

  -- The frame that the code itself sends is received as its message.
  ethernet_recv-arp_frame :
      (source : MacAddr) (m : Arp.ArpMessage) (state : InterfaceContext × Managers)
      → ethernet_recv w (arp_frame source m) state ≡ handle_arp w m state
  ethernet_recv-arp_frame source m state =
      ap (λ body. ethernet_recv w (frame_of arp source m.target_hardware_addr body) state)
        (sym (append_nil (Arp.arp_write m)))
      ∙ ethernet_recv-padded source m.target_hardware_addr m [] state

  -- The reply to a request.
  abbrev reply_of : MacAddr → Arp.ArpMessage → Arp.ArpMessage
  reply_of mac m = Arp.arp_reply m mac m.target_protocol_addr

  answer_arp-pushes :
      (m : Arp.ArpMessage) (ctx : InterfaceContext)
      → is_request w m.operation ≡ true
      → 42 ≤ ctx.mtu
      → HasRoom 1 ctx.network_tx
      → answer_arp w m ctx ≡ ok (pushing (arp_frame ctx.mac_addr (reply_of ctx.mac_addr m)) ctx)
  unfolding answer_arp
  answer_arp-pushes m ctx asks fits room =
      let reply = reply_of ctx.mac_addr m in
      let sends =
        ethernet_send-pushes w Arp.arp_writer reply.target_hardware_addr arp reply
          (Arp.arp_write reply) ctx refl fits room in
      rw (asks, sends) refl

  -- The context that the sender's address is kept in.
  abbrev learned : Arp.ArpMessage → InterfaceContext → InterfaceContext
  learned m ctx = or_insert_sender w m (merge_sender w m ctx)

  learned-known :
      (m : Arp.ArpMessage) (ctx : InterfaceContext)
      → (stamp : ℕ) × (lookup m.sender_protocol_addr (learned m ctx).arp_table
          ≡ some (known stamp m.sender_hardware_addr))
  unfolding update_or_insert
  learned-known m ctx =
      let ip = m.sender_protocol_addr in
      let mac = m.sender_hardware_addr in
      let now = w.clock ctx.readings in
      let later = w.clock (ctx.readings + 1) in
      let u = update_only now mac ip ctx.arp_table in
      elim (Bool-cases u.1) [
        | inl merged ↦
            (now, rw merged (ground (arith, merged, update_only_lem now ip ip mac ctx.arp_table)))
        | inr fresh ↦ (later, rw fresh (ground (arith, lookup-insert ip ip (known later mac) u.0)))
      ]

  inserted-pushes :
      (m : Arp.ArpMessage) (r : InterfaceContext × Bool)
      → is_request w m.operation ≡ true
      → 42 ≤ r.0.mtu
      → HasRoom 1 r.0.network_tx
      → answer_arp w m (or_insert_sender w m r)
        ≡ ok (pushing (arp_frame r.0.mac_addr (reply_of r.0.mac_addr m)) (or_insert_sender w m r))
  inserted-pushes m (ctx, true) asks fits room = answer_arp-pushes m ctx asks fits room
  inserted-pushes m (ctx, false) asks fits room =
      answer_arp-pushes m (insert_sender w m ctx) asks fits room

  -- Neither the queues nor the ring buffer changes.
  inserted-buffers :
      (m : Arp.ArpMessage) (r : InterfaceContext × Bool)
      → ((or_insert_sender w m r).ipv4_send_buffer ≡ r.0.ipv4_send_buffer)
        × ((or_insert_sender w m r).network_tx ≡ r.0.network_tx)
  inserted-buffers m (ctx, true) = (refl, refl)
  inserted-buffers m (ctx, false) = (refl, refl)

  send_found-none :
      (mac : MacAddr) (addr : ℕ) (found : Option (List (Ipv4Header × Bytes)))
      (state : InterfaceContext × Managers)
      → found ≡ none
      → send_found w mac addr found state ≡ ok state
  unfolding send_found
  send_found-none mac addr found state e = rw e refl

  handle_arp-request :
      (m : Arp.ArpMessage) (ctx : InterfaceContext) (managers : Managers)
      → is_request w m.operation ≡ true
      → contains m.target_protocol_addr ctx.ipv4_addresses ≡ true
      → 42 ≤ ctx.mtu
      → HasRoom 1 ctx.network_tx
      → lookup m.sender_protocol_addr ctx.ipv4_send_buffer ≡ none
      → handle_arp w m (ctx, managers)
        ≡ ok (pushing (arp_frame ctx.mac_addr (reply_of ctx.mac_addr m)) (learned m ctx), managers)
  unfolding handle_arp dequeue_pending_ipv4
  handle_arp-request m ctx managers asks ours fits room nobody =
      let r = merge_sender w m ctx in
      let queue = ap (lookup m.sender_protocol_addr) (inserted-buffers m r).0 ∙ nobody in
      rw (ours, inserted-pushes m r asks fits room)
        (send_found-none m.sender_hardware_addr m.sender_protocol_addr _ _ queue)

  -- A handler leaves a context in which the reply is the one new payload in the ring buffer, whoever
  -- receives that payload reads the reply, and the sender's address is kept.
  abbrev pub IsAnswered : Arp.ArpMessage → InterfaceContext → Managers → Handling → Type 0
  IsAnswered m ctx managers handled =
      let reply = reply_of ctx.mac_addr m in
      (after : InterfaceContext) × (stamp : ℕ) × (handled ≡ ok (after, managers))
      × (after.network_tx.send_sender
          ≡ ctx.network_tx.send_sender ++ (packet (arp_frame ctx.mac_addr reply) ∷ []))
      × ((peer : InterfaceContext × Managers)
          → ethernet_recv w (arp_frame ctx.mac_addr reply) peer ≡ handle_arp w reply peer)
      × (lookup m.sender_protocol_addr after.arp_table ≡ some (known stamp m.sender_hardware_addr))

  -- An untagged frame with a request for one of the interface's addresses, to whichever hardware
  -- address and with whatever padding behind the message, is answered, where the interface's `mtu`
  -- is at least 42, the ring buffer has room and no packet waits for the sender: the reply is the
  -- one new payload in the ring buffer, whoever receives it reads the reply, and the sender's
  -- address is kept.
  pub ethernet_recv-request :
      (source destination : MacAddr) (m : Arp.ArpMessage) (padding : Bytes) (ctx : InterfaceContext)
      (managers : Managers)
      → m.operation ≡ Arp.request
      → contains m.target_protocol_addr ctx.ipv4_addresses ≡ true
      → 42 ≤ ctx.mtu
      → HasRoom 1 ctx.network_tx
      → lookup m.sender_protocol_addr ctx.ipv4_send_buffer ≡ none
      → IsAnswered m ctx managers (
          ethernet_recv w
            (frame_of arp source destination (Arp.arp_write m ++ padding))
            (ctx, managers))
  ethernet_recv-request source destination m padding ctx managers asks ours fits room nobody =
      let reply = reply_of ctx.mac_addr m in
      let (stamp, kept) = learned-known m ctx in
      let frame = packet (arp_frame ctx.mac_addr reply) in
      (
        pushing (arp_frame ctx.mac_addr reply) (learned m ctx),
        stamp,
        ethernet_recv-padded source destination m padding (ctx, managers)
            ∙ handle_arp-request m ctx managers (ap (is_request w) asks) ours fits room nobody,
        ap (λ tx. tx.send_sender ++ (frame ∷ [])) (inserted-buffers m (merge_sender w m ctx)).1,
        λ peer. ethernet_recv-arp_frame ctx.mac_addr reply peer,
        kept,
      )
