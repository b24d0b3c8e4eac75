-- ===== src/Interface/Resolve/Queues.antt =====
-- What happens to the packets that wait, once their next hop is known.
use narth_network.Base.{
  ℕ, ◌+◌, ◌≤◌, ◌≡◌, refl, sym, ap, ◌∙◌, none, some, List, [], ◌∷◌, ◌++◌, arith, length,
  length-append, ok,
}
use narth_network.Base.Dict.{lookup, lookup-remove}
use narth_network.Wire.{Bytes}
use narth_network.Wire.Writer.{bytes_writer}
use narth_network.Ethernet.{ipv4}
use narth_network.Ethernet.Mac.{MacAddr}
use narth_network.Ipv4.{
  Ipv4Header, ipv4_encoded_length, ipv4_front, ipv4_back, ipv4_checksum, ipv4_write,
}
use narth_network.Interface.{NetworkSendPayload, NetworkSender, InterfaceContext, World, packet}
use narth_network.Interface.Link.{frame_writer}
use narth_network.Interface.Link.Pushes.{pushing, frame_of, HasRoom, ethernet_send-pushes}
use narth_network.Interface.Managers.{Managers}
use narth_network.Interface.Resolve.{
  Handling, send_pending, send_queue, without_queue, send_found, dequeue_pending_ipv4,
}

module _ (w : World) where
  -- The frame of a packet that waits, where its header is written in these bytes.
  abbrev queued_frame : MacAddr → MacAddr → Bytes → Bytes → NetworkSendPayload
  queued_frame source mac header payload = packet (frame_of ipv4 source mac (header ++ payload))

  -- Headers of five words, and frames that fit.
  unfoldable pub AreSendable : ℕ → List (Ipv4Header × Bytes) → Type 0
  AreSendable mtu [] = Unit
  AreSendable mtu ((header, payload) ∷ queue) =
      (header.header_len ≡ 5) × (34 + length payload ≤ mtu) × AreSendable mtu queue

  -- The headers as bytes.
  abbrev pub header_bytes : Ipv4Header → Bytes
  header_bytes header =
      let sum = ipv4_checksum w.bitmatch w.checksum header in
      ipv4_front w.bitmatch w.checksum header
      ++ (sum.0 ∷ sum.1 ∷ ipv4_back w.bitmatch w.checksum header)

  pub frames_of : MacAddr → MacAddr → List (Ipv4Header × Bytes) → List NetworkSendPayload
  frames_of source mac [] = []
  frames_of source mac ((header, payload) ∷ queue) =
      queued_frame source mac (header_bytes header) payload ∷ frames_of source mac queue

  append_assoc :
      (xs : List NetworkSendPayload) (y : NetworkSendPayload) (ys : List NetworkSendPayload)
      → (xs ++ (y ∷ [])) ++ ys ≡ xs ++ (y ∷ ys)
  append_assoc [] y ys = refl
  append_assoc (x ∷ xs) y ys = ap (◌∷◌ x) (append_assoc xs y ys)

  append_nil : (xs : List NetworkSendPayload) → xs ++ [] ≡ xs
  append_nil [] = refl
  append_nil (x ∷ xs) = ap (◌∷◌ x) (append_nil xs)

  header-written :
      (header : Ipv4Header) (payload : Bytes)
      → header.header_len ≡ 5
      → (frame_writer w bytes_writer).write_to_buffer (header, payload)
        ≡ ok (header_bytes header ++ payload)
  unfolding ipv4_write
  header-written header payload five = rw five refl

  header-length :
      (header : Ipv4Header) (payload : Bytes)
      → header.header_len ≡ 5
      → (frame_writer w bytes_writer).encoded_length (header, payload) ≡ 20 + length payload
  unfolding ipv4_encoded_length
  header-length header payload five = rw five refl

  send_pending-pushes :
      (mac : MacAddr) (header : Ipv4Header) (payload : Bytes) (ctx : InterfaceContext)
      (managers : Managers)
      → header.header_len ≡ 5
      → 34 + length payload ≤ ctx.mtu
      → HasRoom 1 ctx.network_tx
      → send_pending w mac (header, payload) (ctx, managers)
        ≡ ok (
          pushing (frame_of ipv4 ctx.mac_addr mac (header_bytes header ++ payload)) ctx,
          managers,
        )
  unfolding send_pending
  send_pending-pushes mac header payload ctx managers five fits room =
      rw
        (ethernet_send-pushes w (frame_writer w bytes_writer) mac ipv4 (header, payload)
          (header_bytes header ++ payload) ctx (header-written header payload five)
          (omega (arith, fits, header-length header payload five)) room)
        refl

  -- What the queue leaves of the context: the ring buffer and its flags.
  send_queue-pushes :
      (mac : MacAddr) (queue : List (Ipv4Header × Bytes)) (ctx : InterfaceContext)
      (managers : Managers)
      → AreSendable ctx.mtu queue
      → HasRoom (length queue) ctx.network_tx
      → (tx : NetworkSender) × (send_queue w mac queue (ctx, managers)
          ≡ ok (record ctx { network_tx = tx }, managers))
        × (tx.send_sender ≡ ctx.network_tx.send_sender ++ frames_of ctx.mac_addr mac queue)
  unfolding send_queue AreSendable frames_of
  send_queue-pushes mac [] ctx managers h room =
      (ctx.network_tx, refl, sym (append_nil ctx.network_tx.send_sender))
  send_queue-pushes mac ((header, payload) ∷ queue) ctx managers (five, fits, h) room =
      let frame = frame_of ipv4 ctx.mac_addr mac (header_bytes header ++ payload) in
      let now =
        send_pending-pushes mac header payload ctx managers five fits (omega (arith, room)) in
      let (tx, e, p) =
        send_queue-pushes mac queue (pushing frame ctx) managers h
          (omega (arith, room, length-append ctx.network_tx.send_sender (packet frame ∷ []))) in
      (tx, rw now e, p ∙ append_assoc ctx.network_tx.send_sender _ _)

  -- A handler leaves a context in which the frames of a queue are behind what was in the ring
  -- buffer, and no queue is left for the address.
  abbrev pub AreSent :
      MacAddr → ℕ → List (Ipv4Header × Bytes) → InterfaceContext → Managers → Handling → Type 0
  AreSent mac addr queue ctx managers handled =
      (after : InterfaceContext) × (handled ≡ ok (after, managers))
      × (after.network_tx.send_sender
          ≡ ctx.network_tx.send_sender ++ frames_of ctx.mac_addr mac queue)
      × (lookup addr after.ipv4_send_buffer ≡ none)

  -- Where packets wait for an address, their headers have five words, their frames fit the
  -- interface and the ring buffer has room for them all, the address that was learned lets them
  -- all out, in the order in which they came, each as a frame to that address, and none waits any
  -- longer.
  pub dequeue-sends :
      (mac : MacAddr) (addr : ℕ) (queue : List (Ipv4Header × Bytes)) (ctx : InterfaceContext)
      (managers : Managers)
      → lookup addr ctx.ipv4_send_buffer ≡ some queue
      → AreSendable ctx.mtu queue
      → HasRoom (length queue) ctx.network_tx
      → AreSent mac addr queue ctx managers (dequeue_pending_ipv4 w mac addr (ctx, managers))
  unfolding dequeue_pending_ipv4 send_found
  dequeue-sends mac addr queue ctx managers waits h room =
      let (tx, e, p) = send_queue-pushes mac queue (without_queue w addr ctx) managers h room in
      (
        record (without_queue w addr ctx) { network_tx = tx },
        rw waits e,
        p,
        ground (arith, lookup-remove addr addr ctx.ipv4_send_buffer),
      )
