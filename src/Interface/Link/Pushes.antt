-- ===== src/Interface/Link/Pushes.antt =====
-- What sending through the Ethernet handler puts into the ring buffer.
use narth_network.Base.{
  ℕ, ◌+◌, ◌/◌, ◌%◌, ◌^◌, ◌≤◌, ◌<◌, ◌≡◌, refl, ap, inl, inr, true, false, [], ◌∷◌, ◌++◌, arith, leb,
  if◌then◌else◌, leb-false, leb-true, Bool-cases, length, ok, panicked,
}
use narth_network.Wire.{Bytes}
use narth_network.Wire.Writer.{WriteToBuffer}
use narth_network.Ethernet.{EtherType, ethernet_new, ethernet_encoded_length, ethernet_write}
use narth_network.Ethernet.Mac.{MacAddr}
use narth_network.Interface.{
  NetworkSender, InterfaceContext, World, or_at, try_send, send_result_of, context_send, sent,
  packet, pushed, wake_error,
}
use narth_network.Interface.Link.{ethernet_send}

-- The sender with one more frame.
abbrev with_frame : Bytes → NetworkSender → NetworkSender
with_frame bytes tx = record tx {
  send_sender = tx.send_sender ++ (packet bytes ∷ []);
  ready_bits = or_at (tx.id / 64) (2 ^ (tx.id % 64)) tx.ready_bits;
}

abbrev pub pushing : Bytes → InterfaceContext → InterfaceContext
pushing bytes ctx = record ctx { network_tx = with_frame bytes ctx.network_tx }

-- The frame of a payload.
abbrev pub frame_of : EtherType → MacAddr → MacAddr → Bytes → Bytes
frame_of t source destination body = ethernet_write (ethernet_new t source destination) ++ body

abbrev pub HasRoom : ℕ → NetworkSender → Type 0
HasRoom n tx = length tx.send_sender + n ≤ tx.capacity

module _ (w : World) where
  pushed_result :
      (tx : NetworkSender) → send_result_of w (if w.can_wake tx then pushed else wake_error) ≡ sent
  pushed_result tx = elim (Bool-cases (w.can_wake tx)) [
    | inl yes_wakes ↦ rw yes_wakes refl
    | inr no_wake ↦ rw no_wake refl
  ]

  -- Where the frame fits the interface and the ring buffer has room, it is sent.
  pub ethernet_send-pushes :
      {P : Type 0} (writer : WriteToBuffer P) (mac : MacAddr) (t : EtherType) (payload : P)
      (body : Bytes) (ctx : InterfaceContext)
      → writer.write_to_buffer payload ≡ ok body
      → 14 + writer.encoded_length payload ≤ ctx.mtu
      → HasRoom 1 ctx.network_tx
      → ethernet_send w writer mac t payload ctx
        ≡ ok (sent, pushing (frame_of t ctx.mac_addr mac body) ctx)
  unfolding ethernet_send context_send try_send ethernet_encoded_length ethernet_new
  ethernet_send-pushes writer mac t payload body ctx written fits room =
      let bytes = frame_of t ctx.mac_addr mac body in
      let small : leb (14 + writer.encoded_length payload) ctx.mtu ≡ true = leb-true fits in
      let space : leb ctx.network_tx.capacity (length ctx.network_tx.send_sender) ≡ false =
        leb-false (omega (arith, room)) in
      rw (small, written, space)
        (ap (λ r. ok (r, pushing bytes ctx)) (pushed_result (with_frame bytes ctx.network_tx)))

  -- A frame that does not fit is a failed assertion.
  pub ethernet_send-panics :
      {P : Type 0} (writer : WriteToBuffer P) (mac : MacAddr) (t : EtherType) (payload : P)
      (ctx : InterfaceContext)
      → ctx.mtu < 14 + writer.encoded_length payload
      → ethernet_send w writer mac t payload ctx ≡ panicked
  unfolding ethernet_send ethernet_encoded_length ethernet_new
  ethernet_send-panics writer mac t payload ctx long =
      let large : leb (14 + writer.encoded_length payload) ctx.mtu ≡ false = leb-false long in
      rw large refl
