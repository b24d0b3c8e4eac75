-- ===== src/Interface/Sound.antt =====
-- What holds of the context of an interface at all times, and that sending keeps it.
pub mod Handlers
pub mod Pings
pub mod Sockets
pub mod Received
pub mod Arrived
pub mod Working
pub mod Reached
use narth_network.Base.{
  ℕ, ◌+◌, ◌≤◌, ◌≡◌, inl, inr, Option, none, some, List, [], ◌∷◌, ◌++◌, arith, leb, ◌==◌, Bool-cases,
  lt_of_leb, le_of_leb, length, length-append, >>=-eq-ok, ok,
}
use narth_network.Base.Post.{Post, Post->>=-eq}
use narth_network.Base.Dict.{lookup, remove, insert}
use narth_network.Wire.{Bytes}
use narth_network.Wire.Writer.{WriteToBuffer, bytes_writer, pair_writer}
use narth_network.Ethernet.{
  EtherType, ethernet_new, ethernet_encoded_length, ethernet_write, ethernet_writer,
}
use narth_network.Ethernet.Mac.{MacAddr, mac_octets}
use narth_network.Ipv4.{Ipv4Header}
use narth_network.ArpTable.{ArpTable, can_send_request}
use narth_network.AddressTable.{published}
use narth_network.RouteTable.Order.{IsValid}
use narth_network.Interface.{
  SendResult, NetworkSendPayload, InterfaceContext, World, try_send, context_send, packet, closed,
}
use narth_network.Interface.Link.{ethernet_send, send_arp_request, send_gratuitous_arp}
use narth_network.Arp.{ArpMessage, gratuitous, arp_request, arp_write, arp_writer}

-- Frames that are at most as long as the interface's `mtu`.
pub AreFitting : ℕ → List NetworkSendPayload → Type 0
AreFitting mtu [] = Unit
AreFitting mtu (packet bytes ∷ rest) = (length bytes ≤ mtu) × AreFitting mtu rest
AreFitting mtu (closed mac ∷ rest) = AreFitting mtu rest

-- Packets with at least eight bytes, those that an error tells of.
pub AreQueued : List (Ipv4Header × Bytes) → Type 0
AreQueued [] = Unit
AreQueued ((header, payload) ∷ queue) = (8 ≤ length payload) × AreQueued queue

-- Queues of at most five such packets.
pub AreQueues : List (ℕ × List (Ipv4Header × Bytes)) → Type 0
AreQueues [] = Unit
AreQueues ((addr, queue) ∷ rest) = (length queue ≤ 5) × AreQueued queue × AreQueues rest

pub record IsSound (ctx : InterfaceContext) : Type 0 where
  pub frames : AreFitting ctx.mtu ctx.network_tx.send_sender
  pub ring : length ctx.network_tx.send_sender ≤ ctx.network_tx.capacity
  pub queues : AreQueues ctx.ipv4_send_buffer
  pub routes : IsValid ctx.ipv4_route_table
  pub addresses : ctx.ipv4_addresses.shared ≡ published ctx.ipv4_addresses.local

-- A context that a handler leaves beside its result.
abbrev pub SoundResult : SendResult × InterfaceContext → Type 0
SoundResult r = IsSound r.1

AreFitting-append :
    (mtu : ℕ) (ps : List NetworkSendPayload) (bytes : Bytes)
    → AreFitting mtu ps
    → length bytes ≤ mtu
    → AreFitting mtu (ps ++ (packet bytes ∷ []))
unfolding AreFitting
AreFitting-append mtu [] bytes h l = (l, tt)
AreFitting-append mtu (packet b ∷ ps) bytes (p, h) l = (p, AreFitting-append mtu ps bytes h l)
AreFitting-append mtu (closed mac ∷ ps) bytes h l = AreFitting-append mtu ps bytes h l

-- What is written for one payload is as long as its encoded length says.
pub IsExactAt : {P : Type 0} → WriteToBuffer P → P → Type 0
IsExactAt writer payload =
    (bytes : Bytes)
    → writer.write_to_buffer payload ≡ ok bytes
    → length bytes ≡ writer.encoded_length payload

pub AreQueued-append :
    (queue : List (Ipv4Header × Bytes)) (header : Ipv4Header) (payload : Bytes)
    → AreQueued queue
    → 8 ≤ length payload
    → AreQueued (queue ++ ((header, payload) ∷ []))
unfolding AreQueued
AreQueued-append [] header payload h l = (l, tt)
AreQueued-append ((first, bytes) ∷ queue) header payload (p, h) l =
    (p, AreQueued-append queue header payload h l)

pub IsQueue : Option (List (Ipv4Header × Bytes)) → Type 0
IsQueue none = Unit
IsQueue (some queue) = (length queue ≤ 5) × AreQueued queue

pub AreQueues-lookup :
    (addr : ℕ) (queues : List (ℕ × List (Ipv4Header × Bytes)))
    → AreQueues queues
    → IsQueue (lookup addr queues)
unfolding AreQueues IsQueue lookup
AreQueues-lookup addr [] h = tt
AreQueues-lookup addr ((key, q) ∷ rest) (l, p, h) = elim (Bool-cases (key == addr)) [
  | inl same ↦ rw same (l, p)
  | inr differs ↦ rw differs (AreQueues-lookup addr rest h)
]

pub AreQueues-insert :
    (addr : ℕ) (queue : List (Ipv4Header × Bytes)) (queues : List (ℕ × List (Ipv4Header × Bytes)))
    → AreQueues queues
    → length queue ≤ 5
    → AreQueued queue
    → AreQueues (insert addr queue queues)
unfolding AreQueues insert
AreQueues-insert addr queue [] h l p = (l, p, tt)
AreQueues-insert addr queue ((key, q) ∷ rest) (k, r, h) l p = elim (Bool-cases (key == addr)) [
  | inl same ↦ rw same (l, p, h)
  | inr differs ↦ rw differs (k, r, AreQueues-insert addr queue rest h l p)
]

pub AreQueues-remove :
    (addr : ℕ) (queues : List (ℕ × List (Ipv4Header × Bytes)))
    → AreQueues queues
    → AreQueues (remove addr queues)
unfolding AreQueues remove
AreQueues-remove addr [] h = tt
AreQueues-remove addr ((key, q) ∷ rest) (k, r, h) = elim (Bool-cases (key == addr)) [
  | inl same ↦ rw same (AreQueues-remove addr rest h)
  | inr differs ↦ rw differs (k, r, AreQueues-remove addr rest h)
]

pub pair-IsExactAt :
    {A B : Type 0} (v : WriteToBuffer A) (u : WriteToBuffer B) (a : A) (b : B)
    → IsExactAt v a
    → IsExactAt u b
    → IsExactAt (pair_writer v u) (a, b)
unfolding IsExactAt
pair-IsExactAt v u a b ev eu bytes e =
    let (x, p, e') = >>=-eq-ok (v.write_to_buffer a) _ e in
    let (y, q, r) = >>=-eq-ok (u.write_to_buffer b) _ e' in
    ground (arith, ev x p, eu y q, length-append x y)

header-IsExactAt : (t : EtherType) (a b : MacAddr) → IsExactAt ethernet_writer (ethernet_new t a b)
unfolding IsExactAt ethernet_new ethernet_encoded_length ethernet_write mac_octets
header-IsExactAt t a b bytes e = ground arith

pub arp-IsExactAt : (m : ArpMessage) → IsExactAt arp_writer m
unfolding IsExactAt arp_write mac_octets
arp-IsExactAt m bytes e = ground arith

pub bytes-IsExactAt : (payload : Bytes) → IsExactAt bytes_writer payload
unfolding IsExactAt
bytes-IsExactAt payload bytes e = ground arith

-- The tables that a request changes, and the counts, do not matter.
pub asked-IsSound :
    (ctx : InterfaceContext) (table : ArpTable) (readings draws : ℕ)
    → IsSound ctx
    → IsSound (record ctx { arp_table = table; readings = readings; draws = draws })
asked-IsSound ctx table readings draws h = record {
  frames = h.frames;
  ring = h.ring;
  queues = h.queues;
  routes = h.routes;
  addresses = h.addresses;
}

pub queues-IsSound :
    (ctx : InterfaceContext) (queues : List (ℕ × List (Ipv4Header × Bytes)))
    → IsSound ctx
    → AreQueues queues
    → IsSound (record ctx { ipv4_send_buffer = queues })
queues-IsSound ctx queues h q = record {
  frames = h.frames;
  ring = h.ring;
  queues = q;
  routes = h.routes;
  addresses = h.addresses;
}

module _ (w : World) where
  try_send-IsSound :
      (ctx : InterfaceContext) (bytes : Bytes)
      → IsSound ctx
      → length bytes ≤ ctx.mtu
      → IsSound (record ctx { network_tx = (try_send w (packet bytes) ctx.network_tx).1 })
  unfolding try_send
  try_send-IsSound ctx bytes h l =
      elim (Bool-cases (leb ctx.network_tx.capacity (length ctx.network_tx.send_sender))) [
        | inl full ↦ rw full h
        | inr room ↦ rw room (record {
          frames = AreFitting-append ctx.mtu ctx.network_tx.send_sender bytes h.frames l;
          ring = omega (
            arith,
            length-append ctx.network_tx.send_sender (packet bytes ∷ []),
            lt_of_leb ctx.network_tx.capacity (length ctx.network_tx.send_sender) room,
          );
          queues = h.queues;
          routes = h.routes;
          addresses = h.addresses;
        })
      ]

  context_send-IsSound :
      {P : Type 0} (writer : WriteToBuffer P) (payload : P) (ctx : InterfaceContext)
      → IsSound ctx
      → ((bytes : Bytes) → writer.write_to_buffer payload ≡ ok bytes → length bytes ≤ ctx.mtu)
      → Post (context_send w writer payload ctx) SoundResult
  unfolding context_send
  context_send-IsSound writer payload ctx h fits =
      Post->>=-eq SoundResult (writer.write_to_buffer payload) _
        (λ bytes e. try_send-IsSound ctx bytes h (fits bytes e))

  pub ethernet_send-IsSound :
      {P : Type 0} (writer : WriteToBuffer P) (mac : MacAddr) (t : EtherType) (payload : P)
      (ctx : InterfaceContext)
      → IsSound ctx
      → IsExactAt writer payload
      → Post (ethernet_send w writer mac t payload ctx) SoundResult
  unfolding ethernet_send IsExactAt
  ethernet_send-IsSound writer mac t payload ctx h exact =
      let header = ethernet_new t ctx.mac_addr mac in
      let whole =
        pair-IsExactAt ethernet_writer writer header payload (header-IsExactAt t ctx.mac_addr mac)
          exact in
      let size = ethernet_encoded_length header + writer.encoded_length payload in
      elim (Bool-cases (leb size ctx.mtu)) [
        | inl fits ↦ rw fits (
            context_send-IsSound (pair_writer ethernet_writer writer) (header, payload) ctx h
              (λ bytes e. omega (arith, whole bytes e, le_of_leb size ctx.mtu fits)))
        | inr long ↦ rw long tt
      ]

  pub send_arp_request-IsSound :
      (target source : ℕ) (ctx : InterfaceContext)
      → IsSound ctx
      → Post (send_arp_request w target source ctx) SoundResult
  unfolding send_arp_request
  send_arp_request-IsSound target source ctx h =
      let r = can_send_request (w.clock ctx.readings) target source ctx.arp_table in
      let asked = asked-IsSound ctx r.0 (ctx.readings + 1) ctx.draws h in
      elim (Bool-cases r.1) [
        | inl allowed ↦ rw allowed (
            ethernet_send-IsSound arp_writer _ _ (arp_request ctx.mac_addr target source) _ asked
              (arp-IsExactAt _))
        | inr refused ↦ rw refused asked
      ]

  pub send_gratuitous_arp-IsSound :
      (addr : ℕ) (ctx : InterfaceContext)
      → IsSound ctx
      → Post (send_gratuitous_arp w addr ctx) SoundResult
  unfolding send_gratuitous_arp
  send_gratuitous_arp-IsSound addr ctx h =
      ethernet_send-IsSound arp_writer _ _ (gratuitous ctx.mac_addr addr) ctx h (arp-IsExactAt _)
