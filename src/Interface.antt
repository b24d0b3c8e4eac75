-- ===== src/Interface.antt =====
-- lib/src/runtime/interface.rs: the outcomes of sending; lib/src/runtime/interface/context.rs: the
-- context of an interface; lib/src/runtime/channel.rs: the sender to the network thread.
pub mod Link
pub mod Ip
pub mod Ping
pub mod Udp
pub mod Managers
pub mod Resolve
pub mod Receive
pub mod Worker
pub mod Sound
use narth_network.Base.{
  ℕ, zero, suc, ◌/◌, ◌%◌, ◌^◌, bit_or, Bool, Option, List, [], ◌∷◌, ◌++◌, leb, if◌then◌else◌,
  length, Io, ok, ◌>>=◌,
}
use narth_network.Wire.{Bytes}
use narth_network.Wire.Writer.{WriteToBuffer}
use narth_network.Wire.Checksum.{Checksum}
use narth_network.Wire.Bitmatch.{bit, Bitmatch}
use narth_network.Ethernet.Mac.{MacAddr}
use narth_network.Ipv4.{Ipv4Header}
use narth_network.Icmp.Message.{DestinationUnreachableMessage}
use narth_network.ArpTable.{ArpTable}
use narth_network.AddressTable.{AddressTable}
use narth_network.RouteTable.{RouteTable}

pub data SendError : Type 0 where
  payload_too_large : ℕ → SendError
  payload_too_short no_route_to_host buffer_full arp_resolve_buffer_full arp_timeout : SendError

-- `SendResult`
pub data SendResult : Type 0 where
  sent : SendResult
  failed : SendError → SendResult

pub data AsyncSendError : Type 0 where
  local_send_error : SendError → Ipv4Header → Bytes → AsyncSendError
  icmp_unreachable : DestinationUnreachableMessage → AsyncSendError

pub data NetworkSendPayload : Type 0 where
  packet : Bytes → NetworkSendPayload
  closed : MacAddr → NetworkSendPayload

-- The ring buffer to the network thread, which holds at most `capacity` payloads, and the words of
-- the flags that tell which senders have something to read.
pub record NetworkSender : Type 0 where
  pub send_sender : List NetworkSendPayload
  pub capacity : ℕ
  pub ready_bits : List ℕ
  pub id : ℕ

-- `readings` and `draws` count how often the clock was read and a random number drawn.
pub record InterfaceContext : Type 0 where
  pub mtu : ℕ
  pub mac_addr : MacAddr
  pub network_tx : NetworkSender
  pub arp_table : ArpTable
  pub ipv4_addresses : AddressTable
  pub ipv4_route_table : RouteTable
  pub ipv4_send_buffer : List (ℕ × List (Ipv4Header × Bytes))
  pub ephemeral_ports : ℕ × ℕ
  pub readings : ℕ
  pub draws : ℕ

-- What stands outside the repository: the two crates, what the n-th reading of the clock and the
-- n-th random number give, without
-- a range and within one, whether the network thread can be woken, and the machine's byte order.
pub record World : Type 0 where
  pub bitmatch : Bitmatch
  pub checksum : Checksum
  pub clock : ℕ → ℕ
  pub system_time : ℕ → ℕ
  pub boot_time : Option ℕ
  pub random : ℕ → ℕ
  pub random_in : ℕ × ℕ → ℕ → ℕ
  pub can_wake : NetworkSender → Bool
  pub little_endian : Bool

-- What a handler that sends comes to: its result and the context that it leaves, or a panic.
abbrev pub Sending : Type 0
Sending = Io (SendResult × InterfaceContext)

-- `?` on a `SendResult`.
abbrev pub unless_failed : SendResult × InterfaceContext → (InterfaceContext → Sending) → Sending
unless_failed (sent, ctx) rest = rest ctx
unless_failed (failed e, ctx) rest = ok (failed e, ctx)

pub data TrySend : Type 0 where
  pushed wake_error send_error : TrySend

-- `fetch_or` of one bit of the word at a place. The number of a sender is a `u8`, and there are
-- four words.
pub or_at : ℕ → ℕ → List ℕ → List ℕ
or_at place bit [] = []
or_at zero bit (word ∷ words) = bit_or word bit ∷ words
or_at (suc place) bit (word ∷ words) = word ∷ or_at place bit words

module _ (w : World) where
  -- `NetworkSender::try_send`
  unfoldable pub try_send : NetworkSendPayload → NetworkSender → TrySend × NetworkSender
  unfolding or_at
  try_send payload tx =
      if leb tx.capacity (length tx.send_sender)
      then (send_error, tx)
      else (let next : NetworkSender = record tx {
        send_sender = tx.send_sender ++ (payload ∷ []);
        ready_bits = or_at (tx.id / 64) (2 ^ (tx.id % 64)) tx.ready_bits;
      } in
          (if w.can_wake next then pushed else wake_error, next))

  abbrev pub send_result_of : TrySend → SendResult
  send_result_of pushed = sent
  send_result_of wake_error = sent
  send_result_of send_error = failed buffer_full

  -- `InterfaceContext::send`
  unfoldable pub context_send : {P : Type 0} → WriteToBuffer P → P → InterfaceContext → Sending
  unfolding try_send
  context_send writer payload ctx = do
    bytes ← writer.write_to_buffer payload
    let (outcome, tx) = try_send (packet bytes) ctx.network_tx
    ok (send_result_of outcome, record ctx { network_tx = tx })
