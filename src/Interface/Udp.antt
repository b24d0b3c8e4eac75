-- ===== src/Interface/Udp.antt =====
-- lib/src/runtime/interface/l4_managers/udp/messages.rs: what passes between a socket and the
-- worker; lib/src/runtime/interface/l4_managers/udp/handle.rs: the worker's side of a socket.
pub mod Stored
pub mod Manager
pub mod Bound
pub mod Draining
use narth_network.Base.{
  ℕ, ◌*◌, ◌%◌, bit_or, Bool, true, false, Option, none, some, List, [], ◌∷◌, ◌++◌, ltb, ◌==◌,
  if◌then◌else◌, length, Io, ok, panicked, ◌>>=◌,
}
use narth_network.Wire.{Bytes}
use narth_network.Wire.Writer.{bytes_writer, pair_writer}
use narth_network.UdpHeader.{udp_length, udp_new, udp_writer, compute_and_update_checksum_v4}
use narth_network.Ipv4.Fields.{udp}
use narth_network.RouteTable.{RouteTable, lookup_route}
use narth_network.PortBindings.{IpAddr, SocketAddr, UdpSocketHandle, v4, v6}
use narth_network.Interface.{
  SendError, SendResult, InterfaceContext, World, Sending, payload_too_large, payload_too_short,
  no_route_to_host, buffer_full, arp_resolve_buffer_full, arp_timeout, sent, failed,
}
use narth_network.Interface.Ip.{sub_usize, ipv4_send}

pub data UdpSendError : Type 0 where
  too_large network_unreachable host_unreachable other_error : UdpSendError

pub data UdpSendResult : Type 0 where
  delivered : UdpSendResult
  undelivered : UdpSendError → UdpSendResult

pub data UdpConnectError : Type 0 where
  no_route no_address invalid_address : UdpConnectError

pub data UdpConnectResult : Type 0 where
  connected : UdpConnectResult
  unconnected : UdpConnectError → UdpConnectResult

pub data UdpSendMessage : Type 0 where
  non_blocking : SocketAddr → Bytes → UdpSendMessage
  blocking : SocketAddr → Bytes → UdpSendMessage
  update_read_wake_handle update_write_wake_handle : UdpSendMessage
  connect : List SocketAddr → UdpSendMessage
  drop_socket : UdpSendMessage

abbrev u32_max : ℕ
u32_max = 0xffff_ffff

abbrev code_of_error : UdpSendError → ℕ
code_of_error too_large = 0x1
code_of_error network_unreachable = 0x2
code_of_error host_unreachable = 0x3
code_of_error other_error = 0xff

-- `SharableUdpSendResult::store`: the word that it stores. The parameters above the code are 0.
pub store_result : UdpSendResult → ℕ
store_result delivered = u32_max
store_result (undelivered e) = bit_or (0 * 256) (code_of_error e)

-- The match of `SharableUdpSendResult::reset` on the word that was taken out.
pub result_of_word : ℕ → Io (Option UdpSendResult)
result_of_word value =
    if value == 0
    then ok none
    else if value == u32_max
    then ok (some delivered)
    else if value % 256 == 0x1
    then ok (some (undelivered too_large))
    else if value % 256 == 0x2
    then ok (some (undelivered network_unreachable))
    else if value % 256 == 0x3
    then ok (some (undelivered host_unreachable))
    else if value % 256 == 0xff
    then ok (some (undelivered other_error))
    else panicked

-- `swap`: the word that stood there, and the one that stands there from now on.
abbrev swap : ℕ → ℕ → ℕ × ℕ
swap new word = (word, new)

-- `SharableUdpSendResult::reset`, with the word that it leaves.
pub reset_result : ℕ → Io (Option UdpSendResult) × ℕ
unfolding result_of_word
reset_result word = let (value, left) = swap 0 word in (result_of_word value, left)

-- What a socket and its handle share: the two ring buffers with their capacity, the shared state,
-- whether the wake handles are set, and the replies to `connect`.
pub record Endpoint : Type 0 where
  pub recv_queue : List (SocketAddr × Bytes)
  pub send_queue : List UdpSendMessage
  pub ring_capacity : ℕ
  pub send_result : ℕ
  pub connected_to : Option SocketAddr
  pub max_payload_size : ℕ
  pub has_read_wake : Bool
  pub has_write_wake : Bool
  pub connect_replies : List UdpConnectResult

-- `UdpSocketHandle::connect`: the first IPv4 address with a route, or the last error.
pub connect_to :
    RouteTable → UdpConnectError → List SocketAddr → Option SocketAddr × UdpConnectResult
connect_to routes last [] = (none, unconnected last)
connect_to routes last (potential ∷ rest) = elim potential.ip [
  | v4 ip ↦ elim (lookup_route ip routes) [
    | some route ↦ (some potential, connected)
    | none ↦ connect_to routes no_route rest
  ]
  | v6 ip ↦ connect_to routes invalid_address rest
]

-- What a handle is left as: the handle, what it shares, and the context.
abbrev pub Handled : Type 0
Handled = UdpSocketHandle × Endpoint × InterfaceContext

-- The peer that was found is kept on both sides.
abbrev pub set_peer : Option SocketAddr → Handled → Handled
set_peer none state = state
set_peer (some p) (handle, e, ctx) =
    (record handle { peer_addr = some p }, record e { connected_to = some p }, ctx)

unfoldable pub connect_handle : List SocketAddr → Handled → Handled
unfolding connect_to
connect_handle potentials (handle, e, ctx) =
    let (peer, reply) = connect_to ctx.ipv4_route_table no_address potentials in
    set_peer peer (handle, record e { connect_replies = e.connect_replies ++ (reply ∷ []) }, ctx)

-- The match on the error in `send_datagram`, with the new limit for payloads.
unfoldable pub udp_send_error : SendError → Endpoint → Io (UdpSendResult × Endpoint)
udp_send_error (payload_too_large max_size) e =
    ok (undelivered too_large, record e { max_payload_size = sub_usize max_size udp_length })
udp_send_error buffer_full e = ok (undelivered other_error, e)
udp_send_error payload_too_short e = panicked
udp_send_error no_route_to_host e = ok (undelivered network_unreachable, e)
udp_send_error arp_resolve_buffer_full e = ok (undelivered host_unreachable, e)
udp_send_error arp_timeout e = ok (undelivered host_unreachable, e)

abbrev pub udp_result :
    SendResult × InterfaceContext → Endpoint → Io (UdpSendResult × Endpoint × InterfaceContext)
udp_result (sent, ctx) e = ok (delivered, e, ctx)
udp_result (failed error, ctx) e = (do
  result ← udp_send_error error e
  ok (result.0, result.1, ctx))

module _ (w : World) where
  -- The source address of `send_ipv4`, or none where there is no route.
  abbrev pub source_ip : ℕ → ℕ → RouteTable → Option ℕ
  source_ip source destination routes =
      if source == 0
      then (elim (lookup_route destination routes) [ none ↦ none | some route ↦ some route.source ])
      else some source

  unfoldable pub udp_send_from : ℕ → ℕ → ℕ → ℕ → Bytes → InterfaceContext → Sending
  unfolding udp_new ipv4_send
  udp_send_from source source_port destination destination_port payload ctx =
      if ltb 65535 (length payload) then panicked else (do
        let unsummed = udp_new source_port destination_port (length payload)
        header ← compute_and_update_checksum_v4 w.checksum unsummed source destination payload
        ipv4_send w (pair_writer udp_writer bytes_writer) source destination udp (header, payload)
            ctx)

  unfoldable pub udp_send_if : Option ℕ → ℕ → ℕ → ℕ → Bytes → InterfaceContext → Sending
  unfolding udp_send_from
  udp_send_if none source_port destination destination_port payload ctx =
      ok (failed no_route_to_host, ctx)
  udp_send_if (some ip) source_port destination destination_port payload ctx =
      udp_send_from ip source_port destination destination_port payload ctx

  -- `UdpSocketHandle::send_ipv4`
  unfoldable pub udp_send_ipv4 : ℕ → ℕ → ℕ → ℕ → Bytes → InterfaceContext → Sending
  unfolding udp_send_if
  udp_send_ipv4 source source_port destination destination_port payload ctx =
      udp_send_if (source_ip source destination ctx.ipv4_route_table) source_port destination
        destination_port payload ctx

  -- The match on the two addresses; UDP over IPv6 is a `todo!`.
  unfoldable pub send_between : IpAddr → ℕ → IpAddr → ℕ → Bytes → InterfaceContext → Sending
  unfolding udp_send_ipv4
  send_between (v4 s) source_port (v4 d) destination_port payload ctx =
      udp_send_ipv4 s source_port d destination_port payload ctx
  send_between (v6 s) source_port (v6 d) destination_port payload ctx = panicked
  send_between (v4 s) source_port (v6 d) destination_port payload ctx = ok (sent, ctx)
  send_between (v6 s) source_port (v4 d) destination_port payload ctx = ok (sent, ctx)

  -- `send_datagram`
  unfoldable pub send_datagram :
      SocketAddr → Bytes → Handled → Io (UdpSendResult × Endpoint × InterfaceContext)
  unfolding send_between udp_send_error
  send_datagram destination payload (handle, e, ctx) = do
    result ←
        send_between handle.local_addr.ip handle.local_addr.port destination.ip destination.port
          payload ctx
    udp_result result e

  -- `send_datagram_nonblocking`: which errors are stored.
  abbrev stored_nonblocking : UdpSendResult → Endpoint → Endpoint
  stored_nonblocking delivered e = e
  stored_nonblocking (undelivered too_large) e = e
  stored_nonblocking (undelivered other_error) e = e
  stored_nonblocking (undelivered network_unreachable) e = record e {
    send_result = store_result (undelivered network_unreachable);
  }
  stored_nonblocking (undelivered host_unreachable) e = record e {
    send_result = store_result (undelivered host_unreachable);
  }

  -- One message of `drain_send`; the last component tells whether the socket was dropped.
  unfoldable pub drain_message : UdpSendMessage → Handled → Io (Handled × Bool)
  unfolding send_datagram connect_handle store_result
  drain_message (non_blocking destination payload) (handle, e, ctx) = do
    r ← send_datagram destination payload (handle, e, ctx)
    ok ((handle, stored_nonblocking r.0 r.1, r.2), false)
  drain_message (blocking destination payload) (handle, e, ctx) = do
    r ← send_datagram destination payload (handle, e, ctx)
    ok ((handle, record r.1 { send_result = store_result r.0 }, r.2), false)
  drain_message update_read_wake_handle (handle, e, ctx) =
      ok ((handle, record e { has_read_wake = true }, ctx), false)
  drain_message update_write_wake_handle (handle, e, ctx) =
      ok ((handle, record e { has_write_wake = true }, ctx), false)
  drain_message (connect potentials) (handle, e, ctx) =
      ok (connect_handle potentials (handle, e, ctx), false)
  drain_message drop_socket (handle, e, ctx) = ok ((handle, e, ctx), true)

  -- `drain_send`, on the messages that are queued.
  unfoldable pub drain_send : List UdpSendMessage → Handled → Io (Handled × Bool)
  unfolding drain_message
  drain_send [] (handle, e, ctx) = ok ((handle, record e { send_queue = [] }, ctx), false)
  drain_send (message ∷ messages) (handle, e, ctx) = do
    step ← drain_message message (handle, record e { send_queue = messages }, ctx)
    elim step.1 [ true ↦ ok step | false ↦ drain_send messages step.0 ]
