-- ===== src/Interface/Udp/Manager.antt =====
-- lib/src/runtime/interface/l4_managers/udp/manager.rs: the manager of UDP sockets.
pub mod Handles
pub mod Operations
use narth_network.Base.{
  ℕ, zero, suc, ◌+◌, Bool, true, false, Option, none, some, List, [], ◌∷◌, ◌++◌, leb, if◌then◌else◌,
  length,
}
use narth_network.Base.Dict.{lookup, insert}
use narth_network.Wire.{Bytes}
use narth_network.UdpHeader.{udp_length}
use narth_network.PortBindings.{
  IpAddr, SocketAddr, UdpSocketHandle, AddressBinding, addr_eq, matches, PortBindings, no_bindings,
  write_port, port_insert, port_get_mut, v4, v6,
}
use narth_network.ReadyByBits.{set}
use narth_network.Interface.{InterfaceContext}
use narth_network.Interface.Ip.{sub_usize}
use narth_network.Interface.Udp.{Endpoint}

-- `endpoints` holds what each handle shares with its socket, by the handle's number, and
-- `next_endpoint` is the next such number.
pub record UdpManager : Type 0 where
  pub sockets : PortBindings
  pub endpoints : List (ℕ × Endpoint)
  pub next_endpoint : ℕ
  pub ready_bits : List ℕ
  pub socket_ids : List (Option SocketAddr)

abbrev zero_words : ℕ → List ℕ
zero_words zero = []
zero_words (suc n) = 0 ∷ zero_words n

abbrev pub no_sockets : ℕ → List (Option SocketAddr)
no_sockets zero = []
no_sockets (suc n) = none ∷ no_sockets n

-- `Default for UdpManager`
abbrev pub udp_manager_default : UdpManager
udp_manager_default = record {
  sockets = no_bindings;
  endpoints = [];
  next_endpoint = 0;
  ready_bits = zero_words 16;
  socket_ids = no_sockets 1024;
}

pub data BindError : Type 0 where
  unsupported addr_in_use out_of_memory : BindError

-- The bound address and the number of the socket's slot.
pub data BindResult : Type 0 where
  bound : SocketAddr → ℕ → BindResult
  refused : BindError → BindResult

abbrev pub addr_is_ipv4 : SocketAddr → Bool
addr_is_ipv4 a = elim a.ip [ v4 ip ↦ true | v6 ip ↦ false ]

abbrev pub socket_addr : IpAddr → ℕ → SocketAddr
socket_addr ip port = record { ip = ip; port = port; flowinfo = 0; scope_id = 0 }

abbrev pub max_ephemeral_port_attempts : ℕ
max_ephemeral_port_attempts = 128

-- `position(Option::is_none)`
unfoldable pub free_slot : List (Option SocketAddr) → Option ℕ
free_slot [] = none
free_slot (none ∷ slots) = some 0
free_slot (some addr ∷ slots) = elim (free_slot slots) [ none ↦ none | some i ↦ some (suc i) ]

abbrev pub new_endpoint : ℕ → Endpoint
new_endpoint limit = record {
  recv_queue = [];
  send_queue = [];
  ring_capacity = 1024;
  send_result = 0;
  connected_to = none;
  max_payload_size = limit;
  has_read_wake = false;
  has_write_wake = false;
  connect_replies = [];
}

-- `UdpSocketHandle::new`
abbrev pub new_handle : ℕ → SocketAddr → UdpSocketHandle
new_handle n addr = record {
  endpoint = n;
  local_addr = addr;
  peer_addr = none;
  allow_reuse = false;
}

-- `bind` from the choice of the address on, with the slot that is free.
unfoldable pub bind_slot :
    Option ℕ → InterfaceContext → SocketAddr → UdpManager → BindResult × UdpManager
unfolding port_insert
bind_slot none ctx addr u = (refused out_of_memory, u)
bind_slot (some id) ctx addr u = (
  bound addr id,
  record u {
    sockets = port_insert u.sockets addr (new_handle u.next_endpoint addr) true;
    endpoints =
        insert u.next_endpoint (new_endpoint (sub_usize (sub_usize ctx.mtu 20) udp_length))
          u.endpoints;
    next_endpoint = u.next_endpoint + 1;
    socket_ids = set u.socket_ids id (some addr);
  },
)

abbrev pub bind_addr : InterfaceContext → SocketAddr → UdpManager → BindResult × UdpManager
bind_addr ctx addr u = bind_slot (free_slot u.socket_ids) ctx addr u

-- `to_unspecified`
abbrev to_unspecified : IpAddr → IpAddr
to_unspecified (v4 ip) = v4 0
to_unspecified (v6 ip) = v6 0

-- The socket for a datagram: the one for its address, or the one for the unspecified address.
unfoldable pub find_socket : PortBindings → IpAddr → ℕ → Option UdpSocketHandle
find_socket sockets destination port = elim (port_get_mut sockets (socket_addr destination port)) [
  | some handle ↦ some handle
  | none ↦ port_get_mut sockets (socket_addr (to_unspecified destination) port)
]

abbrev peer_accepts : UdpSocketHandle → SocketAddr → Bool
peer_accepts handle source = elim handle.peer_addr [ none ↦ true | some p ↦ addr_eq source p ]

-- `recv_tx.try_push`
unfoldable pub push_received : SocketAddr → Bytes → Endpoint → Endpoint
push_received source payload e =
    if leb e.ring_capacity (length e.recv_queue)
    then e
    else record e { recv_queue = e.recv_queue ++ ((source, payload) ∷ []) }

abbrev pub write_endpoint : ℕ → (Endpoint → Endpoint) → UdpManager → UdpManager
write_endpoint n change u = elim (lookup n u.endpoints) [
  | none ↦ u
  | some e ↦ record u { endpoints = insert n (change e) u.endpoints }
]

-- `recv` behind the checksum.
unfoldable pub pass_to_socket : SocketAddr → IpAddr → ℕ → Bytes → UdpManager → UdpManager
unfolding find_socket push_received
pass_to_socket source destination port payload u = elim (find_socket u.sockets destination port) [
  | none ↦ u
  | some handle ↦
      if peer_accepts handle source
      then write_endpoint handle.endpoint (push_received source payload) u
      else u
]

-- The socket of the entry that `get_mut` finds, written back.
pub write_handle : List AddressBinding → IpAddr → UdpSocketHandle → List AddressBinding
write_handle [] ip handle = []
write_handle (b ∷ bs) ip handle =
    if matches b.target ip then record b { handle = handle } ∷ bs else b ∷ write_handle bs ip handle

pub port_write_handle : PortBindings → SocketAddr → UdpSocketHandle → PortBindings
unfolding write_handle
port_write_handle ports addr handle = elim (ports addr.port) [
  | none ↦ ports
  | some bs ↦ write_port ports addr.port (write_handle bs addr.ip handle)
]
