-- ===== src/Interface/Worker.antt =====
-- lib/src/runtime/interface/worker.rs: the worker of an interface; the calls of
-- lib/src/runtime/interface.rs arrive as its control messages.
pub mod Control
pub mod Steps
use narth_network.Base.{
  ℕ, bit_and, Option, none, some, List, [], ◌∷◌, ◌++◌, ◌==◌, if◌then◌else◌, Io, ok, ◌>>=◌,
}
use narth_network.Ethernet.Mac.{MacAddr}
use narth_network.AddressTable.{insert_addr, remove_addr, contains, first_with_subnet_containing}
use narth_network.RouteTable.{insert_or_update, remove_matching, empty_table}
use narth_network.PortBindings.{SocketAddr}
use narth_network.Interface.{SendError, NetworkSender, InterfaceContext}
use narth_network.Interface.Managers.{Managers, managers_default}
use narth_network.Interface.Udp.Manager.{BindResult}
use narth_network.Ipv4.Fields.{prefix_to_mask}

-- `Error`, as the worker answers with it.
pub data ControlError : Type 0 where
  address_check_failed : SendError → ControlError
  address_removed address_in_use : ControlError
  route_unknown_source route_next_hop_unreachable : ControlError

pub data ControlResult : Type 0 where
  done : ControlResult
  error : ControlError → ControlResult

-- A message carries the number of the channel that its answer goes to.
pub data InterfaceControlMessage : Type 0 where
  ipv4_address_add : ℕ → ℕ → ℕ → InterfaceControlMessage
  ipv4_address_remove : ℕ → InterfaceControlMessage
  ipv4_route_add : ℕ → ℕ → ℕ → Option ℕ → ℕ → InterfaceControlMessage
  ipv4_route_remove : InterfaceControlMessage
  ping : ℕ → Option ℕ → ℕ → InterfaceControlMessage
  stop : InterfaceControlMessage
  bind_udp : SocketAddr → InterfaceControlMessage

-- An address that is being checked, its mask, and the channel for the answer.
pub record PendingAddress : Type 0 where
  pub address : ℕ
  pub mask : ℕ
  pub reply : ℕ

-- `answers` is all that was sent to channels: of address and route messages, and of `bind`.
pub record InterfaceWorker : Type 0 where
  pub ipv4_pending_addresses : List PendingAddress
  pub context : InterfaceContext
  pub managers : Managers
  pub answers : List (ℕ × ControlResult)
  pub bindings : List BindResult

-- `InterfaceWorker::new`
unfoldable pub worker_new : NetworkSender → ℕ → MacAddr → InterfaceWorker
worker_new network_tx mtu mac = record {
  ipv4_pending_addresses = [];
  context = record {
    mtu = mtu;
    mac_addr = mac;
    network_tx = network_tx;
    arp_table = [];
    ipv4_addresses = record { local = []; shared = [] };
    ipv4_route_table = empty_table;
    ipv4_send_buffer = [];
    ephemeral_ports = (49152, 65535);
    readings = 0;
    draws = 0;
  };
  managers = managers_default;
  answers = [];
  bindings = [];
}

abbrev pub answer : ℕ → ControlResult → InterfaceWorker → InterfaceWorker
answer channel result worker = record worker {
  answers = worker.answers ++ ((channel, result) ∷ []);
}

-- The loop of `handle_ipv4_address_remove`, from the back: what stays, and the answers.
drop_pending : ℕ → List PendingAddress → List PendingAddress × List (ℕ × ControlResult)
drop_pending addr [] = ([], [])
drop_pending addr (p ∷ ps) =
    let (left, answers) = drop_pending addr ps in
    if p.address == addr
    then (left, answers ++ ((p.reply, error address_removed) ∷ []))
    else (p ∷ left, answers)

-- `handle_ipv4_address_remove`
unfoldable pub handle_address_remove : ℕ → InterfaceWorker → InterfaceWorker
unfolding drop_pending
handle_address_remove addr worker =
    let (left, answers) = drop_pending addr worker.ipv4_pending_addresses in
    record worker {
      ipv4_pending_addresses = left;
      answers = worker.answers ++ answers;
      context = record (worker.context) {
        ipv4_route_table = remove_matching (λ r. r.source == addr) worker.context.ipv4_route_table;
        ipv4_addresses = remove_addr addr worker.context.ipv4_addresses;
      };
    }

abbrev pub or_subnet : Option ℕ → ℕ → InterfaceContext → Option ℕ
or_subnet none next_hop ctx = first_with_subnet_containing next_hop ctx.ipv4_addresses
or_subnet (some src) next_hop ctx = some src

unfoldable pub add_route :
    ℕ → ℕ → ℕ → Option ℕ → InterfaceContext → ControlResult × InterfaceContext
add_route target target_mask next_hop none ctx = (error route_next_hop_unreachable, ctx)
add_route target target_mask next_hop (some src) ctx =
    if contains src ctx.ipv4_addresses
    then (
      done,
      record ctx {
        ipv4_route_table =
            insert_or_update target target_mask src (some next_hop) ctx.ipv4_route_table;
      },
    )
    else (error route_unknown_source, ctx)

-- `handle_ipv4_route_add`
unfoldable pub handle_route_add :
    ℕ → ℕ → ℕ → Option ℕ → InterfaceContext → ControlResult × InterfaceContext
unfolding add_route
handle_route_add target target_mask next_hop src ctx =
    add_route target target_mask next_hop (or_subnet src next_hop ctx) ctx

-- An address that nobody else claims.
unfoldable pub own_address : PendingAddress → InterfaceContext → InterfaceContext
own_address p ctx = record ctx {
  ipv4_addresses = insert_addr p.address p.mask ctx.ipv4_addresses;
  ipv4_route_table =
      insert_or_update (bit_and p.address p.mask) p.mask p.address none ctx.ipv4_route_table;
}

-- Whether an address is still being checked, the answer where it is not, and the context.
abbrev pub Checked : Type 0
Checked = Option ControlResult × InterfaceContext

-- `Interface::ipv4_route_add`: the message that it sends.
unfoldable route_add_message : ℕ → ℕ → ℕ → Option ℕ → ℕ → Io InterfaceControlMessage
route_add_message target prefix next_hop src channel = do
  mask ← prefix_to_mask prefix
  ok (ipv4_route_add (bit_and target mask) mask next_hop src channel)
