-- ===== src/Tests/Worker.antt =====
-- The handlers of an interface and its worker at concrete inputs.
use narth_network.Arp
use narth_network.Base.{
  ℕ, zero, suc, ◌+◌, ◌*◌, ◌%◌, ◌≡◌, refl, Bool, true, Option, none, some, List, [], ◌∷◌, ◌++◌,
  arith, length, Io, ok, err, panicked,
}
use narth_network.Base.Dict.{lookup, insert}
use narth_network.Wire.{Bytes}
use narth_network.Wire.Writer.{bytes_writer}
use narth_network.Ethernet.{ethernet_new, ethernet_encoded_length, arp}
use narth_network.Ethernet.Mac.{MacAddr, mac_new, broadcast}
use narth_network.Ipv4.{Ipv4Header, ipv4_new}
use narth_network.Ipv4.Fields.{prefix_to_mask, udp}
use narth_network.ArpTable.{request_occupied, request, bump_retry, can_send_request, known}
use narth_network.AddressTable.{interface_addr_new, any_addr, contains}
use narth_network.RouteTable.{
  route_cmp, update_shared, search_and_write, insert_or_update, find_route, lookup_route,
  empty_table,
}
use narth_network.Interface.{NetworkSender, InterfaceContext, World, try_send, context_send}
use narth_network.Interface.Ip.{ipv4_send}
use narth_network.Interface.Link.{ethernet_send, send_arp_request}
use narth_network.Interface.Link.Pushes.{frame_of}
use narth_network.Interface.Link.Oversize.{ipv4_send-panics}
use narth_network.Interface.Managers.{managers_default}
use narth_network.Interface.Resolve.{dequeue_pending_ipv4}
use narth_network.Interface.Resolve.Queues.{AreSendable, AreSent, dequeue-sends}
use narth_network.Interface.Receive.{ethernet_recv}
use narth_network.Interface.Receive.Answers.{IsAnswered, ethernet_recv-request}
use narth_network.Interface.Worker.{InterfaceWorker, worker_new, ipv4_address_add}
use narth_network.Interface.Worker.Steps.{Reachable, controlled, start, then_step}
use narth_network.Interface.Sound.{IsSound}
use narth_network.Interface.Sound.Reached.{Reachable-IsSound}
use narth_network.Tests.Headers.{rfc_1071}
use narth_network.Tests.Ipv4.{documented}
use narth_network.Interface.Worker.Control.{pend_address, handle_address_add, control_message}

abbrev pub world : World
world = record {
  bitmatch = documented;
  checksum = rfc_1071;
  clock = λ n. n * 1_000_000;
  system_time = λ n. 1_700_000_000_000_000_000 + n;
  boot_time = some 0;
  random = λ n. n % 65536;
  random_in = λ range n. range.0 + n;
  can_wake = λ tx. true;
  little_endian = true;
}

abbrev sender : NetworkSender
sender = record { send_sender = []; capacity = 16; ready_bits = 0 ∷ 0 ∷ 0 ∷ 0 ∷ []; id = 65 }

abbrev own_mac : MacAddr
own_mac = mac_new 2 0 0 0 0 1

abbrev peer_mac : MacAddr
peer_mac = mac_new 2 0 0 0 0 9

abbrev new_worker : InterfaceWorker
new_worker = worker_new sender 1500 own_mac

-- 10.0.0.1, with 10.0.0.9 resolved.
abbrev pub home : InterfaceContext
home = record {
  mtu = 1500;
  mac_addr = own_mac;
  network_tx = sender;
  arp_table = (0x0a000009, known 0 peer_mac) ∷ [];
  ipv4_addresses = record {
    local = interface_addr_new 0x0a000001 0xffffff00 ∷ [];
    shared = (0x0a000001, 0xffffff00) ∷ [];
  };
  ipv4_route_table = insert_or_update 0x0a000000 0xffffff00 0x0a000001 none empty_table;
  ipv4_send_buffer = [];
  ephemeral_ports = (49152, 65535);
  readings = 0;
  draws = 0;
}

abbrev who_has : Arp.ArpMessage
who_has = Arp.arp_request peer_mac 0x0a000001 0x0a000009

-- The request comes in a broadcast frame that is padded to 60 bytes, and names no hardware address
-- for its target.
abbrev bare_request : Arp.ArpMessage
bare_request = record who_has { target_hardware_addr = mac_new 0 0 0 0 0 0 }

abbrev request_padding : Bytes
request_padding = 0 ∷ 0 ∷ 0 ∷ 0 ∷ 0 ∷ 0 ∷ 0 ∷ 0 ∷ 0 ∷ 0 ∷ 0 ∷ 0 ∷ 0 ∷ 0 ∷ 0 ∷ 0 ∷ 0 ∷ 0 ∷ []

ethernet_recv-request_example : IsAnswered world bare_request home managers_default (
    ethernet_recv world
      (frame_of arp peer_mac broadcast (Arp.arp_write bare_request ++ request_padding))
      (home, managers_default))
unfolding contains any_addr interface_addr_new Arp.arp_request lookup
ethernet_recv-request_example =
    ethernet_recv-request world peer_mac broadcast bare_request request_padding home
      managers_default refl refl (omega arith) (omega arith) refl

-- Two packets that wait for 10.0.0.8.
abbrev waiting_packets : List (Ipv4Header × Bytes)
waiting_packets =
    (ipv4_new 1 udp 0x0a000001 0x0a000008 8, 1 ∷ 2 ∷ 3 ∷ 4 ∷ 5 ∷ 6 ∷ 7 ∷ 8 ∷ [])
    ∷ (ipv4_new 2 udp 0x0a000001 0x0a000008 8, 8 ∷ 7 ∷ 6 ∷ 5 ∷ 4 ∷ 3 ∷ 2 ∷ 1 ∷ [])
    ∷ []

abbrev crowded : InterfaceContext
crowded = record home { ipv4_send_buffer = (0x0a000008, waiting_packets) ∷ [] }

dequeue-sends_example :
    AreSent world peer_mac 0x0a000008 waiting_packets crowded managers_default
      (dequeue_pending_ipv4 world peer_mac 0x0a000008 (crowded, managers_default))
unfolding AreSendable ipv4_new lookup
dequeue-sends_example =
    dequeue-sends world peer_mac 0x0a000008 waiting_packets crowded managers_default refl
      (refl, omega arith, (refl, omega arith, tt)) (omega arith)

-- The state that a control message leaves.
abbrev worker_after : Option (Io (InterfaceWorker × Bool)) → InterfaceWorker → InterfaceWorker
worker_after (some (ok (after, goes_on))) before = after
worker_after (some (err e)) before = before
worker_after (some panicked) before = before
worker_after none before = before

abbrev asking_worker : InterfaceWorker
asking_worker =
    worker_after (control_message world 0 (ipv4_address_add 0x0a000001 24 0) new_worker) new_worker

Reachable-asking : Reachable world asking_worker
unfolding control_message handle_address_add pend_address send_arp_request can_send_request
    bump_retry worker_new lookup insert ethernet_send context_send try_send prefix_to_mask
    ethernet_encoded_length ethernet_new
Reachable-asking =
    then_step (start sender 1500 own_mac refl)
      (controlled 0 (ipv4_address_add 0x0a000001 24 0) asking_worker true refl)

-- The ARP request for the address is in the ring buffer.
asking_worker-sends : length asking_worker.context.network_tx.send_sender ≡ 1
unfolding control_message handle_address_add pend_address send_arp_request can_send_request
    bump_retry worker_new lookup insert ethernet_send context_send try_send prefix_to_mask
    ethernet_encoded_length ethernet_new
asking_worker-sends = refl

Reachable-IsSound_example : IsSound asking_worker.context
Reachable-IsSound_example = Reachable-IsSound world Reachable-asking

abbrev long_payload : ℕ → Bytes
long_payload zero = []
long_payload (suc n) = 0 ∷ long_payload n

ipv4_send-panics_example :
    ipv4_send world bytes_writer 0 0x0a000009 udp (long_payload 1480) home ≡ panicked
unfolding lookup_route find_route insert_or_update search_and_write route_cmp update_shared
    empty_table request request_occupied lookup
ipv4_send-panics_example =
    ipv4_send-panics world bytes_writer 0 0x0a000009 udp (long_payload 1480) home
      (record { target = 0x0a000000; mask = 0xffffff00; source = 0x0a000001; next_hop = none })
      peer_mac home.arp_table (omega arith) (omega arith) (omega arith) refl refl
