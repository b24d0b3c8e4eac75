-- ===== src/Lib.antt =====
-- Verification library of narth-network, a user-space network stack in Rust. A network thread
-- reads frames from a TUN or TAP device; the interface's worker takes them through the Ethernet
-- and IPv4 handlers to the managers of ping and of UDP sockets, and sends what the sockets hand
-- over back the same way. The wire formats stand in lib/src/protocols, the tables that the
-- handlers consult in lib/src/runtime.
--
-- The library models the wire formats, the tables, and the interface's worker with all that it
-- calls. A format is a record with a function from bytes and one into bytes; a table is a value
-- that its operations take and return; a handler takes the interface's context, and the managers
-- where it changes them, and returns them. A panic is a result of its own, beside success and
-- error, since a panic stops the thread.
--
-- - Base: names shared by all parts, Boolean tests, lists over the native numbers, the results
--   of fallible code (Base.Outcome), what holds of every result of such code (Base.Post) and
--   `HashMap` as an association list (Base.Dict).
-- - Wire: bytes, big-endian words, slices that panic out of range, the trait of
--   lib/src/write_to_buffer.rs (Wire.Writer), and interfaces for the crates internet_checksum
--   (Wire.Checksum) and bitmatch (Wire.Bitmatch), which are parameters of the code that uses
--   them, with what they document as laws.
-- - Ethernet: lib/src/protocols/ethernet.rs; Ethernet.Mac: lib/src/protocols/ethernet/mac.rs.
--   `from_bytes` is `ethernet_from_bytes`, `write_to_buffer` is `ethernet_write`; the other
--   formats are named alike.
-- - Arp: lib/src/protocols/arp.rs. UdpHeader: lib/src/protocols/udp.rs. Ipv4, with the header's
--   fields in Ipv4.Fields: lib/src/protocols/ipv4.rs.
-- - Icmp, with the codes in Icmp.Codes, the messages in Icmp.Message and the echo data in
--   Icmp.UnixData: lib/src/protocols/ipv4/icmp.rs. The machine's byte order is a parameter of
--   what writes and reads echo data.
-- - ArpTable: lib/src/runtime/interface/l2_ethernet/arp_table.rs. RouteTable:
--   lib/src/runtime/route_table.rs. AddressTable: lib/src/runtime/address_table.rs. The copy
--   behind the lock is a field of the table.
-- - ReadyByBits: lib/src/ready_by_bits.rs. `next` is a loop of `turn`.
-- - PortBindings: lib/src/runtime/interface/l4_managers/udp/port_binding.rs. The methods of
--   `AddressBindings` are `is_bindable`, `get_mut`, `push_binding` and `remove_binding`, those
--   of `PortBindings` begin with port_.
-- - Dhcp, with the options in Dhcp.Options and the check of the standard library's
--   `str::from_utf8` in Dhcp.Utf8: lib/src/protocols/ipv4/dhcp.rs. Dhcp.Encoded describes
--   options as RFC 2132 lays them out.
-- - Interface: lib/src/runtime/interface/context.rs and the parts of
--   lib/src/runtime/interface.rs and lib/src/runtime/channel.rs that it uses. The record `World`
--   has what the code takes from elsewhere: the crates, the readings of the clock, the random
--   draws, whether a wake-up succeeds, and the machine's byte order. The context counts its
--   readings and draws, so that each takes the next one.
-- - Interface.Link, for sending, and Interface.Resolve, for queues and timers:
--   lib/src/runtime/interface/l2_ethernet.rs. Interface.Ip, for sending:
--   lib/src/runtime/interface/l3_ipv4.rs. Interface.Receive: the reception of both files, which
--   call each other.
-- - Interface.Ping with Interface.Ping.Manager, Interface.Udp, Interface.Udp.Manager with its
--   Operations, and Interface.Managers: lib/src/runtime/interface/l4_managers.rs, and in
--   lib/src/runtime/interface/l4_managers the files ping.rs, udp/handle.rs with udp/messages.rs,
--   and udp/manager.rs. What a socket's handle shares with the client is an endpoint in a table
--   of the manager; a ping's results are reports in a log.
-- - Interface.Worker and Interface.Worker.Control: lib/src/runtime/interface/worker.rs, and
--   Interface.Worker.Steps, the relation of its steps: one for each thing that the loop in `run`
--   does, one for the network thread, which takes frames, and one for clients, which change what
--   they share with the managers. Interface.Sound carries an invariant through all of them.
-- - Tests: the theorems at concrete inputs.
--
-- Machine integers are numbers; an operation that may leave its width has the remainder written
-- out. An address is its number, an instant is a count of nanoseconds that the caller passes in,
-- and so is each reading of the clock within one operation. A slice of another length than the
-- type it is converted to is the error that the code makes of it. Sums of a `u16` wrap, as they
-- do in a release build.
--
-- The loop in `next` runs on fuel, and so does the loop over the iterator in ReadyByBits.Drain. A
-- turn lowers the number of flags set or of chunks ahead, so fuel above their sum is enough;
-- `process_buffers` gives 65 units for each word and one more. The loop over DHCP options has a
-- unit for each byte and one more, and each turn takes a byte or more. The search for a ping's
-- identifier draws until one is free; its model is given the draws it may use, and answers
-- nothing where they run out.
--
-- Not modelled: the client's side of UDP sockets and of ping sessions, the network thread,
-- devices, memory mapping, the poller, the DHCP client, and the application. Of concurrency only
-- the shared copies of the tables, the capture of the ready words as a sequence of swaps, and the
-- steps of others between the worker's are modelled. IPv6 is unfinished in the source: where it
-- panics, so does the model. Wake-ups, logging, `Debug` and `Display` texts and the texts of
-- errors are left out.
pub mod Base
pub mod Wire
pub mod Ethernet
pub mod Arp
pub mod UdpHeader
pub mod Ipv4
pub mod ArpTable
pub mod RouteTable
pub mod AddressTable
pub mod Icmp
pub mod Dhcp
pub mod Interface
pub mod ReadyByBits
pub mod PortBindings
mod Tests
