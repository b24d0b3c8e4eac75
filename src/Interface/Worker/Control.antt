-- ===== src/Interface/Worker/Control.antt =====
-- lib/src/runtime/interface/worker.rs: control messages, the checks of addresses, and the parts of
-- `run`.
use narth_network.Base.{
  ℕ, zero, suc, ◌+◌, Bool, true, false, Option, none, some, List, [], ◌∷◌, ◌++◌, Io, ◌>>=◌, ok,
  panicked,
}
use narth_network.Wire.{Bytes}
use narth_network.ArpTable.{
  ArpState, nanos_per_sec, pending_retry, restart, pending_wait, timeout, resolved, resolved_stale,
}
use narth_network.PortBindings.{SocketAddr}
use narth_network.Interface.{SendResult, InterfaceContext, World, sent, failed}
use narth_network.Interface.Link.{arp_state, send_arp_request, send_gratuitous_arp}
use narth_network.Interface.Ping.{PingEntry, find_session, timeout}
use narth_network.Interface.Managers.{Managers}
use narth_network.Interface.Resolve.{Handling, perform_arp_timers}
use narth_network.Interface.Receive.{ethernet_recv}
use narth_network.Ipv4.Fields.{prefix_to_mask}
use narth_network.Interface.Ping.Manager.{earlier, ping_perform_timers}
use narth_network.Interface.Worker.{
  ControlResult, InterfaceControlMessage, PendingAddress, InterfaceWorker, answer,
  handle_address_remove, handle_route_add, own_address, Checked, address_check_failed,
  address_in_use, done, error, ipv4_address_add, ipv4_address_remove, ipv4_route_add,
  ipv4_route_remove, ping, stop, bind_udp,
}
use narth_network.Interface.Udp.Manager.Operations.{bind, process_buffers}

module _ (w : World) where
  -- The address is checked from here on, unless the request could not be sent.
  unfoldable pub pend_address :
      ℕ → ℕ → ℕ → InterfaceWorker → SendResult × InterfaceContext → Io InterfaceWorker
  pend_address addr prefix channel worker (failed e, ctx) =
      ok (answer channel (error (address_check_failed e)) (record worker { context = ctx }))
  pend_address addr prefix channel worker (sent, ctx) = do
    mask ← prefix_to_mask prefix
    let new : PendingAddress = record { address = addr; mask = mask; reply = channel }
    ok (record worker {
      context = ctx;
      ipv4_pending_addresses = worker.ipv4_pending_addresses ++ (new ∷ []);
    })

  -- `handle_ipv4_address_add`
  unfoldable pub handle_address_add : ℕ → ℕ → ℕ → InterfaceWorker → Io InterfaceWorker
  unfolding send_arp_request pend_address
  handle_address_add addr prefix channel worker =
      send_arp_request w addr 0 worker.context >>= pend_address addr prefix channel worker

  abbrev pub unless_refused : SendResult × InterfaceContext → Checked
  unless_refused (sent, ctx) = (none, ctx)
  unless_refused (failed e, ctx) = (some (error (address_check_failed e)), ctx)

  abbrev pub ask_again : ℕ → InterfaceContext → Io Checked
  ask_again addr ctx = do result ← send_arp_request w addr 0 ctx; ok (unless_refused result)

  -- The match on the state of an address that is being checked.
  unfoldable pub check_address : ArpState → PendingAddress → InterfaceContext → Io Checked
  unfolding send_gratuitous_arp own_address
  check_address (pending_wait deadline) p ctx = ok (none, ctx)
  check_address (pending_retry source) p ctx = ask_again p.address ctx
  check_address (resolved_stale mac) p ctx = ask_again p.address ctx
  check_address restart p ctx = ask_again p.address ctx
  check_address timeout p ctx = do
    result ← send_gratuitous_arp w p.address (own_address p ctx)
    ok (some done, result.1)
  check_address (resolved mac) p ctx = ok (some (error address_in_use), ctx)

  -- What is still checked, the answers, and the context.
  abbrev pub CheckedAll : Type 0
  CheckedAll = List PendingAddress × List (ℕ × ControlResult) × InterfaceContext

  abbrev pub checked_first : PendingAddress → CheckedAll → Checked → CheckedAll
  checked_first p later (none, ctx) = (p ∷ later.0, later.1, ctx)
  checked_first p later (some result, ctx) = (later.0, later.1 ++ ((p.reply, result) ∷ []), ctx)

  -- The loop over the addresses that are being checked, from the back.
  unfoldable pub check_addresses : List PendingAddress → InterfaceContext → Io CheckedAll
  unfolding arp_state check_address
  check_addresses [] ctx = ok ([], [], ctx)
  check_addresses (p ∷ ps) ctx = do
    later ← check_addresses ps ctx
    let (state, asked) = arp_state w p.address 0 later.2
    checked ← check_address state p asked
    ok (checked_first p later checked)

  -- The end of `perform_control`.
  unfoldable pub check_pending : InterfaceWorker → Io InterfaceWorker
  unfolding check_addresses
  check_pending worker = do
    checked ← check_addresses worker.ipv4_pending_addresses worker.context
    ok (record worker {
      ipv4_pending_addresses = checked.0;
      answers = worker.answers ++ checked.1;
      context = checked.2;
    })

  -- The loop for an identifier that no session to the target has. `none` means that the fuel ran
  -- out.
  fresh_identifier : ℕ → ℕ → List PingEntry → ℕ → Option (ℕ × ℕ)
  unfolding find_session
  fresh_identifier zero target sessions draws = none
  fresh_identifier (suc fuel) target sessions draws =
      elim (find_session target (w.random draws) sessions) [
        | none ↦ some (w.random draws, draws + 1)
        | some e ↦ fresh_identifier fuel target sessions (draws + 1)
      ]

  abbrev new_entry : ℕ → ℕ → Option ℕ → ℕ → PingEntry
  new_entry target identifier count interval = record {
    target = target;
    identifier = identifier;
    count = count;
    interval = interval;
    sent_count = 0;
    last_sent = none;
    pending = [];
    timeout = 10_000_000_000;
  }

  unfoldable pub ping_drawn :
      ℕ → Option ℕ → ℕ → InterfaceWorker → Option (ℕ × ℕ) → Option InterfaceWorker
  ping_drawn target count interval worker none = none
  ping_drawn target count interval worker (some (identifier, draws)) =
      let p = worker.managers.ping_manager in
      some (record worker {
        context = record (worker.context) { draws = draws };
        managers = record (worker.managers) {
          ping_manager = record p {
            sessions = p.sessions ++ (new_entry target identifier count interval ∷ []);
          };
        };
      })

  -- `PingManager::ping`, with fuel for the draws.
  unfoldable pub start_ping : ℕ → ℕ → Option ℕ → ℕ → InterfaceWorker → Option InterfaceWorker
  unfolding fresh_identifier ping_drawn
  start_ping fuel target count interval worker =
      ping_drawn target count interval worker
        (fresh_identifier fuel target worker.managers.ping_manager.sessions worker.context.draws)

  unfoldable pub handle_bind : SocketAddr → InterfaceWorker → InterfaceWorker
  unfolding bind
  handle_bind addr worker =
      let (r, draws) = bind w worker.context addr worker.managers.udp_manager in
      record worker {
        context = record (worker.context) { draws = draws };
        managers = record (worker.managers) { udp_manager = r.1 };
        bindings = worker.bindings ++ (r.0 ∷ []);
      }

  abbrev pub answered : ℕ → InterfaceWorker → ControlResult × InterfaceContext → InterfaceWorker
  answered channel worker (result, ctx) = answer channel result (record worker { context = ctx })

  abbrev pub going_on : Option InterfaceWorker → Option (Io (InterfaceWorker × Bool))
  going_on none = none
  going_on (some after) = some (ok (after, true))

  -- One message of `perform_control`; the second component is false where the worker stops. Of
  -- `ping`, so many draws are made at most.
  unfoldable pub control_message :
      ℕ → InterfaceControlMessage → InterfaceWorker → Option (Io (InterfaceWorker × Bool))
  unfolding handle_address_add handle_address_remove handle_route_add start_ping handle_bind
  control_message draws (ipv4_address_add addr prefix channel) worker =
      some (do after ← handle_address_add addr prefix channel worker; ok (after, true))
  control_message draws (ipv4_address_remove addr) worker =
      some (ok (handle_address_remove addr worker, true))
  control_message draws (ipv4_route_add target target_mask next_hop src channel) worker = some (
      ok (
        answered channel worker (handle_route_add target target_mask next_hop src worker.context),
        true,
      ))
  control_message draws ipv4_route_remove worker = some panicked
  control_message draws (ping target count interval) worker =
      going_on (start_ping draws target count interval worker)
  control_message draws stop worker = some (ok (worker, false))
  control_message draws (bind_udp addr) worker = some (ok (handle_bind addr worker, true))

  -- The frames of the ring buffer from the network thread.
  unfoldable pub receive_all : List Bytes → InterfaceContext × Managers → Handling
  unfolding ethernet_recv
  receive_all [] state = ok state
  receive_all (bytes ∷ frames) state = ethernet_recv w bytes state >>= receive_all frames

  abbrev pub in_worker : InterfaceWorker → InterfaceContext × Managers → InterfaceWorker
  in_worker worker (ctx, managers) = record worker { context = ctx; managers = managers }

  -- `udp_manager.process_buffers`, as `run` calls it.
  unfoldable pub process_sockets : InterfaceWorker → Io InterfaceWorker
  unfolding process_buffers
  process_sockets worker = do
    r ← process_buffers w worker.managers.udp_manager worker.context
    ok (in_worker worker (r.1, record (worker.managers) { udp_manager = r.0 }))

  abbrev pub deadline_or_second : Option ℕ → InterfaceWorker → ℕ × InterfaceWorker
  deadline_or_second (some deadline) worker = (deadline, worker)
  deadline_or_second none worker = (
    w.clock worker.context.readings + nanos_per_sec,
    record worker { context = record (worker.context) { readings = worker.context.readings + 1 } },
  )

  -- `perform_timers`: the earlier deadline, or a second from now.
  unfoldable pub perform_timers : InterfaceWorker → Io (ℕ × InterfaceWorker)
  unfolding perform_arp_timers ping_perform_timers
  perform_timers worker = do
    a ← perform_arp_timers w (worker.context, worker.managers)
    i ← ping_perform_timers w a.2.ping_manager a.1
    ok (
        deadline_or_second (earlier w a.0 i.0)
          (in_worker worker (i.2, record (a.2) { ping_manager = i.1 })))
