-- ===== src/Interface/Worker/Steps.antt =====
-- The life of a worker: lib/src/runtime/interface/worker.rs, `run` and what runs beside it.
use narth_network.Base.{ℕ, ◌≡◌, Bool, some, List, [], drop, ok}
use narth_network.Wire.{Bytes}
use narth_network.Ethernet.Mac.{MacAddr}
use narth_network.Interface.{NetworkSender, InterfaceContext, World}
use narth_network.Interface.Managers.{Managers}
use narth_network.Interface.Worker.{InterfaceControlMessage, InterfaceWorker, worker_new}
use narth_network.Interface.Worker.Control.{
  check_pending, control_message, receive_all, in_worker, process_sockets, perform_timers,
}

-- The network thread takes payloads out of the ring buffer.
abbrev pub after_taking : ℕ → InterfaceWorker → InterfaceWorker
after_taking n worker = record worker {
  context = record (worker.context) {
    network_tx = record (worker.context.network_tx) {
      send_sender = drop n worker.context.network_tx.send_sender;
    };
  };
}

-- One thing that the worker does in `run`, or that happens beside it: `shared` is what sockets and
-- sessions write to what they share with the managers.
pub data Step (w : World) : InterfaceWorker → InterfaceWorker → Type 0 where
  controlled :
      {before : InterfaceWorker} (draws : ℕ) (m : InterfaceControlMessage) (after : InterfaceWorker)
      (goes_on : Bool)
      → control_message w draws m before ≡ some (ok (after, goes_on))
      → Step w before after
  checked :
      {before : InterfaceWorker} (after : InterfaceWorker)
      → check_pending w before ≡ ok after
      → Step w before after
  received :
      {before : InterfaceWorker} (frames : List Bytes) (state : InterfaceContext × Managers)
      → receive_all w frames (before.context, before.managers) ≡ ok state
      → Step w before (in_worker w before state)
  processed :
      {before : InterfaceWorker} (after : InterfaceWorker)
      → process_sockets w before ≡ ok after
      → Step w before after
  timed :
      {before : InterfaceWorker} (deadline : ℕ) (after : InterfaceWorker)
      → perform_timers w before ≡ ok (deadline, after)
      → Step w before after
  taken : {before : InterfaceWorker} (n : ℕ) → Step w before (after_taking n before)
  shared :
      {before : InterfaceWorker} (managers : Managers)
      → Step w before (record before { managers = managers })

-- The workers that come about from a new one.
pub data Reachable (w : World) : InterfaceWorker → Type 0 where
  start :
      (tx : NetworkSender) (mtu : ℕ) (mac : MacAddr)
      → tx.send_sender ≡ []
      → Reachable w (worker_new tx mtu mac)
  then_step :
      {before after : InterfaceWorker}
      → Reachable w before
      → Step w before after
      → Reachable w after
