-- ===== src/Interface/Sound/Reached.antt =====
-- The context of a worker is sound at all times.
use narth_network.Base.{
  ℕ, zero, suc, ◌≡◌, refl, sym, subst, List, [], ◌∷◌, arith, drop, length-drop,
}
use narth_network.Base.Post.{Post-eq}
use narth_network.Ethernet.Mac.{MacAddr}
use narth_network.RouteTable.Order.{empty_table-IsValid}
use narth_network.Interface.{NetworkSendPayload, NetworkSender, World, packet, closed}
use narth_network.Interface.Worker.{InterfaceWorker, worker_new}
use narth_network.Interface.Worker.Steps.{
  after_taking, Step, Reachable, controlled, checked, received, processed, timed, taken, shared,
  start, then_step,
}
use narth_network.Interface.Sound.{AreFitting, AreQueues, IsSound}
use narth_network.Interface.Sound.Received.{SoundState}
use narth_network.Interface.Sound.Working.{
  SoundWorker, check_pending-IsSound, SoundControl, control_message-IsSound, receive_all-IsSound,
  process_sockets-IsSound, perform_timers-IsSound,
}
use narth_network.Interface.Worker.Control.{
  check_pending, receive_all, process_sockets, perform_timers,
}

drop-AreFitting :
    (n mtu : ℕ) (ps : List NetworkSendPayload) → AreFitting mtu ps → AreFitting mtu (drop n ps)
unfolding AreFitting
drop-AreFitting zero mtu ps h = h
drop-AreFitting (suc n) mtu [] h = tt
drop-AreFitting (suc n) mtu (packet bytes ∷ ps) (l, h) = drop-AreFitting n mtu ps h
drop-AreFitting (suc n) mtu (closed mac ∷ ps) h = drop-AreFitting n mtu ps h

after_taking-IsSound :
    (n : ℕ) (worker : InterfaceWorker) → SoundWorker worker → SoundWorker (after_taking n worker)
after_taking-IsSound n worker h =
    let tx = worker.context.network_tx in
    record {
      frames = drop-AreFitting n worker.context.mtu tx.send_sender h.frames;
      ring = omega (arith, h.ring, length-drop n tx.send_sender);
      queues = h.queues;
      routes = h.routes;
      addresses = h.addresses;
    }

worker_new-IsSound :
    (tx : NetworkSender) (mtu : ℕ) (mac : MacAddr)
    → tx.send_sender ≡ []
    → SoundWorker (worker_new tx mtu mac)
unfolding worker_new AreFitting AreQueues
worker_new-IsSound tx mtu mac e = record {
  frames = subst (AreFitting mtu) (sym e) tt;
  ring = rw e (omega arith);
  queues = tt;
  routes = empty_table-IsValid;
  addresses = refl;
}

module _ (w : World) where
  Step-IsSound :
      {before after : InterfaceWorker}
      → SoundWorker before
      → Step w before after
      → SoundWorker after
  unfolding SoundControl
  Step-IsSound {before} h (controlled draws m after goes_on e) =
      subst (SoundControl w) e (control_message-IsSound w draws m before h)
  Step-IsSound {before} h (checked after e) =
      Post-eq SoundWorker (check_pending w before) (check_pending-IsSound w before h) e
  Step-IsSound {before} h (received frames state e) =
      Post-eq SoundState (receive_all w frames (before.context, before.managers))
        (receive_all-IsSound w frames (before.context, before.managers) h) e
  Step-IsSound {before} h (processed after e) =
      Post-eq SoundWorker (process_sockets w before) (process_sockets-IsSound w before h) e
  Step-IsSound {before} h (timed deadline after e) =
      Post-eq {A = ℕ × InterfaceWorker} (λ r. SoundWorker r.1) (perform_timers w before)
        (perform_timers-IsSound w before h) e
  Step-IsSound {before} h (taken n) = after_taking-IsSound n before h
  Step-IsSound {before} h (shared managers) = h

  -- In every worker reached from a new one, whose ring buffer is empty, by control messages,
  -- address checks, received frames, socket processing, timers, the taking of frames by the
  -- network thread and any change of what the managers share: each frame in the ring buffer is at
  -- most as long as `mtu`, the ring buffer is within its capacity, each queue for an unresolved
  -- address holds at most five packets, each with a payload of at least eight bytes, the route
  -- table is valid, and the published addresses are the local ones.
  pub Reachable-IsSound : {worker : InterfaceWorker} → Reachable w worker → IsSound worker.context
  Reachable-IsSound (start tx mtu mac e) = worker_new-IsSound tx mtu mac e
  Reachable-IsSound (then_step r step) = Step-IsSound (Reachable-IsSound r) step
