-- ===== src/Interface/Sound/Working.antt =====
-- Every step of the worker keeps its context sound.
use narth_network.Base.{
  ℕ, ◌+◌, ◌≡◌, refl, inl, inr, Bool, Option, none, some, List, [], ◌∷◌, ◌==◌, Bool-cases, Io,
}
use narth_network.Base.Post.{Post, Post->>=, Post->>=-eq}
use narth_network.Wire.{Bytes}
use narth_network.Ipv4.Fields.{prefix_to_mask}
use narth_network.ArpTable.{
  ArpState, pending_addresses, pending_retry, restart, pending_wait, timeout, resolved,
  resolved_stale,
}
use narth_network.AddressTable.{AddressTable, published, update, insert_addr, remove_addr, contains}
use narth_network.RouteTable.{RouteTable}
use narth_network.RouteTable.Order.{IsValid, insert_or_update-IsValid, remove_matching-IsValid}
use narth_network.Interface.{SendResult, InterfaceContext, World, sent, failed}
use narth_network.Interface.Link.{arp_state, send_arp_request, send_gratuitous_arp}
use narth_network.Interface.Ping.{timeout}
use narth_network.Interface.Managers.{Managers}
use narth_network.Interface.Resolve.{arp_timers, perform_arp_timers}
use narth_network.Interface.Receive.{ethernet_recv}
use narth_network.Interface.Worker.{
  InterfaceControlMessage, PendingAddress, InterfaceWorker, handle_address_remove, or_subnet,
  add_route, handle_route_add, own_address, Checked, ipv4_address_add, ipv4_address_remove,
  ipv4_route_add, ipv4_route_remove, ping, stop, bind_udp,
}
use narth_network.Interface.Sound.{
  IsSound, SoundResult, asked-IsSound, send_arp_request-IsSound, send_gratuitous_arp-IsSound,
}
use narth_network.Interface.Sound.Handlers.{arp_state-IsSound}
use narth_network.Interface.Sound.Sockets.{process_buffers-IsSound}
use narth_network.Interface.Sound.Received.{SoundState, arp_timers-IsSound}
use narth_network.Interface.Sound.Arrived.{ethernet_recv-IsSound}
use narth_network.Interface.Ping.Manager.{earlier, ping_perform_timers}
use narth_network.Interface.Sound.Pings.{ping_timers-IsSound}
use narth_network.Interface.Udp.Manager.Operations.{process_buffers}
use narth_network.Interface.Worker.Control.{
  pend_address, handle_address_add, unless_refused, ask_again, check_address, CheckedAll,
  checked_first, check_addresses, check_pending, ping_drawn, start_ping, handle_bind, going_on,
  control_message, receive_all, process_sockets, deadline_or_second, perform_timers,
}

abbrev pub SoundWorker : InterfaceWorker → Type 0
SoundWorker worker = IsSound worker.context

tables-IsSound :
    (ctx : InterfaceContext) (routes : RouteTable) (addresses : AddressTable)
    → IsSound ctx
    → IsValid routes
    → addresses.shared ≡ published addresses.local
    → IsSound (record ctx { ipv4_route_table = routes; ipv4_addresses = addresses })
tables-IsSound ctx routes addresses h r a = record {
  frames = h.frames;
  ring = h.ring;
  queues = h.queues;
  routes = r;
  addresses = a;
}

handle_address_remove-IsSound :
    (addr : ℕ) (worker : InterfaceWorker)
    → SoundWorker worker
    → SoundWorker (handle_address_remove addr worker)
unfolding handle_address_remove remove_addr update
handle_address_remove-IsSound addr worker h =
    tables-IsSound worker.context _ _ h
      (remove_matching-IsValid (λ r. r.source == addr) worker.context.ipv4_route_table h.routes)
      refl

add_route-IsSound :
    (target mask next_hop : ℕ) (src : Option ℕ) (ctx : InterfaceContext)
    → IsSound ctx
    → IsSound (add_route target mask next_hop src ctx).1
unfolding add_route
add_route-IsSound target mask next_hop none ctx h = h
add_route-IsSound target mask next_hop (some src) ctx h =
    elim (Bool-cases (contains src ctx.ipv4_addresses)) [
      | inl ours ↦ rw ours (
          tables-IsSound ctx _ ctx.ipv4_addresses h
            (insert_or_update-IsValid target mask src (some next_hop) ctx.ipv4_route_table h.routes)
            h.addresses)
      | inr foreign ↦ rw foreign h
    ]

own_address-IsSound :
    (p : PendingAddress) (ctx : InterfaceContext) → IsSound ctx → IsSound (own_address p ctx)
unfolding own_address insert_addr update
own_address-IsSound p ctx h =
    tables-IsSound ctx _ _ h (insert_or_update-IsValid _ _ _ _ ctx.ipv4_route_table h.routes) refl

module _ (w : World) where
  handle_address_add-IsSound :
      (addr prefix channel : ℕ) (worker : InterfaceWorker)
      → SoundWorker worker
      → Post (handle_address_add w addr prefix channel worker) SoundWorker
  unfolding handle_address_add pend_address
  handle_address_add-IsSound addr prefix channel worker h =
      Post->>= SoundResult SoundWorker (send_arp_request w addr 0 worker.context) _
        (send_arp_request-IsSound w addr 0 worker.context h) pended
    where
      pended :
          (r : SendResult × InterfaceContext)
          → SoundResult r
          → Post (pend_address w addr prefix channel worker r) SoundWorker
      pended (failed e, ctx) s = s
      pended (sent, ctx) s = Post->>=-eq SoundWorker (prefix_to_mask prefix) _ (λ mask e. s)

  ask_again-IsSound :
      (addr : ℕ) (ctx : InterfaceContext)
      → IsSound ctx
      → Post (ask_again w addr ctx) (λ r. IsSound r.1)
  ask_again-IsSound addr ctx h =
      Post->>= {B = Checked} SoundResult (λ r. IsSound r.1) (send_arp_request w addr 0 ctx) _
        (send_arp_request-IsSound w addr 0 ctx h) kept
    where
      kept : (r : SendResult × InterfaceContext) → SoundResult r → IsSound (unless_refused w r).1
      kept (sent, after) s = s
      kept (failed e, after) s = s

  check_address-IsSound :
      (s : ArpState) (p : PendingAddress) (ctx : InterfaceContext)
      → IsSound ctx
      → Post (check_address w s p ctx) (λ r. IsSound r.1)
  unfolding check_address
  check_address-IsSound (pending_wait d) p ctx h = h
  check_address-IsSound (pending_retry source) p ctx h = ask_again-IsSound p.address ctx h
  check_address-IsSound (resolved_stale mac) p ctx h = ask_again-IsSound p.address ctx h
  check_address-IsSound restart p ctx h = ask_again-IsSound p.address ctx h
  check_address-IsSound timeout p ctx h =
      Post->>= {B = Checked} SoundResult (λ r. IsSound r.1)
        (send_gratuitous_arp w p.address (own_address p ctx)) _
        (send_gratuitous_arp-IsSound w p.address (own_address p ctx) (own_address-IsSound p ctx h))
        (λ r s. s)
  check_address-IsSound (resolved mac) p ctx h = h

  checked_first-IsSound :
      (p : PendingAddress) (later : CheckedAll w) (c : Checked)
      → IsSound c.1
      → IsSound (checked_first w p later c).2
  checked_first-IsSound p later (none, ctx) h = h
  checked_first-IsSound p later (some result, ctx) h = h

  check_addresses-IsSound :
      (ps : List PendingAddress) (ctx : InterfaceContext)
      → IsSound ctx
      → Post (check_addresses w ps ctx) (λ r. IsSound r.2)
  unfolding check_addresses
  check_addresses-IsSound [] ctx h = h
  check_addresses-IsSound (p ∷ ps) ctx h =
      Post->>= {B = CheckedAll w} (λ r. IsSound r.2) (λ r. IsSound r.2) (check_addresses w ps ctx) _
        (check_addresses-IsSound ps ctx h)
        (λ later s.
          let r = arp_state w p.address 0 later.2 in
          Post->>= {B = CheckedAll w} (λ c. IsSound c.1) (λ r. IsSound r.2)
            (check_address w r.0 p r.1) _
            (check_address-IsSound r.0 p r.1 (arp_state-IsSound w p.address 0 later.2 s))
            (λ c t. checked_first-IsSound p later c t))

  pub check_pending-IsSound :
      (worker : InterfaceWorker) → SoundWorker worker → Post (check_pending w worker) SoundWorker
  unfolding check_pending
  check_pending-IsSound worker h =
      Post->>= {B = InterfaceWorker} (λ r. IsSound r.2) SoundWorker
        (check_addresses w worker.ipv4_pending_addresses worker.context) _
        (check_addresses-IsSound worker.ipv4_pending_addresses worker.context h) (λ r s. s)

  draws-IsSound :
      (ctx : InterfaceContext) (draws : ℕ) → IsSound ctx → IsSound (record ctx { draws = draws })
  draws-IsSound ctx draws h = asked-IsSound ctx ctx.arp_table ctx.readings draws h

  -- A control message that is handled, where it is.
  unfoldable pub SoundControl : Option (Io (InterfaceWorker × Bool)) → Type 0
  SoundControl none = Unit
  SoundControl (some m) = Post m (λ r. SoundWorker r.0)

  ping-IsSound :
      (target : ℕ) (count : Option ℕ) (interval : ℕ) (worker : InterfaceWorker)
      (drawn : Option (ℕ × ℕ))
      → SoundWorker worker
      → SoundControl (going_on w (ping_drawn w target count interval worker drawn))
  unfolding ping_drawn SoundControl
  ping-IsSound target count interval worker none h = tt
  ping-IsSound target count interval worker (some (identifier, draws)) h =
      draws-IsSound worker.context draws h

  pub control_message-IsSound :
      (draws : ℕ) (m : InterfaceControlMessage) (worker : InterfaceWorker)
      → SoundWorker worker
      → SoundControl (control_message w draws m worker)
  unfolding control_message SoundControl handle_bind start_ping handle_route_add
  control_message-IsSound draws (ipv4_address_add addr prefix channel) worker h =
      Post->>= {B = InterfaceWorker × Bool} SoundWorker (λ r. SoundWorker r.0)
        (handle_address_add w addr prefix channel worker) _
        (handle_address_add-IsSound addr prefix channel worker h) (λ r s. s)
  control_message-IsSound draws (ipv4_address_remove addr) worker h =
      handle_address_remove-IsSound addr worker h
  control_message-IsSound draws (ipv4_route_add target mask hop src channel) worker h =
      add_route-IsSound target mask hop (or_subnet src hop worker.context) worker.context h
  control_message-IsSound draws ipv4_route_remove worker h = tt
  control_message-IsSound draws (ping target count interval) worker h =
      ping-IsSound target count interval worker _ h
  control_message-IsSound draws stop worker h = h
  control_message-IsSound draws (bind_udp addr) worker h = draws-IsSound worker.context _ h

  pub receive_all-IsSound :
      (frames : List Bytes) (state : InterfaceContext × Managers)
      → SoundState state
      → Post (receive_all w frames state) SoundState
  unfolding receive_all
  receive_all-IsSound [] state h = h
  receive_all-IsSound (bytes ∷ frames) state h =
      Post->>= SoundState SoundState (ethernet_recv w bytes state) _
        (ethernet_recv-IsSound w bytes state h) (λ after s. receive_all-IsSound frames after s)

  pub process_sockets-IsSound :
      (worker : InterfaceWorker) → SoundWorker worker → Post (process_sockets w worker) SoundWorker
  unfolding process_sockets
  process_sockets-IsSound worker h =
      Post->>= {B = InterfaceWorker} (λ r. IsSound r.1) SoundWorker
        (process_buffers w worker.managers.udp_manager worker.context) _
        (process_buffers-IsSound w worker.managers.udp_manager worker.context h) (λ r s. s)

  deadline-IsSound :
      (deadline : Option ℕ) (worker : InterfaceWorker)
      → SoundWorker worker
      → SoundWorker (deadline_or_second w deadline worker).1
  deadline-IsSound none worker h =
      asked-IsSound worker.context worker.context.arp_table (worker.context.readings + 1)
        worker.context.draws h
  deadline-IsSound (some d) worker h = h

  pub perform_timers-IsSound :
      (worker : InterfaceWorker)
      → SoundWorker worker
      → Post (perform_timers w worker) (λ r. SoundWorker r.1)
  unfolding perform_timers perform_arp_timers
  perform_timers-IsSound worker h =
      Post->>= {B = ℕ × InterfaceWorker} (λ a. IsSound a.1) (λ r. SoundWorker r.1)
        (arp_timers w (pending_addresses worker.context.arp_table) none
          (worker.context, worker.managers))
        _ (arp_timers-IsSound w _ none (worker.context, worker.managers) h)
        (λ a s.
          Post->>= {B = ℕ × InterfaceWorker} (λ i. IsSound i.2) (λ r. SoundWorker r.1)
            (ping_perform_timers w a.2.ping_manager a.1) _
            (ping_timers-IsSound w a.2.ping_manager a.1 s)
            (λ i t. deadline-IsSound (earlier w a.0 i.0) _ t))
