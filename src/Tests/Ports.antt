-- ===== src/Tests/Ports.antt =====
-- The port bindings at concrete inputs.
use narth_network.Base.{ℕ, ◌≡◌, refl, Bool, true, false, none, some, List, [], ◌∷◌, if◌then◌else◌}
use narth_network.PortBindings.{
  SocketAddr, UdpSocketHandle, AddressBinding, addr_eq, any, is_bindable_allow_reuse, is_bindable,
  binding_of, push_binding, remove_binding, PortBindings, no_bindings, port_is_bindable,
  port_insert, port_get_mut, v4,
}
use narth_network.PortBindings.Compatible.{
  Reachable, IsExclusive, Reachable-IsExclusive, bind, start, then_step,
}
use narth_network.PortBindings.Delivery.{port_get_mut-insert, remove-push}

-- Port 80 of 192.168.0.12, and of every address.
abbrev web : SocketAddr
web = record { ip = v4 0xc0a8000c; port = 80; flowinfo = 0; scope_id = 0 }

abbrev any_web : SocketAddr
any_web = record { ip = v4 0; port = 80; flowinfo = 0; scope_id = 0 }

abbrev handle_of : ℕ → Bool → UdpSocketHandle
handle_of n reuse = record { endpoint = n; local_addr = web; peer_addr = none; allow_reuse = reuse }

abbrev shared_web : PortBindings
shared_web = port_insert no_bindings web (handle_of 1 true) true

Reachable-shared_web : Reachable shared_web
unfolding port_is_bindable
Reachable-shared_web = then_step start (bind web (handle_of 1 true) true refl)

Reachable-both : Reachable (port_insert shared_web any_web (handle_of 2 true) true)
unfolding port_is_bindable is_bindable is_bindable_allow_reuse port_insert push_binding binding_of
Reachable-both = then_step Reachable-shared_web (bind any_web (handle_of 2 true) true refl)

Reachable-IsExclusive_example : IsExclusive (port_insert shared_web any_web (handle_of 2 true) true)
Reachable-IsExclusive_example = Reachable-IsExclusive Reachable-both

port_get_mut-insert_example :
    port_get_mut (port_insert no_bindings any_web (handle_of 3 false) true) web
    ≡ some (handle_of 3 false)
unfolding port_is_bindable
port_get_mut-insert_example =
    port_get_mut-insert no_bindings any_web web (handle_of 3 false) true refl refl refl

-- Two sockets that share an address, the first of them bound first.
abbrev first_of_two : List AddressBinding
first_of_two = binding_of web (handle_of 1 true) true ∷ []

remove-push_example : remove_binding (push_binding first_of_two web (handle_of 2 true) true) web ≡ (
    if any (λ b. addr_eq b.original web) first_of_two
    then push_binding (remove_binding first_of_two web) web (handle_of 2 true) true
    else first_of_two)
remove-push_example = remove-push first_of_two web (handle_of 2 true) true
