-- ===== src/PortBindings/Ports.antt =====
-- Each port's bindings, whether the table has an entry for the port or not.
use narth_network.Base.{
  ℕ, ◌≡◌, refl, inl, inr, Bool, none, some, List, [], arith, ◌==◌, if◌then◌else◌, Bool-cases,
  Option-cases,
}
use narth_network.PortBindings.{
  SocketAddr, UdpSocketHandle, AddressBinding, is_bindable, get_mut, push_binding, remove_binding,
  PortBindings, write_port, port_is_bindable, port_insert, port_get_mut, port_remove,
}

-- What stands at a port.
abbrev pub at_port : PortBindings → ℕ → List AddressBinding
at_port ports p = elim (ports p) [ none ↦ [] | some bs ↦ bs ]

at_port-some :
    (ports : PortBindings) (p : ℕ) {bs : List AddressBinding}
    → ports p ≡ some bs
    → at_port ports p ≡ bs
at_port-some ports p e = rw (e, at_port) refl

at_port-none : (ports : PortBindings) (p : ℕ) → ports p ≡ none → at_port ports p ≡ []
at_port-none ports p e = rw (e, at_port) refl

at_port-write :
    (ports : PortBindings) (p q : ℕ) (bs : List AddressBinding)
    → at_port (write_port ports p bs) q ≡ (if p == q then bs else at_port ports q)
at_port-write ports p q bs = elim (Bool-cases (p == q)) [
  | inl e ↦ rw (e, at_port) refl
  | inr e ↦ rw (e, at_port) refl
]

pub at_port-insert :
    (ports : PortBindings) (addr : SocketAddr) (handle : UdpSocketHandle) (dual : Bool) (q : ℕ)
    → at_port (port_insert ports addr handle dual) q ≡ (
        if addr.port == q
        then push_binding (at_port ports addr.port) addr handle dual
        else at_port ports q)
unfolding port_insert
at_port-insert ports addr handle dual q = elim (Option-cases (ports addr.port)) [
  | inl e ↦ rw (at_port-none ports addr.port e, e, port_insert) (at_port-write ports addr.port q _)
  | inr (bs, e) ↦
      rw (at_port-some ports addr.port e, e, port_insert) (at_port-write ports addr.port q _)
]

-- Where a port has no entry, nothing is removed from it.
pub at_port-remove :
    (ports : PortBindings) (addr : SocketAddr) (q : ℕ)
    → at_port (port_remove ports addr) q
      ≡ (if addr.port == q then remove_binding (at_port ports addr.port) addr else at_port ports q)
unfolding port_remove remove_binding
at_port-remove ports addr q = elim (Option-cases (ports addr.port)) [
  | inl e ↦ elim (Bool-cases (addr.port == q)) [
    | inl here ↦
        let same : addr.port ≡ q = ground arith in
        let gone = at_port-none ports addr.port e in
        let gone' : at_port ports q ≡ [] = rw (← same) gone in
        rw (e, port_remove, here, gone, gone') refl
    | inr other ↦ rw (e, port_remove, other) refl
  ]
  | inr (bs, e) ↦
      rw (at_port-some ports addr.port e, e, port_remove) (at_port-write ports addr.port q _)
]

pub port_is_bindable_at :
    (ports : PortBindings) (addr : SocketAddr) (reuse dual : Bool)
    → port_is_bindable ports addr reuse dual ≡ is_bindable (at_port ports addr.port) addr reuse dual
unfolding port_is_bindable is_bindable
port_is_bindable_at ports addr reuse dual = elim (Option-cases (ports addr.port)) [
  | inl e ↦ rw (at_port-none ports addr.port e, e, port_is_bindable) (ground arith)
  | inr (bs, e) ↦ rw (at_port-some ports addr.port e, e, port_is_bindable) refl
]

pub port_get_mut_at :
    (ports : PortBindings) (dest : SocketAddr)
    → port_get_mut ports dest ≡ get_mut (at_port ports dest.port) dest.ip
unfolding port_get_mut get_mut
port_get_mut_at ports dest = elim (Option-cases (ports dest.port)) [
  | inl e ↦ rw (at_port-none ports dest.port e, e, port_get_mut) refl
  | inr (bs, e) ↦ rw (at_port-some ports dest.port e, e, port_get_mut) refl
]
