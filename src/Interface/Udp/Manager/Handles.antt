-- ===== src/Interface/Udp/Manager/Handles.antt =====
-- A socket's handle, written back where `get_mut` found it.
use narth_network.Base.{
  ℕ, ◌≡◌, refl, ◌≢◌, inl, inr, true, false, Option, none, some, List, [], ◌∷◌, arith, ◌==◌,
  Bool-cases, Option-cases,
}
use narth_network.PortBindings.{
  IpAddr, SocketAddr, UdpSocketHandle, AddressBinding, matches, get_mut, remove_binding,
  PortBindings, write_port, port_get_mut, port_remove,
}
use narth_network.Interface.Udp.Manager.{write_handle, port_write_handle}

get_mut-write_handle :
    (bs : List AddressBinding) (ip : IpAddr) (old new : UdpSocketHandle)
    → get_mut bs ip ≡ some old
    → get_mut (write_handle bs ip new) ip ≡ some new
unfolding get_mut write_handle
get_mut-write_handle [] ip old new h = cc
get_mut-write_handle (b ∷ bs) ip old new h = elim (Bool-cases (matches b.target ip)) [
  | inl m ↦ rw (m, get_mut, m) refl
  | inr m ↦ rw (m, get_mut, m) (get_mut-write_handle bs ip old new (rw (m, get_mut) at h))
]

pub port_get_mut-port_write_handle :
    (ports : PortBindings) (addr : SocketAddr) (old new : UdpSocketHandle)
    → port_get_mut ports addr ≡ some old
    → port_get_mut (port_write_handle ports addr new) addr ≡ some new
unfolding port_get_mut port_write_handle
port_get_mut-port_write_handle ports addr old new h = elim (Option-cases (ports addr.port)) [
  | inl e ↦ cc (rw (e, port_get_mut) at h)
  | inr (bs, e) ↦
      let same : (addr.port == addr.port) ≡ true = ground arith in
      rw (port_write_handle, e, port_get_mut, same)
        (get_mut-write_handle bs addr.ip old new (rw (e, port_get_mut) at h))
]

-- What is written at one port does not change another.
rewritten-other :
    (ports : PortBindings) (place port : ℕ) (change : List AddressBinding → List AddressBinding)
    (found : Option (List AddressBinding))
    → port ≢ place
    → (elim found as (λ o. PortBindings) [
      | none ↦ ports
      | some bs ↦ write_port ports place (change bs)
    ])
        port
      ≡ ports port
rewritten-other ports place port change none h = refl
rewritten-other ports place port change (some bs) h =
    let other : (place == port) ≡ false = ground arith in rw other refl

pub port_write_handle-other :
    (ports : PortBindings) (addr : SocketAddr) (handle : UdpSocketHandle) (port : ℕ)
    → port ≢ addr.port
    → port_write_handle ports addr handle port ≡ ports port
unfolding port_write_handle
port_write_handle-other ports addr handle port h =
    rewritten-other ports addr.port port (λ bs. write_handle bs addr.ip handle) (ports addr.port) h

pub port_remove-other :
    (ports : PortBindings) (addr : SocketAddr) (port : ℕ)
    → port ≢ addr.port
    → port_remove ports addr port ≡ ports port
unfolding port_remove
port_remove-other ports addr port h =
    rewritten-other ports addr.port port (λ bs. remove_binding bs addr) (ports addr.port) h
