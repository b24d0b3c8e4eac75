-- ===== src/PortBindings/Delivery.antt =====
-- Which socket a datagram goes to, and which one a removal takes away.
use narth_network.Base.{
  ◌≡◌, refl, sym, ap, ◌∙◌, inl, inr, Bool, true, false, ◌&&◌, some, List, [], ◌∷◌, ◌++◌, arith,
  ◌==◌, if◌then◌else◌, Bool-cases,
}
use narth_network.PortBindings.{
  IpAddr, SocketAddr, UdpSocketHandle, AddressBinding, ip_eq, addr_eq, matches, any, find,
  is_bindable, get_mut, target_of, binding_of, push_binding, remove_binding, PortBindings,
  port_is_bindable, port_insert, port_get_mut, v4, v6,
}
use narth_network.PortBindings.Ports.{at_port, at_port-insert, port_is_bindable_at, port_get_mut_at}

get_mut-skip :
    (bs cs : List AddressBinding) (ip : IpAddr)
    → any (λ b. matches b.target ip) bs ≡ false
    → get_mut (bs ++ cs) ip ≡ get_mut cs ip
unfolding get_mut
get_mut-skip [] cs ip h = refl
get_mut-skip (b ∷ bs) cs ip h = elim (Bool-cases (matches b.target ip)) [
  | inl e ↦ ground arith
  | inr e ↦ let rest = get_mut-skip bs cs ip (ground arith) in rw (e, get_mut, find) rest
]

-- An exclusive bind finds no binding that takes an address of its own.
exclusive_alone :
    (bs : List AddressBinding) (addr : SocketAddr) (dual : Bool) (ip : IpAddr)
    → is_bindable bs addr false dual ≡ true
    → matches (target_of addr.ip dual) ip ≡ true
    → any (λ b. matches b.target ip) bs ≡ false
unfolding is_bindable
exclusive_alone [] addr dual ip h m = refl
exclusive_alone (b ∷ bs) addr dual (v4 a) h m =
    let rest = exclusive_alone bs addr dual (v4 a) in ground arith
exclusive_alone (b ∷ bs) addr dual (v6 a) h m =
    let rest = exclusive_alone bs addr dual (v6 a) in ground arith

found :
    (addr : SocketAddr) (handle : UdpSocketHandle) (dual : Bool) (ip : IpAddr)
    → matches (target_of addr.ip dual) ip ≡ true
    → get_mut (binding_of addr handle dual ∷ []) ip ≡ some handle
unfolding get_mut binding_of
found addr handle dual ip m = rw (m, get_mut, find) refl

-- After a socket whose address was bindable without reuse is inserted, `get_mut` for its port and
-- any address that its binding takes gives that socket.
pub port_get_mut-insert :
    (ports : PortBindings) (addr dest : SocketAddr) (handle : UdpSocketHandle) (dual : Bool)
    → port_is_bindable ports addr false dual ≡ true
    → dest.port ≡ addr.port
    → matches (target_of addr.ip dual) dest.ip ≡ true
    → port_get_mut (port_insert ports addr handle dual) dest ≡ some handle
unfolding push_binding
port_get_mut-insert ports addr dest handle dual free same m =
    let bs = at_port ports addr.port in
    let bindable = sym (port_is_bindable_at ports addr false dual) ∙ free in
    let here : (addr.port == addr.port) ≡ true = ground arith in
    rw
      (
        port_get_mut_at,
        same,
        at_port-insert,
        here,
        get_mut-skip bs _ dest.ip (exclusive_alone bs addr dual dest.ip bindable m),
      )
      (found addr handle dual dest.ip m)

addr_eq_refl : (addr : SocketAddr) → addr_eq addr addr ≡ true
addr_eq_refl addr =
    elim addr.ip
      as (λ ip.
        (ip_eq ip ip && (addr.port == addr.port))
          && ((addr.flowinfo == addr.flowinfo) && (addr.scope_id == addr.scope_id))
        ≡ true) [ v4 a ↦ ground arith | v6 a ↦ ground arith ]

-- A removal right after an insertion of the same address undoes the insertion where no other
-- binding was made for that address; otherwise it takes away the first such binding, and the new
-- one stays.
pub remove-push :
    (bs : List AddressBinding) (addr : SocketAddr) (handle : UdpSocketHandle) (dual : Bool)
    → remove_binding (push_binding bs addr handle dual) addr ≡ (
        if any (λ b. addr_eq b.original addr) bs
        then push_binding (remove_binding bs addr) addr handle dual
        else bs)
unfolding remove_binding push_binding binding_of
remove-push [] addr handle dual = rw (addr_eq_refl addr) refl
remove-push (b ∷ bs) addr handle dual = elim (Bool-cases (addr_eq b.original addr)) [
  | inl e ↦ rw e refl
  | inr e ↦
      let rest = remove-push bs addr handle dual in
      elim (Bool-cases (any (λ b. addr_eq b.original addr) bs)) [
        | inl old ↦ rw (e, old) (ap (◌∷◌ b) (rw old at rest))
        | inr new ↦ rw (e, new) (ap (◌∷◌ b) (rw new at rest))
      ]
]
