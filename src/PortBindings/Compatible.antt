-- ===== src/PortBindings/Compatible.antt =====
-- Two bindings of a port share an address only where both allow it.
use narth_network.Base.{
  ℕ, ◌≡◌, sym, ◌∙◌, inl, inr, Bool, true, List, [], ◌∷◌, ◌++◌, arith, ◌==◌, if◌then◌else◌,
  Bool-cases,
}
use narth_network.PortBindings.{
  IpAddr, SocketAddr, UdpSocketHandle, AddressBinding, addr_eq, matches, allows_reuse, is_bindable,
  target_of, binding_of, push_binding, remove_binding, PortBindings, no_bindings, port_is_bindable,
  port_insert, port_remove, v4, v6,
}
use narth_network.PortBindings.Ports.{at_port, at_port-insert, at_port-remove, port_is_bindable_at}

-- Some address is taken by both bindings.
abbrev Overlap : AddressBinding → AddressBinding → Type 0
Overlap a b = (ip : IpAddr) × (matches a.target ip ≡ true) × (matches b.target ip ≡ true)

abbrev MayCoexist : AddressBinding → AddressBinding → Type 0
MayCoexist a b = Overlap a b → (allows_reuse a ≡ true) × (allows_reuse b ≡ true)

abbrev CoexistsWith : AddressBinding → List AddressBinding → Type 0
CoexistsWith a [] = Unit
CoexistsWith a (b ∷ bs) = MayCoexist a b × CoexistsWith a bs

-- Any two bindings of the list either take no address in common or both allow reuse.
abbrev AreCompatible : List AddressBinding → Type 0
AreCompatible [] = Unit
AreCompatible (b ∷ bs) = CoexistsWith b bs × AreCompatible bs

bindable-rest :
    (b : AddressBinding) (bs : List AddressBinding) (addr : SocketAddr) (reuse dual : Bool)
    → is_bindable (b ∷ bs) addr reuse dual ≡ true
    → is_bindable bs addr reuse dual ≡ true
unfolding is_bindable
bindable-rest b bs addr reuse dual h = ground arith

coexist :
    (b : AddressBinding) (bs : List AddressBinding) (addr : SocketAddr) (reuse dual : Bool)
    (ip : IpAddr)
    → is_bindable (b ∷ bs) addr reuse dual ≡ true
    → matches b.target ip ≡ true
    → matches (target_of addr.ip dual) ip ≡ true
    → (allows_reuse b ≡ true) × (reuse ≡ true)
unfolding is_bindable
coexist b bs addr reuse dual (v4 a) h m n = ground arith
coexist b bs addr reuse dual (v6 a) h m n = ground arith

-- Where a request is bindable among some bindings, the binding made for it takes no address in
-- common with any of them unless both allow reuse.
is_bindable-CoexistsWith :
    (bs : List AddressBinding) (addr : SocketAddr) (handle : UdpSocketHandle) (dual : Bool)
    → is_bindable bs addr handle.allow_reuse dual ≡ true
    → CoexistsWith (binding_of addr handle dual) bs
unfolding binding_of
is_bindable-CoexistsWith [] addr handle dual h = tt
is_bindable-CoexistsWith (b ∷ bs) addr handle dual h = (
  λ (ip, m, n). let (old, new) = coexist b bs addr handle.allow_reuse dual ip h n m in (new, old),
  is_bindable-CoexistsWith bs addr handle dual (bindable-rest b bs addr handle.allow_reuse dual h),
)

MayCoexist-sym : (a b : AddressBinding) → MayCoexist a b → MayCoexist b a
MayCoexist-sym a b h (ip, m, n) = let (p, q) = h (ip, n, m) in (q, p)

CoexistsWith-push :
    (a b : AddressBinding) (bs : List AddressBinding)
    → CoexistsWith a bs
    → MayCoexist a b
    → CoexistsWith a (bs ++ (b ∷ []))
CoexistsWith-push a b [] h k = (k, tt)
CoexistsWith-push a b (c ∷ bs) (p, h) k = (p, CoexistsWith-push a b bs h k)

AreCompatible-push :
    (b : AddressBinding) (bs : List AddressBinding)
    → AreCompatible bs
    → CoexistsWith b bs
    → AreCompatible (bs ++ (b ∷ []))
AreCompatible-push b [] h k = (tt, tt)
AreCompatible-push b (c ∷ bs) (p, h) (q, k) =
    (CoexistsWith-push c b bs p (MayCoexist-sym b c q), AreCompatible-push b bs h k)

CoexistsWith-remove :
    (a : AddressBinding) (bs : List AddressBinding) (addr : SocketAddr)
    → CoexistsWith a bs
    → CoexistsWith a (remove_binding bs addr)
unfolding remove_binding
CoexistsWith-remove a [] addr h = tt
CoexistsWith-remove a (b ∷ bs) addr (p, h) = elim (Bool-cases (addr_eq b.original addr)) [
  | inl e ↦ rw e h
  | inr e ↦ rw e (p, CoexistsWith-remove a bs addr h)
]

AreCompatible-remove :
    (bs : List AddressBinding) (addr : SocketAddr)
    → AreCompatible bs
    → AreCompatible (remove_binding bs addr)
unfolding remove_binding
AreCompatible-remove [] addr h = tt
AreCompatible-remove (b ∷ bs) addr (p, h) = elim (Bool-cases (addr_eq b.original addr)) [
  | inl e ↦ rw e h
  | inr e ↦ rw e (CoexistsWith-remove b bs addr p, AreCompatible-remove bs addr h)
]

-- How the sockets' owner changes the table: a socket is inserted only where its address is bindable.
pub data Step : PortBindings → PortBindings → Type 0 where
  bind :
      {ports : PortBindings} (addr : SocketAddr) (handle : UdpSocketHandle) (dual : Bool)
      → port_is_bindable ports addr handle.allow_reuse dual ≡ true
      → Step ports (port_insert ports addr handle dual)
  close : {ports : PortBindings} (addr : SocketAddr) → Step ports (port_remove ports addr)

pub data Reachable : PortBindings → Type 0 where
  start : Reachable no_bindings
  then_step : {before after : PortBindings} → Reachable before → Step before after → Reachable after

-- Compatible at every port.
abbrev pub IsExclusive : PortBindings → Type 0
IsExclusive ports = (p : ℕ) → AreCompatible (at_port ports p)

IsExclusive-change :
    (ports changed : PortBindings) (p : ℕ) (bs : List AddressBinding)
    → IsExclusive ports
    → AreCompatible bs
    → ((q : ℕ) → at_port changed q ≡ (if p == q then bs else at_port ports q))
    → IsExclusive changed
IsExclusive-change ports changed p bs h k e q = elim (Bool-cases (p == q)) [
  | inl here ↦ rw (e q, here) k
  | inr other ↦ rw (e q, other) (h q)
]

-- In every table reached from the empty one by insertions of sockets whose address was bindable
-- and by removals, any two bindings of a port that take an address in common both allow reuse.
pub Reachable-IsExclusive : {ports : PortBindings} → Reachable ports → IsExclusive ports
unfolding push_binding
Reachable-IsExclusive start = λ p. tt
Reachable-IsExclusive (then_step {before} r (bind addr handle dual free)) =
    let old = Reachable-IsExclusive r in
    let bindable = sym (port_is_bindable_at before addr handle.allow_reuse dual) ∙ free in
    let apart = is_bindable-CoexistsWith (at_port before addr.port) addr handle dual bindable in
    IsExclusive-change before (port_insert before addr handle dual) addr.port _ old
      (AreCompatible-push (binding_of addr handle dual) _ (old addr.port) apart)
      (at_port-insert before addr handle dual)
Reachable-IsExclusive (then_step {before} r (close addr)) =
    let old = Reachable-IsExclusive r in
    IsExclusive-change before (port_remove before addr) addr.port _ old
      (AreCompatible-remove _ addr (old addr.port)) (at_port-remove before addr)
