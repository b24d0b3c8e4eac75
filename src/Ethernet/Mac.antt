-- ===== src/Ethernet/Mac.antt =====
-- lib/src/protocols/ethernet/mac.rs: MAC addresses, a tuple struct of six bytes.
use narth_network.Base.{
  ℕ, ◌≡◌, ◌↔◌, Bool, true, ◌&&◌, [], ◌∷◌, arith, ◌==◌, Io, unexpected_eof, ok, err,
}
use narth_network.Wire.{Bytes}

pub record MacAddr : Type 0 where
  pub a : ℕ
  pub b : ℕ
  pub c : ℕ
  pub d : ℕ
  pub e : ℕ
  pub f : ℕ

-- `MacAddr::new`, and `From<[u8; 6]>` on the elements of the array.
abbrev pub mac_new : ℕ → ℕ → ℕ → ℕ → ℕ → ℕ → MacAddr
mac_new a b c d e f = record { a = a; b = b; c = c; d = d; e = e; f = f }

abbrev pub broadcast : MacAddr
broadcast = mac_new 255 255 255 255 255 255

mac_eq : MacAddr → MacAddr → Bool
mac_eq x y = x.a == y.a && x.b == y.b && x.c == y.c && x.d == y.d && x.e == y.e && x.f == y.f

is_broadcast : MacAddr → Bool
unfolding mac_eq
is_broadcast m = mac_eq m broadcast

unfoldable pub mac_octets : MacAddr → Bytes
mac_octets m = m.a ∷ m.b ∷ m.c ∷ m.d ∷ m.e ∷ m.f ∷ []

-- `TryFrom<&[u8]>`; the callers turn its error into `UnexpectedEof` by `err_as_eof`.
unfoldable pub mac_of_slice : Bytes → Io MacAddr
mac_of_slice (a ∷ b ∷ c ∷ d ∷ e ∷ f ∷ []) = ok (mac_new a b c d e f)
mac_of_slice _ = err unexpected_eof

-- An address counts as broadcast exactly when its six bytes are all 255.
is_broadcast_iff : (m : MacAddr) → (is_broadcast m ≡ true) ↔ (m ≡ broadcast)
unfolding is_broadcast
is_broadcast_iff m = ground arith
