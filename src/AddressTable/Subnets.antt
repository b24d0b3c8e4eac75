-- ===== src/AddressTable/Subnets.antt =====
-- The network, the broadcast address and the subnet test, as arithmetic on prefixes.
use native.Mathlib.Nat.{one-le-pow}
use narth_network.Base.{
  ℕ, zero, suc, ◌+◌, ◌-◌, ◌*◌, ◌/◌, ◌%◌, ◌^◌, ◌<◌, bit_and, ◌≡◌, refl, ap, inl, inr, Bool, true,
  false, ◌&&◌, arith, leb, ◌==◌, if◌then◌else◌, ==_iff, Bool-cases, Io, ok, err, panicked,
}
use narth_network.Wire.Words.{bit_or-add, bit_and-high}
use narth_network.Ipv4.Fields.{prefix_to_mask}
use narth_network.AddressTable.{not32, interface_addr_new, in_subnet}

-- The mask of a prefix: `prefix` ones in front of zeros.
abbrev mask_of : ℕ → ℕ
mask_of prefix = (2 ^ prefix - 1) * 2 ^ (32 - prefix)

io_eq : Io ℕ → ℕ → Bool
io_eq (ok a) n = a == n
io_eq (err e) n = false
io_eq panicked n = false

-- Whether a test holds of every prefix below a bound.
holds_below : (ℕ → Bool) → ℕ → Bool
holds_below test zero = true
holds_below test (suc bound) = holds_below test bound && test bound

holds_below-at :
    (test : ℕ → Bool) (bound prefix : ℕ)
    → prefix < bound
    → holds_below test bound ≡ true
    → test prefix ≡ true
unfolding holds_below
holds_below-at test (suc bound) prefix l h = ground (arith, holds_below-at test bound prefix)
holds_below-at test zero prefix l h = absurd (omega arith)

mask_table : holds_below (λ p. io_eq (prefix_to_mask p) (mask_of p)) 33 ≡ true
unfolding holds_below io_eq prefix_to_mask
mask_table = refl

io_eq_sound : (m : Io ℕ) (n : ℕ) → io_eq m n ≡ true → m ≡ ok n
unfolding io_eq
io_eq_sound (ok a) n h = ap ok ((==_iff a n).0 h)
io_eq_sound (err e) n h = cc
io_eq_sound panicked n h = cc

-- Up to 32, `prefix_to_mask` gives the mask of that many ones; beyond 32 it panics.
prefix_to_mask_lem :
    (prefix : ℕ) → prefix_to_mask prefix ≡ (if leb prefix 32 then ok (mask_of prefix) else panicked)
prefix_to_mask_lem prefix = elim (Bool-cases (leb prefix 32)) [
  | inl small ↦ rw small (
      io_eq_sound (prefix_to_mask prefix) (mask_of prefix) (
        holds_below-at (λ p. io_eq (prefix_to_mask p) (mask_of p)) 33 prefix (ground arith)
          mask_table))
  | inr large ↦ unfold prefix_to_mask in rw large
]

mul_lt : (x y c : ℕ) → x < y → 0 < c → x * c < y * c
mul_lt x y c h p = grind arith

times_eq : (c x y : ℕ) → 0 < c → (x * c == y * c) ≡ (x == y)
times_eq c x y p = ground (arith, mul_lt x y c, mul_lt y x c)

pred_mul : (x c : ℕ) → 0 < x → (x - 1) * c + c ≡ x * c
pred_mul zero c h = absurd (omega arith)
pred_mul (suc x) c h = let e : suc x - 1 ≡ x = omega arith in rw e (omega arith)

quotient-lt : (n k a : ℕ) → a < 2 ^ n * 2 ^ k → a / 2 ^ k < 2 ^ n
quotient-lt n k a h = grind (arith, one-le-pow k 2, one-le-pow n 2)

-- For any split of the 32 bits into a prefix and a host part.
module _ (n k : ℕ) (width : 2 ^ n * 2 ^ k ≡ 2 ^ 32) where
  masked : (a : ℕ) → a < 2 ^ 32 → bit_and a ((2 ^ n - 1) * 2 ^ k) ≡ a / 2 ^ k * 2 ^ k
  masked a h = ground (
    arith,
    one-le-pow k 2,
    quotient-lt n k a (omega (arith, width)),
    bit_and-high k n (a / 2 ^ k) (a % 2 ^ k),
  )

  host_mask : not32 ((2 ^ n - 1) * 2 ^ k) ≡ 2 ^ k - 1
  host_mask =
      let product : (2 ^ n - 1) * 2 ^ k + 2 ^ k ≡ 2 ^ n * 2 ^ k =
        pred_mul (2 ^ n) (2 ^ k) (one-le-pow n 2 (omega arith)) in
      omega (arith, product, width)

  -- For a mask of n ones and k zeros, 32 in all, an address is found in the subnet of another
  -- exactly when both have the same first n bits.
  in_subnet_lem :
      (address value : ℕ)
      → address < 2 ^ 32
      → value < 2 ^ 32
      → in_subnet value (interface_addr_new address ((2 ^ n - 1) * 2 ^ k))
        ≡ (value / 2 ^ k == address / 2 ^ k)
  unfolding in_subnet interface_addr_new
  in_subnet_lem address value p q =
      rw (masked address p, masked value q)
        (times_eq (2 ^ k) (value / 2 ^ k) (address / 2 ^ k) (one-le-pow k 2 (omega arith)))

  -- For a mask of n ones and k zeros, 32 in all, the network address is the address with its last
  -- k bits cleared, and the broadcast address is the last of the 2 ^ k addresses from there.
  pub interface_addr_new-range :
      (address : ℕ)
      → address < 2 ^ 32
      → let a = interface_addr_new address ((2 ^ n - 1) * 2 ^ k) in
        (a.network ≡ address / 2 ^ k * 2 ^ k) × (a.broadcast ≡ a.network + (2 ^ k - 1))
  unfolding interface_addr_new
  interface_addr_new-range address p = (
    masked address p,
    rw (masked address p, host_mask)
        (bit_or-add k (address / 2 ^ k) (2 ^ k - 1) (omega (arith, one-le-pow k 2))),
  )
