-- ===== src/ReadyByBits.antt =====
-- lib/src/ready_by_bits.rs: an iterator over the items whose ready bit is set. A chunk is a `u64`.
pub mod Flags
pub mod Chunks
pub mod Pick
pub mod Next
pub mod Iteration
pub mod Drain
use narth_network.Base.{
  ℕ, zero, suc, ◌+◌, ◌-◌, ◌*◌, ◌/◌, ◌%◌, bit_and, Option, none, some, List, [], ◌∷◌, ltb, ◌==◌,
  if◌then◌else◌, length, get_elem?, drop, Io, ok, panicked, ◌>>=◌,
}

-- `CHUNK_SIZE` is the length of `ready_bits`; `items` is what is left of the slice.
pub record ReadyByBits (T : Type 0) : Type 0 where
  pub items : List (Option T)
  pub ready_bits : List ℕ
  pub current_chunk : ℕ

-- `FULL_LENGTH`
abbrev pub full_length {ℓ} : {A : Type ℓ} → List A → ℕ
full_length chunks = length chunks * 64

-- `ReadyByBits::new`, with its assertion.
pub ready_new : {T : Type 0} → List (Option T) → List ℕ → Io (ReadyByBits T)
ready_new items ready_bits =
    if full_length ready_bits == length items
    then ok (record { items = items; ready_bits = ready_bits; current_chunk = 0 })
    else panicked

-- `u64::trailing_zeros`; the first argument is the width.
pub trailing_zeros : ℕ → ℕ → ℕ
trailing_zeros zero n = 0
trailing_zeros (suc w) n = let rest = trailing_zeros w (n / 2) in if n % 2 == 1 then 0 else suc rest

abbrev pub set {ℓ} : {A : Type ℓ} → List A → ℕ → A → List A
set [] i v = []
set (x ∷ xs) zero v = v ∷ xs
set (x ∷ xs) (suc i) v = x ∷ set xs i v

-- What one turn of the loop in `next` comes to: return, or `continue`.
pub data Turn (T : Type 0) : Type 0 where
  finished : Turn T
  again : ReadyByBits T → Turn T
  yielded : T → ReadyByBits T → Turn T
  fault : Turn T

-- From the item at the position on: skip it, or hand it out and keep what stands behind it.
pub visit : {T : Type 0} → ReadyByBits T → ℕ → Turn T
visit it current = elim (get_elem? it.items current) [
  | none ↦ fault
  | some entry ↦ elim entry [
    | none ↦ again it
    | some item ↦ yielded item (record it { items = drop (current + 1) it.items })
  ]
]

-- A chunk that is not zero: its lowest bit is cleared, and names the position.
pub take_lowest : {T : Type 0} → ReadyByBits T → ℕ → Turn T
unfolding visit
take_lowest it bits =
    let next_ready : ℕ = trailing_zeros 64 bits in
    let absolute : ℕ = next_ready + 64 * it.current_chunk in
    let consumed : ℕ = full_length it.ready_bits - length it.items in
    let cleared = record it {
      ready_bits = set it.ready_bits it.current_chunk (bit_and bits (bits - 1));
    } in
    if ltb absolute consumed then fault else visit cleared (absolute - consumed)

pub turn : {T : Type 0} → ReadyByBits T → Turn T
unfolding take_lowest
turn it = elim (get_elem? it.ready_bits it.current_chunk) [
  | none ↦ finished
  | some bits ↦
      if bits == 0
      then again (record it { current_chunk = it.current_chunk + 1 })
      else take_lowest it bits
]

-- `next`: the loop on fuel. The outer `none` means that the fuel ran out.
pub next : {T : Type 0} → ℕ → ReadyByBits T → Option (Io (Option (T × ReadyByBits T)))
next zero it = none
next (suc fuel) it = elim (turn it) [
  | finished ↦ some (ok none)
  | again it' ↦ next fuel it'
  | yielded x it' ↦ some (ok (some (x, it')))
  | fault ↦ some panicked
]

-- `capture_and_reset_ready_atomic`: each word is swapped with 0.
pub capture_and_reset : List ℕ → List ℕ × List ℕ
capture_and_reset [] = ([], [])
capture_and_reset (b ∷ bs) = let (captured, left) = capture_and_reset bs in (b ∷ captured, 0 ∷ left)

-- `iter_by_ready_bits`: the iterator, and the words left behind.
pub iter_by_ready_bits : {T : Type 0} → List (Option T) → List ℕ → Io (ReadyByBits T × List ℕ)
unfolding capture_and_reset
iter_by_ready_bits items words =
    let (captured, left) = capture_and_reset words in
    do it ← ready_new items captured; ok (it, left)
