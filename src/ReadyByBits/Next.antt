-- ===== src/ReadyByBits/Next.antt =====
-- `next` hands out the items whose flags are set, in order, each once.
use narth_network.Base.{
  ℕ, suc, ◌+◌, ◌-◌, ◌*◌, ◌^◌, ◌≤◌, ◌<◌, bit_and, ◌≡◌, refl, sym, ap, ◌∙◌, inl, inr, Bool, true,
  false, Option, none, some, List, [], ◌∷◌, ◌++◌, arith, ◌==◌, ltb-false, Bool-cases, Option-cases,
  length, get_elem?, drop, length-append, length-drop,
}
use narth_network.ReadyByBits.{
  ReadyByBits, full_length, trailing_zeros, set, Turn, visit, take_lowest, turn, finished, again,
  yielded, fault,
}
use narth_network.ReadyByBits.Flags.{flags, falses, clear_chunk}
use narth_network.ReadyByBits.Chunks.{
  AreWords-set, AreWords-at, ZeroBelow-set, ZeroBelow-suc, length-set, length-flags, flags-zero,
}
use narth_network.ReadyByBits.Pick.{
  consumed, wanted, IsValid, count, measure, drop-falses, count-falses, length-falses, first_after,
  pick-none, pick-some, pick-falses, drop-falses-sub, falses-split, falses-next, get_elem?-lt,
  get_elem?-some,
}

-- What a turn comes to: it ends when nothing is wanted, hands out the first wanted item, or goes on
-- with the same items wanted; the measure falls.
abbrev pub Outcome : {T : Type 0} → ReadyByBits T → Turn T → Type 0
Outcome it finished = wanted it ≡ []
Outcome it (again it') = IsValid it' × (wanted it' ≡ wanted it) × (measure it' < measure it)
Outcome it (yielded x it') = IsValid it' × (wanted it ≡ x ∷ wanted it') × (measure it' < measure it)
Outcome it fault = ⊥

-- Flags that begin unset, in the form that the invariant has.
drop-unset : {fs gs : List Bool} (o : ℕ) → fs ≡ falses o ++ gs → drop o fs ≡ gs
drop-unset {gs = gs} o e = rw e (drop-falses o gs)

quiet_of :
    {fs : List Bool} (o : ℕ) (gs : List Bool) → fs ≡ falses o ++ gs → fs ≡ falses o ++ drop o fs
quiet_of o gs e = e ∙ ap (λ x. falses o ++ x) (sym (drop-unset o e))

module _ {T : Type 0} where
  turn-finished :
      (it : ReadyByBits T)
      → IsValid it
      → get_elem? it.ready_bits it.current_chunk ≡ none
      → wanted it ≡ []
  turn-finished it v e =
      rw (flags-zero it.ready_bits it.current_chunk v.passed e, drop-falses-sub)
        (pick-falses (length it.ready_bits * 64 - consumed it) it.items)

  -- A chunk that is 0 is passed over.
  turn-zero :
      (it : ReadyByBits T)
      → IsValid it
      → get_elem? it.ready_bits it.current_chunk ≡ some 0
      → Outcome it (again (record it { current_chunk = it.current_chunk + 1 }))
  turn-zero it v e =
      let next_chunk : it.current_chunk + 1 ≡ suc it.current_chunk = omega arith in
      let passed = ZeroBelow-suc it.ready_bits it.current_chunk v.passed e in
      (
        record { fits = v.fits; words = v.words; passed = rw next_chunk passed; quiet = v.quiet },
        refl,
        omega (arith, get_elem?-lt it.ready_bits it.current_chunk e),
      )

  abbrev cleared : ReadyByBits T → ℕ → ReadyByBits T
  cleared it n = record it { ready_bits = set it.ready_bits it.current_chunk (bit_and n (n - 1)) }

  -- The place of the first flag that is set, and the flags before and after it is cleared.
  record Found (it : ReadyByBits T) (n : ℕ) : Type 0 where
    place : ℕ
    rest : List Bool
    place_is : place ≡ trailing_zeros 64 n + 64 * it.current_chunk
    before : flags it.ready_bits ≡ falses place ++ (true ∷ rest)
    after : flags (cleared it n).ready_bits ≡ falses place ++ (false ∷ rest)
    ahead : consumed it ≤ place
    behind :
        drop (consumed it) (flags it.ready_bits) ≡ falses (place - consumed it) ++ (true ∷ rest)
    inside : place < full_length it.ready_bits

  find :
      (it : ReadyByBits T) (n : ℕ)
      → IsValid it
      → get_elem? it.ready_bits it.current_chunk ≡ some n
      → 0 < n
      → Found it n
  find it n v e h =
      let word = AreWords-at it.ready_bits it.current_chunk v.words e in
      let (rest, before, after) = clear_chunk it.ready_bits it.current_chunk n v.passed e h word in
      let p = 64 * it.current_chunk + trailing_zeros 64 n in
      let (ahead, behind) =
        first_after p (consumed it) rest (drop (consumed it) (flags it.ready_bits))
          (sym before ∙ v.quiet) in
      record {
        place = p;
        rest = rest;
        place_is = omega arith;
        before = before;
        after = after;
        ahead = ahead;
        behind = behind;
        inside = omega (
          arith,
          length-flags it.ready_bits,
          ap (length {A = Bool}) before,
          length-append (falses p) (true ∷ rest),
          length-falses p,
        );
      }

  measure-cleared :
      (it : ReadyByBits T) (n : ℕ) (f : Found it n)
      → get_elem? it.ready_bits it.current_chunk ≡ some n
      → measure (cleared it n) < measure it
  measure-cleared it n f c = omega (
    arith,
    length-set it.ready_bits it.current_chunk (bit_and n (n - 1)),
    ap count f.before,
    ap count f.after,
    count-falses f.place (true ∷ f.rest),
    count-falses f.place (false ∷ f.rest),
  )

  turn-skip :
      (it : ReadyByBits T) (n : ℕ) (f : Found it n)
      → IsValid it
      → n < 2 ^ 64
      → get_elem? it.ready_bits it.current_chunk ≡ some n
      → get_elem? it.items (f.place - consumed it) ≡ some none
      → Outcome it (again (cleared it n))
  turn-skip it n f v word c e =
      let same = length-set it.ready_bits it.current_chunk (bit_and n (n - 1)) in
      let split = f.after ∙ falses-split f.place (consumed it) (false ∷ f.rest) f.ahead in
      let left = drop-unset (consumed it) split in
      let chosen = pick-none (f.place - consumed it) f.rest it.items e in
      (
        record {
          fits = rw same v.fits;
          words = AreWords-set it.ready_bits it.current_chunk n (n - 1) v.words word;
          passed = ZeroBelow-set it.ready_bits it.current_chunk _ v.passed;
          quiet = rw same (quiet_of (consumed it) _ split);
        },
        rw (same, left, f.behind) (sym chosen),
        measure-cleared it n f c,
      )

  turn-yield :
      (it : ReadyByBits T) (n : ℕ) (f : Found it n) (x : T)
      → IsValid it
      → n < 2 ^ 64
      → get_elem? it.ready_bits it.current_chunk ≡ some n
      → get_elem? it.items (f.place - consumed it) ≡ some (some x)
      → Outcome it
          (yielded x (record (cleared it n) { items = drop (f.place - consumed it + 1) it.items }))
  turn-yield it n f x v word c e =
      let same = length-set it.ready_bits it.current_chunk (bit_and n (n - 1)) in
      let chosen = pick-some (f.place - consumed it) f.rest it.items x e in
      let short = length-drop (f.place - consumed it + 1) it.items in
      let there = get_elem?-lt it.items (f.place - consumed it) e in
      let it' = record (cleared it n) { items = drop (f.place - consumed it + 1) it.items } in
      let further : consumed it' ≡ f.place + 1 =
        omega (arith, same, short, there, f.ahead, f.inside, v.fits) in
      let split = f.after ∙ falses-next f.place f.rest in
      (
        record {
          fits = omega (arith, same, short, v.fits);
          words = AreWords-set it.ready_bits it.current_chunk n (n - 1) v.words word;
          passed = ZeroBelow-set it.ready_bits it.current_chunk _ v.passed;
          quiet = rw further (quiet_of (f.place + 1) f.rest split);
        },
        rw (f.behind, chosen, further, drop-unset (f.place + 1) split),
        measure-cleared it n f c,
      )

  visit-Outcome :
      (it : ReadyByBits T) (n : ℕ) (f : Found it n) (entry : Option T)
      → IsValid it
      → n < 2 ^ 64
      → get_elem? it.ready_bits it.current_chunk ≡ some n
      → get_elem? it.items (f.place - consumed it) ≡ some entry
      → Outcome it (visit (cleared it n) (f.place - consumed it))
  unfolding visit
  visit-Outcome it n f none v word c e = rw (e, visit) (turn-skip it n f v word c e)
  visit-Outcome it n f (some x) v word c e = rw (e, visit) (turn-yield it n f x v word c e)

  take_lowest-Outcome :
      (it : ReadyByBits T) (n : ℕ)
      → IsValid it
      → get_elem? it.ready_bits it.current_chunk ≡ some n
      → 0 < n
      → Outcome it (take_lowest it n)
  unfolding take_lowest
  take_lowest-Outcome it n v c h =
      let f = find it n v c h in
      let word = AreWords-at it.ready_bits it.current_chunk v.words c in
      let there : f.place - consumed it < length it.items =
        omega (arith, f.ahead, f.inside, v.fits) in
      let (entry, e) = get_elem?-some it.items (f.place - consumed it) there in
      rw (← f.place_is, ltb-false f.ahead) (visit-Outcome it n f entry v word c e)

  pub turn-Outcome : (it : ReadyByBits T) → IsValid it → Outcome it (turn it)
  unfolding turn
  turn-Outcome it v = elim (Option-cases (get_elem? it.ready_bits it.current_chunk)) [
    | inl e ↦ rw (e, turn) (turn-finished it v e)
    | inr (n, e) ↦ elim (Bool-cases (n == 0)) [
      | inl done ↦
          let none_set : n ≡ 0 = ground arith in
          rw (e, turn, done) (turn-zero it v (rw none_set at e))
      | inr more ↦ rw (e, turn, more) (take_lowest-Outcome it n v e (ground arith))
    ]
  ]
