-- ===== src/Interface/Udp/Stored.antt =====
-- The atomic word that a send result is shared in, against a slot that holds one result or none.
use narth_network.Base.{ℕ, ◌≡◌, refl, Option, none, some, List, [], ◌∷◌, Io, ok}
use narth_network.Interface.Udp.{
  UdpSendResult, store_result, result_of_word, reset_result, too_large, network_unreachable,
  host_unreachable, other_error, delivered, undelivered,
}

-- What the two sides do to the word: the worker stores a result, the client takes out what is there.
-- Each is one atomic operation, so every interleaving of the two sides is a list of these.
pub data Sharing : Type 0 where
  storing : UdpSendResult → Sharing
  resetting : Sharing

-- What the resets answer, from the word on.
pub run_word : List Sharing → ℕ → List (Io (Option UdpSendResult))
run_word [] word = []
run_word (storing result ∷ steps) word = run_word steps (store_result result)
run_word (resetting ∷ steps) word =
    let (answer, left) = reset_result word in answer ∷ run_word steps left

-- What they answer where a slot holds the last result that was stored since the last reset.
unfoldable pub run_slot : List Sharing → Option UdpSendResult → List (Io (Option UdpSendResult))
run_slot [] slot = []
run_slot (storing result ∷ steps) slot = run_slot steps (some result)
run_slot (resetting ∷ steps) slot = ok slot ∷ run_slot steps none

-- A slot as a word.
word_of : Option UdpSendResult → ℕ
word_of none = 0
word_of (some result) = store_result result

reset-word_of : (slot : Option UdpSendResult) → reset_result (word_of slot) ≡ (ok slot, 0)
unfolding word_of reset_result store_result result_of_word
reset-word_of none = refl
reset-word_of (some delivered) = refl
reset-word_of (some (undelivered too_large)) = refl
reset-word_of (some (undelivered network_unreachable)) = refl
reset-word_of (some (undelivered host_unreachable)) = refl
reset-word_of (some (undelivered other_error)) = refl

run_word-word_of :
    (steps : List Sharing) (slot : Option UdpSendResult)
    → run_word steps (word_of slot) ≡ run_slot steps slot
unfolding run_word run_slot word_of
run_word-word_of [] slot = refl
run_word-word_of (storing result ∷ steps) slot = run_word-word_of steps (some result)
run_word-word_of (resetting ∷ steps) slot =
    rw (reset-word_of slot, run_word-word_of steps none) refl

-- Over every sequence of stores and resets, in which the two sides' atomic operations interleave,
-- the resets of a word that starts as 0 answer what a slot answers that holds the last result
-- stored since the last reset, or none.
pub run_word-run_slot : (steps : List Sharing) → run_word steps 0 ≡ run_slot steps none
unfolding word_of
run_word-run_slot steps = run_word-word_of steps none
