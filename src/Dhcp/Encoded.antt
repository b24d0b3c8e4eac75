-- ===== src/Dhcp/Encoded.antt =====
-- Options written the way RFC 2132 lays them out, and what the loop of
-- lib/src/protocols/ipv4/dhcp.rs reads back.
use narth_network.Base.{
  ℕ, zero, suc, ◌+◌, ◌<◌, ◌≡◌, refl, ap, ◌∙◌, ◌≢◌, true, false, some, List, [], ◌∷◌, ◌++◌, arith,
  leb, ◌==◌, leb-false, leb-true, length, take, drop, length-append, ok,
}
use narth_network.Wire.{Bytes}
use narth_network.Dhcp.Options.{DhcpOption, parse_option}
use narth_network.Dhcp.{
  pushed, found_data, read_option, behind, with_found, options_loop, or_panic, options_of, nothing,
  tagged,
}

-- A byte of padding, or a code with its data.
pub data Entry : Type 0 where
  pad : Entry
  option : ℕ → Bytes → Entry

-- Neither the padding's code nor the end's.
unfoldable pub IsTag : ℕ → Type 0
IsTag code = (code ≢ 0) × (code ≢ 255)

unfoldable pub IsTagged : List Entry → Type 0
IsTagged [] = Unit
IsTagged (pad ∷ es) = IsTagged es
IsTagged (option code bytes ∷ es) = IsTag code × IsTagged es

pub encode : List Entry → Bytes
encode [] = []
encode (pad ∷ es) = 0 ∷ encode es
encode (option code bytes ∷ es) = code ∷ length bytes ∷ (bytes ++ encode es)

-- The options that can be parsed, in their order.
unfoldable pub parsed : List Entry → List DhcpOption
parsed [] = []
parsed (pad ∷ es) = parsed es
parsed (option code bytes ∷ es) = pushed (parse_option code bytes) (parsed es)

take_front : (xs ys : Bytes) → take (length xs) (xs ++ ys) ≡ xs
take_front [] ys = refl
take_front (x ∷ xs) ys = ap (◌∷◌ x) (take_front xs ys)

drop_front : (xs ys : Bytes) → drop (length xs) (xs ++ ys) ≡ ys
drop_front [] ys = refl
drop_front (x ∷ xs) ys = drop_front xs ys

append_assoc : (xs ys zs : Bytes) → (xs ++ ys) ++ zs ≡ xs ++ (ys ++ zs)
append_assoc [] ys zs = refl
append_assoc (x ∷ xs) ys zs = ap (◌∷◌ x) (append_assoc xs ys zs)

tag_tests : (code : ℕ) → IsTag code → ((code == 255) ≡ false) × ((code == 0) ≡ false)
unfolding IsTag
tag_tests code h = (ground arith, ground arith)

-- One option with bytes behind it.
read_option-tagged :
    (code : ℕ) (bytes rest : Bytes)
    → IsTag code
    → 0 < length rest
    → read_option (code ∷ length bytes ∷ (bytes ++ rest)) ≡ tagged code bytes rest
unfolding read_option found_data
read_option-tagged code bytes rest h l =
    let (p, q) = tag_tests code h in
    let more : leb (length (bytes ++ rest)) (length bytes) ≡ false =
      leb-false (omega (arith, length-append bytes rest)) in
    rw (p, q, more, take_front bytes rest, drop_front bytes rest)

read_option-last :
    (code : ℕ) (bytes : Bytes) → IsTag code → read_option (code ∷ length bytes ∷ bytes) ≡ nothing
unfolding read_option found_data
read_option-last code bytes h =
    let (p, q) = tag_tests code h in
    let all : leb (length bytes) (length bytes) ≡ true = leb-true (omega arith) in rw (p, q, all)

-- What stops the loop at once.
Stops : Bytes → Type 0
Stops tail = (0 < length tail) × (read_option tail ≡ nothing)

loop-encode :
    (fuel : ℕ) (es : List Entry) (tail : Bytes)
    → IsTagged es
    → Stops tail
    → length (encode es) < fuel
    → options_loop fuel (encode es ++ tail) ≡ some (parsed es)
unfolding options_loop IsTagged encode parsed Stops
loop-encode zero es tail h s l = elim l [ ]
loop-encode (suc fuel) [] tail h s l = ap (with_found (options_loop fuel)) s.1
loop-encode (suc fuel) (pad ∷ es) tail h s l = loop-encode fuel es tail h s (omega arith)
loop-encode (suc fuel) (option code bytes ∷ es) tail (t, h) s l =
    let shorter : length (encode es) < fuel = omega (arith, length-append bytes (encode es)) in
    let longer : 0 < length (encode es ++ tail) =
      omega (arith, length-append (encode es) tail, s.0) in
    ap (λ bs. with_found (options_loop fuel) (read_option (code ∷ length bytes ∷ bs)))
      (append_assoc bytes (encode es) tail)
    ∙ (ap (with_found (options_loop fuel))
          (read_option-tagged code bytes (encode es ++ tail) t longer)
        ∙ ap (behind (parse_option code bytes)) (loop-encode fuel es tail h s shorter))

options_of-Stops :
    (es : List Entry) (tail : Bytes)
    → IsTagged es
    → Stops tail
    → options_of (encode es ++ tail) ≡ ok (parsed es)
unfolding options_of
options_of-Stops es tail h s = ap or_panic (
    loop-encode (length (encode es ++ tail) + 1) es tail h s
      (omega (arith, length-append (encode es) tail)))

-- Options that were encoded as tag, length and data with padding between them, and ended by the
-- end tag, are read as those that `parse` knows, in their order, whatever stands behind the end
-- tag.
pub options_of-encode :
    (es : List Entry) (rest : Bytes)
    → IsTagged es
    → options_of (encode es ++ 255 ∷ rest) ≡ ok (parsed es)
unfolding read_option Stops
options_of-encode es rest h = options_of-Stops es (255 ∷ rest) h (omega arith, refl)

-- Options without an end tag whose last ends at the end of the bytes are read without that last
-- one.
pub options_of-unterminated :
    (es : List Entry) (code : ℕ) (bytes : Bytes)
    → IsTagged es
    → IsTag code
    → options_of (encode es ++ code ∷ length bytes ∷ bytes) ≡ ok (parsed es)
unfolding Stops
options_of-unterminated es code bytes h t =
    options_of-Stops es (code ∷ length bytes ∷ bytes) h (omega arith, read_option-last code bytes t)
