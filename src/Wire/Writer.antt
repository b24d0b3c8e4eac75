-- ===== src/Wire/Writer.antt =====
-- lib/src/write_to_buffer.rs. `write_to_buffer` gives the bytes that it appends to the buffer, or a
-- panic; the law `IsExact` is what callers rely on when they reserve `encoded_length` bytes.
use narth_network.Base.{ℕ, ◌+◌, ◌≡◌, ◌++◌, arith, length, length-append, Io, >>=-eq-ok, ok, ◌>>=◌}
use narth_network.Wire.{Bytes}

pub record WriteToBuffer (A : Type 0) : Type 0 where
  pub encoded_length : A → ℕ
  pub write_to_buffer : A → Io Bytes

instance abbrev pub bytes_writer : WriteToBuffer Bytes
bytes_writer = record { encoded_length = length; write_to_buffer = ok }

module _ {A B : Type 0} where
  abbrev pub pair_writer : WriteToBuffer A → WriteToBuffer B → WriteToBuffer (A × B)
  pair_writer v w = record {
    encoded_length = λ p. v.encoded_length p.0 + w.encoded_length p.1;
    write_to_buffer = λ p. (do x ← v.write_to_buffer p.0; y ← w.write_to_buffer p.1; ok (x ++ y));
  }

module _ {A B C : Type 0} where
  abbrev triple_writer :
      WriteToBuffer A → WriteToBuffer B → WriteToBuffer C → WriteToBuffer (A × B × C)
  triple_writer v w u = record {
    encoded_length = λ p. v.encoded_length p.0 + w.encoded_length p.1 + u.encoded_length p.2;
    write_to_buffer = λ p. (do
      x ← v.write_to_buffer p.0
      y ← w.write_to_buffer p.1
      z ← u.write_to_buffer p.2
      ok (x ++ (y ++ z)));
  }

-- What is written is as long as `encoded_length` says.
abbrev IsExact : {A : Type 0} → WriteToBuffer A → Type 0
IsExact {A} w = (a : A) (bs : Bytes) → w.write_to_buffer a ≡ ok bs → length bs ≡ w.encoded_length a

bytes_writer-IsExact : IsExact bytes_writer
bytes_writer-IsExact a bs h = ground arith

pair_writer-IsExact :
    {A B : Type 0} (v : WriteToBuffer A) (w : WriteToBuffer B)
    → IsExact v
    → IsExact w
    → IsExact (pair_writer v w)
pair_writer-IsExact v w ev ew (a, b) bs h =
    let (x, p, h') = >>=-eq-ok (v.write_to_buffer a) _ h in
    let (y, q, e) = >>=-eq-ok (w.write_to_buffer b) _ h' in
    ground (arith, ev a x p, ew b y q, length-append x y)

-- Where three parts are each written in as many bytes as their encoded length says, so is the
-- triple of them.
triple_writer-IsExact :
    {A B C : Type 0} (v : WriteToBuffer A) (w : WriteToBuffer B) (u : WriteToBuffer C)
    → IsExact v
    → IsExact w
    → IsExact u
    → IsExact (triple_writer v w u)
triple_writer-IsExact v w u ev ew eu (a, b, c) bs h =
    let (x, p, h') = >>=-eq-ok (v.write_to_buffer a) _ h in
    let (y, q, h'') = >>=-eq-ok (w.write_to_buffer b) _ h' in
    let (z, r, e) = >>=-eq-ok (u.write_to_buffer c) _ h'' in
    ground (arith, ev a x p, ew b y q, eu c z r, length-append x (y ++ z), length-append y z)
