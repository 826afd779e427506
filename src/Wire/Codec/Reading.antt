-- ===== src/Wire/Codec/Reading.antt =====
-- What the readers of wire/decode.go do on the bytes that wire/encode.go writes: integers, blobs
-- and the three loops over elements.
use mathlib.Core.List.{append_assoc}
use retro_aim_server.Prelude.{
  ℕ, zero, suc, ◌^◌, ◌≤◌, ◌<◌, ◌≡◌, refl, ap, ◌∙◌, List, [], ◌∷◌, ◌++◌, length, arith,
  length-append, take-append, drop-append,
}
use retro_aim_server.Prelude.Bytes.{Bytes, ByteOrder, put_uint, uint-put_uint, length-put_uint}
use retro_aim_server.Wire.Codec.Types.{Error, Kind, kind_size}
use retro_aim_server.Wire.Codec.Marshal.{marshal_unsigned_int}
use retro_aim_server.Wire.Codec.Unmarshal.{
  ok, err, Reader, read_full, read_uint, read_blob, unmarshal_unsigned_int, read_buffer, read_count,
  read_until_eof, ◌>>=◌,
}

pub read_full-append : (b rest : Bytes) → read_full (length b) (b ++ rest) ≡ ok b rest
unfolding read_full
read_full-append [] rest = refl
read_full-append (x ∷ b) rest =
    ground (arith, length-append b rest, take-append b rest, drop-append b rest)

pub read_uint-put_uint :
    (order : ByteOrder) (n v : ℕ) (rest : Bytes)
    → v < 256 ^ n
    → read_uint n order (put_uint order n v ++ rest) ≡ ok v rest
unfolding read_uint
read_uint-put_uint order n v rest h = ground (
  arith,
  read_full-append (put_uint order n v) rest,
  length-put_uint order n v,
  uint-put_uint order n v,
)

pub read_unsigned-marshal :
    (kind : Kind) (order : ByteOrder) (n : ℕ) (rest : Bytes)
    → n < 256 ^ kind_size kind
    → unmarshal_unsigned_int kind order (marshal_unsigned_int kind n order ++ rest) ≡ ok n rest
unfolding unmarshal_unsigned_int marshal_unsigned_int
read_unsigned-marshal kind order n rest h = read_uint-put_uint order (kind_size kind) n rest h

-- A chain of readers goes on with what the first one gives.
pub >>=-ok :
    {A B : Type 0} (m : Reader A) (f : A → Reader B) (r : Bytes) {a : A} {s : Bytes}
    → m r ≡ ok a s
    → (m >>= f) r ≡ f a s
>>=-ok m f r e = rw (e, ◌>>=◌)

pub >>=-err :
    {A B : Type 0} (m : Reader A) (f : A → Reader B) (r : Bytes) {e : Error} {s : Bytes}
    → m r ≡ err e s
    → (m >>= f) r ≡ err e s
>>=-err m f r h = rw (h, ◌>>=◌)

pub read_blob-marshal :
    (kind : Kind) (order : ByteOrder) (b rest : Bytes)
    → length b < 256 ^ kind_size kind
    → read_blob kind order ((marshal_unsigned_int kind (length b) order ++ b) ++ rest) ≡ ok b rest
unfolding read_blob
read_blob-marshal kind order b rest h =
    rw (append_assoc (marshal_unsigned_int kind (length b) order) b rest) (
      >>=-ok (unmarshal_unsigned_int kind order) read_full _
        (read_unsigned-marshal kind order (length b) (b ++ rest) h)
      ∙ read_full-append b rest)

-- The reader takes exactly `b` for `v`, whatever follows.
abbrev pub Decodes : {A : Type 0} → Reader A → A → Bytes → Type 0
Decodes element v b = (rest : Bytes) → element (b ++ rest) ≡ ok v rest

-- `b` is made of one piece for each value.
abbrev pub DecodesAll : {A : Type 0} → Reader A → List A → Bytes → Type 0
DecodesAll element [] b = b ≡ []
DecodesAll element (v ∷ vs) b =
    (head : Bytes) × (tail : Bytes) × (b ≡ head ++ tail)
    × Decodes element v head
    × DecodesAll element vs tail

module _ {A : Type 0} (element : Reader A) where
  pub read_count-DecodesAll :
      (vs : List A) (b rest : Bytes)
      → DecodesAll element vs b
      → read_count (length vs) element (b ++ rest) ≡ ok vs rest
  unfolding read_count
  read_count-DecodesAll [] b rest h = rw h
  read_count-DecodesAll (v ∷ vs) b rest (head, tail, e, d, ds) =
      rw (e, append_assoc head tail rest)
        (rw (d (tail ++ rest)) (rw (read_count-DecodesAll vs tail rest ds)))

  -- A reader that fails on an empty buffer takes a byte at least for each value.
  head_not_empty :
      (v : A) (head : Bytes)
      → element [] ≡ err Error.eof []
      → Decodes element v head
      → 0 < length head
  head_not_empty v [] none d = cc (d [])
  head_not_empty v (x ∷ head) none d = omega arith

  pub read_buffer-DecodesAll :
      (vs : List A) (b : Bytes) (fuel : ℕ)
      → element [] ≡ err Error.eof []
      → length b ≤ fuel
      → DecodesAll element vs b
      → read_buffer fuel element b ≡ ok vs []
  unfolding read_buffer
  read_buffer-DecodesAll [] b fuel none h e = rw e
  read_buffer-DecodesAll (v ∷ vs) b zero none h (head, tail, e, d, ds) =
      absurd (omega (arith, head_not_empty v head none d, ap length e, length-append head tail))
  read_buffer-DecodesAll (v ∷ vs) b (suc fuel) none h ([], tail, e, d, ds) = cc (d [])
  read_buffer-DecodesAll (v ∷ vs) b (suc fuel) none h (x ∷ head, tail, e, d, ds) =
      rw (e, d tail)
        (rw (
          read_buffer-DecodesAll vs tail fuel none
            (omega (arith, ap length e, length-append head tail)) ds))

  pub read_until_eof-DecodesAll :
      (vs : List A) (b : Bytes) (fuel : ℕ)
      → element [] ≡ err Error.eof []
      → length b < fuel
      → DecodesAll element vs b
      → read_until_eof fuel element b ≡ ok vs []
  unfolding read_until_eof
  read_until_eof-DecodesAll vs b zero none h ds = absurd (omega arith)
  read_until_eof-DecodesAll [] b (suc fuel) none h e = rw (e, none, read_until_eof)
  read_until_eof-DecodesAll (v ∷ vs) b (suc fuel) none h (head, tail, e, d, ds) =
      rw (e, read_until_eof, d tail)
        (rw (
          read_until_eof-DecodesAll vs tail fuel none
            (omega (arith, ap length e, length-append head tail, head_not_empty v head none d)) ds))
