-- ===== src/Wire/Codec/Elements.antt =====
-- The elements of slices and arrays, and what the decoder does on an empty buffer.
use retro_aim_server.Prelude.{
  ℕ, zero, suc, ◌≡◌, refl, sym, inl, inr, Bool, true, false, ◌||◌, List, [], ◌∷◌, ◌++◌, All,
  Bool-cases,
}
use retro_aim_server.Prelude.Bytes.{Bytes, ByteOrder}
use retro_aim_server.Wire.Codec.Types.{
  Ty, uint, text, slice, array, struct, pointer, iface, Fields, end, field, El, Error, OscarTag,
  no_tag, is_struct, Kind, Quirk, check_pointer, PointerCheck,
}
use retro_aim_server.Wire.Codec.Marshal.{
  Outcome, done, each, marshal, marshal_struct, marshal_elements, flat_bytes, fixed_bytes, is_fixed,
  binary_write,
}
use retro_aim_server.Wire.Codec.Unmarshal.{
  Reader, err, unmarshal, unmarshal_fields, unmarshal_slice_element, read_full, read_blob,
  unmarshal_string, unmarshal_slice, struct_reader, read_count, guard_pointer, effective_quirk,
  quirk_reader, unmarshal_unsigned_int,
}
use retro_aim_server.Wire.Codec.Reading.{DecodesAll, >>=-err}
use retro_aim_server.Wire.Codec.Shape.{
  Codable, AreCodable, is_plain, is_end, is_closed, starts, start, has_prefix,
}
use retro_aim_server.Wire.Codec.Pieces.{Carried}

-- Elements that are carried one by one are carried in a row.
pub each-DecodesAll :
    {A : Type 0} (P : A → Type 0) (write : A → Outcome) (element : Reader A)
    → ((v : A) → P v → Carried (write v) element true v)
    → (vs : List A) → All P vs
    → (b : Bytes) × (each write vs ≡ done b) × DecodesAll element vs b
unfolding each
each-DecodesAll P write element step [] all = ([], refl, refl)
each-DecodesAll P write element step (v ∷ vs) all =
    let (head, e, back) = step v all.0 in
    let (tail, es, ds) = each-DecodesAll P write element step vs all.1 in
    (head ++ tail, rw (e, es), (head, tail, refl, (λ rest. back rest (inl refl)), ds))

each-flat :
    {A : Type 0} (write : A → Outcome) (f : A → Bytes)
    → ((v : A) → write v ≡ done (f v))
    → (vs : List A) → each write vs ≡ done (flat_bytes f vs)
unfolding each flat_bytes
each-flat write f e [] = refl
each-flat write f e (v ∷ vs) = rw (e v, each-flat write f e vs)

plain-is_fixed : (t : Ty) → is_plain t ≡ true → (is_fixed t ≡ true) × (is_struct t ≡ false)
unfolding is_fixed is_struct
plain-is_fixed (uint n) h = (refl, refl)
plain-is_fixed (array n t) h = ((plain-is_fixed t h).0, refl)
plain-is_fixed text h = cc
plain-is_fixed (slice t) h = cc
plain-is_fixed (struct name fs) h = cc
plain-is_fixed (pointer t) h = cc
plain-is_fixed (iface t) h = cc

marshal-plain :
    (t : Ty) (order : ByteOrder) (v : El t)
    → is_plain t ≡ true
    → marshal t no_tag order v ≡ done (fixed_bytes t order v)
unfolding marshal fixed_bytes marshal_elements binary_write
marshal-plain (uint n) order v h = refl
marshal-plain (array n t) order v h = rw ((plain-is_fixed t h).0, (plain-is_fixed t h).1)
marshal-plain text order v h = cc
marshal-plain (slice t) order v h = cc
marshal-plain (struct name fs) order v h = cc
marshal-plain (pointer t) order v h = cc
marshal-plain (iface t) order v h = cc

marshal_struct-struct :
    (t : Ty) (order : ByteOrder) (v : El t)
    → is_struct t ≡ true
    → marshal_struct t no_tag order v ≡ marshal t no_tag order v
unfolding marshal is_struct
marshal_struct-struct (struct name fs) order v h = refl
marshal_struct-struct (uint n) order v h = cc
marshal_struct-struct text order v h = cc
marshal_struct-struct (slice t) order v h = cc
marshal_struct-struct (array n t) order v h = cc
marshal_struct-struct (pointer t) order v h = cc
marshal_struct-struct (iface t) order v h = cc

each-same :
    {A : Type 0} (f g : A → Outcome) → ((v : A) → f v ≡ g v) → (vs : List A) → each f vs ≡ each g vs
unfolding each
each-same f g e [] = refl
each-same f g e (v ∷ vs) = rw (e v, each-same f g e vs)

-- Structs one by one, or all else at once: the bytes are those of the elements in a row.
pub marshal_elements-each :
    (t : Ty) (order : ByteOrder) (vs : List (El t))
    → (is_struct t || is_plain t) ≡ true
    → marshal_elements t (marshal_struct t no_tag order) order vs ≡ each (marshal t no_tag order) vs
unfolding marshal_elements binary_write
marshal_elements-each t order vs h = elim (Bool-cases (is_struct t)) [
  | inl s ↦ rw s (
      each-same (marshal_struct t no_tag order) (marshal t no_tag order)
        (λ v. marshal_struct-struct t order v s) vs)
  | inr n ↦
      let plain : is_plain t ≡ true = rw n at h in
      rw (n, (plain-is_fixed t plain).0)
        (sym (
          each-flat (marshal t no_tag order) (fixed_bytes t order)
            (λ v. marshal-plain t order v plain) vs))
]

-- With no decode exception in force an element is read like any other value.
pub unmarshal_slice_element-none :
    (t : Ty) (order : ByteOrder) (plain : Reader (El t))
    → unmarshal_slice_element t Quirk.none order plain ≡ plain
unfolding unmarshal_slice_element quirk_reader
unmarshal_slice_element-none t order plain = refl

pub effective_quirk-none :
    (tag : OscarTag) → tag.quirk ≡ Quirk.none → effective_quirk tag Quirk.none ≡ Quirk.none
unfolding effective_quirk
effective_quirk-none tag h = rw h

-- A pointer that the codec can carry is the last field and points to a struct.
pub check_pointer-fine :
    (t : Ty) (tag : OscarTag) (fs : Fields)
    → Codable t tag
    → (is_end fs || is_closed t tag) ≡ true
    → check_pointer t fs ≡ PointerCheck.fine
unfolding check_pointer
check_pointer-fine (pointer (struct name gs)) tag end c h = refl
check_pointer-fine (pointer (struct name gs)) tag (field a t fs) c h = cc
check_pointer-fine (pointer (uint n)) tag fs c h = absurd c
check_pointer-fine (pointer text) tag fs c h = absurd c
check_pointer-fine (pointer (slice t)) tag fs c h = absurd c
check_pointer-fine (pointer (array n t)) tag fs c h = absurd c
check_pointer-fine (pointer (pointer t)) tag fs c h = absurd c
check_pointer-fine (pointer (iface t)) tag fs c h = absurd c
check_pointer-fine (uint n) tag fs c h = refl
check_pointer-fine text tag fs c h = refl
check_pointer-fine (slice t) tag fs c h = refl
check_pointer-fine (array n t) tag fs c h = refl
check_pointer-fine (struct name gs) tag fs c h = refl
check_pointer-fine (iface t) tag fs c h = refl

read_blob-empty : (kind : Kind) (order : ByteOrder) → read_blob kind order [] ≡ err Error.eof []
unfolding read_blob
read_blob-empty Kind.uint8 order = refl
read_blob-empty Kind.uint16 order = refl

read_unsigned-empty :
    (kind : Kind) (order : ByteOrder) → unmarshal_unsigned_int kind order [] ≡ err Error.eof []
unfolding unmarshal_unsigned_int read_full
read_unsigned-empty Kind.uint8 order = refl
read_unsigned-empty Kind.uint16 order = refl

slice-empty :
    {A : Type 0} (tag : OscarTag) (order : ByteOrder) (element : Reader A)
    → has_prefix tag ≡ true
    → unmarshal_slice tag order element [] ≡ err Error.eof []
unfolding unmarshal_slice
slice-empty tag order element h = elim (Bool-cases tag.has_len_prefix) [
  | inl p ↦ rw p (>>=-err (read_blob _ _) _ [] (read_blob-empty tag.len_prefix order))
  | inr p ↦
      let q : tag.has_count_prefix ≡ true = rw p at h in
      rw (p, q)
        (>>=-err (unmarshal_unsigned_int _ _) _ [] (read_unsigned-empty tag.count_prefix order))
]

count-empty :
    {A : Type 0} (n : ℕ) (element : Reader A)
    → element [] ≡ err Error.eof []
    → read_count (suc n) element [] ≡ err Error.eof []
unfolding read_count
count-empty n element e = rw (e, read_count)

pub struct-empty :
    {A : Type 0} (tag : OscarTag) (order : ByteOrder) (fields : Reader A) (first : Bool)
    → (tag.has_len_prefix || first) ≡ true
    → (first ≡ true → fields [] ≡ err Error.eof [])
    → struct_reader tag order fields [] ≡ err Error.eof []
unfolding struct_reader
struct-empty tag order fields first h inner = elim (Bool-cases tag.has_len_prefix) [
  | inl p ↦ rw p (>>=-err (read_blob _ _) _ [] (read_blob-empty tag.len_prefix order))
  | inr p ↦ rw p (inner (rw p at h))
]

-- A value that starts by reading a byte is not found in an empty buffer: the error is EOF.
mutual
  unfolding unmarshal read_full unmarshal_string read_count struct_reader guard_pointer

  empty-eof :
      (t : Ty) (tag : OscarTag) (order : ByteOrder)
      → Codable t tag
      → starts t tag ≡ true
      → unmarshal t tag order Quirk.none [] ≡ err Error.eof []
  empty-eof (uint zero) tag order c s = cc
  empty-eof (uint (suc n)) tag order c s = rw c
  empty-eof text tag order (o, p) s =
      rw (o, p) (>>=-err (read_blob _ _) _ [] (read_blob-empty tag.len_prefix order))
  empty-eof (slice t) tag order (o, q, e, c) s = rw o (slice-empty tag order _ s)
  empty-eof (array zero t) tag order c s = cc
  empty-eof (array (suc n) t) tag order (o, q, e, c) s =
      rw (o, effective_quirk-none tag q)
        (count-empty n (unmarshal t no_tag order Quirk.none) (empty-eof t no_tag order c s))
  empty-eof (struct name fs) tag order (o, q, n, c) s =
      rw (o, effective_quirk-none tag q)
        (struct-empty tag order _ (start fs) s (λ first. fields-eof fs order c first))
  empty-eof (pointer t) tag order c s = cc
  empty-eof (iface t) tag order c s = cc

  fields-eof :
      (fs : Fields) (order : ByteOrder)
      → AreCodable fs
      → start fs ≡ true
      → unmarshal_fields fs order Quirk.none [] ≡ err Error.eof []
  fields-eof end order c s = cc
  fields-eof (field tag t fs) order (c, e, cs) s =
      rw (check_pointer-fine t tag fs c e)
        (>>=-err (unmarshal t tag order Quirk.none) _ [] (empty-eof t tag order c s))

pub unmarshal-empty :
    (t : Ty) (tag : OscarTag) (order : ByteOrder)
    → Codable t tag
    → starts t tag ≡ true
    → unmarshal t tag order Quirk.none [] ≡ err Error.eof []
unmarshal-empty t tag order c s = empty-eof t tag order c s

pub unmarshal_fields-empty :
    (fs : Fields) (order : ByteOrder)
    → AreCodable fs
    → start fs ≡ true
    → unmarshal_fields fs order Quirk.none [] ≡ err Error.eof []
unmarshal_fields-empty fs order c s = fields-eof fs order c s
