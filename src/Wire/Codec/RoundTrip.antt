-- ===== src/Wire/Codec/RoundTrip.antt =====
-- The codec of wire/encode.go and wire/decode.go carries every value that fits its type: marshal
-- succeeds, and unmarshal reads the value back and leaves what follows it.
use retro_aim_server.Prelude.{
  ◌≡◌, refl, ◌∙◌, inl, inr, Bool, true, false, ◌&&◌, ◌||◌, none, some, List, [], ◌∷◌, ◌++◌, All,
  arith,
}
use mathlib.Core.List.{append_assoc}
use retro_aim_server.Prelude.Bytes.{Bytes, ByteOrder, put_uint}
use retro_aim_server.Wire.Codec.Types.{
  Ty, uint, text, slice, array, struct, pointer, iface, Fields, end, field, El, Els, Error,
  OscarTag, no_tag, Quirk, is_struct,
}
use retro_aim_server.Wire.Codec.Marshal.{
  Outcome, done, marshal, marshal_struct, marshal_fields, marshal_elements, guard_pointer,
}
use retro_aim_server.Wire.Codec.Unmarshal.{
  Reader, ok, err, unmarshal, unmarshal_fields, optional_reader, struct_reader,
  guard_pointer as read_guarded,
}
use retro_aim_server.Wire.Codec.Reading.{DecodesAll, >>=-ok, read_uint-put_uint}
use retro_aim_server.Wire.Codec.Reading.{read_count-DecodesAll}
use retro_aim_server.Wire.Codec.Shape.{
  Codable, AreCodable, Fits, FitAll, is_plain, is_end, start, is_closed, are_closed,
}
use retro_aim_server.Wire.Codec.Pieces.{
  Carried, Ends, string-Carried, struct-Carried, slice-Carried,
}
use retro_aim_server.Wire.Codec.Elements.{
  each-DecodesAll, marshal_elements-each, unmarshal_slice_element-none, effective_quirk-none,
  check_pointer-fine, unmarshal-empty, unmarshal_fields-empty, struct-empty,
}

-- What is_element says of an element.
element_parts : (a b c : Bool) → (a && b && c) ≡ true → (a ≡ true) × (b ≡ true) × (c ≡ true)
element_parts a b c h = ground arith

-- The elements of a slice or an array, given that each is carried.
elements :
    (t : Ty) (order : ByteOrder) (vs : List (El t))
    → (is_struct t || is_plain t) ≡ true
    → is_closed t no_tag ≡ true
    → ((v : El t)
        → Fits t no_tag order v
        → Carried
            (marshal t no_tag order v)
            (unmarshal t no_tag order Quirk.none)
            (is_closed t no_tag)
            v)
    → All (Fits t no_tag order) vs
    → (b : Bytes) × (marshal_elements t (marshal_struct t no_tag order) order vs ≡ done b)
      × DecodesAll (unmarshal t no_tag order Quirk.none) vs b
elements t order vs shape closed step fit =
    let (b, e, ds) =
      each-DecodesAll (Fits t no_tag order) (marshal t no_tag order)
        (unmarshal t no_tag order Quirk.none) (λ v f. rw closed at (step v f)) vs fit in
    (b, marshal_elements-each t order vs shape ∙ e, ds)

-- A nil pointer is written as nothing, and EOF is read back as nil.
optional_reader-eof :
    {A : Type 0} (inner : Reader A) {r : Bytes}
    → inner [] ≡ err Error.eof r
    → optional_reader inner [] ≡ ok none r
unfolding optional_reader
optional_reader-eof inner e = rw (e, optional_reader)

optional_reader-ok :
    {A : Type 0} (inner : Reader A) (b : Bytes) {v : A} {r : Bytes}
    → inner b ≡ ok v r
    → optional_reader inner b ≡ ok (some v) r
unfolding optional_reader
optional_reader-ok inner b e = rw (e, optional_reader)

only_end : (rest : Bytes) → Ends false rest → rest ≡ []
only_end rest (inl h) = cc
only_end rest (inr e) = e

some-Carried :
    {A : Type 0} {written : Outcome} (reader : Reader A) {closed : Bool} {v : A}
    → Carried written reader closed v
    → Carried written (optional_reader reader) false (some v)
some-Carried reader (b, w, back) = (
  b,
  w,
  λ rest ends. optional_reader-ok reader (b ++ rest) (back rest (inr (only_end rest ends))),
)

-- A field that is not the last one ends by itself; the last one is followed by nothing else.
head-Ends :
    (fs : Fields) (order : ByteOrder) (vs : Els fs) (closed : Bool) (tail rest : Bytes)
    → marshal_fields fs order vs ≡ done tail
    → (is_end fs || closed) ≡ true
    → Ends (closed && are_closed fs) rest
    → Ends closed (tail ++ rest)
unfolding marshal_fields
head-Ends end order vs true tail rest w e ends = inl refl
head-Ends end order vs false [] rest w e ends = inr (only_end rest ends)
head-Ends end order vs false (x ∷ tail) rest w e ends = cc
head-Ends (field tag t fs) order vs closed tail rest w e ends = inl e

tail-Ends : (a b : Bool) (rest : Bytes) → Ends (a && b) rest → Ends b rest
tail-Ends true b rest ends = ends
tail-Ends false b rest ends = inr (only_end rest ends)

mutual
  unfolding marshal unmarshal guard_pointer read_guarded

  carry :
      (t : Ty) (tag : OscarTag) (order : ByteOrder) (v : El t)
      → Codable t tag
      → Fits t tag order v
      → Carried (marshal t tag order v) (unmarshal t tag order Quirk.none) (is_closed t tag) v
  carry (uint n) tag order v c f =
      (put_uint order n v, rw c, λ rest _. rw c (read_uint-put_uint order n v rest f))
  carry text tag order v (o, p) (short, clean) =
      rw o (string-Carried tag order v true p short clean)
  carry (slice t) tag order vs (o, q, e, c) (fit, short) =
      let (shape, closed, started) = element_parts _ _ _ e in
      let (b, w, ds) = elements t order vs shape closed (λ v f. carry t no_tag order v c f) fit in
      rw (o, effective_quirk-none tag q)
        (rw (unmarshal_slice_element-none t order (unmarshal t no_tag order Quirk.none))
          (slice-Carried tag order vs _ _ b (unmarshal-empty t no_tag order c started) short w ds))
  carry (array n t) tag order vs (o, q, e, c) (fit, len) =
      let (shape, closed, started) = element_parts _ _ _ e in
      let (b, w, ds) = elements t order vs shape closed (λ v f. carry t no_tag order v c f) fit in
      (
        b,
        rw o w,
        λ rest _. rw (o, effective_quirk-none tag q, ← len) (read_count-DecodesAll _ vs b rest ds),
      )
  carry (struct name fs) tag order vs (o, q, n, c) (fit, short) =
      rw (o, effective_quirk-none tag q)
        (struct-Carried tag order name (λ inner. marshal_fields fs inner vs) _ (are_closed fs) vs n
          short (carry_fields fs order vs c fit))
  carry (pointer (struct name fs)) tag order none (o, q, n, s, c) f = (
    [],
    rw o,
    λ rest ends.
        rw (o, effective_quirk-none tag q, only_end rest ends)
          (optional_reader-eof (struct_reader tag order (unmarshal_fields fs order Quirk.none)) (
            struct-empty tag order (unmarshal_fields fs order Quirk.none) (start fs) s
              (unmarshal_fields-empty fs order c))),
  )
  carry (pointer (struct name fs)) tag order (some vs) (o, q, n, s, c) (fit, short) =
      rw (o, effective_quirk-none tag q)
        (some-Carried (struct_reader tag order (unmarshal_fields fs order Quirk.none)) (
          struct-Carried tag order name (λ inner. marshal_fields fs inner vs) _ (are_closed fs) vs n
            short (carry_fields fs order vs c fit)))
  carry (pointer (uint m)) tag order v c f = absurd c
  carry (pointer text) tag order v c f = absurd c
  carry (pointer (slice t)) tag order v c f = absurd c
  carry (pointer (array m t)) tag order v c f = absurd c
  carry (pointer (pointer t)) tag order v c f = absurd c
  carry (pointer (iface t)) tag order v c f = absurd c
  carry (iface t) tag order v c f = absurd c

  carry_fields :
      (fs : Fields) (order : ByteOrder) (vs : Els fs)
      → AreCodable fs
      → FitAll fs order vs
      → Carried
          (marshal_fields fs order vs)
          (unmarshal_fields fs order Quirk.none)
          (are_closed fs)
          vs
  carry_fields end order vs c f = ([], refl, λ rest _. refl)
  carry_fields (field tag t fs) order vs (c, e, cs) (f, fit) =
      let (head, w, back) = carry t tag order vs.0 c f in
      let (tail, ws, backs) = carry_fields fs order vs.1 cs fit in
      (
        head ++ tail,
        rw (check_pointer-fine t tag fs c e, w, ws),
        λ rest ends.
            rw (check_pointer-fine t tag fs c e, append_assoc head tail rest)
              (>>=-ok (unmarshal t tag order Quirk.none) _ _ (
                  back (tail ++ rest)
                    (head-Ends fs order vs.1 (is_closed t tag) tail rest ws e ends))
                ∙ >>=-ok (unmarshal_fields fs order Quirk.none) _ _
                    (backs rest (tail-Ends (is_closed t tag) (are_closed fs) rest ends))),
      )

-- The same with the bytes chosen before what follows them.
pub marshal-Carried :
    (t : Ty) (tag : OscarTag) (order : ByteOrder) (v : El t)
    → Codable t tag
    → Fits t tag order v
    → Carried (marshal t tag order v) (unmarshal t tag order Quirk.none) (is_closed t tag) v
marshal-Carried t tag order v c f = carry t tag order v c f

-- A value that fits its type is carried by the codec: marshal succeeds, and unmarshal of the bytes,
-- followed by any others, gives the value and leaves those others. Where the type runs to the end
-- of its buffer, nothing may follow.
pub unmarshal-marshal :
    (t : Ty) (tag : OscarTag) (order : ByteOrder) (v : El t) (rest : Bytes)
    → Codable t tag
    → Fits t tag order v
    → Ends (is_closed t tag) rest
    → (b : Bytes) × (marshal t tag order v ≡ done b)
      × (unmarshal t tag order Quirk.none (b ++ rest) ≡ ok v rest)
unmarshal-marshal t tag order v rest c f ends =
    let (b, w, back) = carry t tag order v c f in (b, w, back rest ends)
