-- ===== src/Wire/Codec/Pieces.antt =====
-- The pieces of the codec's round trip: text, structs behind a prefix, and the elements of a slice,
-- each from what is known of its parts.
use mathlib.Core.Bool.{false≢true}
use mathlib.Core.List.{append-nil, append_assoc}
use retro_aim_server.Prelude.{
  suc, ◌^◌, ◌<◌, ◌≡◌, refl, sym, ap, ◌∙◌, ◌⊎◌, inl, inr, Bool, true, false, ◌||◌, List, [], ◌∷◌,
  ◌++◌, length, arith, Bool-cases, if◌then◌else◌,
}
use retro_aim_server.Prelude.Bytes.{Bytes, ByteOrder}
use retro_aim_server.Wire.Codec.Types.{Error, OscarTag, StructName, kind_size}
use retro_aim_server.Wire.Codec.Marshal.{
  Outcome, done, marshal_slice, marshal_string, marshal_unsigned_int, null_terminate, struct_body,
  struct_order,
}
use retro_aim_server.Wire.Codec.Unmarshal.{
  Reader, ok, err, cut_null, unmarshal_string, unmarshal_slice, struct_reader, within, read_blob,
  unmarshal_unsigned_int, read_buffer,
}
use retro_aim_server.Wire.Codec.Reading.{
  DecodesAll, >>=-ok, read_blob-marshal, read_unsigned-marshal, read_count-DecodesAll,
  read_buffer-DecodesAll, read_until_eof-DecodesAll,
}
use retro_aim_server.Wire.Codec.Shape.{
  is_envelope, has_prefix, prefix_load, prefix_limit, len_load, size_of,
}

-- A value that runs to the end of its buffer is read back if nothing follows.
abbrev pub Ends : Bool → Bytes → Type 0
Ends closed rest = (closed ≡ true) ⊎ (rest ≡ [])

-- The writer succeeds with some bytes, and the reader takes them for the value.
abbrev pub Carried : {A : Type 0} → Outcome → Reader A → Bool → A → Type 0
Carried written reader closed v =
    (b : Bytes) × (written ≡ done b)
    × ((rest : Bytes) → Ends closed rest → reader (b ++ rest) ≡ ok v rest)

cut_null-append : (v : Bytes) → cut_null v ≡ v → cut_null (v ++ 0 ∷ []) ≡ v
unfolding cut_null
cut_null-append [] h = refl
cut_null-append (c ∷ v) h = ground (arith, cut_null-append v)

cut-terminate :
    (terminated : Bool) (v : Bytes)
    → (if terminated then cut_null v else v) ≡ v
    → (if terminated then cut_null (null_terminate terminated v) else null_terminate terminated v)
      ≡ v
unfolding null_terminate
cut-terminate true [] h = h
cut-terminate true (c ∷ v) h = cut_null-append (c ∷ v) h
cut-terminate false [] h = refl
cut-terminate false (c ∷ v) h = refl

struct_order-same :
    (name : StructName) {order : ByteOrder}
    → is_envelope name ≡ false
    → struct_order name order ≡ order
unfolding struct_order
struct_order-same name h = ground arith

within-ok :
    {A : Type 0} (inner : Reader A) (b : Bytes) {v : A} {r rest : Bytes}
    → inner b ≡ ok v r
    → within b inner rest ≡ ok v rest
unfolding within
within-ok inner b e = rw (e, within)

module _ (tag : OscarTag) (order : ByteOrder) where
  pub string-Carried :
      (v : Bytes) (closed : Bool)
      → tag.has_len_prefix ≡ true
      → length (null_terminate tag.null_terminated v) < 256 ^ kind_size tag.len_prefix
      → (if tag.null_terminated then cut_null v else v) ≡ v
      → Carried (marshal_string tag order v) (unmarshal_string tag order) closed v
  unfolding marshal_string unmarshal_string
  string-Carried v closed prefixed short clean =
      let str = null_terminate tag.null_terminated v in
      (
        marshal_unsigned_int tag.len_prefix (length str) order ++ str,
        rw prefixed,
        λ rest _. rw prefixed (
            >>=-ok (read_blob tag.len_prefix order) _ _
              (read_blob-marshal tag.len_prefix order str rest short)
            ∙ ap (λ s. ok s rest) (cut-terminate tag.null_terminated v clean)),
      )

  -- A struct behind a length prefix, or without one.
  pub struct-Carried :
      {A : Type 0} (name : StructName) (write : ByteOrder → Outcome) (fields : Reader A)
      (closed : Bool) (v : A)
      → is_envelope name ≡ false
      → len_load tag (size_of (write order)) < 256 ^ kind_size tag.len_prefix
      → Carried (write order) fields closed v
      → Carried
          (struct_body name tag order write)
          (struct_reader tag order fields)
          (tag.has_len_prefix || closed)
          v
  unfolding struct_body struct_reader
  struct-Carried name write fields closed v plain short (b, written, back) =
      elim (Bool-cases tag.has_len_prefix) [
        | inl p ↦ (
          marshal_unsigned_int tag.len_prefix (length b) order ++ b,
          rw (p, struct_order-same name plain, written),
          λ rest _. rw p (
              >>=-ok (read_blob tag.len_prefix order) _ _
                (read_blob-marshal tag.len_prefix order b rest (rw (p, written) at short))
              ∙ within-ok fields b (ap fields (sym (append-nil b)) ∙ back [] (inr refl))),
        )
        | inr p ↦ (
          b,
          rw (p, struct_order-same name plain, written),
          λ rest e. rw p (back rest (rw p at e)),
        )
      ]

  -- A slice: its elements one after the other, behind a length, a count or nothing.
  pub slice-Carried :
      {A : Type 0} (vs : List A) (written : Outcome) (element : Reader A) (b : Bytes)
      → element [] ≡ err Error.eof []
      → prefix_load tag (size_of written) (length vs) < prefix_limit tag
      → written ≡ done b
      → DecodesAll element vs b
      → Carried
          (marshal_slice tag order (length vs) written)
          (unmarshal_slice tag order element)
          (has_prefix tag)
          vs
  unfolding marshal_slice unmarshal_slice
  slice-Carried vs written element b none short e ds = elim (Bool-cases tag.has_len_prefix) [
    | inl p ↦ (
      marshal_unsigned_int tag.len_prefix (length b) order ++ b,
      rw (e, p),
      λ rest _. rw p (
          >>=-ok (read_blob tag.len_prefix order) _ _
            (read_blob-marshal tag.len_prefix order b rest (rw (p, e) at short))
          ∙ within-ok (read_buffer (length b) element) b
              (read_buffer-DecodesAll element vs b (length b) none (omega arith) ds)),
    )
    | inr p ↦ elim (Bool-cases tag.has_count_prefix) [
      | inl q ↦ (
        marshal_unsigned_int tag.count_prefix (length vs) order ++ b,
        rw (e, p, q),
        λ rest _.
            rw (p, q, append_assoc (marshal_unsigned_int tag.count_prefix (length vs) order) b rest)
              (>>=-ok (unmarshal_unsigned_int tag.count_prefix order) _ _ (
                  read_unsigned-marshal tag.count_prefix order (length vs) (b ++ rest)
                    (rw (p, q) at short))
                ∙ read_count-DecodesAll element vs b rest ds),
      )
      | inr q ↦ (
        b,
        rw (e, p, q),
        λ rest ends. elim ends [
          | inl closed ↦ absurd (false≢true (rw (p, q) at closed))
          | inr nothing ↦
              rw (p, q, nothing, append-nil b)
                (read_until_eof-DecodesAll element vs b (suc (length b)) none (omega arith) ds)
        ],
      )
    ]
  ]
