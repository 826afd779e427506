-- ===== src/Wire/Codec/Marshal.antt =====
-- wire/encode.go: `marshal` and its helpers. The outcome holds the bytes of a complete run: what a
-- failed run had written before is not kept, since every caller discards it.
use retro_aim_server.Prelude.{
  ℕ, Bool, true, false, ◌&&◌, List, [], ◌∷◌, ◌++◌, none, some, length, if◌then◌else◌,
}
use retro_aim_server.Prelude.Bytes.{Bytes, ByteOrder, little_endian, put_uint}
use retro_aim_server.Wire.Codec.Types.{
  Ty, uint, text, slice, array, struct, pointer, iface, Fields, end, field, El, Els, Error,
  OscarTag, no_tag, StructName, is_struct, check_pointer, PointerCheck, kind_size, Kind,
}

pub data Outcome : Type 0 where
  done : Bytes → Outcome
  failed : Error → Outcome

infixl 5 ◌>>=◌
abbrev pub ◌>>=◌ : Outcome → (Bytes → Outcome) → Outcome
done b >>= f = f b
failed e >>= f = failed e

unfoldable pub marshal_unsigned_int : Kind → ℕ → ByteOrder → Bytes
marshal_unsigned_int kind n order = put_uint order (kind_size kind) n

-- `marshalStruct` switches to little endian inside an ICQ reply envelope.
unfoldable pub struct_order : StructName → ByteOrder → ByteOrder
struct_order StructName.icq_message_reply_envelope order = little_endian
struct_order _ order = order

-- One call of the encoder for each element, in order.
unfoldable pub each : {A : Type 0} → (A → Outcome) → List A → Outcome
each write [] = done []
each write (v ∷ vs) = do head ← write v; rest ← each write vs; done (head ++ rest)

-- encoding/binary's Write: values of a fixed size only.
unfoldable mutual
  pub is_fixed : Ty → Bool
  is_fixed (uint n) = true
  is_fixed (array n t) = is_fixed t
  is_fixed (struct name fs) = are_fixed fs
  is_fixed text = false
  is_fixed (slice t) = false
  is_fixed (pointer t) = false
  is_fixed (iface t) = false

  pub are_fixed : Fields → Bool
  are_fixed end = true
  are_fixed (field tag t fs) = is_fixed t && are_fixed fs

unfoldable pub flat_bytes : {A : Type 0} → (A → Bytes) → List A → Bytes
flat_bytes f [] = []
flat_bytes f (v ∷ vs) = f v ++ flat_bytes f vs

unfoldable mutual
  unfolding flat_bytes

  pub fixed_bytes : (t : Ty) → ByteOrder → El t → Bytes
  fixed_bytes (uint n) order v = put_uint order n v
  fixed_bytes (array n t) order vs = flat_bytes (fixed_bytes t order) vs
  fixed_bytes (struct name fs) order vs = fixed_fields fs order vs
  fixed_bytes text order v = []
  fixed_bytes (slice t) order v = []
  fixed_bytes (pointer t) order v = []
  fixed_bytes (iface t) order v = []

  pub fixed_fields : (fs : Fields) → ByteOrder → Els fs → Bytes
  fixed_fields end order vs = []
  fixed_fields (field tag t fs) order vs = fixed_bytes t order vs.0 ++ fixed_fields fs order vs.1

unfoldable pub binary_write : (t : Ty) → ByteOrder → List (El t) → Outcome
unfolding is_fixed flat_bytes fixed_bytes
binary_write t order vs =
    if is_fixed t then done (flat_bytes (fixed_bytes t order) vs) else failed Error.unsupported_type

-- The elements of a slice or an array: structs one by one, all else by binary.Write.
unfoldable pub marshal_elements : (t : Ty) → (El t → Outcome) → ByteOrder → List (El t) → Outcome
unfolding is_struct each binary_write
marshal_elements t write order vs = if is_struct t then each write vs else binary_write t order vs

unfoldable pub marshal_slice : OscarTag → ByteOrder → ℕ → Outcome → Outcome
unfolding marshal_unsigned_int
marshal_slice tag order count elements = do
  buf ← elements
  if tag.has_len_prefix
      then done (marshal_unsigned_int tag.len_prefix (length buf) order ++ buf)
      else if tag.has_count_prefix
      then done (marshal_unsigned_int tag.count_prefix count order ++ buf)
      else done buf

-- The null that a tagged string ends with; the empty string has none.
unfoldable pub null_terminate : Bool → Bytes → Bytes
null_terminate terminated [] = []
null_terminate terminated (c ∷ cs) = if terminated then c ∷ (cs ++ 0 ∷ []) else c ∷ cs

unfoldable pub marshal_string : OscarTag → ByteOrder → Bytes → Outcome
unfolding marshal_unsigned_int null_terminate
marshal_string tag order v =
    let str = null_terminate tag.null_terminated v in
    if tag.has_len_prefix
    then done (marshal_unsigned_int tag.len_prefix (length str) order ++ str)
    else done str

-- `marshalStruct`, given the loop over the fields.
unfoldable pub struct_body : StructName → OscarTag → ByteOrder → (ByteOrder → Outcome) → Outcome
unfolding marshal_unsigned_int struct_order
struct_body name tag order fields =
    let inner = struct_order name order in
    if tag.has_len_prefix
    then (fields inner >>= λ buf.
        done (marshal_unsigned_int tag.len_prefix (length buf) inner ++ buf))
    else fields inner

-- The early return of the field loop on a pointer that is out of place.
unfoldable pub guard_pointer : PointerCheck → Outcome → Outcome
guard_pointer PointerCheck.fine next = next
guard_pointer PointerCheck.not_final next = failed Error.pointer_not_final
guard_pointer PointerCheck.not_struct next = failed Error.not_a_struct

unfoldable mutual
  unfolding marshal_slice marshal_elements marshal_string struct_body guard_pointer check_pointer

  pub marshal : (t : Ty) → OscarTag → ByteOrder → El t → Outcome
  marshal (uint n) tag order v =
      if tag.optional then failed Error.optional_non_pointer else done (put_uint order n v)
  marshal text tag order v =
      if tag.optional then failed Error.optional_non_pointer else marshal_string tag order v
  marshal (slice t) tag order vs =
      if tag.optional
      then failed Error.optional_non_pointer
      else marshal_slice tag order (length vs)
          (marshal_elements t (marshal_struct t no_tag order) order vs)
  marshal (array n t) tag order vs =
      if tag.optional
      then failed Error.optional_non_pointer
      else marshal_elements t (marshal_struct t no_tag order) order vs
  marshal (struct name fs) tag order vs =
      if tag.optional
      then failed Error.optional_non_pointer
      else struct_body name tag order (λ o. marshal_fields fs o vs)
  marshal (pointer t) tag order v =
      if tag.optional
      then elim v [ none ↦ done [] | some x ↦ marshal_struct t tag order x ]
      else failed Error.non_optional_pointer
  marshal (iface t) tag order v =
      if tag.optional
      then failed Error.optional_non_pointer
      else if is_struct t
      then marshal_struct t tag order v
      else failed Error.not_a_struct

  -- Reflection panics on the fields of what is no struct.
  pub marshal_struct : (t : Ty) → OscarTag → ByteOrder → El t → Outcome
  marshal_struct (struct name fs) tag order vs =
      struct_body name tag order (λ o. marshal_fields fs o vs)
  marshal_struct _ tag order v = failed Error.panic

  pub marshal_fields : (fs : Fields) → ByteOrder → Els fs → Outcome
  marshal_fields end order vs = done []
  marshal_fields (field tag t fs) order vs = guard_pointer (check_pointer t fs) (
      marshal t tag order vs.0 >>= λ head.
      marshal_fields fs order vs.1 >>= λ rest. done (head ++ rest))
