-- ===== src/Wire/Codec/Unmarshal.antt =====
-- wire/decode.go: `unmarshal` and its helpers, as readers of a buffer.
use retro_aim_server.Prelude.{
  ℕ, zero, suc, ◌&&◌, not, List, [], ◌∷◌, Option, none, some, length, take, drop, if◌then◌else◌,
  ltb, ◌==◌,
}
use retro_aim_server.Prelude.Bytes.{Bytes, ByteOrder, big_endian, little_endian, uint as uint_of}
use retro_aim_server.Wire.Codec.Types.{
  Ty, uint, text, slice, array, struct, pointer, iface, Fields, end, field, El, Els, Error,
  OscarTag, no_tag, StructName, Quirk, check_pointer, PointerCheck, kind_size, Kind,
}

-- What a read gives, with the bytes left in the reader; an error leaves bytes too.
pub data Result (A : Type 0) : Type 0 where
  ok : A → Bytes → Result A
  err : Error → Bytes → Result A

abbrev pub Reader : Type 0 → Type 0
Reader A = Bytes → Result A

infixl 5 ◌>>=◌
abbrev pub ◌>>=◌ : {A B : Type 0} → Reader A → (A → Reader B) → Reader B
◌>>=◌ m f r = elim (m r) [ ok a rest ↦ f a rest | err e rest ↦ err e rest ]

abbrev pub return : {A : Type 0} → A → Reader A
return a r = ok a r

abbrev pub fail : {A : Type 0} → Error → Reader A
fail e r = err e r

-- io.ReadFull on a buffer of `n` bytes: EOF if there is no byte at all, ErrUnexpectedEOF after some.
unfoldable pub read_full : ℕ → Reader Bytes
read_full zero r = ok [] r
read_full (suc n) [] = err Error.eof []
read_full (suc n) (b ∷ r) =
    if ltb (length r) n then err Error.unexpected_eof [] else ok (b ∷ take n r) (drop n r)

-- binary.Read into an unsigned integer of `n` bytes.
unfoldable pub read_uint : ℕ → ByteOrder → Reader ℕ
unfolding read_full
read_uint n order = do b ← read_full n; return (uint_of order b)

unfoldable pub unmarshal_unsigned_int : Kind → ByteOrder → Reader ℕ
unfolding read_uint
unmarshal_unsigned_int kind order = read_uint (kind_size kind) order

-- A reader on a buffer of its own: the outer reader has gone past that buffer whatever comes of it.
unfoldable pub within : {A : Type 0} → Bytes → Reader A → Reader A
within b inner r = elim (inner b) [ ok a rest ↦ ok a r | err e rest ↦ err e r ]

-- `for buf.Len() > 0`. An element that takes no byte would repeat for ever: see `stuck`.
unfoldable pub read_buffer : {A : Type 0} → ℕ → Reader A → Reader (List A)
read_buffer fuel element [] = ok [] []
read_buffer zero element (b ∷ r) = err Error.stuck (b ∷ r)
read_buffer (suc fuel) element (b ∷ r) = elim (element (b ∷ r)) [
  | ok a rest ↦ elim (read_buffer fuel element rest) [
    | ok as' last ↦ ok (a ∷ as') last
    | err e last ↦ err e last
  ]
  | err e rest ↦ err e rest
]

-- `for i := 0; i < count; i++`
unfoldable pub read_count : {A : Type 0} → ℕ → Reader A → Reader (List A)
read_count zero element r = ok [] r
read_count (suc n) element r = elim (element r) [
  | ok a rest ↦ elim (read_count n element rest) [
    | ok as' last ↦ ok (a ∷ as') last
    | err e last ↦ err e last
  ]
  | err e rest ↦ err e rest
]

-- `for { … }`, which only an EOF ends well.
unfoldable pub read_until_eof : {A : Type 0} → ℕ → Reader A → Reader (List A)
read_until_eof zero element r = err Error.stuck r
read_until_eof (suc fuel) element r = elim (element r) [
  | ok a rest ↦ elim (read_until_eof fuel element rest) [
    | ok as' last ↦ ok (a ∷ as') last
    | err e last ↦ err e last
  ]
  | err Error.eof rest ↦ ok [] rest
  | err e rest ↦ err e rest
]

-- A length-prefixed blob: the prefix, then that many bytes.
unfoldable pub read_blob : Kind → ByteOrder → Reader Bytes
unfolding unmarshal_unsigned_int read_full
read_blob kind order = do n ← unmarshal_unsigned_int kind order; read_full n

unfoldable pub unmarshal_slice : {A : Type 0} → OscarTag → ByteOrder → Reader A → Reader (List A)
unfolding read_blob within read_buffer unmarshal_unsigned_int read_count read_until_eof
unmarshal_slice tag order element =
    if tag.has_len_prefix
    then (read_blob tag.len_prefix order >>= λ b. within b (read_buffer (length b) element))
    else if tag.has_count_prefix
    then (unmarshal_unsigned_int tag.count_prefix order >>= λ n. read_count n element)
    else λ r. read_until_eof (suc (length r)) element r

-- The bytes before the first null, all of them if there is none.
unfoldable pub cut_null : Bytes → Bytes
cut_null [] = []
cut_null (b ∷ r) = let rest = cut_null r in if b == 0 then [] else b ∷ rest

unfoldable pub unmarshal_string : OscarTag → ByteOrder → Reader Bytes
unfolding read_blob cut_null
unmarshal_string tag order =
    if tag.has_len_prefix
    then (read_blob tag.len_prefix order >>= λ b.
        return (if tag.null_terminated then cut_null b else b))
    else fail Error.missing_len_prefix

-- `unmarshalStruct`, given the loop over the fields.
unfoldable pub struct_reader : {A : Type 0} → OscarTag → ByteOrder → Reader A → Reader A
unfolding read_blob within
struct_reader tag order fields =
    if tag.has_len_prefix then (read_blob tag.len_prefix order >>= λ b. within b fields) else fields

-- An optional struct: an EOF anywhere in it makes the pointer nil.
unfoldable pub optional_reader : {A : Type 0} → Reader A → Reader (Option A)
optional_reader inner r = elim (inner r) [
  | ok a rest ↦ ok (some a) rest
  | err Error.eof rest ↦ ok none rest
  | err e rest ↦ err e rest
]

unfoldable pub guard_pointer : {A : Type 0} → PointerCheck → Reader A → Reader A
guard_pointer PointerCheck.fine next = next
guard_pointer PointerCheck.not_final next = fail Error.pointer_not_final
guard_pointer PointerCheck.not_struct next = fail Error.non_optional_pointer

unfoldable pub effective_quirk : OscarTag → Quirk → Quirk
effective_quirk tag active = elim tag.quirk [ Quirk.none ↦ active | q ↦ q ]

-- ICQTLVTagsEmail and ICQTLVTagsUIN of wire/snacs.go.
abbrev pub icq_tlv_tags_email : ℕ
icq_tlv_tags_email = 0x015E

abbrev pub icq_tlv_tags_uin : ℕ
icq_tlv_tags_uin = 0x0136

-- A TLV whose length field is mended before the value is read.
unfoldable pub mended_tlv : (ℕ → ℕ → ℕ) → ByteOrder → Reader (ℕ × Bytes)
unfolding read_uint read_full
mended_tlv mend order = do
  tag ← read_uint 2 order
  n ← read_uint 2 order
  value ← read_full (mend tag n)
  return (tag, value)

unfoldable pub mend_full_info : ℕ → ℕ → ℕ
mend_full_info tag n = if tag == icq_tlv_tags_email && n == 3 then 4 else n

unfoldable pub mend_search : ℕ → ℕ → ℕ
mend_search tag n = if tag == icq_tlv_tags_uin && not (n == 4) then 4 else n

-- What there is of the next `n` bytes: an early end is no error after the first byte.
unfoldable pub read_trimmed : ℕ → Reader Bytes
unfolding read_full
read_trimmed n r = elim (read_full n r) [
  | ok b rest ↦ ok b rest
  | err Error.unexpected_eof rest ↦ ok r []
  | err e rest ↦ err e rest
]

unfoldable pub unmarshal_tlv_jimm_set_info : ByteOrder → Reader (ℕ × Bytes)
unfolding read_uint read_trimmed
unmarshal_tlv_jimm_set_info order = do
  tag ← read_uint 2 order
  n ← read_uint 2 order
  value ← read_trimmed n
  return (tag, value)

-- The exceptional TLV reader, if the quirk and the byte order call for one.
unfoldable pub quirk_reader : Quirk → ByteOrder → Option (Reader (ℕ × Bytes))
unfolding mended_tlv mend_full_info mend_search unmarshal_tlv_jimm_set_info
quirk_reader Quirk.icq2003b_set_fullinfo little_endian =
    some (mended_tlv mend_full_info little_endian)
quirk_reader Quirk.qip_2005_search_by_uin2 little_endian =
    some (mended_tlv mend_search little_endian)
quirk_reader Quirk.jimm_locate_set_info big_endian = some (unmarshal_tlv_jimm_set_info big_endian)
quirk_reader _ order = none

-- `elemType == reflect.TypeOf(TLV{})`, with the way to fill such an element.
unfoldable pub as_tlv : (t : Ty) → Option (ℕ × Bytes → El t)
as_tlv (struct StructName.tlv (field a (uint n) (field b (slice (uint m)) end))) =
    some (λ p. (p.0, (p.1, tt)))
as_tlv _ = none

unfoldable pub unmarshal_slice_element :
    (t : Ty) → Quirk → ByteOrder → Reader (El t) → Reader (El t)
unfolding quirk_reader as_tlv
unmarshal_slice_element t quirk order plain = elim (quirk_reader quirk order) [
  | none ↦ plain
  | some special ↦ elim (as_tlv t) [ none ↦ plain | some fill ↦ special >>= λ p. return (fill p) ]
]

unfoldable mutual
  unfolding read_uint unmarshal_string unmarshal_slice unmarshal_slice_element read_count
      struct_reader optional_reader guard_pointer check_pointer effective_quirk

  pub unmarshal : (t : Ty) → OscarTag → ByteOrder → Quirk → Reader (El t)
  unmarshal (uint n) tag order quirk = if tag.optional then fail Error.panic else read_uint n order
  unmarshal text tag order quirk =
      if tag.optional then fail Error.panic else unmarshal_string tag order
  unmarshal (slice t) tag order quirk =
      if tag.optional
      then fail Error.panic
      else unmarshal_slice tag order (
          unmarshal_slice_element t (effective_quirk tag quirk) order
            (unmarshal t no_tag order (effective_quirk tag quirk)))
  unmarshal (array n t) tag order quirk =
      if tag.optional
      then fail Error.panic
      else read_count n (unmarshal t no_tag order (effective_quirk tag quirk))
  unmarshal (struct name fs) tag order quirk =
      if tag.optional
      then fail Error.panic
      else struct_reader tag order (unmarshal_fields fs order (effective_quirk tag quirk))
  unmarshal (pointer t) tag order quirk =
      if tag.optional
      then optional_reader (unmarshal_struct t tag order (effective_quirk tag quirk))
      else fail Error.non_optional_pointer
  unmarshal (iface t) tag order quirk =
      if tag.optional then fail Error.panic else fail Error.unsupported_type

  pub unmarshal_struct : (t : Ty) → OscarTag → ByteOrder → Quirk → Reader (El t)
  unmarshal_struct (struct name fs) tag order quirk =
      struct_reader tag order (unmarshal_fields fs order quirk)
  unmarshal_struct _ tag order quirk = fail Error.panic

  pub unmarshal_fields : (fs : Fields) → ByteOrder → Quirk → Reader (Els fs)
  unmarshal_fields end order quirk = return tt
  unmarshal_fields (field tag t fs) order quirk = guard_pointer (check_pointer t fs) (
      unmarshal t tag order quirk >>= λ v. unmarshal_fields fs order quirk >>= λ vs. return (v, vs))
