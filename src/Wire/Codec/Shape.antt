-- ===== src/Wire/Codec/Shape.antt =====
-- Which types, tags and values of wire/encode.go and wire/decode.go belong together: what the codec
-- can carry, read off the type alone, and the ranges that a value must keep.
use retro_aim_server.Prelude.{
  ℕ, zero, suc, ◌^◌, ◌<◌, ◌≡◌, Bool, true, false, ◌&&◌, ◌||◌, none, some, length, All,
  if◌then◌else◌,
}
use retro_aim_server.Prelude.Bytes.{ByteOrder}
use retro_aim_server.Wire.Codec.Types.{
  Ty, uint, text, slice, array, struct, pointer, iface, Fields, end, field, El, Els, OscarTag,
  no_tag, StructName, Quirk, is_struct, kind_size,
}
use retro_aim_server.Wire.Codec.Marshal.{
  Outcome, done, failed, marshal_elements, marshal_struct, marshal_fields, null_terminate,
}
use retro_aim_server.Wire.Codec.Unmarshal.{cut_null}

-- Integers and arrays of them: what binary.Write and the decoder treat alike.
abbrev pub is_plain : Ty → Bool
is_plain (uint n) = true
is_plain (array n t) = is_plain t
is_plain _ = false

abbrev pub is_end : Fields → Bool
is_end end = true
is_end (field tag t fs) = false

abbrev pub is_envelope : StructName → Bool
is_envelope StructName.icq_message_reply_envelope = true
is_envelope _ = false

abbrev pub has_prefix : OscarTag → Bool
has_prefix tag = tag.has_len_prefix || tag.has_count_prefix

-- The decoder knows from the bytes alone where such a value ends.
abbrev mutual
  pub is_closed : Ty → OscarTag → Bool
  is_closed (uint n) tag = true
  is_closed text tag = true
  is_closed (slice t) tag = has_prefix tag
  is_closed (array n t) tag = true
  is_closed (struct name fs) tag = tag.has_len_prefix || are_closed fs
  is_closed (pointer t) tag = false
  is_closed (iface t) tag = false

  pub are_closed : Fields → Bool
  are_closed end = true
  are_closed (field tag t fs) = is_closed t tag && are_closed fs

abbrev pub is_pos : ℕ → Bool
is_pos zero = false
is_pos (suc n) = true

-- Decoding such a value begins by reading a byte.
abbrev mutual
  pub starts : Ty → OscarTag → Bool
  starts (uint n) tag = is_pos n
  starts text tag = true
  starts (slice t) tag = has_prefix tag
  starts (array n t) tag = is_pos n && starts t no_tag
  starts (struct name fs) tag = tag.has_len_prefix || start fs
  starts (pointer t) tag = false
  starts (iface t) tag = false

  pub start : Fields → Bool
  start end = false
  start (field tag t fs) = starts t tag

-- An element is a struct or plain, ends by itself, and begins by reading a byte.
abbrev pub is_element : Ty → Bool
is_element t = (is_struct t || is_plain t) && is_closed t no_tag && starts t no_tag

-- The types that both directions of the codec treat alike, with no decode exception in force.
abbrev mutual
  pub Codable : Ty → OscarTag → Type 0
  Codable (uint n) tag = tag.optional ≡ false
  Codable text tag = (tag.optional ≡ false) × (tag.has_len_prefix ≡ true)
  Codable (slice t) tag =
      (tag.optional ≡ false) × (tag.quirk ≡ Quirk.none) × (is_element t ≡ true) × Codable t no_tag
  Codable (array n t) tag =
      (tag.optional ≡ false) × (tag.quirk ≡ Quirk.none) × (is_element t ≡ true) × Codable t no_tag
  Codable (struct name fs) tag =
      (tag.optional ≡ false) × (tag.quirk ≡ Quirk.none) × (is_envelope name ≡ false) × AreCodable fs
  Codable (pointer (struct name fs)) tag =
      (tag.optional ≡ true)
      × (tag.quirk ≡ Quirk.none)
      × (is_envelope name ≡ false)
      × (starts (struct name fs) tag ≡ true)
      × AreCodable fs
  Codable (pointer _) tag = ⊥
  Codable (iface t) tag = ⊥

  -- Only the last field may run to the end of the buffer.
  pub AreCodable : Fields → Type 0
  AreCodable end = Unit {0}
  AreCodable (field tag t fs) =
      Codable t tag × (is_end fs || is_closed t tag ≡ true) × AreCodable fs

abbrev pub size_of : Outcome → ℕ
size_of (done b) = length b
size_of (failed e) = 0

-- The number that a slice's prefix holds, and the number that the prefix stays below.
abbrev pub prefix_load : OscarTag → ℕ → ℕ → ℕ
prefix_load tag size count =
    if tag.has_len_prefix then size else if tag.has_count_prefix then count else 0

abbrev pub prefix_limit : OscarTag → ℕ
prefix_limit tag =
    if tag.has_len_prefix
    then 256 ^ kind_size tag.len_prefix
    else if tag.has_count_prefix
    then 256 ^ kind_size tag.count_prefix
    else 1

abbrev pub len_load : OscarTag → ℕ → ℕ
len_load tag size = if tag.has_len_prefix then size else 0

-- Numbers lie in their range, arrays have their length, null-terminated strings hold no null, and
-- every length and count fits its prefix.
abbrev mutual
  pub Fits : (t : Ty) → OscarTag → ByteOrder → El t → Type 0
  Fits (uint n) tag order v = v < 256 ^ n
  Fits text tag order v =
      (length (null_terminate tag.null_terminated v) < 256 ^ kind_size tag.len_prefix)
      × ((if tag.null_terminated then cut_null v else v) ≡ v)
  Fits (slice t) tag order vs =
      All (Fits t no_tag order) vs
      × (prefix_load tag (size_of (marshal_elements t (marshal_struct t no_tag order) order vs))
            (length vs)
          < prefix_limit tag)
  Fits (array n t) tag order vs = All (Fits t no_tag order) vs × (length vs ≡ n)
  Fits (struct name fs) tag order vs =
      FitAll fs order vs
      × (len_load tag (size_of (marshal_fields fs order vs)) < 256 ^ kind_size tag.len_prefix)
  Fits (pointer (struct name fs)) tag order none = Unit {0}
  Fits (pointer (struct name fs)) tag order (some vs) =
      FitAll fs order vs
      × (len_load tag (size_of (marshal_fields fs order vs)) < 256 ^ kind_size tag.len_prefix)
  Fits (pointer _) tag order v = Unit {0}
  Fits (iface t) tag order v = Unit {0}

  pub FitAll : (fs : Fields) → ByteOrder → Els fs → Type 0
  FitAll end order vs = Unit {0}
  FitAll (field tag t fs) order vs = Fits t tag order vs.0 × FitAll fs order vs.1
