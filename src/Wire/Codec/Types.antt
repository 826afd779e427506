-- ===== src/Wire/Codec/Types.antt =====
-- wire/encode.go and wire/decode.go: the Go types that the codec walks, their values, the options
-- of a struct tag, and the reader of a buffer.
use retro_aim_server.Prelude.{ℕ, Bool, true, false, List, Option, if◌then◌else◌}
use retro_aim_server.Prelude.Bytes.{Bytes}

-- The kinds that a length or count prefix may have.
pub data Kind : Type 0 where
  uint8 uint16 : Kind

-- The name of a decode exception; `none` is the empty string.
pub data Quirk : Type 0 where
  none icq2003b_set_fullinfo qip_2005_search_by_uin2 jimm_locate_set_info other : Quirk

-- The parsed `oscar:"…"` tag of a struct's field.
pub record OscarTag : Type 0 where
  pub has_count_prefix : Bool
  pub count_prefix : Kind
  pub has_len_prefix : Bool
  pub len_prefix : Kind
  pub optional : Bool
  pub null_terminated : Bool
  pub quirk : Quirk

-- `oscarTag{}`: what a field without a tag, an element or a whole message has.
abbrev pub no_tag : OscarTag
no_tag = record {
  has_count_prefix = false;
  count_prefix = Kind.uint8;
  has_len_prefix = false;
  len_prefix = Kind.uint8;
  optional = false;
  null_terminated = false;
  quirk = Quirk.none;
}

-- The struct types whose names the codec asks for.
pub data StructName : Type 0 where
  tlv icq_message_reply_envelope other : StructName

-- A Go type as reflection shows it. `uint n` is the unsigned integer of `n` bytes, `text` is
-- string, and `iface t` an interface that holds a value of type `t`.
mutual
  pub data Ty : Type 0 where
    uint : ℕ → Ty
    text : Ty
    slice : Ty → Ty
    array : ℕ → Ty → Ty
    struct : StructName → Fields → Ty
    pointer : Ty → Ty
    iface : Ty → Ty

  pub data Fields : Type 0 where
    end : Fields
    field : OscarTag → Ty → Fields → Fields

-- The values of a type. A nil slice is the empty one: the codec does not tell them apart.
abbrev mutual
  pub El : Ty → Type 0
  El (uint n) = ℕ
  El text = Bytes
  El (slice t) = List (El t)
  El (array n t) = List (El t)
  El (struct name fs) = Els fs
  El (pointer t) = Option (El t)
  El (iface t) = El t

  pub Els : Fields → Type 0
  Els end = Unit {0}
  Els (field tag t fs) = El t × Els fs

-- The errors that the codec tells apart. `panic` is a Go panic, and `stuck` is no Go value: it
-- stands for a loop that goes on for ever.
pub data Error : Type 0 where
  eof unexpected_eof non_optional_pointer optional_non_pointer unsupported_type : Error
  missing_len_prefix pointer_not_final not_a_struct panic stuck : Error

-- The two tests on a field that is a pointer: it is the last field, and it points to a struct.
pub data PointerCheck : Type 0 where
  fine not_final not_struct : PointerCheck

unfoldable pub is_struct : Ty → Bool
is_struct (struct name fs) = true
is_struct _ = false

unfoldable pub check_pointer : Ty → Fields → PointerCheck
unfolding is_struct
check_pointer (pointer t) end = if is_struct t then fine else not_struct
check_pointer (pointer t) (field tag u fs) = not_final
check_pointer _ fs = fine

abbrev pub kind_size : Kind → ℕ
kind_size Kind.uint8 = 1
kind_size Kind.uint16 = 2
