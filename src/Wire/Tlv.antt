-- ===== src/Wire/Tlv.antt =====
-- wire/tlv.go: one TLV with its readings, and TLVList with its operations. Lookups take the first
-- TLV with the tag. A reading of a value that is too short panics in Go: the result is then `none`.
pub mod Laws
use mathlib.Core.Option
use retro_aim_server.Prelude.{
  ℕ, zero, suc, ◌+◌, ◌-◌, ◌/◌, Bool, true, false, not, ◌&&◌, Option, none, some, List, [], ◌∷◌,
  ◌++◌, length, take, drop, keep, any, if◌then◌else◌, ltb, ◌==◌,
}
use retro_aim_server.Prelude.Bytes.{Bytes, ByteOrder, big_endian, little_endian, uint}
use retro_aim_server.Wire.Codec.Types.{Ty, El, no_tag}
use retro_aim_server.Wire.Codec.Marshal.{Outcome, done, failed, marshal}

pub record Tlv : Type 0 where
  pub tag : ℕ
  pub value : Bytes

-- `newTLV`: a `[]byte` is taken as it is, all else is marshalled. `none` is the panic.
unfoldable pub new_tlv_bytes : ℕ → Bytes → Tlv
new_tlv_bytes tag value = record { tag = tag; value = value }

unfoldable pub new_tlv : ℕ → (t : Ty) → El t → ByteOrder → Option Tlv
new_tlv tag t v order = elim (marshal t no_tag order v) [
  | done b ↦ some (record { tag = tag; value = b })
  | failed e ↦ none
]

-- The string behind a little-endian length and before a null; malformed values read as empty.
unfoldable pub icq_string : Tlv → Bytes
icq_string t =
    if ltb (length t.value) 3
    then []
    else let expected = uint little_endian (take 2 t.value) in
      let value = drop 2 t.value in
      if not (expected == length value) then [] else take (length value - 1) value

unfoldable pub uint8 : Tlv → ℕ
uint8 t = elim t.value [ [] ↦ 0 | b ∷ rest ↦ b ]

-- encoding/binary reads the first `n` bytes and panics if there are fewer.
unfoldable pub read_prefix : ByteOrder → ℕ → Bytes → Option ℕ
read_prefix order n b = if ltb (length b) n then none else some (uint order (take n b))

unfoldable pub uint16 : ByteOrder → Tlv → Option ℕ
unfolding read_prefix
uint16 order t = read_prefix order 2 t.value

unfoldable pub uint32 : ByteOrder → Tlv → Option ℕ
unfolding read_prefix
uint32 order t = read_prefix order 4 t.value

-- TLVList.
unfoldable pub append : List Tlv → Tlv → List Tlv
append s tlv = s ++ tlv ∷ []

unfoldable pub append_list : List Tlv → List Tlv → List Tlv
append_list s tlvs = s ++ tlvs

unfoldable pub has_tag : ℕ → List Tlv → Bool
has_tag tag [] = false
has_tag tag (t ∷ s) = let rest = has_tag tag s in if tag == t.tag then true else rest

-- The loop of `Set`: every value under the tag is replaced.
unfoldable pub replace : Tlv → List Tlv → List Tlv
replace new [] = []
replace new (t ∷ s) =
    (if t.tag == new.tag then record t { value = new.value } else t) ∷ replace new s

unfoldable pub set_tlv : Tlv → List Tlv → List Tlv
unfolding has_tag replace
set_tlv new s = if has_tag new.tag s then replace new s else s ++ new ∷ []

unfoldable pub remove : ℕ → List Tlv → List Tlv
remove tag [] = []
remove tag (t ∷ s) = let rest = remove tag s in if t.tag == tag then rest else t ∷ rest

-- The loop that the lookups share: the first TLV with the tag.
unfoldable pub first : ℕ → List Tlv → Option Tlv
first tag [] = none
first tag (t ∷ s) = let rest = first tag s in if tag == t.tag then some t else rest

unfoldable pub bytes : ℕ → List Tlv → Option Bytes
unfolding first
bytes tag s = Option.map (λ t. t.value) (first tag s)

unfoldable pub list_icq_string : ℕ → List Tlv → Option Bytes
unfolding first icq_string
list_icq_string tag s = Option.map icq_string (first tag s)

unfoldable pub list_uint8 : ℕ → List Tlv → Option ℕ
unfolding first uint8
list_uint8 tag s = Option.map uint8 (first tag s)

-- The outer option says whether the tag is there, the inner one whether the reading panics.
unfoldable pub list_uint16 : ByteOrder → ℕ → List Tlv → Option (Option ℕ)
unfolding first uint16
list_uint16 order tag s = Option.map (uint16 order) (first tag s)

unfoldable pub list_uint32 : ByteOrder → ℕ → List Tlv → Option (Option ℕ)
unfolding first uint32
list_uint32 order tag s = Option.map (uint32 order) (first tag s)

-- The value in chunks of two bytes; an odd byte at the end is dropped.
unfoldable pub chunks : Bytes → List ℕ
chunks (a ∷ b ∷ rest) = uint big_endian (a ∷ b ∷ []) ∷ chunks rest
chunks (a ∷ []) = []
chunks [] = []

unfoldable pub uint16_slice : ℕ → List Tlv → Option (List ℕ)
unfolding first chunks
uint16_slice tag s = Option.map (λ t. chunks t.value) (first tag s)
