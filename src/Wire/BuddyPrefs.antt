-- ===== src/Wire/BuddyPrefs.antt =====
-- wire/buddy_prefs.go: the buddy preferences, bits of two bitmasks in four TLVs of a feedbag item.
pub mod Masks
pub mod Setting
use Prim.Native.Nat.{bit_and, bit_or, max}
use retro_aim_server.Prelude.{
  ℕ, ◌+◌, ◌-◌, ◌/◌, ◌%◌, ◌^◌, Bool, true, false, not, Option, none, some, List, [], ◌∷◌, ◌++◌,
  length, get_elem?, set, replicate, if◌then◌else◌, ltb, leb, ◌==◌,
}
use retro_aim_server.Prelude.Bytes.{Bytes}
use retro_aim_server.Prelude.Maps.{lookup}
use retro_aim_server.Wire.Tlv.{Tlv, new_tlv_bytes, set_tlv, bytes}

-- FeedbagAttributesBuddyPrefs, BuddyPrefsValid, BuddyPrefs2 and BuddyPrefs2Valid.
abbrev pub buddy_prefs : ℕ
buddy_prefs = 0x00C9

abbrev pub buddy_prefs_valid : ℕ
buddy_prefs_valid = 0x00D6

abbrev pub buddy_prefs2 : ℕ
buddy_prefs2 = 0x00D7

abbrev pub buddy_prefs2_valid : ℕ
buddy_prefs2_valid = 0x00D8

unfoldable pub buddy_pref_tags : ℕ → ℕ × ℕ
buddy_pref_tags n =
    if ltb n 32 then (buddy_prefs_valid, buddy_prefs) else (buddy_prefs2_valid, buddy_prefs2)

-- Where preference `n` starts in the second bitmask: 32 and 33 share a place.
unfoldable pub offset : ℕ → ℕ
offset n = if not (n == 32) then n - 33 else 0

-- The index, `none` where it is negative, and the mask.
unfoldable pub buddy_pref_bit : ℕ → ℕ → Option ℕ × ℕ
unfolding offset
buddy_pref_bit n len =
    if ltb n 32
    then (if ltb (n / 8) len then some (len - 1 - n / 8) else none, 2 ^ (n % 8))
    else (some (offset n / 8), 0x80 / 2 ^ (offset n % 8))

unfoldable pub buddy_pref_defaults : List (ℕ × Bool)
buddy_pref_defaults =
    (0x00, true)
    ∷ (0x01, true)
    ∷ (0x02, true)
    ∷ (0x03, true)
    ∷ (0x04, true)
    ∷ (0x05, true)
    ∷ (0x06, true)
    ∷ (0x08, true)
    ∷ (0x09, true)
    ∷ (0x0A, true)
    ∷ (0x0B, false)
    ∷ (0x0C, false)
    ∷ (0x0D, true)
    ∷ (0x0E, true)
    ∷ (0x0F, true)
    ∷ (0x10, true)
    ∷ (0x11, false)
    ∷ (0x12, false)
    ∷ (0x14, false)
    ∷ (0x15, true)
    ∷ (0x16, true)
    ∷ (0x18, true)
    ∷ (0x19, true)
    ∷ (0x1A, true)
    ∷ (0x1B, true)
    ∷ (0x1C, true)
    ∷ (0x1D, true)
    ∷ (0x1E, true)
    ∷ (0x1F, false)
    ∷ (0x20, true)
    ∷ (0x21, true)
    ∷ (0x22, true)
    ∷ (0x23, true)
    ∷ (0x24, true)
    ∷ (0x25, true)
    ∷ (0x26, false)
    ∷ (0x27, false)
    ∷ (0x28, true)
    ∷ (0x29, false)
    ∷ (0x2A, false)
    ∷ (0x2B, false)
    ∷ (0x2C, false)
    ∷ (0x2D, false)
    ∷ (0x2E, false)
    ∷ (0x2F, false)
    ∷ (0x30, true)
    ∷ (0x31, false)
    ∷ (0x32, true)
    ∷ (0x33, false)
    ∷ (0x34, true)
    ∷ (0x35, true)
    ∷ (0x36, true)
    ∷ (0x37, true)
    ∷ (0x38, false)
    ∷ (0x39, false)
    ∷ (0x3A, true)
    ∷ (0x3B, false)
    ∷ (0x3C, false)
    ∷ (0x3D, false)
    ∷ (0x3E, false)
    ∷ (0x3F, false)
    ∷ (0x40, false)
    ∷ (0x41, false)
    ∷ (0x42, false)
    ∷ (0x43, false)
    ∷ (0x44, false)
    ∷ (0x45, false)
    ∷ (0x46, true)
    ∷ (0x47, false)
    ∷ (0x48, true)
    ∷ (0x49, false)
    ∷ (0x4A, false)
    ∷ (0x4B, true)
    ∷ (0x4C, true)
    ∷ (0x4D, false)
    ∷ (0x4E, false)
    ∷ (0x4F, false)
    ∷ []

-- A map gives false for a key that it does not have.
unfoldable pub default_of : Option Bool → Bool
default_of none = false
default_of (some b) = b

unfoldable pub read_bit : ℕ → Option ℕ → Option ℕ → Bool × Bool
read_bit mask (some valid) (some value) =
    (not (bit_and valid mask == 0), not (bit_and value mask == 0))
read_bit mask _ _ = (false, false)

unfoldable pub read_at : Option ℕ × ℕ → Bytes → Bytes → Bool × Bool
unfolding read_bit
read_at (none, mask) valid value = (false, false)
read_at (some i, mask) valid value = read_bit mask (get_elem? valid i) (get_elem? value i)

unfoldable pub read_masks : ℕ → Option Bytes → Option Bytes → Bool × Bool
unfolding buddy_pref_bit read_at
read_masks n (some valid) (some value) = read_at (buddy_pref_bit n (length valid)) valid value
read_masks n _ _ = (false, false)

-- Whether the preference is there, and its value.
unfoldable pub read_buddy_pref : List Tlv → ℕ → Bool × Bool
unfolding buddy_pref_tags read_masks
read_buddy_pref list n =
    read_masks n (bytes (buddy_pref_tags n).0 list) (bytes (buddy_pref_tags n).1 list)

unfoldable pub buddy_pref : List Tlv → ℕ → Bool
unfolding read_buddy_pref buddy_pref_defaults default_of
buddy_pref list n =
    let (valid, value) = read_buddy_pref list n in
    if valid then value else default_of (lookup ◌==◌ n buddy_pref_defaults)

unfoldable pub left_pad : Bytes → ℕ → Bytes
left_pad b n = if leb n (length b) then b else replicate (n - length b) 0 ++ b

unfoldable pub right_pad : Bytes → ℕ → Bytes
right_pad b n = if leb n (length b) then b else b ++ replicate (n - length b) 0

-- A TLV that is not there reads as no bytes.
unfoldable pub bytes_or_nil : Option Bytes → Bytes
bytes_or_nil none = []
bytes_or_nil (some b) = b

-- The common length of the two bitmasks, and the padding to it.
unfoldable pub pref_length : ℕ → Bytes → Bytes → ℕ
unfolding offset
pref_length n valid value =
    if ltb n 32
    then max (max 4 (length valid)) (length value)
    else max (max (offset n / 8 + 1) (length valid)) (length value)

unfoldable pub pad : ℕ → Bytes → ℕ → Bytes
unfolding left_pad right_pad
pad n b len = if ltb n 32 then left_pad b len else right_pad b len

-- `b[i] = f(b[i])`; `none` is the panic of an index out of range.
unfoldable pub update_found : (ℕ → ℕ) → Bytes → ℕ → Option ℕ → Option Bytes
update_found f b i none = none
update_found f b i (some x) = some (set b i (f x))

unfoldable pub update_byte : (ℕ → ℕ) → Bytes → Option ℕ → Option Bytes
unfolding update_found
update_byte f b none = none
update_byte f b (some i) = update_found f b i (get_elem? b i)

-- `|= mask`, or `&^= mask`.
unfoldable pub write_bit : Bool → ℕ → ℕ → ℕ
write_bit true mask b = bit_or b mask
write_bit false mask b = b - bit_and b mask

unfoldable pub store_masks : ℕ × ℕ → List Tlv → Option Bytes → Option Bytes → Option (List Tlv)
store_masks (valid_tag, value_tag) list (some valid) (some value) =
    some (set_tlv (new_tlv_bytes value_tag value) (set_tlv (new_tlv_bytes valid_tag valid) list))
store_masks tags list _ _ = none

unfoldable pub set_masks : ℕ → Bool → List Tlv → Bytes → Bytes → Option (List Tlv)
unfolding pref_length pad buddy_pref_bit update_byte write_bit store_masks buddy_pref_tags
set_masks n v list valid value =
    let len = pref_length n valid value in
    let (index, mask) = buddy_pref_bit n len in
    store_masks (buddy_pref_tags n) list (update_byte (write_bit true mask) (pad n valid len) index)
      (update_byte (write_bit v mask) (pad n value len) index)

unfoldable pub set_buddy_pref : List Tlv → ℕ → Bool → Option (List Tlv)
unfolding set_masks bytes_or_nil buddy_pref_tags
set_buddy_pref list n v =
    set_masks n v list (bytes_or_nil (bytes (buddy_pref_tags n).0 list))
      (bytes_or_nil (bytes (buddy_pref_tags n).1 list))
