-- ===== src/Wire/Tlv/Laws.antt =====
-- The laws of TLVList: what a lookup finds after an update, and the readings of written values.
use mathlib.Core.Option
use mathlib.Core.Path.{ap₂}
use retro_aim_server.Prelude.{
  ℕ, ◌<◌, ◌≡◌, refl, ap, false, none, some, List, [], ◌∷◌, ◌++◌, All, arith, if◌then◌else◌, ◌==◌,
  Option-cases, inl, inr, ==_refl,
}
use retro_aim_server.Prelude.Bytes.{big_endian, put_uint, uint-put_uint}
use retro_aim_server.Wire.Codec.Types.{slice}
use retro_aim_server.Wire.Codec.Types.{uint as uint_type}
use retro_aim_server.Wire.Codec.Marshal.{marshal, flat_bytes}
use retro_aim_server.Wire.Tlv.{
  Tlv, new_tlv, set_tlv, replace, remove, first, bytes, has_tag, chunks, uint16_slice,
}

first-replace :
    (tag : ℕ) (new : Tlv) (s : List Tlv)
    → bytes tag (replace new s)
      ≡ (if tag == new.tag then (if has_tag tag s then some new.value else none) else bytes tag s)
unfolding bytes replace has_tag
first-replace tag new [] = ground arith
first-replace tag new (t ∷ s) = ground (arith, first-replace tag new s)

bytes-append :
    (tag : ℕ) (new : Tlv) (s : List Tlv)
    → bytes tag (s ++ new ∷ [])
      ≡ (if has_tag tag s then bytes tag s else if tag == new.tag then some new.value else none)
unfolding bytes has_tag
bytes-append tag new [] = ground arith
bytes-append tag new (t ∷ s) = ground (arith, bytes-append tag new s)

has_tag-bytes : (tag : ℕ) (s : List Tlv) → has_tag tag s ≡ false → bytes tag s ≡ none
unfolding bytes has_tag
has_tag-bytes tag [] h = refl
has_tag-bytes tag (t ∷ s) h = ground (arith, has_tag-bytes tag s)

-- After `Set` the lookup of the tag gives the new value, and that of any other tag is unchanged.
pub bytes-set_tlv :
    (tag : ℕ) (new : Tlv) (s : List Tlv)
    → bytes tag (set_tlv new s) ≡ (if tag == new.tag then some new.value else bytes tag s)
unfolding set_tlv
bytes-set_tlv tag new s =
    ground (arith, first-replace tag new s, bytes-append tag new s, has_tag-bytes tag s)

-- After `Remove` the tag is not found, and any other is found as before.
pub bytes-remove :
    (tag removed : ℕ) (s : List Tlv)
    → bytes tag (remove removed s) ≡ (if tag == removed then none else bytes tag s)
unfolding bytes remove
bytes-remove tag removed [] = ground arith
bytes-remove tag removed (t ∷ s) = ground (arith, bytes-remove tag removed s)

chunks-flat :
    (ids : List ℕ)
    → All (λ i. i < 65536) ids
    → chunks (flat_bytes (put_uint big_endian 2) ids) ≡ ids
unfolding chunks flat_bytes put_uint
chunks-flat [] h = refl
chunks-flat (i ∷ ids) h = ap₂ ◌∷◌ (uint-put_uint big_endian 2 i h.0) (chunks-flat ids h.1)

pub new_tlv-slice :
    (tag : ℕ) (ids : List ℕ)
    → new_tlv tag (slice (uint_type 2)) ids big_endian
      ≡ some (record { tag = tag; value = flat_bytes (put_uint big_endian 2) ids })
unfolding new_tlv marshal
new_tlv-slice tag ids = refl

pub uint16_slice-bytes :
    (tag : ℕ) (s : List Tlv) → uint16_slice tag s ≡ Option.map chunks (bytes tag s)
unfolding uint16_slice bytes
uint16_slice-bytes tag s = elim (Option-cases (first tag s)) [ inl e ↦ rw e | inr (t, e) ↦ rw e ]

-- A list of 16-bit ids that is written under a tag is read back under it, whatever the list of TLVs
-- held before.
pub uint16_slice-set_tlv :
    (tag : ℕ) (ids : List ℕ) (new : Tlv) (s : List Tlv)
    → All (λ i. i < 65536) ids
    → new_tlv tag (slice (uint_type 2)) ids big_endian ≡ some new
    → uint16_slice tag (set_tlv new s) ≡ some ids
uint16_slice-set_tlv tag ids new s h e =
    let written : Tlv = record { tag = tag; value = flat_bytes (put_uint big_endian 2) ids } in
    let same : new ≡ written = cc (new_tlv-slice tag ids) in
    rw (same, uint16_slice-bytes tag (set_tlv written s), bytes-set_tlv tag written s, ==_refl tag)
      (ap some (chunks-flat ids h))
