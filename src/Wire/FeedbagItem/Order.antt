-- ===== src/Wire/FeedbagItem/Order.antt =====
-- The order attribute of FeedbagItem, wire/snacs.go: what its members are after an update.
use retro_aim_server.Prelude.{
  ℕ, ◌<◌, ◌≡◌, refl, ap, ◌∙◌, Bool, true, not, Option, none, some, List, [], ◌∷◌, ◌++◌, keep, any,
  All, length, ◌==◌, ==_refl, inl, inr, All-append, Bool-cases,
}
use retro_aim_server.Prelude.Bytes.{big_endian, bytes_eq_refl, put_uint}
use retro_aim_server.Wire.Codec.Types.{slice, uint}
use retro_aim_server.Wire.Codec.Marshal.{flat_bytes}
use retro_aim_server.Wire.Tlv.{Tlv, set_tlv, uint16_slice}
use retro_aim_server.Wire.Tlv.Laws.{new_tlv-slice, uint16_slice-set_tlv}
use retro_aim_server.Wire.FeedbagItem.{
  FeedbagItem, feedbag_attributes_order, order_members, append_order_members, remove_order_members,
  set_value, put_tlv, listed, filter_order, same_tlvs, is_equal,
}

abbrev pub AreIds : List ℕ → Type 0
AreIds ids = All (λ id. id < 65536) ids

set_order :
    (ids : List ℕ) (f : FeedbagItem)
    → set_value feedbag_attributes_order (slice (uint 2)) ids f ≡ record f {
      tlv_list =
          set_tlv
            (record {
              tag = feedbag_attributes_order;
              value = flat_bytes (put_uint big_endian 2) ids;
            })
            f.tlv_list;
    }
unfolding set_value put_tlv
set_order ids f = ap (λ o. put_tlv o f) (new_tlv-slice feedbag_attributes_order ids)

pub order_members-set_order :
    (ids : List ℕ) (f : FeedbagItem)
    → AreIds ids
    → order_members (set_value feedbag_attributes_order (slice (uint 2)) ids f) ≡ ids
unfolding order_members listed
order_members-set_order ids f h =
    ap order_members (set_order ids f)
    ∙ ap listed (
        uint16_slice-set_tlv feedbag_attributes_order ids _ f.tlv_list h
          (new_tlv-slice feedbag_attributes_order ids))

-- Appended members follow those that were there. The ids are 16-bit numbers.
pub order_members-append_order_members :
    (ids : List ℕ) (f : FeedbagItem)
    → AreIds ids
    → AreIds (order_members f)
    → order_members (append_order_members ids f) ≡ order_members f ++ ids
unfolding append_order_members
order_members-append_order_members ids f h k =
    order_members-set_order (order_members f ++ ids) f (All-append _ (order_members f) ids k h)

pub AreIds-keep : (p : ℕ → Bool) (ids : List ℕ) → AreIds ids → AreIds (keep p ids)
AreIds-keep p [] h = tt
AreIds-keep p (id ∷ ids) (h, hs) = elim (Bool-cases (p id)) [
  | inl e ↦ rw e (h, AreIds-keep p ids hs)
  | inr e ↦ rw e (AreIds-keep p ids hs)
]

filtered :
    (ids : List ℕ) (f : FeedbagItem) (o : Option (List ℕ))
    → uint16_slice feedbag_attributes_order f.tlv_list ≡ o
    → AreIds (listed o)
    → order_members (filter_order ids o f)
      ≡ keep (λ id. not (any (λ member. member == id) ids)) (listed o)
unfolding filter_order listed order_members
filtered ids f none e k = ap listed e
filtered ids f (some existing) e k = order_members-set_order _ f (AreIds-keep _ existing k)

-- Removed members are gone, and all others keep their order. The ids are 16-bit numbers.
pub order_members-remove_order_members :
    (ids : List ℕ) (f : FeedbagItem)
    → AreIds (order_members f)
    → order_members (remove_order_members ids f)
      ≡ keep (λ id. not (any (λ member. member == id) ids)) (order_members f)
unfolding remove_order_members order_members
order_members-remove_order_members ids f k =
    filtered ids f (uint16_slice feedbag_attributes_order f.tlv_list) refl k

same_tlvs_refl : (ts : List Tlv) → same_tlvs ts ts ≡ true
unfolding same_tlvs
same_tlvs_refl [] = refl
same_tlvs_refl (t ∷ ts) = rw (==_refl t.tag, bytes_eq_refl t.value) (same_tlvs_refl ts)

pub is_equal_refl : (f : FeedbagItem) → is_equal f f ≡ true
unfolding is_equal
is_equal_refl f =
    rw (bytes_eq_refl f.name, ==_refl f.group_id, ==_refl f.class_id, ==_refl (length f.tlv_list))
      (same_tlvs_refl f.tlv_list)
