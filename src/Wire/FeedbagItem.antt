-- ===== src/Wire/FeedbagItem.antt =====
-- FeedbagItem of wire/snacs.go: its comparison and its order attribute.
pub mod Order
use retro_aim_server.Prelude.{
  ℕ, Bool, true, false, not, ◌&&◌, Option, none, some, List, [], ◌∷◌, ◌++◌, keep, any,
  if◌then◌else◌, length, ◌==◌,
}
use retro_aim_server.Prelude.Bytes.{Bytes, big_endian, bytes_eq}
use retro_aim_server.Wire.Codec.Types.{Ty, El, uint, slice}
use retro_aim_server.Wire.Tlv.{Tlv, new_tlv, set_tlv, uint16_slice}

pub record FeedbagItem : Type 0 where
  pub name : Bytes
  pub group_id : ℕ
  pub item_id : ℕ
  pub class_id : ℕ
  pub tlv_list : List Tlv

abbrev pub feedbag_attributes_order : ℕ
feedbag_attributes_order = 0xC8

-- The loop over two lists of the same length.
unfoldable pub same_tlvs : List Tlv → List Tlv → Bool
unfolding bytes_eq
same_tlvs [] _ = true
same_tlvs (t ∷ ts) [] = false
same_tlvs (t ∷ ts) (o ∷ os) = (t.tag == o.tag) && bytes_eq t.value o.value && same_tlvs ts os

unfoldable pub is_equal : FeedbagItem → FeedbagItem → Bool
unfolding bytes_eq same_tlvs
is_equal f other =
    if not (bytes_eq f.name other.name)
    then false
    else if not (f.group_id == other.group_id)
    then false
    else if not (f.class_id == other.class_id)
    then false
    else if not (length f.tlv_list == length other.tlv_list)
    then false
    else same_tlvs f.tlv_list other.tlv_list

-- `f.Set(NewTLVBE(tag, v))`. No value that the code passes makes NewTLVBE panic (`none`).
unfoldable pub put_tlv : Option Tlv → FeedbagItem → FeedbagItem
unfolding set_tlv
put_tlv (some new) f = record f { tlv_list = set_tlv new f.tlv_list }
put_tlv none f = f

unfoldable pub set_value : ℕ → (t : Ty) → El t → FeedbagItem → FeedbagItem
unfolding put_tlv
set_value tag t v f = put_tlv (new_tlv tag t v big_endian) f

-- The member ids, none where there is no order.
unfoldable pub listed : Option (List ℕ) → List ℕ
listed (some ids) = ids
listed none = []

unfoldable pub order_members : FeedbagItem → List ℕ
unfolding listed
order_members f = listed (uint16_slice feedbag_attributes_order f.tlv_list)

unfoldable pub append_order_members : List ℕ → FeedbagItem → FeedbagItem
unfolding set_value order_members
append_order_members member_ids f =
    set_value feedbag_attributes_order (slice (uint 2)) (order_members f ++ member_ids) f

unfoldable pub filter_order : List ℕ → Option (List ℕ) → FeedbagItem → FeedbagItem
unfolding set_value
filter_order member_ids none f = f
filter_order member_ids (some existing) f =
    set_value feedbag_attributes_order (slice (uint 2))
      (keep (λ id. not (any (λ member. member == id) member_ids)) existing) f

unfoldable pub remove_order_members : List ℕ → FeedbagItem → FeedbagItem
unfolding filter_order
remove_order_members member_ids f =
    filter_order member_ids (uint16_slice feedbag_attributes_order f.tlv_list) f
