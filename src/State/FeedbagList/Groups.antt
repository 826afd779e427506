-- ===== src/State/FeedbagList/Groups.antt =====
-- state/feedbag_list.go: the operations on groups, buddies, permit and deny entries, and the lists
-- of what is to be saved.
use retro_aim_server.Prelude.{
  ℕ, Bool, true, false, not, ◌&&◌, Option, none, some, List, [], ◌∷◌, map, keep, if◌then◌else◌,
  ◌==◌,
}
use retro_aim_server.Prelude.Bytes.{Bytes, bytes_eq}
use retro_aim_server.Wire.Codec.Types.{uint, slice}
use retro_aim_server.Wire.Tlv.{remove, uint16_slice, new_tlv_bytes}
use retro_aim_server.Wire.FeedbagItem.{FeedbagItem, set_value, put_tlv, feedbag_attributes_order}
use retro_aim_server.State.FeedbagList.{
  FeedbagList, store, add_item, track_update, find_item, feedbag_class_id_group,
}

-- ErrGroupNotFound, ErrGroupExists, ErrBuddyNotFound, and the error of addBuddyItem, which wraps none.
pub data FeedbagError : Type 0 where
  group_not_found group_exists buddy_not_found unnamed_error : FeedbagError

abbrev pub feedbag_attributes_pd_mode : ℕ
feedbag_attributes_pd_mode = 0xCA

abbrev pub feedbag_attributes_bart_info : ℕ
feedbag_attributes_bart_info = 0xD5

abbrev pub feedbag_attributes_alias : ℕ
feedbag_attributes_alias = 0x131

abbrev pub feedbag_attributes_collapsed : ℕ
feedbag_attributes_collapsed = 0x134

abbrev pub feedbag_attributes_note : ℕ
feedbag_attributes_note = 0x13C

abbrev pub bare : ℕ → Bytes → FeedbagItem
bare class_id name = record {
  name = name;
  group_id = 0;
  item_id = 0;
  class_id = class_id;
  tlv_list = [];
}

-- The cell at an address is changed and tracked.
unfoldable pub modify : ℕ → (FeedbagItem → FeedbagItem) → FeedbagList → FeedbagList
unfolding store track_update
modify a change f = track_update a (store a (change (f.heap a)) f)

-- NewFeedbagList: the items are the first cells. A cell that is not in use holds any item.
unfoldable pub allocate : List FeedbagItem → FeedbagList → FeedbagList
unfolding add_item
allocate [] f = f
allocate (item ∷ items) f = allocate items (add_item item f)

unfoldable pub new_feedbag_list : List FeedbagItem → FeedbagList
unfolding allocate
new_feedbag_list items = allocate items (record {
  heap = λ a. bare 0 [];
  next = 0;
  items = [];
  pending_updates = [];
  pending_deletes = [];
  calls = 0;
})

unfoldable pub is_root : FeedbagItem → Bool
is_root item = (item.class_id == feedbag_class_id_group) && (item.group_id == 0)

unfoldable pub is_group_named : Bytes → FeedbagItem → Bool
unfolding bytes_eq
is_group_named name item =
    (item.class_id == feedbag_class_id_group) && not (item.group_id == 0) && bytes_eq item.name name

unfoldable pub group_by_name : Bytes → FeedbagList → Option ℕ
unfolding find_item is_group_named
group_by_name name f = find_item (is_group_named name) f

unfoldable pub root_group : FeedbagList → ℕ × FeedbagList
unfolding find_item is_root add_item track_update
root_group f = elim (find_item is_root f) [
  | some root ↦ (root, f)
  | none ↦ (f.next, track_update f.next (add_item (bare feedbag_class_id_group []) f))
]

-- The two loops over the pending lists: the items as they are now.
unfoldable pub take_pending_updates : FeedbagList → List FeedbagItem × FeedbagList
take_pending_updates f = (map f.heap f.pending_updates, record f { pending_updates = [] })

unfoldable pub take_pending_deletes : FeedbagList → List FeedbagItem × FeedbagList
take_pending_deletes f = (map f.heap f.pending_deletes, record f { pending_deletes = [] })

-- `reorderInGroupOrder` without its lookups: the place before `before_id`, or the end.
unfoldable pub insert_before : ℕ → ℕ → List ℕ → List ℕ
insert_before id before_id [] = id ∷ []
insert_before id before_id (i ∷ ids) =
    let rest = insert_before id before_id ids in if i == before_id then id ∷ i ∷ ids else i ∷ rest

unfoldable pub reorder_in_group_order : ℕ → ℕ → ℕ → FeedbagList → FeedbagList
unfolding uint16_slice insert_before modify set_value
reorder_in_group_order group item_id before_item_id f =
    elim (uint16_slice feedbag_attributes_order (f.heap group).tlv_list) [
      | none ↦ f
      | some order ↦
          modify group
            (set_value feedbag_attributes_order (slice (uint 2))
              (insert_before item_id before_item_id (keep (λ id. not (id == item_id)) order)))
            f
    ]

-- SetGroupCollapsed.
unfoldable pub set_group_collapsed : Bytes → Bool → FeedbagList → Option FeedbagError × FeedbagList
unfolding group_by_name modify put_tlv new_tlv_bytes remove
set_group_collapsed group_name collapsed f = elim (group_by_name group_name f) [
  | none ↦ (some FeedbagError.group_not_found, f)
  | some group ↦ (
    none,
    modify group
        (if collapsed
          then put_tlv (some (new_tlv_bytes feedbag_attributes_collapsed []))
          else λ item. record item { tlv_list = remove feedbag_attributes_collapsed item.tlv_list })
        f,
  )
]

abbrev pub is_found : Option ℕ → Bool
is_found none = false
is_found (some a) = true

unfoldable pub rename_group : Bytes → Bytes → FeedbagList → Option FeedbagError × FeedbagList
unfolding group_by_name modify bytes_eq
rename_group old_name new_name f = elim (group_by_name old_name f) [
  | none ↦ (some FeedbagError.group_not_found, f)
  | some group ↦
      if not (bytes_eq new_name old_name) && is_found (group_by_name new_name f)
      then (some FeedbagError.group_exists, f)
      else if bytes_eq (f.heap group).name new_name
      then (none, f)
      else (none, modify group (λ item. record item { name = new_name }) f)
]
