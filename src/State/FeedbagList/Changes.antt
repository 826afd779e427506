-- ===== src/State/FeedbagList/Changes.antt =====
-- state/feedbag_list.go: the operations that change items in place or insert them.
use retro_aim_server.Prelude.{
  ℕ, Bool, true, false, ◌||◌, Option, none, some, List, [], ◌∷◌, if◌then◌else◌,
}
use retro_aim_server.Prelude.Bytes.{Bytes, bytes_eq, big_endian}
use retro_aim_server.Wire.Codec.Types.{
  Ty, uint, text, slice, struct, field, end, no_tag, Kind, StructName,
}
use retro_aim_server.Wire.Tlv.{Tlv, append, remove, new_tlv}
use retro_aim_server.Wire.FeedbagItem.{FeedbagItem, set_value, append_order_members}
use retro_aim_server.State.FeedbagList.{
  FeedbagList, add_item, track_update, gen_id, upsert_item, feedbag_class_id_buddy,
  feedbag_class_id_group, feedbag_class_id_permit, feedbag_class_id_deny, feedbag_class_id_pdinfo,
  feedbag_class_id_bart, feedbag_class_id_al_info,
}
use retro_aim_server.State.FeedbagList.Groups.{
  FeedbagError, bare, modify, group_by_name, root_group, reorder_in_group_order,
  feedbag_attributes_pd_mode, feedbag_attributes_bart_info, feedbag_attributes_alias,
  feedbag_attributes_note,
}
use retro_aim_server.State.FeedbagList.Buddies.{buddy_item, buddy_items_by_name, delete_buddy}

abbrev pub bart_info : Ty
bart_info = struct StructName.other (
    field no_tag (uint 1) (
      field (record no_tag { has_len_prefix = true; len_prefix = Kind.uint8 }) (slice (uint 1))
        end))

module _ (to_lower : Bytes → Bytes) where
  unfoldable pub set_aliases : Bytes → List ℕ → FeedbagList → FeedbagList
  unfolding modify set_value remove
  set_aliases alias [] f = f
  set_aliases alias (buddy ∷ buddies) f = set_aliases alias buddies (
      modify buddy
        (elim alias [
          | [] ↦ λ item. record item { tlv_list = remove feedbag_attributes_alias item.tlv_list }
          | c ∷ cs ↦ set_value feedbag_attributes_alias text (c ∷ cs)
        ])
        f)

  unfoldable pub set_buddy_alias : Bytes → Bytes → FeedbagList → Bool × FeedbagList
  unfolding buddy_items_by_name set_aliases
  set_buddy_alias buddy_name alias f = elim (buddy_items_by_name to_lower buddy_name f) [
    | [] ↦ (false, f)
    | a ∷ buddies ↦ (true, set_aliases alias (a ∷ buddies) f)
  ]

abbrev pub bart_flags_custom : ℕ
bart_flags_custom = 0x01

-- The attributes of AddBuddy: one TLV for each string that is not empty.
unfoldable pub with_text : ℕ → Bytes → List Tlv → List Tlv
unfolding append new_tlv
with_text tag [] attrs = attrs
with_text tag (c ∷ cs) attrs = elim (new_tlv tag text (c ∷ cs) big_endian) [
  | some t ↦ append attrs t
  | none ↦ attrs
]

module _ (to_lower : Bytes → Bytes) (rand_int : ℕ → ℕ → ℕ) where
  unfoldable pub add_group : Bytes → FeedbagList → FeedbagItem × FeedbagList
  unfolding group_by_name gen_id add_item root_group modify append_order_members track_update
  add_group name f = elim (group_by_name name f) [
    | some group ↦ (f.heap group, f)
    | none ↦
        let (id, g) = gen_id rand_int f in
        let group = g.next in
        let item : FeedbagItem = record (bare feedbag_class_id_group name) { group_id = id } in
        let (root, h) = root_group (add_item item g) in
        let k = track_update group (modify root (append_order_members (id ∷ [])) h) in
        (k.heap group, k)
  ]

  unfoldable pub add_buddy_item :
      Bytes → Bytes → List Tlv → FeedbagList → (Bool × Option FeedbagError) × FeedbagList
  unfolding group_by_name upsert_item modify append_order_members
  add_buddy_item group_name screen_name attrs f = elim (group_by_name group_name f) [
    | none ↦ ((false, some FeedbagError.unnamed_error), f)
    | some group ↦
        let item : FeedbagItem = record (bare feedbag_class_id_buddy screen_name) {
          group_id = (f.heap group).group_id;
          tlv_list = attrs;
        } in
        let ((result, inserted), g) = upsert_item to_lower rand_int item f in
        (
          (inserted, none),
          if inserted then modify group (append_order_members (result.item_id ∷ [])) g else g,
        )
  ]

  unfoldable pub add_buddy :
      Bytes → Bytes → Bytes → Bytes → FeedbagList → (Bool × Option FeedbagError) × FeedbagList
  unfolding with_text add_buddy_item
  add_buddy group_name screen_name alias note f =
      add_buddy_item group_name screen_name
        (with_text feedbag_attributes_note note (with_text feedbag_attributes_alias alias [])) f

  -- The end of MoveBuddy: the place in the destination's order.
  unfoldable pub place_before : ℕ → Bytes → Bytes → FeedbagList → FeedbagList
  unfolding buddy_item reorder_in_group_order
  place_before dst buddy_name [] f = f
  place_before dst buddy_name (c ∷ cs) f = elim (buddy_item to_lower dst buddy_name f) [
    | none ↦ f
    | some moved ↦ elim (buddy_item to_lower dst (c ∷ cs) f) [
      | none ↦ f
      | some before ↦ reorder_in_group_order dst (f.heap moved).item_id (f.heap before).item_id f
    ]
  ]

  -- The case of MoveBuddy where the groups differ, after the lookups.
  unfoldable pub reinsert :
      Bytes → Bytes → Bytes → List Tlv → FeedbagList → Option FeedbagError × FeedbagList
  unfolding delete_buddy add_buddy_item
  reinsert from_group to_group buddy_name attrs f =
      let (deleted, g) = delete_buddy to_lower from_group buddy_name f in
      elim deleted [
        | some e ↦ (some e, g)
        | none ↦ let ((inserted, e), h) = add_buddy_item to_group buddy_name attrs g in (e, h)
      ]

  unfoldable pub move_buddy :
      Bytes → Bytes → Bytes → Bytes → FeedbagList → Option FeedbagError × FeedbagList
  unfolding group_by_name buddy_item place_before reinsert bytes_eq
  move_buddy from_group to_group buddy_name before_buddy f = elim (group_by_name from_group f) [
    | none ↦ (some FeedbagError.group_not_found, f)
    | some src ↦ elim (buddy_item to_lower src buddy_name f) [
      | none ↦ (some FeedbagError.buddy_not_found, f)
      | some src_buddy ↦
          if bytes_eq to_group [] || bytes_eq to_group from_group
          then (none, place_before src buddy_name before_buddy f)
          else elim (group_by_name to_group f) [
            | none ↦ (some FeedbagError.group_not_found, f)
            | some dst ↦
                let (failed, g) =
                  reinsert from_group to_group buddy_name (f.heap src_buddy).tlv_list f in
                elim failed [
                  | some e ↦ (some e, g)
                  | none ↦ (none, place_before dst buddy_name before_buddy g)
                ]
          ]
    ]
  ]

  unfoldable pub permit_user : Bytes → FeedbagList → FeedbagList
  unfolding upsert_item
  permit_user screen_name f =
      (upsert_item to_lower rand_int (bare feedbag_class_id_permit screen_name) f).1

  unfoldable pub deny_user : Bytes → FeedbagList → FeedbagList
  unfolding upsert_item
  deny_user screen_name f =
      (upsert_item to_lower rand_int (bare feedbag_class_id_deny screen_name) f).1

  unfoldable pub add_linked_screen_name : Bytes → FeedbagList → FeedbagList
  unfolding upsert_item
  add_linked_screen_name screen_name f =
      (upsert_item to_lower rand_int (bare feedbag_class_id_al_info screen_name) f).1

  unfoldable pub set_mode : ℕ → FeedbagList → FeedbagList
  unfolding upsert_item set_value
  set_mode mode f =
      (upsert_item to_lower rand_int
        (set_value feedbag_attributes_pd_mode (uint 1) mode (bare feedbag_class_id_pdinfo [])) f).1

  -- The item's name is the BART type in decimal, as strconv.FormatUint writes it.
  unfoldable pub set_icon :
      (ℕ → Bytes) → ℕ → Bytes → FeedbagList → (FeedbagItem × Bool) × FeedbagList
  unfolding upsert_item set_value
  set_icon format_uint bart_type hash f =
      upsert_item to_lower rand_int
        (set_value feedbag_attributes_bart_info bart_info (bart_flags_custom, (hash, tt))
          (bare feedbag_class_id_bart (format_uint bart_type)))
        f
