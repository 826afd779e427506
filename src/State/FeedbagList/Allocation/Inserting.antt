-- ===== src/State/FeedbagList/Allocation/Inserting.antt =====
-- state/feedbag_list.go: the operations that insert or move keep a list's items allocated.
use retro_aim_server.Prelude.{
  ℕ, Bool, true, false, ◌||◌, Option, none, some, List, [], ◌∷◌, Bool-cases, Option-cases, inl, inr,
  if◌then◌else◌,
}
use retro_aim_server.Prelude.Bytes.{Bytes, bytes_eq}
use retro_aim_server.Wire.Tlv.{Tlv}
use retro_aim_server.Wire.FeedbagItem.{FeedbagItem, append_order_members}
use retro_aim_server.State.FeedbagList.{
  FeedbagList, gen_id, add_item, upsert_item, feedbag_class_id_buddy, feedbag_class_id_group,
}
use retro_aim_server.State.FeedbagList.Groups.{
  FeedbagError, bare, modify, group_by_name, root_group,
}
use retro_aim_server.State.FeedbagList.Buddies.{buddy_item, delete_buddy}
use retro_aim_server.State.FeedbagList.Changes.{
  add_group, add_buddy_item, place_before, reinsert, move_buddy,
}
use retro_aim_server.State.FeedbagList.Allocation.{
  IsAllocated, gen_id-IsAllocated, track_update-IsAllocated, add_item-IsAllocated,
  modify-IsAllocated, root_group-IsAllocated, upsert_item-IsAllocated,
}
use retro_aim_server.State.FeedbagList.Allocation.Deleting.{
  reorder-IsAllocated, delete_buddy-IsAllocated,
}

module _ (to_lower : Bytes → Bytes) (rand_int : ℕ → ℕ → ℕ) where
  pub add_group-IsAllocated :
      (name : Bytes) (f : FeedbagList)
      → IsAllocated f
      → IsAllocated (add_group to_lower rand_int name f).1
  unfolding add_group
  add_group-IsAllocated name f h =
      let g = (gen_id rand_int f).1 in
      let item : FeedbagItem = record (bare feedbag_class_id_group name) {
        group_id = (gen_id rand_int f).0;
      } in
      let added = add_item-IsAllocated item g (gen_id-IsAllocated rand_int f h) in
      elim (Option-cases (group_by_name name f)) [
        | inr (group, e) ↦ rw (add_group, e) h
        | inl e ↦
            rw (add_group, e)
              (track_update-IsAllocated g.next _ (
                modify-IsAllocated (root_group (add_item item g)).0
                  (append_order_members ((gen_id rand_int f).0 ∷ []))
                  (root_group (add_item item g)).1
                  (root_group-IsAllocated (add_item item g) added)))
      ]

  pub add_buddy_item-IsAllocated :
      (group_name name : Bytes) (attrs : List Tlv) (f : FeedbagList)
      → IsAllocated f
      → IsAllocated (add_buddy_item to_lower rand_int group_name name attrs f).1
  unfolding add_buddy_item
  add_buddy_item-IsAllocated group_name name attrs f h =
      elim (Option-cases (group_by_name group_name f)) [
        | inl e ↦ rw (add_buddy_item, e) h
        | inr (group, e) ↦
            let item : FeedbagItem = record (bare feedbag_class_id_buddy name) {
              group_id = (f.heap group).group_id;
              tlv_list = attrs;
            } in
            let r = upsert_item to_lower rand_int item f in
            let kept = upsert_item-IsAllocated to_lower rand_int item f h in
            rw (add_buddy_item, e)
              (inserted r.0.1 group (append_order_members (r.0.0.item_id ∷ [])) r.1 kept)
      ]
    where
      inserted :
          (b : Bool) (group : ℕ) (change : FeedbagItem → FeedbagItem) (g : FeedbagList)
          → IsAllocated g
          → IsAllocated (if b then modify group change g else g)
      inserted true group change g k = modify-IsAllocated group change g k
      inserted false group change g k = k

  pub place_before-IsAllocated :
      (dst : ℕ) (name before : Bytes) (f : FeedbagList)
      → IsAllocated f
      → IsAllocated (place_before to_lower rand_int dst name before f)
  unfolding place_before
  place_before-IsAllocated dst name [] f h = h
  place_before-IsAllocated dst name (c ∷ cs) f h =
      elim (Option-cases (buddy_item to_lower dst name f)) [
        | inl e ↦ rw (place_before, e) h
        | inr (moved, e) ↦ elim (Option-cases (buddy_item to_lower dst (c ∷ cs) f)) [
          | inl d ↦ rw (place_before, e, d) h
          | inr (before, d) ↦
              rw (place_before, e, d)
                (reorder-IsAllocated dst (f.heap moved).item_id (f.heap before).item_id f h)
        ]
      ]

  pub reinsert-IsAllocated :
      (from_group to_group name : Bytes) (attrs : List Tlv) (f : FeedbagList)
      → IsAllocated f
      → IsAllocated (reinsert to_lower rand_int from_group to_group name attrs f).1
  unfolding reinsert
  reinsert-IsAllocated from_group to_group name attrs f h =
      let kept = delete_buddy-IsAllocated to_lower from_group name f h in
      elim (Option-cases (delete_buddy to_lower from_group name f).0) [
        | inl e ↦
            rw (reinsert, e)
              (add_buddy_item-IsAllocated to_group name attrs
                (delete_buddy to_lower from_group name f).1 kept)
        | inr (err, e) ↦ rw (reinsert, e) kept
      ]

  moved_between :
      (from_group to_group name before : Bytes) (dst src_buddy : ℕ) (f : FeedbagList)
      → IsAllocated f
      → IsAllocated
          (let (failed, g) =
              reinsert to_lower rand_int from_group to_group name (f.heap src_buddy).tlv_list f in
            elim failed as (λ x. Option FeedbagError × FeedbagList) [
              | some e ↦ (some e, g)
              | none ↦ (none, place_before to_lower rand_int dst name before g)
            ]).1
  moved_between from_group to_group name before dst src_buddy f h =
      let attrs = (f.heap src_buddy).tlv_list in
      let kept = reinsert-IsAllocated from_group to_group name attrs f h in
      elim (Option-cases (reinsert to_lower rand_int from_group to_group name attrs f).0) [
        | inl e ↦ rw e (
            place_before-IsAllocated dst name before
              (reinsert to_lower rand_int from_group to_group name attrs f).1 kept)
        | inr (err, e) ↦ rw e kept
      ]

  pub move_buddy-IsAllocated :
      (from_group to_group name before : Bytes) (f : FeedbagList)
      → IsAllocated f
      → IsAllocated (move_buddy to_lower rand_int from_group to_group name before f).1
  unfolding move_buddy
  move_buddy-IsAllocated from_group to_group name before f h =
      elim (Option-cases (group_by_name from_group f)) [
        | inl e ↦ rw (move_buddy, e) h
        | inr (src, e) ↦ elim (Option-cases (buddy_item to_lower src name f)) [
          | inl d ↦ rw (move_buddy, e, d) h
          | inr (src_buddy, d) ↦
              elim (Bool-cases (bytes_eq to_group [] || bytes_eq to_group from_group)) [
                | inl b ↦ rw (move_buddy, e, d, b) (place_before-IsAllocated src name before f h)
                | inr b ↦ elim (Option-cases (group_by_name to_group f)) [
                  | inl c ↦ rw (move_buddy, e, d, b, c) h
                  | inr (dst, c) ↦
                      rw (move_buddy, e, d, b, c)
                        (moved_between from_group to_group name before dst src_buddy f h)
                ]
              ]
        ]
      ]
