-- ===== src/State/FeedbagList/Allocation/Deleting.antt =====
-- state/feedbag_list.go: the operations that rename, mark and delete keep a list's items allocated.
use retro_aim_server.Prelude.{
  ℕ, Bool, true, false, not, ◌&&◌, List, [], ◌∷◌, Bool-cases, Option-cases, inl, inr, map, ◌==◌,
  if◌then◌else◌,
}
use retro_aim_server.Prelude.Bytes.{Bytes, bytes_eq}
use retro_aim_server.Wire.Tlv.{uint16_slice}
use retro_aim_server.Wire.FeedbagItem.{FeedbagItem, feedbag_attributes_order, remove_order_members}
use retro_aim_server.State.FeedbagList.{
  FeedbagList, delete_item, feedbag_class_id_buddy, feedbag_class_id_group,
  feedbag_class_id_al_info,
}
use retro_aim_server.State.FeedbagList.Groups.{
  bare, is_root, is_found, group_by_name, reorder_in_group_order, rename_group, set_group_collapsed,
}
use retro_aim_server.State.FeedbagList.Buddies.{
  collect, buddy_items_by_name, delete_all, forget_member, delete_group, delete_buddy_in,
  delete_buddy_from, delete_buddy, delete_linked_screen_name,
}
use retro_aim_server.State.FeedbagList.Changes.{set_aliases, set_buddy_alias}
use retro_aim_server.State.FeedbagList.Allocation.{
  IsAllocated, track_update-IsAllocated, modify-IsAllocated, root_group-IsAllocated,
  delete_item-IsAllocated,
}

if_IsAllocated :
    {A : Type 0} (b : Bool) (x y : A × FeedbagList)
    → IsAllocated x.1
    → IsAllocated y.1
    → IsAllocated (if b then x else y).1
if_IsAllocated true x y h k = h
if_IsAllocated false x y h k = k

pub rename_group-IsAllocated :
    (old new : Bytes) (f : FeedbagList) → IsAllocated f → IsAllocated (rename_group old new f).1
unfolding rename_group
rename_group-IsAllocated old new f h = elim (Option-cases (group_by_name old f)) [
  | inl e ↦ rw (rename_group, e) h
  | inr (a, e) ↦
      rw (rename_group, e)
        (if_IsAllocated (not (bytes_eq new old) && is_found (group_by_name new f)) _ _ h (
          if_IsAllocated (bytes_eq (f.heap a).name new) _ _ h
            (modify-IsAllocated a (λ item. record item { name = new }) f h)))
]

pub set_group_collapsed-IsAllocated :
    (name : Bytes) (collapsed : Bool) (f : FeedbagList)
    → IsAllocated f
    → IsAllocated (set_group_collapsed name collapsed f).1
unfolding set_group_collapsed
set_group_collapsed-IsAllocated name collapsed f h = elim (Option-cases (group_by_name name f)) [
  | inl e ↦ rw (set_group_collapsed, e) h
  | inr (a, e) ↦ rw (set_group_collapsed, e) (search (modify-IsAllocated, h))
]

pub reorder-IsAllocated :
    (group id before_id : ℕ) (f : FeedbagList)
    → IsAllocated f
    → IsAllocated (reorder_in_group_order group id before_id f)
unfolding reorder_in_group_order
reorder-IsAllocated group id before_id f h =
    elim (Option-cases (uint16_slice feedbag_attributes_order (f.heap group).tlv_list)) [
      | inl e ↦ rw (reorder_in_group_order, e) h
      | inr (order, e) ↦ rw (reorder_in_group_order, e) (search (modify-IsAllocated, h))
    ]

module _ (to_lower : Bytes → Bytes) where
  pub forget_member-IsAllocated :
      (id : ℕ) (roots : List ℕ) (f : FeedbagList)
      → IsAllocated f
      → IsAllocated (forget_member to_lower id roots f)
  unfolding forget_member
  forget_member-IsAllocated id [] f h = h
  forget_member-IsAllocated id (a ∷ roots) f h =
      forget_member-IsAllocated id roots _
        (modify-IsAllocated a (remove_order_members (id ∷ [])) f h)

  pub delete_all-IsAllocated :
      (items : List FeedbagItem) (f : FeedbagList)
      → IsAllocated f
      → IsAllocated (delete_all to_lower items f)
  unfolding delete_all
  delete_all-IsAllocated [] f h = h
  delete_all-IsAllocated (item ∷ items) f h =
      delete_all-IsAllocated items (delete_item to_lower item f).1
        (delete_item-IsAllocated to_lower item f h)

  pub set_aliases-IsAllocated :
      (alias : Bytes) (buddies : List ℕ) (f : FeedbagList)
      → IsAllocated f
      → IsAllocated (set_aliases to_lower alias buddies f)
  unfolding set_aliases
  set_aliases-IsAllocated alias [] f h = h
  set_aliases-IsAllocated alias (buddy ∷ buddies) f h =
      set_aliases-IsAllocated alias buddies _ (search (modify-IsAllocated, h))

  pub delete_group-IsAllocated :
      (name : Bytes) (f : FeedbagList) → IsAllocated f → IsAllocated (delete_group to_lower name f)
  unfolding delete_group
  delete_group-IsAllocated name f h = elim (Option-cases (group_by_name name f)) [
    | inl e ↦ rw (delete_group, e) h
    | inr (group, e) ↦
        rw (delete_group, e)
          (forgotten (collect (λ item. item.group_id == (f.heap group).group_id) f)
            ((f.heap group).group_id == 0) _ _
            (forget_member-IsAllocated (f.heap group).group_id
              (collect is_root (
                delete_all to_lower
                  (map f.heap (collect (λ item. item.group_id == (f.heap group).group_id) f)) f))
              _ (deleted group))
            (deleted group))
  ]
    where
      deleted :
          (group : ℕ)
          → IsAllocated (
              delete_all to_lower
                (map f.heap (collect (λ item. item.group_id == (f.heap group).group_id) f))
                f)
      deleted group =
          delete_all-IsAllocated
            (map f.heap (collect (λ item. item.group_id == (f.heap group).group_id) f)) f h

      forgotten :
          (l : List ℕ) (b : Bool) (x y : FeedbagList)
          → IsAllocated x
          → IsAllocated y
          → IsAllocated (elim l as (λ x. FeedbagList) [ [] ↦ y | a ∷ rest ↦ if b then y else x ])
      forgotten [] b x y hx hy = hy
      forgotten (a ∷ rest) true x y hx hy = hy
      forgotten (a ∷ rest) false x y hx hy = hx

  pub delete_buddy_in-IsAllocated :
      (group : ℕ) (name : Bytes) (f : FeedbagList)
      → IsAllocated f
      → IsAllocated (delete_buddy_in to_lower group name f)
  unfolding delete_buddy_in
  delete_buddy_in-IsAllocated group name f h =
      let key : FeedbagItem = record (bare feedbag_class_id_buddy name) {
        group_id = (f.heap group).group_id;
      } in
      let kept = delete_item-IsAllocated to_lower key f h in
      elim (Option-cases (delete_item to_lower key f).0) [
        | inl e ↦ rw (delete_buddy_in, e) kept
        | inr (d, e) ↦
            rw (delete_buddy_in, e)
              (modify-IsAllocated group (remove_order_members (d.item_id ∷ []))
                (delete_item to_lower key f).1 kept)
      ]

  pub delete_buddy_from-IsAllocated :
      (groups : List ℕ) (name : Bytes) (f : FeedbagList)
      → IsAllocated f
      → IsAllocated (delete_buddy_from to_lower groups name f)
  unfolding delete_buddy_from
  delete_buddy_from-IsAllocated [] name f h = h
  delete_buddy_from-IsAllocated (group ∷ groups) name f h =
      delete_buddy_from-IsAllocated groups name _ (delete_buddy_in-IsAllocated group name f h)

  pub delete_buddy-IsAllocated :
      (group_name name : Bytes) (f : FeedbagList)
      → IsAllocated f
      → IsAllocated (delete_buddy to_lower group_name name f).1
  unfolding delete_buddy
  delete_buddy-IsAllocated group_name name f h = elim (Bool-cases (bytes_eq group_name (42 ∷ []))) [
    | inl b ↦
        rw (delete_buddy, b)
          (delete_buddy_from-IsAllocated
            (collect (λ item. (item.class_id == feedbag_class_id_group) && not (item.group_id == 0))
              f)
            name f h)
    | inr b ↦ elim (Option-cases (group_by_name group_name f)) [
      | inl e ↦ rw (delete_buddy, b, e) h
      | inr (group, e) ↦
          rw (delete_buddy, b, e) (delete_buddy_from-IsAllocated (group ∷ []) name f h)
    ]
  ]

  pub set_buddy_alias-IsAllocated :
      (name alias : Bytes) (f : FeedbagList)
      → IsAllocated f
      → IsAllocated (set_buddy_alias to_lower name alias f).1
  unfolding set_buddy_alias
  set_buddy_alias-IsAllocated name alias f h = over (buddy_items_by_name to_lower name f)
    where
      over :
          (l : List ℕ)
          → IsAllocated
              (elim l as (λ x. Bool × FeedbagList) [
                | [] ↦ (false, f)
                | a ∷ buddies ↦ (true, set_aliases to_lower alias (a ∷ buddies) f)
              ]).1
      over [] = h
      over (a ∷ buddies) = set_aliases-IsAllocated alias (a ∷ buddies) f h

  pub delete_linked-IsAllocated :
      (name : Bytes) (f : FeedbagList)
      → IsAllocated f
      → IsAllocated (delete_linked_screen_name to_lower name f)
  unfolding delete_linked_screen_name
  delete_linked-IsAllocated name f h =
      let key = bare feedbag_class_id_al_info name in
      let kept = delete_item-IsAllocated to_lower key f h in
      elim (Option-cases (delete_item to_lower key f).0) [
        | inl e ↦ rw (delete_linked_screen_name, e) kept
        | inr (d, e) ↦
            rw (delete_linked_screen_name, e)
              (track_update-IsAllocated _ _ (root_group-IsAllocated _ kept))
      ]
