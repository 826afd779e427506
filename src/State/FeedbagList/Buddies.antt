-- ===== src/State/FeedbagList/Buddies.antt =====
-- state/feedbag_list.go: the operations that insert and delete items: groups, buddies, permit and
-- deny entries, linked screen names, the icon and the permit mode.
use retro_aim_server.Prelude.{
  ℕ, Bool, not, ◌&&◌, Option, none, some, List, [], ◌∷◌, map, keep, any, if◌then◌else◌, ◌==◌,
}
use retro_aim_server.Prelude.Bytes.{Bytes, bytes_eq}
use retro_aim_server.Wire.FeedbagItem.{FeedbagItem, remove_order_members}
use retro_aim_server.State.FeedbagList.{
  FeedbagList, contents, track_update, find_item, new_ident_screen_name, delete_item,
  feedbag_class_id_buddy, feedbag_class_id_group, feedbag_class_id_permit, feedbag_class_id_deny,
  feedbag_class_id_al_info,
}
use retro_aim_server.State.FeedbagList.Groups.{
  FeedbagError, bare, modify, is_root, group_by_name, root_group,
}

-- The addresses of the items for which the test holds, in order: the loops that collect.
abbrev pub collect : (FeedbagItem → Bool) → FeedbagList → List ℕ
collect p f = keep (λ a. p (f.heap a)) f.items

module _ (to_lower : Bytes → Bytes) where
  unfoldable pub is_buddy_in : ℕ → Bytes → FeedbagItem → Bool
  unfolding new_ident_screen_name bytes_eq
  is_buddy_in group_id buddy_name item =
      (item.class_id == feedbag_class_id_buddy)
      && (item.group_id == group_id)
      && bytes_eq (new_ident_screen_name to_lower item.name)
          (new_ident_screen_name to_lower buddy_name)

  unfoldable pub buddy_item : ℕ → Bytes → FeedbagList → Option ℕ
  unfolding find_item is_buddy_in
  buddy_item group buddy_name f = find_item (is_buddy_in (f.heap group).group_id buddy_name) f

  unfoldable pub buddy_items_by_name : Bytes → FeedbagList → List ℕ
  unfolding new_ident_screen_name bytes_eq
  buddy_items_by_name buddy_name f =
      collect
        (λ item.
          (item.class_id == feedbag_class_id_buddy)
          && bytes_eq (new_ident_screen_name to_lower item.name)
              (new_ident_screen_name to_lower buddy_name))
        f

  unfoldable pub delete_all : List FeedbagItem → FeedbagList → FeedbagList
  unfolding delete_item
  delete_all [] f = f
  delete_all (item ∷ items) f = delete_all items (delete_item to_lower item f).1

  -- The last loop of DeleteGroup, over the roots.
  unfoldable pub forget_member : ℕ → List ℕ → FeedbagList → FeedbagList
  unfolding modify remove_order_members
  forget_member id [] f = f
  forget_member id (a ∷ roots) f =
      forget_member id roots (modify a (remove_order_members (id ∷ [])) f)

  -- `deleteItem(*item)` reads each collected item as it then is; deleting changes no item.
  unfoldable pub delete_group : Bytes → FeedbagList → FeedbagList
  unfolding group_by_name delete_all forget_member is_root
  delete_group group_name f = elim (group_by_name group_name f) [
    | none ↦ f
    | some group ↦
        let id = (f.heap group).group_id in
        let to_delete = collect (λ item. item.group_id == id) f in
        let g = delete_all (map f.heap to_delete) f in
        elim to_delete [
          | [] ↦ g
          | a ∷ rest ↦ if id == 0 then g else forget_member id (collect is_root g) g
        ]
  ]

  unfoldable pub delete_buddy_in : ℕ → Bytes → FeedbagList → FeedbagList
  unfolding delete_item modify remove_order_members
  delete_buddy_in group buddy_name f =
      let key : FeedbagItem = record (bare feedbag_class_id_buddy buddy_name) {
        group_id = (f.heap group).group_id;
      } in
      let (found, g) = delete_item to_lower key f in
      elim found [
        | none ↦ g
        | some deleted ↦ modify group (remove_order_members (deleted.item_id ∷ [])) g
      ]

  unfoldable pub delete_buddy_from : List ℕ → Bytes → FeedbagList → FeedbagList
  unfolding delete_buddy_in
  delete_buddy_from [] buddy_name f = f
  delete_buddy_from (group ∷ groups) buddy_name f =
      delete_buddy_from groups buddy_name (delete_buddy_in group buddy_name f)

  -- The name "*" stands for all groups.
  unfoldable pub delete_buddy : Bytes → Bytes → FeedbagList → Option FeedbagError × FeedbagList
  unfolding delete_buddy_from group_by_name bytes_eq
  delete_buddy group_name buddy_name f =
      if bytes_eq group_name (42 ∷ [])
      then (
        none,
        delete_buddy_from
            (collect (λ item. (item.class_id == feedbag_class_id_group) && not (item.group_id == 0))
              f)
            buddy_name f,
      )
      else elim (group_by_name group_name f) [
        | none ↦ (some FeedbagError.group_not_found, f)
        | some group ↦ (none, delete_buddy_from (group ∷ []) buddy_name f)
      ]

  unfoldable pub delete_permit : Bytes → FeedbagList → FeedbagList
  unfolding delete_item
  delete_permit screen_name f =
      (delete_item to_lower (bare feedbag_class_id_permit screen_name) f).1

  unfoldable pub delete_deny : Bytes → FeedbagList → FeedbagList
  unfolding delete_item
  delete_deny screen_name f = (delete_item to_lower (bare feedbag_class_id_deny screen_name) f).1

  unfoldable pub delete_linked_screen_name : Bytes → FeedbagList → FeedbagList
  unfolding delete_item root_group track_update
  delete_linked_screen_name screen_name f =
      let (found, g) = delete_item to_lower (bare feedbag_class_id_al_info screen_name) f in
      elim found [ none ↦ g | some deleted ↦ let (root, h) = root_group g in track_update root h ]

  unfoldable pub linked_screen_names : FeedbagList → List Bytes
  unfolding new_ident_screen_name
  linked_screen_names f =
      map (λ a. new_ident_screen_name to_lower (f.heap a).name)
        (collect (λ item. item.class_id == feedbag_class_id_al_info) f)

  unfoldable pub has_linked_screen_name : Bytes → FeedbagList → Bool
  unfolding new_ident_screen_name bytes_eq
  has_linked_screen_name screen_name f =
      any
        (λ item.
          (item.class_id == feedbag_class_id_al_info)
          && bytes_eq item.name (new_ident_screen_name to_lower screen_name))
        (contents f)
