-- ===== src/State/FeedbagList/Edits.antt =====
-- The operations of state/feedbag_list.go in sequence: a list stays allocated whatever is done to it.
use retro_aim_server.Prelude.{ℕ, Bool, List}
use retro_aim_server.Prelude.Bytes.{Bytes}
use retro_aim_server.Wire.FeedbagItem.{FeedbagItem}
use retro_aim_server.State.FeedbagList.{
  FeedbagList, delete_item, upsert_item, normalized, items_match,
}
use retro_aim_server.State.FeedbagList.Groups.{
  new_feedbag_list, rename_group, set_group_collapsed, take_pending_updates, take_pending_deletes,
}
use retro_aim_server.State.FeedbagList.Buddies.{
  delete_group, delete_buddy, delete_linked_screen_name,
}
use retro_aim_server.State.FeedbagList.Changes.{set_buddy_alias, add_group, add_buddy, move_buddy}
use retro_aim_server.State.FeedbagList.Storing.{Stores, upsert_item-Stores}
use retro_aim_server.State.FeedbagList.Allocation.{
  IsAllocated, new_feedbag_list-IsAllocated, delete_item-IsAllocated, upsert_item-IsAllocated,
}
use retro_aim_server.State.FeedbagList.Allocation.Deleting.{
  rename_group-IsAllocated, set_group_collapsed-IsAllocated, delete_group-IsAllocated,
  delete_buddy-IsAllocated, set_buddy_alias-IsAllocated, delete_linked-IsAllocated,
}
use retro_aim_server.State.FeedbagList.Allocation.Inserting.{
  add_group-IsAllocated, add_buddy_item-IsAllocated, move_buddy-IsAllocated,
}

-- One call of an operation that can change the list. The permit and deny entries, the linked names,
-- the icon and the mode are upserted and deleted items.
pub data Edit (to_lower : Bytes → Bytes) (rand_int : ℕ → ℕ → ℕ) (f : FeedbagList)
    : FeedbagList → Type 0 where
  adds_group : (name : Bytes) → Edit to_lower rand_int f (add_group to_lower rand_int name f).1
  deletes_group : (name : Bytes) → Edit to_lower rand_int f (delete_group to_lower name f)
  renames_group : (old new : Bytes) → Edit to_lower rand_int f (rename_group old new f).1
  collapses_group :
      (name : Bytes) (collapsed : Bool)
      → Edit to_lower rand_int f (set_group_collapsed name collapsed f).1
  adds_buddy :
      (group name alias note : Bytes)
      → Edit to_lower rand_int f (add_buddy to_lower rand_int group name alias note f).1
  deletes_buddy :
      (group name : Bytes) → Edit to_lower rand_int f (delete_buddy to_lower group name f).1
  moves_buddy :
      (from_group to_group name before : Bytes)
      → Edit to_lower rand_int f (move_buddy to_lower rand_int from_group to_group name before f).1
  sets_alias :
      (name alias : Bytes) → Edit to_lower rand_int f (set_buddy_alias to_lower name alias f).1
  upserts : (item : FeedbagItem) → Edit to_lower rand_int f (upsert_item to_lower rand_int item f).1
  deletes_item : (item : FeedbagItem) → Edit to_lower rand_int f (delete_item to_lower item f).1
  deletes_linked :
      (name : Bytes) → Edit to_lower rand_int f (delete_linked_screen_name to_lower name f)
  takes_updates : Edit to_lower rand_int f (take_pending_updates f).1
  takes_deletes : Edit to_lower rand_int f (take_pending_deletes f).1

pub data Edited (to_lower : Bytes → Bytes) (rand_int : ℕ → ℕ → ℕ) (f : FeedbagList)
    : FeedbagList → Type 0 where
  here : Edited to_lower rand_int f f
  next :
      {g h : FeedbagList}
      → Edited to_lower rand_int f g
      → Edit to_lower rand_int g h
      → Edited to_lower rand_int f h

module _ (to_lower : Bytes → Bytes) (rand_int : ℕ → ℕ → ℕ) where
  Edit-IsAllocated :
      {f g : FeedbagList} → Edit to_lower rand_int f g → IsAllocated f → IsAllocated g
  unfolding add_buddy take_pending_updates take_pending_deletes IsAllocated
  Edit-IsAllocated {f} (adds_group name) h = add_group-IsAllocated to_lower rand_int name f h
  Edit-IsAllocated {f} (deletes_group name) h = delete_group-IsAllocated to_lower name f h
  Edit-IsAllocated {f} (renames_group old new) h = rename_group-IsAllocated old new f h
  Edit-IsAllocated {f} (collapses_group name c) h = set_group_collapsed-IsAllocated name c f h
  Edit-IsAllocated {f} (adds_buddy group name alias note) h =
      add_buddy_item-IsAllocated to_lower rand_int group name _ f h
  Edit-IsAllocated {f} (deletes_buddy group name) h =
      delete_buddy-IsAllocated to_lower group name f h
  Edit-IsAllocated {f} (moves_buddy a b name before) h =
      move_buddy-IsAllocated to_lower rand_int a b name before f h
  Edit-IsAllocated {f} (sets_alias name alias) h =
      set_buddy_alias-IsAllocated to_lower name alias f h
  Edit-IsAllocated {f} (upserts item) h = upsert_item-IsAllocated to_lower rand_int item f h
  Edit-IsAllocated {f} (deletes_item item) h = delete_item-IsAllocated to_lower item f h
  Edit-IsAllocated {f} (deletes_linked name) h = delete_linked-IsAllocated to_lower name f h
  Edit-IsAllocated {f} takes_updates h = h
  Edit-IsAllocated {f} takes_deletes h = h

  Edited-IsAllocated :
      {f g : FeedbagList} → Edited to_lower rand_int f g → IsAllocated f → IsAllocated g
  Edited-IsAllocated here h = h
  Edited-IsAllocated (next r e) h = Edit-IsAllocated e (Edited-IsAllocated r h)

  -- Whatever operations have been called on a new list, upsertItem stores the item, its name
  -- normalised: see `Stores`.
  pub upsert_item-Edited :
      (items : List FeedbagItem) (item : FeedbagItem) (f : FeedbagList)
      → Edited to_lower rand_int (new_feedbag_list items) f
      → Stores
          (λ existing. items_match to_lower existing (normalized to_lower item))
          (normalized to_lower item)
          f
          (upsert_item to_lower rand_int item f)
  unfolding IsAllocated
  upsert_item-Edited items item f edited =
      upsert_item-Stores to_lower rand_int item f
        (Edited-IsAllocated edited (new_feedbag_list-IsAllocated items))
