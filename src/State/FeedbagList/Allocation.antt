-- ===== src/State/FeedbagList/Allocation.antt =====
-- state/feedbag_list.go: every operation of FeedbagList keeps its items allocated.
pub mod Deleting
pub mod Inserting
use retro_aim_server.Prelude.{
  ℕ, suc, ◌<◌, ◌≡◌, refl, inl, inr, Bool, true, false, Option, none, some, List, [], ◌∷◌, ◌++◌, All,
  All-append, Bool-cases, Option-cases, arith, keep, map,
}
use retro_aim_server.Prelude.Bytes.{Bytes}
use retro_aim_server.Wire.FeedbagItem.{FeedbagItem, is_equal}
use retro_aim_server.State.FeedbagList.{
  FeedbagList, store, add_item, track_update, find_item, gen_id, delete_item, update_at,
  insert_item, upsert_item, items_match, normalized, feedbag_class_id_group,
}
use retro_aim_server.State.FeedbagList.Groups.{
  bare, modify, allocate, new_feedbag_list, is_root, root_group, group_by_name,
  reorder_in_group_order,
}
use retro_aim_server.State.FeedbagList.Storing.{tracked_items, tracked_next}
use retro_aim_server.State.FeedbagList.Deletion.{delete_item-first}

unfoldable pub IsAllocated : FeedbagList → Type 0
IsAllocated f = All (λ a. a < f.next) f.items

All-suc : (n : ℕ) (l : List ℕ) → All (λ a. a < n) l → All (λ a. a < suc n) l
All-suc n [] h = tt
All-suc n (a ∷ l) (h, hs) = (omega arith, All-suc n l hs)

All-drop :
    (n a : ℕ) (before after : List ℕ)
    → All (λ b. b < n) (before ++ a ∷ after)
    → All (λ b. b < n) (before ++ after)
All-drop n a [] after (h, hs) = hs
All-drop n a (b ∷ before) after (h, hs) = (h, All-drop n a before after hs)

pub track_update-IsAllocated :
    (a : ℕ) (f : FeedbagList) → IsAllocated f → IsAllocated (track_update a f)
unfolding IsAllocated
track_update-IsAllocated a f h = rw (tracked_items a f, tracked_next a f) h

pub add_item-IsAllocated :
    (item : FeedbagItem) (f : FeedbagList) → IsAllocated f → IsAllocated (add_item item f)
unfolding add_item IsAllocated
add_item-IsAllocated item f h =
    All-append (λ a. a < suc f.next) f.items (f.next ∷ []) (All-suc f.next f.items h)
      (omega arith, tt)

pub modify-IsAllocated :
    (a : ℕ) (change : FeedbagItem → FeedbagItem) (f : FeedbagList)
    → IsAllocated f
    → IsAllocated (modify a change f)
unfolding modify store IsAllocated
modify-IsAllocated a change f h = track_update-IsAllocated a (store a (change (f.heap a)) f) h

pub root_group-IsAllocated : (f : FeedbagList) → IsAllocated f → IsAllocated (root_group f).1
unfolding root_group IsAllocated
root_group-IsAllocated f h = elim (Option-cases (find_item is_root f)) [
  | inl e ↦
      rw (root_group, e)
        (track_update-IsAllocated f.next (add_item (bare feedbag_class_id_group []) f)
          (add_item-IsAllocated (bare feedbag_class_id_group []) f h))
  | inr (a, e) ↦ rw (root_group, e) h
]

update_at-IsAllocated :
    (a : ℕ) (item : FeedbagItem) (f : FeedbagList)
    → IsAllocated f
    → IsAllocated (update_at a item f)
unfolding update_at store IsAllocated
update_at-IsAllocated a item f h = elim (Bool-cases (is_equal (f.heap a) item)) [
  | inl e ↦ rw (update_at, e) h
  | inr e ↦ rw (update_at, e) (track_update-IsAllocated a _ h)
]

allocate-IsAllocated :
    (items : List FeedbagItem) (f : FeedbagList) → IsAllocated f → IsAllocated (allocate items f)
unfolding allocate IsAllocated
allocate-IsAllocated [] f h = h
allocate-IsAllocated (item ∷ items) f h =
    allocate-IsAllocated items (add_item item f) (add_item-IsAllocated item f h)

pub new_feedbag_list-IsAllocated : (items : List FeedbagItem) → IsAllocated (new_feedbag_list items)
unfolding new_feedbag_list IsAllocated
new_feedbag_list-IsAllocated items = allocate-IsAllocated items _ tt

pub gen_id-IsAllocated :
    (rand_int : ℕ → ℕ → ℕ) (f : FeedbagList) → IsAllocated f → IsAllocated (gen_id rand_int f).1
unfolding IsAllocated gen_id
gen_id-IsAllocated rand_int f h = h

module _ (to_lower : Bytes → Bytes) where
  pub delete_item-IsAllocated :
      (item : FeedbagItem) (f : FeedbagList)
      → IsAllocated f
      → IsAllocated (delete_item to_lower item f).1
  unfolding IsAllocated
  delete_item-IsAllocated item f h = elim (delete_item-first to_lower item f) [
    | inl (e, misses) ↦ rw e h
    | inr (before, a, after, parts, hit, misses, e) ↦
        rw e (All-drop f.next a before after (rw parts at h))
  ]

  module _ (rand_int : ℕ → ℕ → ℕ) where
    insert_item-IsAllocated :
        (item : FeedbagItem) (f : FeedbagList)
        → IsAllocated f
        → IsAllocated (insert_item rand_int item f).1
    unfolding insert_item gen_id IsAllocated
    insert_item-IsAllocated item f h =
        add_item-IsAllocated (record item { item_id = (gen_id rand_int f).0 }) (gen_id rand_int f).1
          h

    pub upsert_item-IsAllocated :
        (item : FeedbagItem) (f : FeedbagList)
        → IsAllocated f
        → IsAllocated (upsert_item to_lower rand_int item f).1
    unfolding upsert_item IsAllocated
    upsert_item-IsAllocated item f h =
        let key = normalized to_lower item in
        elim (Option-cases (find_item (λ existing. items_match to_lower existing key) f)) [
          | inl e ↦ rw (upsert_item, e) (insert_item-IsAllocated key f h)
          | inr (a, e) ↦ rw (upsert_item, e) (update_at-IsAllocated a key f h)
        ]
