-- ===== src/State/FeedbagList.antt =====
-- state/feedbag_list.go: the store of FeedbagList and the operations that the others are made of.
-- Items are behind pointers that three lists share: a pointer is an address of `heap`, whose cells
-- from `next` on are unused. Item ids and group ids are uint16. The functions that the code takes
-- from outside are parameters: `rand_int`, whose results are indexed by the number of the call, and
-- `to_lower`, strings.ToLower.
pub mod Groups
pub mod Buddies
pub mod Changes
pub mod Ids
pub mod Deletion
pub mod Upsert
pub mod Storing
pub mod Placing
pub mod Allocation
pub mod Edits
use retro_aim_server.Prelude.{
  ℕ, zero, suc, ◌+◌, ◌%◌, Bool, true, false, not, ◌&&◌, ◌||◌, Option, none, some, List, [], ◌∷◌,
  ◌++◌, map, keep, any, if◌then◌else◌, ◌==◌,
}
use retro_aim_server.Prelude.Bytes.{Bytes, bytes_eq}
use retro_aim_server.Wire.FeedbagItem.{FeedbagItem, is_equal}

pub record FeedbagList : Type 0 where
  pub heap : ℕ → FeedbagItem
  pub next : ℕ
  pub items : List ℕ
  pub pending_updates : List ℕ
  pub pending_deletes : List ℕ
  pub calls : ℕ

-- `ClassID` values of wire/snacs.go.
abbrev pub feedbag_class_id_buddy : ℕ
feedbag_class_id_buddy = 0x0000

abbrev pub feedbag_class_id_group : ℕ
feedbag_class_id_group = 0x0001

abbrev pub feedbag_class_id_permit : ℕ
feedbag_class_id_permit = 0x0002

abbrev pub feedbag_class_id_deny : ℕ
feedbag_class_id_deny = 0x0003

abbrev pub feedbag_class_id_pdinfo : ℕ
feedbag_class_id_pdinfo = 0x0004

abbrev pub feedbag_class_id_bart : ℕ
feedbag_class_id_bart = 0x0014

abbrev pub feedbag_class_id_al_info : ℕ
feedbag_class_id_al_info = 0x0018

abbrev pub feedbag_class_id_min : ℕ
feedbag_class_id_min = 0x0400

unfoldable pub write : ℕ → FeedbagItem → (ℕ → FeedbagItem) → ℕ → FeedbagItem
write a item heap b = if b == a then item else heap b

-- `*p = item` for the address `a` of `p`.
unfoldable pub store : ℕ → FeedbagItem → FeedbagList → FeedbagList
unfolding write
store a item f = record f { heap = write a item f.heap }

-- `f.items = append(f.items, &item)`: the new address is the old `next`.
unfoldable pub add_item : FeedbagItem → FeedbagList → FeedbagList
unfolding write
add_item item f = record f {
  heap = write f.next item f.heap;
  next = suc f.next;
  items = f.items ++ f.next ∷ [];
}

abbrev pub contents : FeedbagList → List FeedbagItem
contents f = map f.heap f.items

unfoldable pub has_screen_name : ℕ → Bool
has_screen_name class_id =
    class_id == feedbag_class_id_buddy
    || class_id == feedbag_class_id_permit
    || class_id == feedbag_class_id_al_info
    || class_id == feedbag_class_id_deny

-- `slices.Contains`, on pointers.
unfoldable pub contains : ℕ → List ℕ → Bool
contains a l = any (λ b. b == a) l

unfoldable pub track_update : ℕ → FeedbagList → FeedbagList
unfolding contains
track_update a f =
    if contains a f.pending_updates
    then f
    else record f { pending_updates = f.pending_updates ++ a ∷ [] }

-- The first item for which the test holds: the loops that end in `return` or `break`.
unfoldable pub find : (FeedbagItem → Bool) → (ℕ → FeedbagItem) → List ℕ → Option ℕ
find p heap [] = none
find p heap (a ∷ l) = elim (p (heap a)) [ true ↦ some a | false ↦ find p heap l ]

unfoldable pub find_item : (FeedbagItem → Bool) → FeedbagList → Option ℕ
unfolding find
find_item p f = find p f.heap f.items

-- `append(f.items[:i], f.items[i+1:]...)` for the first index that holds the address.
unfoldable pub without : ℕ → List ℕ → List ℕ
without a [] = []
without a (b ∷ bs) = let rest = without a bs in if b == a then bs else b ∷ rest

unfoldable pub is_taken : FeedbagList → ℕ → Bool
is_taken f id = any (λ item. item.group_id == id || item.item_id == id) (contents f)

-- The loop of genID on fuel, from `id` on; the increment wraps at 2 ^ 16.
unfoldable pub gen_id_from : FeedbagList → ℕ → ℕ → ℕ
unfolding is_taken
gen_id_from f zero id = 0
gen_id_from f (suc fuel) id = elim (id == 0 || is_taken f id) [
  | true ↦ gen_id_from f fuel ((id + 1) % 65536)
  | false ↦ id
]

module _ (rand_int : ℕ → ℕ → ℕ) where
  -- From `num` to `num - 1` excluded there are 65535 rounds.
  unfoldable pub gen_id : FeedbagList → ℕ × FeedbagList
  gen_id f =
      (gen_id_from f 65535 (rand_int f.calls 65535 % 65536), record f { calls = suc f.calls })

  -- The case of no match. The result is the stored item and whether it was inserted.
  unfoldable pub insert_item : FeedbagItem → FeedbagList → (FeedbagItem × Bool) × FeedbagList
  unfolding gen_id add_item
  insert_item item f =
      let (id, g) = gen_id f in
      let new = record item { item_id = id } in
      ((new, true), record (add_item new g) { pending_updates = g.pending_updates ++ g.next ∷ [] })

-- The case of a match: the item is replaced in place unless it is equal already.
unfoldable pub update_at : ℕ → FeedbagItem → FeedbagList → FeedbagList
unfolding is_equal store track_update
update_at a item f =
    let existing = f.heap a in
    if is_equal existing item
    then f
    else track_update a
        (store a (record item { item_id = existing.item_id; group_id = existing.group_id }) f)

module _ (to_lower : Bytes → Bytes) where
  -- NewIdentScreenName of state/user.go.
  unfoldable pub new_ident_screen_name : Bytes → Bytes
  new_ident_screen_name screen_name = to_lower (keep (λ c. not (c == 32)) screen_name)

  unfoldable pub name_match : ℕ → Bytes → Bytes → Bool
  unfolding new_ident_screen_name has_screen_name bytes_eq
  name_match class_id a b =
      if has_screen_name class_id
      then bytes_eq (new_ident_screen_name a) (new_ident_screen_name b)
      else bytes_eq a b

  unfoldable pub items_match : FeedbagItem → FeedbagItem → Bool
  unfolding name_match
  items_match a b =
      if not (a.class_id == b.class_id)
      then false
      else if not (name_match a.class_id a.name b.name)
      then false
      else if a.class_id == feedbag_class_id_buddy || a.class_id == feedbag_class_id_min
      then a.group_id == b.group_id
      else true

  -- The deleted item, if one matches.
  unfoldable pub delete_item : FeedbagItem → FeedbagList → Option FeedbagItem × FeedbagList
  unfolding find_item items_match without
  delete_item item f = elim (find_item (λ existing. items_match existing item) f) [
    | none ↦ (none, f)
    | some a ↦ (
      some (f.heap a),
      record f { pending_deletes = f.pending_deletes ++ a ∷ []; items = without a f.items },
    )
  ]

  unfoldable pub normalized : FeedbagItem → FeedbagItem
  unfolding has_screen_name new_ident_screen_name
  normalized item =
      if has_screen_name item.class_id
      then record item { name = new_ident_screen_name item.name }
      else item

  module _ (rand_int : ℕ → ℕ → ℕ) where
    unfoldable pub upsert_item : FeedbagItem → FeedbagList → (FeedbagItem × Bool) × FeedbagList
    unfolding normalized find_item items_match update_at insert_item
    upsert_item given f =
        let item = normalized given in
        elim (find_item (λ existing. items_match existing item) f) [
          | some a ↦ let g = update_at a item f in ((g.heap a, false), g)
          | none ↦ insert_item rand_int item f
        ]
