-- ===== src/State/FeedbagList/Storing.antt =====
-- upsertItem of state/feedbag_list.go: both of its branches store the item.
use retro_aim_server.Prelude.{
  ℕ, ◌<◌, ◌≡◌, refl, sym, ap, ◌∙◌, inl, inr, ◌⊎◌, Bool, true, false, some, List, [], ◌∷◌, ◌++◌, All,
  Bool-cases, arith, ◌==◌,
}
use retro_aim_server.Prelude.Bytes.{Bytes}
use retro_aim_server.Wire.FeedbagItem.{FeedbagItem, is_equal}
use retro_aim_server.State.FeedbagList.{
  FeedbagList, write, find_item, items_match, normalized, update_at, insert_item, gen_id, add_item,
  upsert_item, store, track_update, contains,
}
use retro_aim_server.State.FeedbagList.Deletion.{Found, find-cases, apart}
use retro_aim_server.State.FeedbagList.Upsert.{
  is_equal→eq, items_match-reid, items_match-group, items_match_self, find-at, write_same,
  write_other, write_again,
}

-- The outcome of storing `item`: the search for it now finds an address whose cell holds the stored
-- item, no other cell has changed, the stored item differs from `item` in its ids at most, and it
-- took the place of an item or stands at the end.
abbrev pub Stores :
    (FeedbagItem → Bool) → FeedbagItem → FeedbagList → (FeedbagItem × Bool) × FeedbagList → Type 0
Stores p item f ((stored, inserted), g) =
    (a : ℕ) × (find_item p g ≡ some a)
    × (g.heap ≡ write a stored f.heap)
    × (stored ≡ record item { item_id = stored.item_id; group_id = stored.group_id })
    × (((inserted ≡ false) × (g.items ≡ f.items))
        ⊎ ((inserted ≡ true) × (g.items ≡ f.items ++ a ∷ [])))

misses_write :
    (p : FeedbagItem → Bool) (heap : ℕ → FeedbagItem) (a : ℕ) (item : FeedbagItem) (l : List ℕ)
    → All (λ b. (b == a) ≡ false) l
    → All (λ b. p (heap b) ≡ false) l
    → All (λ b. p (write a item heap b) ≡ false) l
misses_write p heap a item [] e h = tt
misses_write p heap a item (b ∷ l) (e, es) (h, hs) =
    (ap p (write_other a b item heap e) ∙ h, misses_write p heap a item l es hs)

All-apart :
    (p : FeedbagItem → Bool) (heap : ℕ → FeedbagItem) (a : ℕ) (l : List ℕ)
    → p (heap a) ≡ true
    → All (λ b. p (heap b) ≡ false) l
    → All (λ b. (b == a) ≡ false) l
All-apart p heap a [] h ms = tt
All-apart p heap a (b ∷ l) h (m, ms) = (apart p heap b a m h, All-apart p heap a l h ms)

below_apart : (n : ℕ) (l : List ℕ) → All (λ b. b < n) l → All (λ b. (b == n) ≡ false) l
below_apart n [] h = tt
below_apart n (b ∷ l) (h, hs) = (ground arith, below_apart n l hs)

pub tracked_heap : (a : ℕ) (f : FeedbagList) → (track_update a f).heap ≡ f.heap
unfolding track_update
tracked_heap a f = elim (Bool-cases (contains a f.pending_updates)) [
  | inl e ↦ rw (track_update, e) refl
  | inr e ↦ rw (track_update, e) refl
]

pub tracked_next : (a : ℕ) (f : FeedbagList) → (track_update a f).next ≡ f.next
unfolding track_update
tracked_next a f = elim (Bool-cases (contains a f.pending_updates)) [
  | inl e ↦ rw (track_update, e) refl
  | inr e ↦ rw (track_update, e) refl
]

pub tracked_items : (a : ℕ) (f : FeedbagList) → (track_update a f).items ≡ f.items
unfolding track_update
tracked_items a f = elim (Bool-cases (contains a f.pending_updates)) [
  | inl e ↦ rw (track_update, e) refl
  | inr e ↦ rw (track_update, e) refl
]

update_same :
    (a : ℕ) (item : FeedbagItem) (f : FeedbagList)
    → is_equal (f.heap a) item ≡ true
    → update_at a item f ≡ f
unfolding update_at
update_same a item f e = rw (update_at, e) refl

abbrev reid : FeedbagItem → FeedbagItem → FeedbagItem
reid existing item = record item { item_id = existing.item_id; group_id = existing.group_id }

update_other :
    (a : ℕ) (item : FeedbagItem) (f : FeedbagList)
    → is_equal (f.heap a) item ≡ false
    → update_at a item f ≡ track_update a (store a (reid (f.heap a) item) f)
unfolding update_at
update_other a item f e = rw (update_at, e) refl

module _ (to_lower : Bytes → Bytes) where
  updated :
      (item : FeedbagItem) (f : FeedbagList)
      → (x : Found (λ existing. items_match to_lower existing item) f.heap f.items)
      → Stores
          (λ existing. items_match to_lower existing item)
          item
          f
          (((update_at x.address item f).heap x.address, false), update_at x.address item f)
  unfolding update_at find_item store
  updated item f x = elim (Bool-cases (is_equal (f.heap x.address) item)) [
    | inl e ↦ rw (update_same x.address item f e) (
      x.address,
      x.found,
      sym (write_again x.address f.heap),
      is_equal→eq (f.heap x.address) item e,
      inl (refl, refl),
    )
    | inr e ↦
        let p : FeedbagItem → Bool = λ existing. items_match to_lower existing item in
        let a = x.address in
        let new = reid (f.heap a) item in
        let hit =
          items_match-reid to_lower item new.item_id new.group_id
            (items_match-group to_lower (f.heap a) item x.hit) in
        rw
          (update_other a item f e, tracked_heap a (store a new f), tracked_items a (store a new f))
          (rw (write_same a new f.heap) (
            a,
            rw x.parts (
                find-at p (write a new f.heap) x.before x.after a
                  (misses_write p f.heap a new x.before
                    (All-apart p f.heap a x.before x.hit x.misses) x.misses)
                  (ap p (write_same a new f.heap) ∙ hit)),
            refl,
            refl,
            inl (refl, refl),
          ))
  ]

  module _ (rand_int : ℕ → ℕ → ℕ) where
    inserted :
        (item : FeedbagItem) (f : FeedbagList)
        → All (λ a. a < f.next) f.items
        → All (λ a. items_match to_lower (f.heap a) item ≡ false) f.items
        → Stores
            (λ existing. items_match to_lower existing item)
            item
            f
            (insert_item rand_int item f)
    unfolding insert_item gen_id add_item find_item
    inserted item f below misses = (
      f.next,
      find-at (λ existing. items_match to_lower existing item) (insert_item rand_int item f).1.heap
          f.items [] f.next
          (misses_write (λ existing. items_match to_lower existing item) f.heap f.next _ f.items
            (below_apart f.next f.items below) misses)
          (ap (λ x. items_match to_lower x item) (write_same f.next _ f.heap)
            ∙ items_match_self to_lower item _),
      refl,
      refl,
      inr (refl, refl),
    )

    -- Whatever the list held, upsertItem stores the item, its name normalised: see `Stores`. The
    -- hypothesis says that the list's items are allocated.
    pub upsert_item-Stores :
        (item : FeedbagItem) (f : FeedbagList)
        → All (λ a. a < f.next) f.items
        → Stores
            (λ existing. items_match to_lower existing (normalized to_lower item))
            (normalized to_lower item)
            f
            (upsert_item to_lower rand_int item f)
    unfolding upsert_item find_item
    upsert_item-Stores item f below =
        let key = normalized to_lower item in
        elim (find-cases (λ existing. items_match to_lower existing key) f.heap f.items) [
          | inl (e, misses) ↦ rw (upsert_item, e) (inserted key f below misses)
          | inr x ↦ rw (upsert_item, x.found) (updated key f x)
        ]
