-- ===== src/State/FeedbagList/Deletion.antt =====
-- deleteItem of state/feedbag_list.go, and the loops over items that find one.
use retro_aim_server.Prelude.{
  ℕ, ◌≡◌, refl, ap, ◌∙◌, inl, inr, ◌⊎◌, Bool, true, false, none, some, List, [], ◌∷◌, ◌++◌, All,
  Bool-cases, ◌==◌, ==_iff, ==_refl,
}
use retro_aim_server.Prelude.Bytes.{Bytes}
use retro_aim_server.Wire.FeedbagItem.{FeedbagItem}
use retro_aim_server.State.FeedbagList.{
  FeedbagList, find, find_item, without, items_match, delete_item,
}

-- What a search for the first item leaves of the list.
pub record Found (p : FeedbagItem → Bool) (heap : ℕ → FeedbagItem) (l : List ℕ) : Type 0 where
  pub before : List ℕ
  pub address : ℕ
  pub after : List ℕ
  pub parts : l ≡ before ++ address ∷ after
  pub hit : p (heap address) ≡ true
  pub misses : All (λ a. p (heap a) ≡ false) before
  pub found : find p heap l ≡ some address
  pub rest : without address l ≡ before ++ after

module _ (p : FeedbagItem → Bool) (heap : ℕ → FeedbagItem) where
  pub find_hit : (a : ℕ) (l : List ℕ) → p (heap a) ≡ true → find p heap (a ∷ l) ≡ some a
  unfolding find
  find_hit a l h = rw (find, h) refl

  pub find_miss : (a : ℕ) (l : List ℕ) → p (heap a) ≡ false → find p heap (a ∷ l) ≡ find p heap l
  unfolding find
  find_miss a l h = rw (find, h) refl

  pub apart : (a b : ℕ) → p (heap a) ≡ false → p (heap b) ≡ true → (a == b) ≡ false
  apart a b h k = elim (Bool-cases (a == b)) [
    | inl e ↦ absurd (cc (ap (λ x. p (heap x)) ((==_iff a b).0 e)))
    | inr e ↦ e
  ]

  without_hit : (a : ℕ) (l : List ℕ) → without a (a ∷ l) ≡ l
  unfolding without
  without_hit a l = rw (==_refl a)

  without_miss : (a b : ℕ) (l : List ℕ) → (b == a) ≡ false → without a (b ∷ l) ≡ b ∷ without a l
  unfolding without
  without_miss a b l h = rw h

  pub find-cases :
      (l : List ℕ) → ((find p heap l ≡ none) × All (λ a. p (heap a) ≡ false) l) ⊎ Found p heap l
  unfolding find
  find-cases [] = inl (refl, tt)
  find-cases (a ∷ l) = elim (Bool-cases (p (heap a))) [
    | inl h ↦ inr (record {
      before = [];
      address = a;
      after = l;
      parts = refl;
      hit = h;
      misses = tt;
      found = find_hit a l h;
      rest = without_hit a l;
    })
    | inr h ↦ elim (find-cases l) [
      | inl (e, misses) ↦ inl (find_miss a l h ∙ e, (h, misses))
      | inr x ↦ inr (record {
        before = a ∷ x.before;
        address = x.address;
        after = x.after;
        parts = ap (λ t. a ∷ t) x.parts;
        hit = x.hit;
        misses = (h, x.misses);
        found = find_miss a l h ∙ x.found;
        rest = without_miss x.address a l (apart a x.address h x.hit) ∙ ap (λ t. a ∷ t) x.rest;
      })
    ]
  ]

module _ (to_lower : Bytes → Bytes) where
  -- deleteItem takes exactly the first matching item off the list and appends it to the pending
  -- deletes; all other items stay, in order and unchanged. If none matches, nothing changes.
  pub delete_item-first :
      (item : FeedbagItem) (f : FeedbagList)
      → ((delete_item to_lower item f ≡ (none, f))
          × All (λ a. items_match to_lower (f.heap a) item ≡ false) f.items)
        ⊎ ((before : List ℕ) × (a : ℕ) × (after : List ℕ) × (f.items ≡ before ++ a ∷ after)
            × (items_match to_lower (f.heap a) item ≡ true)
            × All (λ b. items_match to_lower (f.heap b) item ≡ false) before
            × (delete_item to_lower item f ≡ (
              some (f.heap a),
              record f { items = before ++ after; pending_deletes = f.pending_deletes ++ a ∷ [] },
            )))
  unfolding delete_item find_item
  delete_item-first item f =
      elim (find-cases (λ existing. items_match to_lower existing item) f.heap f.items) [
        | inl (e, misses) ↦ inl (rw (delete_item, e) refl, misses)
        | inr x ↦ inr (
          x.before,
          x.address,
          x.after,
          x.parts,
          x.hit,
          x.misses,
          rw (delete_item, x.found, x.rest) refl,
        )
      ]
