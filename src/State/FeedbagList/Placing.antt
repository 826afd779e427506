-- ===== src/State/FeedbagList/Placing.antt =====
-- reorderInGroupOrder of state/feedbag_list.go: where MoveBuddy puts a member of a group's order.
use retro_aim_server.Prelude.{
  ℕ, ◌<◌, ◌≡◌, refl, ap, ◌∙◌, inl, inr, ◌⊎◌, true, false, not, some, List, [], ◌∷◌, ◌++◌, keep, All,
  Bool-cases, ◌==◌, ==_iff,
}
use retro_aim_server.Wire.Codec.Types.{slice, uint}
use retro_aim_server.Wire.Tlv.{uint16_slice}
use retro_aim_server.Wire.FeedbagItem.{
  FeedbagItem, feedbag_attributes_order, set_value, order_members,
}
use retro_aim_server.Wire.FeedbagItem.Order.{AreIds, AreIds-keep, order_members-set_order}
use retro_aim_server.State.FeedbagList.{FeedbagList, store}
use retro_aim_server.State.FeedbagList.Groups.{modify, insert_before, reorder_in_group_order}
use retro_aim_server.State.FeedbagList.Upsert.{write_same}
use retro_aim_server.State.FeedbagList.Storing.{tracked_heap}

-- The member stands just before the first occurrence of the other, or at the end if there is none,
-- in what the order holds besides.
abbrev pub Placed : ℕ → ℕ → List ℕ → List ℕ → Type 0
Placed id before_id others result =
    ((pre : List ℕ) × (post : List ℕ) × (others ≡ pre ++ before_id ∷ post)
      × All (λ i. (i == before_id) ≡ false) pre
      × (result ≡ pre ++ id ∷ before_id ∷ post))
    ⊎ (All (λ i. (i == before_id) ≡ false) others × (result ≡ others ++ id ∷ []))

insert_before-hit :
    (id before_id i : ℕ) (ids : List ℕ)
    → (i == before_id) ≡ true
    → insert_before id before_id (i ∷ ids) ≡ id ∷ i ∷ ids
unfolding insert_before
insert_before-hit id before_id i ids h = rw h

insert_before-miss :
    (id before_id i : ℕ) (ids : List ℕ)
    → (i == before_id) ≡ false
    → insert_before id before_id (i ∷ ids) ≡ i ∷ insert_before id before_id ids
unfolding insert_before
insert_before-miss id before_id i ids h = rw h

insert_before-Placed :
    (id before_id : ℕ) (ids : List ℕ) → Placed id before_id ids (insert_before id before_id ids)
unfolding insert_before
insert_before-Placed id before_id [] = inr (tt, refl)
insert_before-Placed id before_id (i ∷ ids) = elim (Bool-cases (i == before_id)) [
  | inl h ↦
      let same = (==_iff i before_id).0 h in
      inl (
        [],
        ids,
        ap (λ j. j ∷ ids) same,
        tt,
        insert_before-hit id before_id i ids h ∙ ap (λ j. id ∷ j ∷ ids) same,
      )
  | inr h ↦ elim (insert_before-Placed id before_id ids) [
    | inl (pre, post, parts, misses, result) ↦ inl (
      i ∷ pre,
      post,
      ap (λ t. i ∷ t) parts,
      (h, misses),
      insert_before-miss id before_id i ids h ∙ ap (λ t. i ∷ t) result,
    )
    | inr (misses, result) ↦
        inr ((h, misses), insert_before-miss id before_id i ids h ∙ ap (λ t. i ∷ t) result)
  ]
]

AreIds-insert_before :
    (id before_id : ℕ) (ids : List ℕ)
    → id < 65536
    → AreIds ids
    → AreIds (insert_before id before_id ids)
unfolding insert_before
AreIds-insert_before id before_id [] h hs = (h, tt)
AreIds-insert_before id before_id (i ∷ ids) h (k, ks) = elim (Bool-cases (i == before_id)) [
  | inl e ↦ rw (insert_before-hit id before_id i ids e) (h, (k, ks))
  | inr e ↦
      rw (insert_before-miss id before_id i ids e) (k, AreIds-insert_before id before_id ids h ks)
]

modify_at :
    (a : ℕ) (change : FeedbagItem → FeedbagItem) (f : FeedbagList)
    → (modify a change f).heap a ≡ change (f.heap a)
unfolding modify
modify_at a change f =
    ap (λ heap. heap a) (tracked_heap a (store a (change (f.heap a)) f))
    ∙ write_same a (change (f.heap a)) f.heap

reordered :
    (group item_id before_item_id : ℕ) (f : FeedbagList) (order : List ℕ)
    → uint16_slice feedbag_attributes_order (f.heap group).tlv_list ≡ some order
    → reorder_in_group_order group item_id before_item_id f
      ≡ modify group
          (set_value feedbag_attributes_order
            (slice (uint 2))
            (insert_before item_id before_item_id (keep (λ id. not (id == item_id)) order)))
          f
unfolding reorder_in_group_order
reordered group item_id before_item_id f order e = rw (reorder_in_group_order, e) refl

-- In a group whose order holds 16-bit ids, the member ends up just before the other member, or at the
-- end if that one is not listed; it is listed once, and all others keep their order.
pub reorder_in_group_order-Placed :
    (group item_id before_item_id : ℕ) (f : FeedbagList) (order : List ℕ)
    → uint16_slice feedbag_attributes_order (f.heap group).tlv_list ≡ some order
    → AreIds order
    → item_id < 65536
    → Placed item_id before_item_id
        (keep (λ id. not (id == item_id)) order)
        (order_members ((reorder_in_group_order group item_id before_item_id f).heap group))
reorder_in_group_order-Placed group item_id before_item_id f order e ids small =
    let others = keep (λ id. not (id == item_id)) order in
    let placed = insert_before item_id before_item_id others in
    rw (reordered group item_id before_item_id f order e) (
      rw (modify_at group (set_value feedbag_attributes_order (slice (uint 2)) placed) f) (
        rw
          (order_members-set_order placed (f.heap group)
            (AreIds-insert_before item_id before_item_id others small (AreIds-keep _ order ids)))
          (insert_before-Placed item_id before_item_id others)))
