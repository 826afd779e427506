-- ===== src/State/FeedbagList/Upsert.antt =====
-- upsertItem of state/feedbag_list.go: what it stores, and where.
use mathlib.Core.Path.{ap₂}
use retro_aim_server.Prelude.{
  ℕ, ◌≡◌, refl, sym, ap, ◌∙◌, inl, inr, Bool, true, false, not, ◌&&◌, ◌||◌, some, List, [], ◌∷◌,
  ◌++◌, length, All, Bool-cases, arith, ◌==◌, ==_iff, ==_refl, if◌then◌else◌,
}
use retro_aim_server.Prelude.Bytes.{Bytes, bytes_eq_iff, bytes_eq_refl}
use retro_aim_server.Wire.Tlv.{Tlv}
use retro_aim_server.Wire.FeedbagItem.{FeedbagItem, is_equal, same_tlvs}
use retro_aim_server.State.FeedbagList.{
  write, find, items_match, name_match, new_ident_screen_name, has_screen_name,
  feedbag_class_id_buddy, feedbag_class_id_min,
}
use retro_aim_server.State.FeedbagList.Deletion.{find_hit, find_miss}

tlv_eta : (t o : Tlv) → t.tag ≡ o.tag → t.value ≡ o.value → t ≡ o
tlv_eta t o h k = ap₂ (λ tag value. record { tag = tag; value = value }) h k

three : (a b c : Bool) → (a && b && c) ≡ true → (a ≡ true) × (b ≡ true) × (c ≡ true)
three a b c h = ground arith

guards :
    (a b c d e : Bool)
    → (if not a
        then false
        else if not b
        then false
        else if not c
        then false
        else if not d
        then false
        else e)
      ≡ true
    → (a ≡ true) × (b ≡ true) × (c ≡ true) × (d ≡ true) × (e ≡ true)
guards a b c d e h = ground arith

group_of :
    (c d : ℕ) (m g : Bool)
    → (if not (c == d)
        then false
        else if not m
        then false
        else if c == feedbag_class_id_buddy || c == feedbag_class_id_min
        then g
        else true)
      ≡ true
    → (if d == feedbag_class_id_buddy || d == feedbag_class_id_min then g else true) ≡ true
group_of c d m g h = ground arith

same_tlvs→eq : (ts os : List Tlv) → length ts ≡ length os → same_tlvs ts os ≡ true → ts ≡ os
unfolding same_tlvs
same_tlvs→eq [] [] l h = refl
same_tlvs→eq [] (o ∷ os) l h = absurd (omega arith)
same_tlvs→eq (t ∷ ts) [] l h = absurd (omega arith)
same_tlvs→eq (t ∷ ts) (o ∷ os) l h =
    let (tag, value, rest) = three _ _ _ h in
    ap₂ (λ x xs. x ∷ xs)
      (tlv_eta t o ((==_iff t.tag o.tag).0 tag) ((bytes_eq_iff t.value o.value).0 value))
      (same_tlvs→eq ts os (omega arith) rest)

same_if : (b x y : Bool) → x ≡ true → y ≡ true → (if b then x else y) ≡ true
same_if true x y h k = h
same_if false x y h k = k

-- IsEqual compares all but the item id.
pub is_equal→eq :
    (f other : FeedbagItem)
    → is_equal f other ≡ true
    → f ≡ record other { item_id = f.item_id; group_id = f.group_id }
unfolding is_equal
is_equal→eq f other h =
    let (n, g, c, l, t) = guards _ _ _ _ _ h in
    let name = (bytes_eq_iff f.name other.name).0 n in
    let class_ = (==_iff f.class_id other.class_id).0 c in
    let tlvs =
      same_tlvs→eq f.tlv_list other.tlv_list
        ((==_iff (length f.tlv_list) (length other.tlv_list)).0 l) t in
    λ i. record {
      name = name i;
      group_id = f.group_id;
      item_id = f.item_id;
      class_id = class_ i;
      tlv_list = tlvs i;
    }

module _ (to_lower : Bytes → Bytes) where
  name_match_refl : (class_id : ℕ) (name : Bytes) → name_match to_lower class_id name name ≡ true
  unfolding name_match
  name_match_refl class_id name =
      same_if (has_screen_name class_id) _ _ (bytes_eq_refl (new_ident_screen_name to_lower name))
        (bytes_eq_refl name)

  -- An item matches itself, whatever its item id, and whatever its group id if its class stands
  -- outside the groups.
  pub items_match-reid :
      (item : FeedbagItem) (item_id group_id : ℕ)
      → (if item.class_id == feedbag_class_id_buddy || item.class_id == feedbag_class_id_min
          then group_id == item.group_id
          else true)
        ≡ true
      → items_match to_lower (record item { item_id = item_id; group_id = group_id }) item ≡ true
  unfolding items_match
  items_match-reid item item_id group_id h =
      rw (==_refl item.class_id, name_match_refl item.class_id item.name) h

  pub items_match_self :
      (item : FeedbagItem) (item_id : ℕ)
      → items_match to_lower (record item { item_id = item_id }) item ≡ true
  items_match_self item item_id = items_match-reid item item_id item.group_id (
      same_if (item.class_id == feedbag_class_id_buddy || item.class_id == feedbag_class_id_min) _ _
        (==_refl item.group_id) refl)

  pub items_match-group :
      (a b : FeedbagItem)
      → items_match to_lower a b ≡ true
      → (if b.class_id == feedbag_class_id_buddy || b.class_id == feedbag_class_id_min
          then a.group_id == b.group_id
          else true)
        ≡ true
  unfolding items_match
  items_match-group a b h = group_of a.class_id b.class_id _ _ h

-- A search whose first hit is known.
pub find-at :
    (p : FeedbagItem → Bool) (heap : ℕ → FeedbagItem) (before after : List ℕ) (a : ℕ)
    → All (λ b. p (heap b) ≡ false) before
    → p (heap a) ≡ true
    → find p heap (before ++ a ∷ after) ≡ some a
find-at p heap [] after a misses hit = find_hit p heap a after hit
find-at p heap (b ∷ before) after a (m, misses) hit =
    find_miss p heap b (before ++ a ∷ after) m ∙ find-at p heap before after a misses hit

pub write_same : (a : ℕ) (item : FeedbagItem) (heap : ℕ → FeedbagItem) → write a item heap a ≡ item
unfolding write
write_same a item heap = rw (==_refl a)

pub write_other :
    (a b : ℕ) (item : FeedbagItem) (heap : ℕ → FeedbagItem)
    → (b == a) ≡ false
    → write a item heap b ≡ heap b
unfolding write
write_other a b item heap h = rw h

pub write_again : (a : ℕ) (heap : ℕ → FeedbagItem) → write a (heap a) heap ≡ heap
unfolding write
write_again a heap = λ i b. again b i
  where
    again : (b : ℕ) → (if b == a then heap a else heap b) ≡ heap b
    again b = elim (Bool-cases (b == a)) [
      | inl e ↦ rw e (ap heap (sym ((==_iff b a).0 e)))
      | inr e ↦ rw e
    ]
