-- ===== src/State/Session/Numbering.antt =====
-- state/session.go: the numbers that generateInstanceNum gives, and reads of the heap that they lead to.
use retro_aim_server.Prelude.{
  ℕ, zero, suc, ◌+◌, ◌≤◌, ◌<◌, ◌≡◌, ◌≢◌, ◌⊎◌, inl, inr, sym, ◌∙◌, none, some, List, get_elem?, set,
  ◌==◌, arith, ==_iff, Bool-cases, Option-cases, get_elem?-set_self, get_elem?-set_ne,
}
use retro_aim_server.Prelude.Maps.{lookup}
use retro_aim_server.State.Session.Lifecycle.{generate_instance_num, next_num}

-- The number found is free, and in range.
next_num_lem :
    (m : List (ℕ × ℕ)) (rounds num n : ℕ)
    → next_num m rounds num ≡ some n
    → (lookup ◌==◌ n m ≡ none) × (num ≤ n) × (n < num + rounds)
unfolding next_num
next_num_lem m zero num n h = cc
next_num_lem m (suc rounds) num n h = elim (Option-cases (lookup ◌==◌ num m)) [
  | inl e ↦ ground (arith, e)
  | inr (a, e) ↦ ground (arith, next_num_lem m rounds (num + 1) n)
]

pub generate_instance_num_lem :
    (m : List (ℕ × ℕ)) (n : ℕ)
    → generate_instance_num m ≡ some n
    → (lookup ◌==◌ n m ≡ none) × (0 < n) × (n < 256)
unfolding generate_instance_num
generate_instance_num_lem m n h = ground (arith, next_num_lem m 255 1 n)

-- What a read after a write finds.
pub set-cases {ℓ} :
    {A : Type ℓ} (xs : List A) (i j : ℕ) (v old x : A)
    → get_elem? xs i ≡ some old
    → get_elem? (set xs i v) j ≡ some x
    → ((j ≡ i) × (v ≡ x)) ⊎ ((j ≢ i) × (get_elem? xs j ≡ some x))
set-cases xs i j v old x at_i h = elim (Bool-cases (j == i)) [
  | inl same ↦
      let e : j ≡ i = (==_iff j i).0 same in
      inl (e, grind (arith, get_elem?-set_self xs i v old at_i))
  | inr other ↦
      let d : j ≢ i = ground arith in inr (d, sym (get_elem?-set_ne xs i j v (λ e. d (sym e))) ∙ h)
]

-- One place holds one thing.
pub same_read {ℓ} :
    {A : Type ℓ} (xs : List A) (b a : ℕ) (x y : A)
    → b ≡ a
    → get_elem? xs b ≡ some x
    → get_elem? xs a ≡ some y
    → y ≡ x
same_read xs b a x y same at_b at_a = cc
