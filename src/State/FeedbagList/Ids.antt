-- ===== src/State/FeedbagList/Ids.antt =====
-- genID of state/feedbag_list.go: the id that it gives is in no use, and it gives up only when none
-- is free.
use retro_aim_server.Prelude.{
  ℕ, zero, suc, ◌+◌, ◌-◌, ◌%◌, ◌<◌, ◌≡◌, ◌≢◌, refl, sym, ◌∙◌, inl, inr, ◌⊎◌, Bool, true, false,
  ◌||◌, Bool-cases, arith, ◌==◌,
}
use retro_aim_server.State.FeedbagList.{FeedbagList, is_taken, gen_id_from, gen_id}

stop :
    (f : FeedbagList) (fuel id : ℕ)
    → (id == 0 || is_taken f id) ≡ false
    → gen_id_from f (suc fuel) id ≡ id
unfolding gen_id_from
stop f fuel id h = rw (gen_id_from, h) refl

go_on :
    (f : FeedbagList) (fuel id : ℕ)
    → (id == 0 || is_taken f id) ≡ true
    → gen_id_from f (suc fuel) id ≡ gen_id_from f fuel ((id + 1) % 65536)
unfolding gen_id_from
go_on f fuel id h = rw (gen_id_from, h) refl

found_free :
    (f : FeedbagList) (fuel id : ℕ)
    → id < 65536
    → gen_id_from f fuel id ≢ 0
    → (is_taken f (gen_id_from f fuel id) ≡ false) × (gen_id_from f fuel id < 65536)
unfolding gen_id_from
found_free f zero id h e = absurd (e refl)
found_free f (suc fuel) id h e = elim (Bool-cases (id == 0 || is_taken f id)) [
  | inl b ↦
      rw (go_on f fuel id b)
        (found_free f fuel ((id + 1) % 65536) (omega arith) (rw (go_on f fuel id b) at e))
  | inr b ↦ rw (stop f fuel id b) (ground arith, h)
]

skipped : (id : ℕ) (b : Bool) → (id == 0 || b) ≡ true → (id ≡ 0) ⊎ (b ≡ true)
skipped id b h = ground arith

kept : (id : ℕ) (b : Bool) → (id == 0 || b) ≡ false → id ≢ 0
kept id b h e = ground arith

-- The rounds that a search which gives up has made.
Refused : FeedbagList → ℕ → Type 0
Refused f id = (id ≡ 0) ⊎ (is_taken f id ≡ true)

exhausted :
    (f : FeedbagList) (fuel id k : ℕ)
    → gen_id_from f fuel id ≡ 0
    → k < fuel
    → id < 65536
    → Refused f ((id + k) % 65536)
unfolding Refused
exhausted f zero id k e h s = absurd (omega arith)
exhausted f (suc fuel) id zero e h s = elim (Bool-cases (id == 0 || is_taken f id)) [
  | inr b ↦ absurd (kept id _ b (sym (stop f fuel id b) ∙ e))
  | inl b ↦
      let same : id ≡ (id + 0) % 65536 = omega arith in rw same at (skipped id (is_taken f id) b)
]
exhausted f (suc fuel) id (suc k) e h s = elim (Bool-cases (id == 0 || is_taken f id)) [
  | inr b ↦ absurd (kept id _ b (sym (stop f fuel id b) ∙ e))
  | inl b ↦
      let rest =
        exhausted f fuel ((id + 1) % 65536) k (sym (go_on f fuel id b) ∙ e) (omega arith)
          (omega arith) in
      let same : ((id + 1) % 65536 + k) % 65536 ≡ (id + suc k) % 65536 = omega arith in
      rw same at rest
]

module _ (rand_int : ℕ → ℕ → ℕ) where
  refused-all :
      (f : FeedbagList) (id : ℕ)
      → (gen_id rand_int f).0 ≡ 0
      → 0 < id
      → id < 65536
      → id ≢ (rand_int f.calls 65535 + 65535) % 65536
      → is_taken f id ≡ true
  unfolding gen_id Refused
  refused-all f id e pos small other =
      let start = rand_int f.calls 65535 % 65536 in
      let k = (id + 65536 - start) % 65536 in
      let same : (start + k) % 65536 ≡ id = omega arith in
      elim (rw same at (exhausted f 65535 start k e (omega arith) (omega arith))) [
        | inl z ↦ absurd (omega arith)
        | inr t ↦ t
      ]

  -- If a 16-bit id other than 0 is free, genID gives an id that is free, not 0, and 16 bits wide. The
  -- id just before the random starting point does not count: the loop of genID does not try it.
  pub gen_id-free :
      (f : FeedbagList) (id : ℕ)
      → 0 < id
      → id < 65536
      → id ≢ (rand_int f.calls 65535 + 65535) % 65536
      → is_taken f id ≡ false
      → ((gen_id rand_int f).0 ≢ 0)
        × (is_taken f (gen_id rand_int f).0 ≡ false)
        × ((gen_id rand_int f).0 < 65536)
  unfolding gen_id
  gen_id-free f id pos small other free =
      let not_0 : (gen_id rand_int f).0 ≢ 0 =
        λ e. absurd (cc (refused-all f id e pos small other)) in
      let (unused, small_id) = found f not_0 in (not_0, unused, small_id)
    where
      found :
          (f : FeedbagList)
          → (gen_id rand_int f).0 ≢ 0
          → (is_taken f (gen_id rand_int f).0 ≡ false) × ((gen_id rand_int f).0 < 65536)
      found f h = found_free f 65535 (rand_int f.calls 65535 % 65536) (omega arith) h
