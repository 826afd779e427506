-- ===== src/Wire/BuddyPrefs/Masks.antt =====
-- wire/buddy_prefs.go: one bit of a byte, written and read.
use Prim.Native.Nat.{bit_and}
use retro_aim_server.Prelude.{
  ℕ, ◌^◌, ◌<◌, ◌≡◌, Bool, true, false, not, ◌&&◌, arith, ◌==◌, refl, ltb, if◌then◌else◌,
}
use retro_aim_server.Prelude.Tables.{passes, passes-at}
use retro_aim_server.Wire.BuddyPrefs.{write_bit}

same : Bool → Bool → Bool
same true b = b
same false b = not b

same→eq : (a b : Bool) → same a b ≡ true → a ≡ b
unfolding same
same→eq a b h = ground arith

is_set : ℕ → ℕ → Bool
is_set b mask = not (bit_and b mask == 0)

-- What a bit reads as after a write to a bit of the byte.
reads_back : ℕ → ℕ → Bool → ℕ → Bool
unfolding is_set write_bit same
reads_back k j v b =
    same (is_set (write_bit v (2 ^ k) b) (2 ^ j)) (if k == j then v else is_set b (2 ^ j))
    && ltb (write_bit v (2 ^ k) b) 256

every_bit :
    passes
      (λ k. passes (λ j. passes (λ b. reads_back k j true b && reads_back k j false b) 256) 8)
      8
    ≡ true
unfolding passes reads_back
every_bit = refl

both : (x y : Bool) → (x && y) ≡ true → (x ≡ true) × (y ≡ true)
both x y p = ground arith

reads_back_lem : (k j : ℕ) (v : Bool) (b : ℕ) → k < 8 → j < 8 → b < 256 → reads_back k j v b ≡ true
reads_back_lem k j true b hk hj hb =
    let cell = passes-at _ 8 (passes-at _ 8 every_bit k hk) j hj in
    (both _ _ (passes-at _ 256 cell b hb)).0
reads_back_lem k j false b hk hj hb =
    let cell = passes-at _ 8 (passes-at _ 8 every_bit k hk) j hj in
    (both _ _ (passes-at _ 256 cell b hb)).1

-- The bit that is written reads as written, and the others as before.
pub is_set-write_bit :
    (k j : ℕ) (v : Bool) (b : ℕ)
    → k < 8
    → j < 8
    → b < 256
    → not (bit_and (write_bit v (2 ^ k) b) (2 ^ j) == 0)
      ≡ (if k == j then v else not (bit_and b (2 ^ j) == 0))
unfolding is_set reads_back
is_set-write_bit k j v b hk hj hb = same→eq _ _ (both _ _ (reads_back_lem k j v b hk hj hb)).0
