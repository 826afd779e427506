-- ===== src/State/RateLimits/Spacing.antt =====
-- How the spacing of messages decides between a clear status and a disconnect: runs of the rate
-- limiter of state/session.go over one class, in milliseconds between messages.
use retro_aim_server.Prelude.{
  ℕ, suc, ◌+◌, ◌-◌, ◌*◌, ◌/◌, ◌^◌, ◌≤◌, ◌<◌, ◌≡◌, refl, Bool, true, false, List, [], ◌∷◌, length,
  All, any, arith, min,
}
use native.Mathlib.Decide.{dec_lt}
use retro_aim_server.Prelude.Int.{pos, ◌-ℤ◌, quot}
use retro_aim_server.Wire.RateLimit.{
  RateClass, RateLimitStatus, rate_class, check_rate_limit, status_of,
}
use retro_aim_server.Wire.RateLimit.Average.{next_average-mean}
use retro_aim_server.State.RateLimits.{RateClassState, evaluate_class, elapsed_ms, is_limited}

-- The statuses of messages that arrive at the given instants, one after the other.
unfoldable pub statuses : RateClassState → List ℕ → List RateLimitStatus
statuses s [] = []
statuses s (now ∷ rest) = let r = evaluate_class now s in r.0 ∷ statuses r.1 rest

-- Each message comes at least `gap` and at most `bound` milliseconds after the one before.
abbrev pub Spaced : ℕ → ℕ → ℕ → List ℕ → Type 0
Spaced gap bound last [] = Unit {0}
Spaced gap bound last (now ∷ rest) =
    (last + gap * 1000000 ≤ now) × (now < last + bound * 1000000) × Spaced gap bound now rest

elapsed_ms-pos : (last now : ℕ) → last ≤ now → elapsed_ms last now ≡ pos ((now - last) / 1000000)
unfolding elapsed_ms ◌-ℤ◌ quot
elapsed_ms-pos last now h = ground arith

mean_keeps :
    (level w e m a : ℕ) → level ≤ a → level ≤ e → level ≤ m → level ≤ min m ((a * w + e) / suc w)
mean_keeps level w e m a ha he hm = grind arith

mean_falls : (w e m a : ℕ) → e < a → min m ((a * w + e) / suc w) < a
mean_falls w e m a h = grind arith

-- The state of a class after a message.
abbrev moved : RateClassState → RateLimitStatus → ℕ → ℕ → RateClassState
moved s status level now = record s {
  current_level = pos level;
  current_status = status;
  last_time = now;
  limited_now = is_limited status;
}

gap-ge : (last now gap : ℕ) → last + gap * 1000000 ≤ now → gap ≤ (now - last) / 1000000
gap-ge last now gap h = omega arith

gap-lt : (last now gap : ℕ) → last ≤ now → now < last + gap * 1000000 → (now - last) / 1000000 < gap
gap-lt last now gap le h = omega arith

fits : (a w gap m bound : ℕ) → a ≤ m → gap < bound → m * w + bound < 2 ^ 31 → a * w + gap < 2 ^ 31
fits a w gap m bound ha hg h = grind arith

abbrev pub is_disconnect : RateLimitStatus → Bool
is_disconnect RateLimitStatus.disconnect = true
is_disconnect _ = false

any-cons :
    (x : RateLimitStatus) (xs : List RateLimitStatus)
    → any is_disconnect xs ≡ true
    → any is_disconnect (x ∷ xs) ≡ true
any-cons x xs h = ground arith

module _ (id w clear' alert' limit' disconnect' max' : ℕ) where
  abbrev the_class : RateClass
  the_class = rate_class id (suc w) clear' alert' limit' disconnect' max'

  -- One message, with the gap in milliseconds.
  evaluate-mean :
      (s : RateClassState) (a now : ℕ)
      → s.class ≡ the_class
      → s.current_level ≡ pos a
      → s.last_time ≤ now
      → w < 2 ^ 31
      → a * w + (now - s.last_time) / 1000000 < 2 ^ 31
      → evaluate_class now s ≡ (
          let level = min max' ((a * w + (now - s.last_time) / 1000000) / suc w) in
          let status = status_of the_class s.limited_now (pos level) in
          (status, moved s status level now))
  unfolding evaluate_class check_rate_limit
  evaluate-mean s a now hc ha ht hw hb =
      simp (hc, ha, elapsed_ms-pos s.last_time now ht)
        (simp
          (next_average-mean the_class w max' a ((now - s.last_time) / 1000000) refl refl hw hb))

  status-clear :
      (limited : Bool) (level : ℕ)
      → disconnect' ≤ level
      → limit' ≤ level
      → alert' ≤ level
      → clear' ≤ level
      → status_of the_class limited (pos level) ≡ RateLimitStatus.clear
  unfolding status_of
  status-clear limited level hd hl ha hc = ground arith

  status-disconnect :
      (limited : Bool) (level : ℕ)
      → level < disconnect'
      → status_of the_class limited (pos level) ≡ RateLimitStatus.disconnect
  unfolding status_of
  status-disconnect limited level h = ground arith

  -- The thresholds rise from disconnect to the maximum, and no average overflows within `bound`.
  module _ (bound : ℕ)
      (order : (disconnect' ≤ clear') × (limit' ≤ clear') × (alert' ≤ clear') × (clear' ≤ max'))
      (small : (w < 2 ^ 31) × (max' * w + bound < 2 ^ 31)) where
    -- Messages at least a clear level of milliseconds apart are all clear, limited before or not.
    pub Spaced-clear :
        (nows : List ℕ) (s : RateClassState) (a : ℕ)
        → s.class ≡ the_class
        → s.current_level ≡ pos a
        → clear' ≤ a
        → a ≤ max'
        → Spaced clear' bound s.last_time nows
        → All (λ status. status ≡ RateLimitStatus.clear) (statuses s nows)
    unfolding statuses
    Spaced-clear [] s a hc ha lo hi gaps = tt
    Spaced-clear (now ∷ rest) s a hc ha lo hi (g, b, gaps) =
        let gap = (now - s.last_time) / 1000000 in
        let level = min max' ((a * w + gap) / suc w) in
        let kept = mean_keeps clear' w gap max' a lo (gap-ge s.last_time now clear' g) order.3 in
        rw
          (evaluate-mean s a now hc ha (omega arith) small.0
            (fits a w gap max' bound hi (gap-lt s.last_time now bound (omega arith) b) small.1))
          (
            status-clear s.limited_now level (omega arith) (omega arith) (omega arith) kept,
            Spaced-clear rest (moved s _ level now) level hc refl kept (omega arith) gaps,
          )

    -- Messages less than the disconnect level of milliseconds apart are met by a disconnect within
    -- as many messages as the average stands above that level, and one more.
    pub flood_disconnect :
        (nows : List ℕ) (s : RateClassState) (a : ℕ)
        → s.class ≡ the_class
        → s.current_level ≡ pos a
        → a ≤ max'
        → disconnect' ≤ max'
        → disconnect' ≤ bound
        → Spaced 0 disconnect' s.last_time nows
        → a < length nows + disconnect'
        → disconnect' ≤ a
        → any is_disconnect (statuses s nows) ≡ true
    unfolding statuses
    flood_disconnect [] s a hc ha hi hm hb gaps many lo = absurd (omega arith)
    flood_disconnect (now ∷ rest) s a hc ha hi hm hb (g, b, gaps) many lo =
        let gap = (now - s.last_time) / 1000000 in
        let level = min max' ((a * w + gap) / suc w) in
        let status = status_of the_class s.limited_now (pos level) in
        let short = gap-lt s.last_time now disconnect' (omega arith) b in
        let falls = mean_falls w gap max' a (omega arith) in
        rw
          (evaluate-mean s a now hc ha (omega arith) small.0
            (fits a w gap max' bound hi (omega arith) small.1))
          (elim (dec_lt level disconnect') [
            | yes low ↦ rw (status-disconnect s.limited_now level low)
            | no high ↦ any-cons status (statuses (moved s status level now) rest) (
                flood_disconnect rest (moved s status level now) level hc refl (omega arith) hm hb
                  gaps (omega arith) (omega arith))
          ])
