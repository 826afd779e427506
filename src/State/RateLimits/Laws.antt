-- ===== src/State/RateLimits/Laws.antt =====
-- What EvaluateRateLimit and ObserveRateChanges of state/session.go keep and what they change.
use retro_aim_server.Prelude.{
  ℕ, ◌≡◌, refl, ◌∙◌, ◌⊎◌, inl, inr, true, false, List, [], ◌∷◌, All, arith, Bool-cases, ==_refl,
  if◌then◌else◌,
}
use retro_aim_server.Prelude.Int.{ℤ, ltb_ℤ}
use retro_aim_server.Wire.RateLimit.{
  RateLimitStatus, check_rate_limit, status_of, next_average, RateClass,
}
use retro_aim_server.State.RateLimits.{
  RateClassState, Observation, evaluate_class, observe_class, observe_round, observe_rate_changes,
  same_class, is_limited, elapsed_ms,
}

-- The ways out of the limited state.
abbrev pub Released : RateClass → RateLimitStatus → ℤ → Type 0
Released c status level =
    (status ≡ RateLimitStatus.disconnect)
    ⊎ (status ≡ RateLimitStatus.limited)
    ⊎ ((status ≡ RateLimitStatus.clear) × (ltb_ℤ level c.clear_level ≡ false))

status_of-Released : (c : RateClass) (level : ℤ) → Released c (status_of c true level) level
unfolding status_of
status_of-Released c level = elim (Bool-cases (ltb_ℤ level c.disconnect_level)) [
  | inl low ↦ inl (rw low)
  | inr up ↦ elim (Bool-cases (ltb_ℤ level c.clear_level)) [
    | inl below ↦ inr (inl (rw (up, below)))
    | inr reached ↦ inr (inr (rw (up, reached), reached))
  ]
]

-- A class that was limited either disconnects, stays limited (and blocks the next message), or is
-- cleared by an average that is not below its clear level; it is never merely alerted.
pub evaluate_class-Released :
    (now : ℕ) (s : RateClassState)
    → s.limited_now ≡ true
    → let (status, after) = evaluate_class now s in
      (after.limited_now ≡ is_limited status)
      × (after.current_status ≡ status)
      × Released s.class status after.current_level
unfolding evaluate_class check_rate_limit
evaluate_class-Released now s h = (
  refl,
  refl,
  rw h (
      status_of-Released s.class
        (next_average s.class s.current_level (elapsed_ms s.last_time now))),
)

same_class_refl : (c : RateClass) → same_class c c ≡ true
unfolding same_class
same_class_refl c = simp (==_refl)

-- Observing a class that is not limited again at the same instant changes nothing.
observe_class_again :
    (now : ℕ) (s : RateClassState)
    → s.limited_now ≡ false
    → observe_class now (observe_class now s) ≡ observe_class now s
unfolding observe_class
observe_class_again now s h = ground arith

observe_class-subscribed :
    (now : ℕ) (s : RateClassState) → (observe_class now s).subscribed ≡ s.subscribed
unfolding observe_class
observe_class-subscribed now s = ground arith

-- What one round leaves in the two arrays.
next_state : ℕ → RateClassState → RateClassState
next_state now s = if s.subscribed then observe_class now s else s

next_seen : ℕ → RateClassState → RateClassState → RateClassState
next_seen now s seen = if s.subscribed then observe_class now s else seen

round_arrays :
    (now : ℕ) (s seen : RateClassState) (rest : Observation)
    → ((observe_round now s seen rest).states ≡ next_state now s ∷ rest.states)
      × ((observe_round now s seen rest).observed ≡ next_seen now s seen ∷ rest.observed)
unfolding observe_round next_state next_seen
round_arrays now s seen rest = elim (Bool-cases s.subscribed) [
  | inl on ↦ (simp on, simp on)
  | inr off ↦ (simp off, simp off)
]

round_quiet :
    (now : ℕ) (s seen : RateClassState) (rest : Observation)
    → s.limited_now ≡ false
    → let again = observe_round now (next_state now s) (next_seen now s seen) rest in
      (again.class_delta ≡ rest.class_delta) × (again.state_delta ≡ rest.state_delta)
unfolding observe_round next_state next_seen
round_quiet now s seen rest h = elim (Bool-cases s.subscribed) [
  | inl on ↦
      let kept = observe_class-subscribed now s ∙ on in
      (simp (on, kept, same_class_refl), simp (on, kept, observe_class_again now s h, ==_refl))
  | inr off ↦ (simp off, simp off)
]

-- While no class is limited, an observer that looks again at the same instant is told of nothing:
-- neither a class nor a status has changed since it looked.
pub observe_rate_changes_again :
    (now : ℕ) (states seen : List RateClassState)
    → All (λ s. s.limited_now ≡ false) states
    → let first = observe_rate_changes now states seen in
      let again = observe_rate_changes now first.states first.observed in
      (again.class_delta ≡ []) × (again.state_delta ≡ [])
unfolding observe_rate_changes
observe_rate_changes_again now [] [] h = (refl, refl)
observe_rate_changes_again now [] (o ∷ seen) h = (refl, refl)
observe_rate_changes_again now (s ∷ states) [] h = (refl, refl)
observe_rate_changes_again now (s ∷ states) (o ∷ seen) h =
    let rest = observe_rate_changes now states seen in
    let quiet = round_quiet now s o (observe_rate_changes now rest.states rest.observed) h.0 in
    let ih = observe_rate_changes_again now states seen h.1 in
    rw ((round_arrays now s o rest).0, (round_arrays now s o rest).1)
      (quiet.0 ∙ ih.0, quiet.1 ∙ ih.1)
