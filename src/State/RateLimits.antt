-- ===== src/State/RateLimits.antt =====
-- state/session.go: the rate limiting part of Session. Instants are nanoseconds from a fixed origin.
-- The array of five states is a list; an index out of range panics in Go, and gives `none` here.
pub mod Laws
pub mod Spacing
use retro_aim_server.Prelude.{
  ℕ, zero, suc, ◌+◌, Bool, true, false, not, ◌&&◌, ◌||◌, Option, none, some, List, [], ◌∷◌, ◌++◌,
  get_elem?, set, map, if◌then◌else◌, ◌==◌,
}
use retro_aim_server.Prelude.Int.{ℤ, pos, pos_part, neg_part, ◌-ℤ◌, quot}
use retro_aim_server.Wire.RateLimit.{RateClass, RateLimitStatus, check_rate_limit}

pub record RateClassState : Type 0 where
  pub class : RateClass
  pub current_level : ℤ
  pub last_time : ℕ
  pub current_status : RateLimitStatus
  pub subscribed : Bool
  pub limited_now : Bool

-- rateLimitStates, rateLimitStatesOriginal and lastObservedStates of Session.
pub record Limits : Type 0 where
  pub states : List RateClassState
  pub original : List RateClassState
  pub observed : List RateClassState

-- now.Sub(last).Milliseconds(), for instants less than 292 years apart.
unfoldable pub elapsed_ms : ℕ → ℕ → ℤ
elapsed_ms last now = quot (pos now -ℤ pos last) (pos 1000000)

unfoldable pub is_limited : RateLimitStatus → Bool
is_limited RateLimitStatus.limited = true
is_limited _ = false

unfoldable pub is_clear : RateLimitStatus → Bool
is_clear RateLimitStatus.clear = true
is_clear _ = false

-- The update of one class by one message.
unfoldable pub evaluate_class : ℕ → RateClassState → RateLimitStatus × RateClassState
unfolding elapsed_ms is_limited
evaluate_class now s =
    let (status, level) =
      check_rate_limit (elapsed_ms s.last_time now) s.class s.current_level s.limited_now in
    (
      status,
      record s {
        current_level = level;
        current_status = status;
        last_time = now;
        limited_now = is_limited status;
      },
    )

-- `states[classID-1]`: class 0 has no place.
unfoldable pub class_at : List RateClassState → ℕ → Option RateClassState
class_at states zero = none
class_at states (suc i) = get_elem? states i

unfoldable pub set_class : List RateClassState → ℕ → RateClassState → List RateClassState
set_class states zero s = states
set_class states (suc i) s = set states i s

-- EvaluateRateLimit. The caller of the model closes the session exactly on `disconnect`, which is
-- where the source calls CloseSession. `is_bot` is AllUserInfoBitmask(OServiceUserFlagBot).
unfoldable pub evaluate_rate_limit : Bool → ℕ → ℕ → Limits → Option (RateLimitStatus × Limits)
unfolding evaluate_class class_at set_class
evaluate_rate_limit is_bot now class_id l =
    if is_bot then some (RateLimitStatus.clear, l) else elim (class_at l.states class_id) [
      | none ↦ none
      | some s ↦
          let r = evaluate_class now s in
          some (r.0, record l { states = set_class l.states class_id r.1 })
    ]

-- Go's comparison of two RateClass values, field by field.
unfoldable pub eq_ℤ : ℤ → ℤ → Bool
eq_ℤ a b = pos_part a == pos_part b && neg_part a == neg_part b

unfoldable pub same_class : RateClass → RateClass → Bool
unfolding eq_ℤ
same_class a b =
    a.id == b.id
    && eq_ℤ a.window_size b.window_size
    && eq_ℤ a.clear_level b.clear_level
    && eq_ℤ a.alert_level b.alert_level
    && eq_ℤ a.limit_level b.limit_level
    && eq_ℤ a.disconnect_level b.disconnect_level
    && eq_ℤ a.max_level b.max_level

unfoldable pub status_code : RateLimitStatus → ℕ
status_code RateLimitStatus.limited = 1
status_code RateLimitStatus.alert = 2
status_code RateLimitStatus.clear = 3
status_code RateLimitStatus.disconnect = 4

-- The status that an observer sets: a limited class is released when it reaches its clear level,
-- and only then is its level written.
unfoldable pub observe_class : ℕ → RateClassState → RateClassState
unfolding elapsed_ms is_clear
observe_class now s =
    let (status, level) =
      check_rate_limit (elapsed_ms s.last_time now) s.class s.current_level s.limited_now in
    let marked : RateClassState = record s { current_status = status } in
    if s.limited_now && is_clear status
    then record marked { limited_now = false; current_level = level }
    else marked

pub record Observation : Type 0 where
  pub states : List RateClassState
  pub observed : List RateClassState
  pub class_delta : List RateClassState
  pub state_delta : List RateClassState

-- One round of the loop of ObserveRateChanges, on top of what the later rounds give.
unfoldable pub observe_round : ℕ → RateClassState → RateClassState → Observation → Observation
observe_round now s seen rest =
    let next = observe_class now s in
    if s.subscribed
    then record {
      states = next ∷ rest.states;
      observed = next ∷ rest.observed;
      class_delta =
          if same_class s.class seen.class then rest.class_delta else next ∷ rest.class_delta;
      state_delta =
          if status_code seen.current_status == status_code next.current_status
          then rest.state_delta
          else next ∷ rest.state_delta;
    }
    else record rest { states = s ∷ rest.states; observed = seen ∷ rest.observed }

-- ObserveRateChanges, over the two arrays in step.
unfoldable pub observe_rate_changes : ℕ → List RateClassState → List RateClassState → Observation
observe_rate_changes now [] seen = record {
  states = [];
  observed = seen;
  class_delta = [];
  state_delta = [];
}
observe_rate_changes now (s ∷ states) [] = record {
  states = s ∷ states;
  observed = [];
  class_delta = [];
  state_delta = [];
}
observe_rate_changes now (s ∷ states) (o ∷ seen) =
    observe_round now s o (observe_rate_changes now states seen)

-- The fresh states of SetRateClasses: only the subscriptions last observed are kept.
unfoldable pub fresh_states : ℕ → List RateClass → List RateClassState → List RateClassState
fresh_states now [] seen = []
fresh_states now (c ∷ cs) [] = []
fresh_states now (c ∷ cs) (o ∷ seen) =
    record {
      class = c;
      current_level = c.max_level;
      last_time = now;
      current_status = RateLimitStatus.clear;
      subscribed = o.subscribed;
      limited_now = false;
    }
    ∷ fresh_states now cs seen

unfoldable pub first_id : List RateClassState → ℕ
first_id [] = 0
first_id (s ∷ rest) = s.class.id

unfoldable pub set_rate_classes : ℕ → List RateClass → Limits → Limits
unfolding fresh_states first_id
set_rate_classes now classes l =
    let fresh = fresh_states now classes l.observed in
    record {
      states = fresh;
      original = fresh;
      observed = if first_id l.observed == 0 then fresh else l.states;
    }

-- SubscribeRateLimits; `none` is the panic of an id out of range.
unfoldable pub subscribe_rate_limits : List ℕ → Limits → Option Limits
unfolding class_at set_class
subscribe_rate_limits [] l = some l
subscribe_rate_limits (id ∷ ids) l = elim (class_at l.states id) [
  | none ↦ none
  | some s ↦
      subscribe_rate_limits ids
        (record l { states = set_class l.states id (record s { subscribed = true }) })
]
