-- ===== src/Wire/RateLimit.antt =====
-- wire/rate_limit.go: the rate classes, the moving average of CheckRateLimit and its thresholds.
pub mod Table
pub mod Average
pub mod Classes
use retro_aim_server.Prelude.{
  ℕ, ◌-◌, Bool, true, false, not, ◌&&◌, Option, List, [], ◌∷◌, get_elem?, if◌then◌else◌, none, zero,
  suc,
}
use retro_aim_server.Prelude.Int.{ℤ, pos, ◌+ℤ◌, ◌-ℤ◌, ◌*ℤ◌, ltb_ℤ, quot, int32}

-- RateLimitStatus, with its numbers on the wire.
pub data RateLimitStatus : Type 0 where
  limited alert clear disconnect : RateLimitStatus

pub record RateClass : Type 0 where
  pub id : ℕ
  pub window_size : ℤ
  pub clear_level : ℤ
  pub alert_level : ℤ
  pub limit_level : ℤ
  pub disconnect_level : ℤ
  pub max_level : ℤ

abbrev pub rate_class : ℕ → ℕ → ℕ → ℕ → ℕ → ℕ → ℕ → RateClass
rate_class id window clear' alert' limit' disconnect' max' = record {
  id = id;
  window_size = pos window;
  clear_level = pos clear';
  alert_level = pos alert';
  limit_level = pos limit';
  disconnect_level = pos disconnect';
  max_level = pos max';
}

-- DefaultRateLimitClasses.
abbrev pub default_rate_limit_classes : List RateClass
default_rate_limit_classes =
    rate_class 1 80 2500 2000 1500 800 6000
    ∷ rate_class 2 80 3000 2000 1500 1000 6000
    ∷ rate_class 3 20 5100 5000 4000 3000 6000
    ∷ rate_class 4 20 5500 5300 4200 3000 8000
    ∷ rate_class 5 10 5500 5300 4200 3000 8000
    ∷ []

-- RateLimitClasses.Get: the id is an index into an array, and a wrong one panics: `none`.
unfoldable pub get_class : List RateClass → ℕ → Option RateClass
get_class classes zero = none
get_class classes (suc id) = get_elem? classes id

-- The update of the average: the elapsed milliseconds come as an int64, all else is int32.
unfoldable pub next_average : RateClass → ℤ → ℤ → ℤ
next_average c average elapsed_ms =
    let elapsed = int32 elapsed_ms in
    let weighted = int32 (average *ℤ int32 (c.window_size -ℤ pos 1)) in
    let new_average = int32 (quot (int32 (weighted +ℤ elapsed)) c.window_size) in
    if ltb_ℤ c.max_level new_average then c.max_level else new_average

-- The switch over the thresholds.
unfoldable pub status_of : RateClass → Bool → ℤ → RateLimitStatus
status_of c limited_now average =
    if ltb_ℤ average c.disconnect_level
    then RateLimitStatus.disconnect
    else if limited_now && not (ltb_ℤ average c.clear_level)
    then RateLimitStatus.clear
    else if limited_now
    then RateLimitStatus.limited
    else if ltb_ℤ average c.limit_level
    then RateLimitStatus.limited
    else if ltb_ℤ average c.alert_level
    then RateLimitStatus.alert
    else RateLimitStatus.clear

-- `elapsed_ms` is currentTime.Sub(lastTime).Milliseconds().
unfoldable pub check_rate_limit : ℤ → RateClass → ℤ → Bool → RateLimitStatus × ℤ
unfolding next_average status_of
check_rate_limit elapsed_ms c average limited_now =
    let new_average = next_average c average elapsed_ms in
    (status_of c limited_now new_average, new_average)
