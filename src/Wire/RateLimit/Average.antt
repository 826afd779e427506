-- ===== src/Wire/RateLimit/Average.antt =====
-- The moving average of CheckRateLimit in plain arithmetic, and what the thresholds make of it.
use Prim.Native.Nat.{min}
use retro_aim_server.Prelude.{
  ℕ, suc, ◌+◌, ◌-◌, ◌*◌, ◌/◌, ◌^◌, ◌≤◌, ◌<◌, ◌≡◌, refl, Bool, true, arith, if◌then◌else◌,
}
use retro_aim_server.Prelude.Int.{
  ℤ, pos, negsuc, ◌+ℤ◌, quot, int32, int32-pos, int32-negsuc, ltb_ℤ, sub_ℕ, pos-+ℤ, pos-*ℤ,
  pos-suc-pred, quot-pos,
}
use retro_aim_server.Wire.RateLimit.{
  RateClass, RateLimitStatus, next_average, status_of, check_rate_limit,
}

div-lt : (x w : ℕ) → x < 2 ^ 31 → x / suc w < 2 ^ 31
div-lt x w h = grind arith

clamp-min : (m q : ℕ) → (if ltb_ℤ (pos m) (pos q) then pos m else pos q) ≡ pos (min m q)
clamp-min m q = ground arith

-- The average without overflow: a weighted mean of the old average and the elapsed time, at most
-- the maximum.
pub next_average-mean :
    (c : RateClass) (w m a e : ℕ)
    → c.window_size ≡ pos (suc w)
    → c.max_level ≡ pos m
    → w < 2 ^ 31
    → a * w + e < 2 ^ 31
    → next_average c (pos a) (pos e) ≡ pos (min m ((a * w + e) / suc w))
unfolding next_average
next_average-mean c w m a e cw cm hw h =
    rw (cw, pos-suc-pred w, int32-pos w hw, pos-*ℤ a w, int32-pos (a * w) (omega arith))
      (rw (int32-pos e (omega arith), pos-+ℤ (a * w) e, int32-pos (a * w + e) h)
        (rw (quot-pos (a * w + e) (suc w), int32-pos _ (div-lt (a * w + e) w h), cm)
          (clamp-min m ((a * w + e) / suc w))))

pos-+ℤ-negsuc : (a k : ℕ) → a ≤ k → pos a +ℤ negsuc k ≡ negsuc (k - a)
unfolding ◌+ℤ◌
pos-+ℤ-negsuc a k h = ground arith

int32-negative : (n : ℕ) → n < 2 ^ 31 → int32 (negsuc n) ≡ negsuc n
unfolding int32
int32-negative n h = ground arith

quot-negsuc : (n w : ℕ) → quot (negsuc n) (pos (suc w)) ≡ sub_ℕ 0 (suc n / suc w)
unfolding quot
quot-negsuc n w = refl

int32-sub : (q : ℕ) → q ≤ 2 ^ 31 → int32 (sub_ℕ 0 q) ≡ sub_ℕ 0 q
unfolding int32
int32-sub q h = ground arith

div-le : (n w : ℕ) → n < 2 ^ 31 → suc n / suc w ≤ 2 ^ 31
div-le n w h = grind arith

clamp-sub : (m q : ℕ) → (if ltb_ℤ (pos m) (sub_ℕ 0 q) then pos m else sub_ℕ 0 q) ≡ sub_ℕ 0 q
clamp-sub m q = ground arith

below-suc : (q d : ℕ) → ltb_ℤ (sub_ℕ 0 q) (pos (suc d)) ≡ true
below-suc q d = ground arith

-- A gap between 2 ^ 31 and 2 ^ 32 milliseconds turns negative in int32, and with it the average.
long_gap_average :
    (c : RateClass) (w m a e : ℕ)
    → c.window_size ≡ pos (suc w)
    → c.max_level ≡ pos m
    → w < 2 ^ 31
    → 2 ^ 31 ≤ e
    → a * w + e < 2 ^ 32
    → (n : ℕ) × (next_average c (pos a) (pos e) ≡ sub_ℕ 0 n)
unfolding next_average
long_gap_average c w m a e cw cm hw lo hi =
    let k = 2 ^ 32 - 1 - e in
    let n = k - a * w in
    (
      suc n / suc w,
      rw (cw, pos-suc-pred w, int32-pos w hw, pos-*ℤ a w, int32-pos (a * w) (omega arith))
          (rw (int32-negsuc e lo (omega arith), pos-+ℤ-negsuc (a * w) k (omega arith))
            (rw (int32-negative n (omega arith), quot-negsuc n w)
              (rw (int32-sub (suc n / suc w) (div-le n w (omega arith)), cm)
                (clamp-sub m (suc n / suc w))))),
    )

status_of-negative :
    (c : RateClass) (limited_now : Bool) (average : ℤ) (q d : ℕ)
    → c.disconnect_level ≡ pos (suc d)
    → average ≡ sub_ℕ 0 q
    → status_of c limited_now average ≡ RateLimitStatus.disconnect
unfolding status_of
status_of-negative c limited_now average q d cd ca = rw (ca, cd, below-suc q d)

-- After a gap of 2 ^ 31 milliseconds (24.8 days) or more, short of 2 ^ 32 less the weighted old
-- average, the next message of a session disconnects it, whether it was limited or not.
pub check_rate_limit_long_gap :
    (c : RateClass) (w m a e d : ℕ) (limited_now : Bool)
    → c.window_size ≡ pos (suc w)
    → c.max_level ≡ pos m
    → c.disconnect_level ≡ pos (suc d)
    → w < 2 ^ 31
    → 2 ^ 31 ≤ e
    → a * w + e < 2 ^ 32
    → (check_rate_limit (pos e) c (pos a) limited_now).0 ≡ RateLimitStatus.disconnect
unfolding check_rate_limit
check_rate_limit_long_gap c w m a e d limited_now cw cm cd hw lo hi =
    let (n, avg) = long_gap_average c w m a e cw cm hw lo hi in
    status_of-negative c limited_now _ n d cd avg
