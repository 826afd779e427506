-- ===== src/State/Session/Status.antt =====
-- state/session.go: what a Session tells of its instances together, over the list of them.
pub mod Latest
use Prim.Native.Nat.{bit_and}
use mathlib.Core.Path.{subst}
use retro_aim_server.Prelude.{
  ℕ, ◌+◌, ◌≡◌, ◌⊎◌, inl, inr, refl, sym, Bool, true, false, not, ◌&&◌, ◌||◌, Option, none, some,
  List, [], ◌∷◌, All, ◌==◌, if◌then◌else◌, arith, Bool-cases,
}
use retro_aim_server.Prelude.Bytes.{Bytes}
use retro_aim_server.Prelude.Int.{ℤ, ltb_ℤ}
use retro_aim_server.State.Session.{
  SessionInstance, is_away, is_invisible, active, flag_unavailable, status_away,
}

-- time.Time.After, with the zero time before all others.
unfoldable pub after : Option ℤ → Option ℤ → Bool
after none t = false
after (some a) none = true
after (some a) (some b) = ltb_ℤ b a

unfoldable pub is_zero : Option ℤ → Bool
is_zero none = true
is_zero (some a) = false

module _ {M : Type 0} where
  -- The loops over the instances return at the first that fails the test.
  unfoldable pub every : (SessionInstance M → Bool) → List (SessionInstance M) → Bool
  every p [] = true
  every p (i ∷ is) = let rest = every p is in if p i then rest else false

  unfoldable pub some_and_every : (SessionInstance M → Bool) → List (SessionInstance M) → Bool
  unfolding every
  some_and_every p [] = false
  some_and_every p (i ∷ is) = every p (i ∷ is)

  -- Away writes the test of an instance out.
  unfoldable pub session_away : List (SessionInstance M) → Bool
  unfolding some_and_every
  session_away = some_and_every λ i. not (
      (bit_and i.user_info_bitmask flag_unavailable == 0)
      && (bit_and i.user_status_bitmask status_away == 0))

  unfoldable pub session_idle : List (SessionInstance M) → Bool
  unfolding some_and_every
  session_idle = some_and_every SessionInstance.idle

  unfoldable pub inactive : List (SessionInstance M) → Bool
  unfolding every
  inactive = every λ i. not (active i)

  unfoldable pub invisible : List (SessionInstance M) → Bool
  unfolding every
  invisible = every is_invisible

  unfoldable pub all_user_info_bitmask : ℕ → List (SessionInstance M) → Bool
  unfolding every
  all_user_info_bitmask flag = every λ i. bit_and i.user_info_bitmask flag == flag

  unfoldable pub all_user_status_bitmask : ℕ → List (SessionInstance M) → Bool
  unfolding every
  all_user_status_bitmask flag = every λ i. bit_and i.user_status_bitmask flag == flag

  unfoldable pub later_idle : Option ℤ → SessionInstance M → Option ℤ
  unfolding after is_zero
  later_idle t i = if is_zero t || (i.idle && after i.idle_time t) then i.idle_time else t

  -- The loops of mostRecentIdleTime and of AwayMessage, from what they have found so far.
  unfoldable pub idle_time_from : Option ℤ → List (SessionInstance M) → Option ℤ
  unfolding later_idle
  idle_time_from t [] = t
  idle_time_from t (i ∷ is) = idle_time_from (later_idle t i) is

  unfoldable pub most_recent_idle_time : List (SessionInstance M) → Option ℤ
  unfolding idle_time_from
  most_recent_idle_time is = idle_time_from none is

  unfoldable pub idle_time : List (SessionInstance M) → Option ℤ
  unfolding most_recent_idle_time session_idle
  idle_time is = if session_idle is then most_recent_idle_time is else none

  unfoldable pub later_away :
      Option (SessionInstance M) → SessionInstance M → Option (SessionInstance M)
  unfolding is_away after
  later_away none i = if is_away i then some i else none
  later_away (some l) i = if is_away i && after i.away_time l.away_time then some i else some l

  unfoldable pub latest_away :
      Option (SessionInstance M) → List (SessionInstance M) → Option (SessionInstance M)
  unfolding later_away
  latest_away l [] = l
  latest_away l (i ∷ is) = latest_away (later_away l i) is

  unfoldable pub message_of : Option (SessionInstance M) → Bytes
  message_of none = []
  message_of (some i) = i.away_msg

  unfoldable pub away_message : List (SessionInstance M) → Bytes
  unfolding latest_away message_of
  away_message is = message_of (latest_away none is)
