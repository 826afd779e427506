-- ===== src/State/Session/Status/Latest.antt =====
-- state/session.go: IdleTime and AwayMessage choose the latest of the instances.
use mathlib.Core.Path.{subst}
use retro_aim_server.Prelude.{
  ◌≡◌, ◌⊎◌, inl, inr, refl, sym, ap, ◌∙◌, Bool, true, false, ◌&&◌, Option, none, some, List, [],
  ◌∷◌, All, arith, Bool-cases,
}
use retro_aim_server.Prelude.Int.{ℤ}
use retro_aim_server.State.Session.Status.{
  after, every, some_and_every, session_idle, later_idle, idle_time_from, most_recent_idle_time,
  idle_time, later_away, latest_away, away_message, message_of,
}
use retro_aim_server.State.Session.{SessionInstance, is_away}

after_step : (a b c : Option ℤ) → after a b ≡ false → after b c ≡ false → after a c ≡ false
unfolding after
after_step none b c h k = refl
after_step (some a) none c h k = cc
after_step (some a) (some b) none h k = cc
after_step (some a) (some b) (some c) h k = ground arith

after_irrefl : (a : Option ℤ) → after a a ≡ false
unfolding after
after_irrefl none = refl
after_irrefl (some a) = ground arith

after_newer : (a b : Option ℤ) → after a b ≡ true → after b a ≡ false
unfolding after
after_newer none b h = cc
after_newer (some a) none h = refl
after_newer (some a) (some b) h = ground arith

not_after :
    (b : Bool) (x y z : Option ℤ)
    → (b && after x y) ≡ false
    → after y z ≡ false
    → (b && after x z) ≡ false
not_after b x y z h k = ground (arith, after_step x y z)

module _ {M : Type 0} where
  later_idle_lem :
      (t : Option ℤ) (i : SessionInstance M)
      → i.idle ≡ true
      → (after t (later_idle t i) ≡ false)
        × (after i.idle_time (later_idle t i) ≡ false)
        × ((later_idle t i ≡ t) ⊎ (later_idle t i ≡ i.idle_time))
  unfolding later_idle
  later_idle_lem none i h = ground (arith, after_irrefl i.idle_time)
  later_idle_lem (some t) i h = ground (arith, after_irrefl (some t), after_irrefl i.idle_time)

  abbrev pub Has : Option ℤ → List (SessionInstance M) → Type 0
  Has t [] = ⊥
  Has t (i ∷ is) = (t ≡ i.idle_time) ⊎ Has t is

  abbrev pub NoneAfter : Option ℤ → List (SessionInstance M) → Type 0
  NoneAfter t is = All (λ i. after i.idle_time t ≡ false) is

  idle_time_from-Latest :
      (t : Option ℤ) (is : List (SessionInstance M))
      → every SessionInstance.idle is ≡ true
      → (after t (idle_time_from t is) ≡ false)
        × NoneAfter (idle_time_from t is) is
        × ((idle_time_from t is ≡ t) ⊎ Has (idle_time_from t is) is)
  unfolding every idle_time_from
  idle_time_from-Latest t [] h = (after_irrefl t, tt, inl refl)
  idle_time_from-Latest t (i ∷ is) h =
      let t' = later_idle t i in
      let (u, v, w) = later_idle_lem t i (ground arith) in
      let (x, y, z) = idle_time_from-Latest t' is (ground arith) in
      (
        after_step t t' (idle_time_from t' is) u x,
        (after_step i.idle_time t' (idle_time_from t' is) v x, y),
        ground arith,
      )

  -- While all instances are idle, the idle time of the session is that of one of them, and none
  -- went idle after it.
  pub idle_time-latest :
      (is : List (SessionInstance M))
      → session_idle is ≡ true
      → NoneAfter (idle_time is) is × Has (idle_time is) is
  unfolding idle_time session_idle some_and_every most_recent_idle_time idle_time_from later_idle
      every
  idle_time-latest [] h = cc
  idle_time-latest (i ∷ is) h =
      let (x, y, z) = idle_time_from-Latest i.idle_time is (ground arith) in
      let e : idle_time (i ∷ is) ≡ idle_time_from i.idle_time is = rw h in
      subst (λ t. NoneAfter t (i ∷ is) × Has t (i ∷ is)) (sym e) ((x, y), z)

  later_away_lem :
      (l i : SessionInstance M)
      → is_away l ≡ true
      → (k : SessionInstance M) × (later_away (some l) i ≡ some k)
        × (is_away k ≡ true)
        × (after l.away_time k.away_time ≡ false)
        × ((k ≡ l) ⊎ (k ≡ i))
        × ((is_away i && after i.away_time k.away_time) ≡ false)
  unfolding later_away
  later_away_lem l i h = elim (Bool-cases (is_away i && after i.away_time l.away_time)) [
    | inl e ↦ (
      i,
      rw e,
      ground arith,
      after_newer i.away_time l.away_time (ground arith),
      inr refl,
      ground (arith, after_irrefl i.away_time),
    )
    | inr e ↦ (l, rw e, h, after_irrefl l.away_time, inl refl, e)
  ]

  abbrev pub NoneAwayAfter : Option ℤ → List (SessionInstance M) → Type 0
  NoneAwayAfter t is = All (λ i. (is_away i && after i.away_time t) ≡ false) is

  abbrev pub IsOneOf : SessionInstance M → List (SessionInstance M) → Type 0
  IsOneOf k [] = ⊥
  IsOneOf k (i ∷ is) = (k ≡ i) ⊎ IsOneOf k is

  latest_away-Latest :
      (l : SessionInstance M) (is : List (SessionInstance M))
      → is_away l ≡ true
      → (k : SessionInstance M) × (latest_away (some l) is ≡ some k)
        × (is_away k ≡ true)
        × (after l.away_time k.away_time ≡ false)
        × ((k ≡ l) ⊎ IsOneOf k is)
        × NoneAwayAfter k.away_time is
  unfolding latest_away
  latest_away-Latest l [] h = (l, refl, h, after_irrefl l.away_time, inl refl, tt)
  latest_away-Latest l (i ∷ is) h =
      let (l', e, h', u, o, v) = later_away_lem l i h in
      let (k, f, h'', x, p, y) = latest_away-Latest l' is h' in
      (
        k,
        ap (λ o. latest_away o is) e ∙ f,
        h'',
        after_step l.away_time l'.away_time k.away_time u x,
        elim p [
          | inl q ↦ elim o [ inl r ↦ inl (q ∙ r) | inr r ↦ inr (inl (q ∙ r)) ]
          | inr q ↦ inr (inr q)
        ],
        (not_after (is_away i) i.away_time l'.away_time k.away_time v x, y),
      )

  abbrev pub NoneAway : List (SessionInstance M) → Type 0
  NoneAway is = All (λ i. is_away i ≡ false) is

  abbrev pub IsLatestAway : SessionInstance M → List (SessionInstance M) → Type 0
  IsLatestAway k is =
      (latest_away none is ≡ some k)
      × IsOneOf k is
      × (is_away k ≡ true)
      × NoneAwayAfter k.away_time is

  latest_away_lem :
      (is : List (SessionInstance M))
      → ((latest_away none is ≡ none) × NoneAway is) ⊎ ((k : SessionInstance M) × IsLatestAway k is)
  unfolding latest_away later_away
  latest_away_lem [] = inl (refl, tt)
  latest_away_lem (i ∷ is) = elim (Bool-cases (is_away i)) [
    | inl away ↦
        let (k, f, h, x, p, y) = latest_away-Latest i is away in
        inr (k, (ap (λ o. latest_away o is) (rw away) ∙ f, p, h, (ground (arith), y)))
    | inr here ↦
        let e : latest_away none (i ∷ is) ≡ latest_away none is =
          ap (λ o. latest_away o is) (rw here) in
        elim (latest_away_lem is) [
          | inl (f, n) ↦ inl (e ∙ f, (here, n))
          | inr (k, (f, o, h, y)) ↦ inr (k, (e ∙ f, inr o, h, (ground arith, y)))
        ]
  ]

  -- AwayMessage is empty where no instance is away, and is else the message of an instance that is
  -- away and after whose time no other instance went away.
  pub away_message-latest :
      (is : List (SessionInstance M))
      → (NoneAway is × (away_message is ≡ []))
        ⊎ ((k : SessionInstance M) × IsLatestAway k is × (away_message is ≡ k.away_msg))
  unfolding away_message message_of
  away_message-latest is = elim (latest_away_lem is) [
    | inl (e, n) ↦ inl (n, ap message_of e)
    | inr (k, l) ↦ inr (k, l, ap message_of l.0)
  ]
