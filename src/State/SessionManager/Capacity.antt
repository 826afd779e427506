-- ===== src/State/SessionManager/Capacity.antt =====
-- state/session_manager.go: the calls of a session manager in any order, and what they keep.
use mathlib.Core.Path.{subst}
use retro_aim_server.Prelude.{
  ℕ, zero, suc, ◌≤◌, ◌<◌, ◌≡◌, ◌≢◌, inl, inr, refl, sym, Bool, true, false, not, Option, none, some,
  List, [], ◌∷◌, All, All-append, length, get_elem?, set, leb, if◌then◌else◌, arith, Bool-cases,
  Option-cases,
}
use retro_aim_server.Prelude.Bytes.{Bytes, bytes_eq}
use retro_aim_server.Prelude.Maps.{lookup, insert}
use retro_aim_server.State.Session.Lifecycle.{
  Session, Added, new_session, with_instance, add_instance, close_session, instance_count,
  generate_instance_num, next_num,
}
use retro_aim_server.State.SessionManager.{
  Account, SessionManager, SessionSlot, Answer, max_concurrent_sessions, new_session_manager,
  set_found, set_session, has_ident, is_named, find_in, find_rec, store_new, new_session_for, join,
  close_at, add_to, add_at, add_found, add_session, resume_add_session, is_removed, remove_session,
  remove_stored,
}
use retro_aim_server.State.SessionManager.Bound.{
  add_instance-panics, add_instance-length, close_session-length,
}

-- AddSession in its two parts, RemoveSession, and whatever else happens to one session, which may
-- lose instances but gains none.
pub data Step {M : Type 0} : SessionManager M → SessionManager M → Type 0 where
  adds :
      (m : SessionManager M) (name : Bytes) (multi : Bool) (a i : ℕ) (m' : SessionManager M)
      → add_session name multi m ≡ Answer.returns a i m'
      → Step m m'
  starts_to_wait :
      (m : SessionManager M) (name : Bytes) (multi : Bool) (a : ℕ) (m' : SessionManager M)
      → add_session name multi m ≡ Answer.waits a m'
      → Step m m'
  resumes :
      (m : SessionManager M) (name : Bytes) (multi : Bool) (waited a i : ℕ) (m' : SessionManager M)
      → resume_add_session name multi waited m ≡ some (Answer.returns a i m')
      → Step m m'
  removes : (m : SessionManager M) (ident : Bytes) (a : ℕ) → Step m (remove_session ident a m)
  evolves :
      (m : SessionManager M) (a : ℕ) (acc : Account M) (s : Session M)
      → get_elem? m.accounts a ≡ some acc
      → length s.instances ≤ length acc.session.instances
      → Step m (record m { accounts = set_session a s m.accounts })

pub data Reach {M : Type 0} (m : SessionManager M) : SessionManager M → Type 0 where
  here : Reach m m
  next : {n o : SessionManager M} → Reach m n → Step n o → Reach m o

module _ {M : Type 0} where
  abbrev pub WithinCapacity : SessionManager M → Type 0
  WithinCapacity m = All (λ acc. length acc.session.instances ≤ max_concurrent_sessions) m.accounts

  -- What an answer leaves behind.
  abbrev Keeps : Answer M → Type 0
  Keeps (Answer.returns a i m) = WithinCapacity m
  Keeps Answer.max_reached = Unit {0}
  Keeps (Answer.waits a m) = WithinCapacity m
  Keeps Answer.panics = ⊥

  All-get :
      (accounts : List (Account M)) (a : ℕ) (acc : Account M)
      → All (λ x. length x.session.instances ≤ max_concurrent_sessions) accounts
      → get_elem? accounts a ≡ some acc
      → length acc.session.instances ≤ max_concurrent_sessions
  All-get [] a acc h e = cc
  All-get (x ∷ xs) zero acc h e = let same : x ≡ acc = cc in rw (← same) h.0
  All-get (x ∷ xs) (suc a) acc h e = All-get xs a acc h.1 e

  All-set :
      (accounts : List (Account M)) (a : ℕ) (acc : Account M)
      → All (λ x. length x.session.instances ≤ max_concurrent_sessions) accounts
      → length acc.session.instances ≤ max_concurrent_sessions
      → All (λ x. length x.session.instances ≤ max_concurrent_sessions) (set accounts a acc)
  All-set [] a acc h e = tt
  All-set (x ∷ xs) zero acc h e = (e, h.1)
  All-set (x ∷ xs) (suc a) acc h e = (h.0, All-set xs a acc h.1 e)

  set_found-Within :
      (accounts : List (Account M)) (a : ℕ) (s : Session M) (o : Option (Account M))
      → All (λ x. length x.session.instances ≤ max_concurrent_sessions) accounts
      → length s.instances ≤ max_concurrent_sessions
      → All (λ x. length x.session.instances ≤ max_concurrent_sessions) (set_found a s accounts o)
  unfolding set_found
  set_found-Within accounts a s none h e = h
  set_found-Within accounts a s (some acc) h e = All-set accounts a (record acc { session = s }) h e

  set_session-Within :
      (accounts : List (Account M)) (a : ℕ) (s : Session M)
      → All (λ x. length x.session.instances ≤ max_concurrent_sessions) accounts
      → length s.instances ≤ max_concurrent_sessions
      → All (λ x. length x.session.instances ≤ max_concurrent_sessions) (set_session a s accounts)
  unfolding set_session
  set_session-Within accounts a s h e = set_found-Within accounts a s (get_elem? accounts a) h e

  Keeps-if :
      (b : Bool) (x y : Answer M)
      → (b ≡ true → Keeps x)
      → (b ≡ false → Keeps y)
      → Keeps (if b then x else y)
  Keeps-if true x y h k = h refl
  Keeps-if false x y h k = k refl

  -- The first instance of a session has the number 1.
  add_first : add_instance (new_session {M = M}) ≡ Added.added 0 (with_instance 1 new_session)
  unfolding add_instance generate_instance_num next_num lookup new_session
  add_first = refl

  new_session_for-Keeps :
      (name : Bytes) (multi : Bool) (m : SessionManager M)
      → WithinCapacity m
      → Keeps (new_session_for name multi m)
  unfolding new_session_for store_new with_instance new_session insert
  new_session_for-Keeps name multi m h =
      subst (λ x. Keeps (store_new name multi m x)) (sym add_first)
        (All-append _ m.accounts _ h (omega arith, tt))

  join-Keeps :
      (a : ℕ) (m : SessionManager M) (s : Session M) (x : Added M)
      → add_instance s ≡ x
      → length s.instances < max_concurrent_sessions
      → WithinCapacity m
      → Keeps (join a m x)
  unfolding join
  join-Keeps a m s Added.refused e room h = h
  join-Keeps a m s Added.panicked e room h = absurd (omega (arith, add_instance-panics s e))
  join-Keeps a m s (Added.added i t) e room h =
      set_session-Within m.accounts a t h (omega (arith, add_instance-length s t i e))

  add_to-Keeps :
      (name : Bytes) (multi : Bool) (m : SessionManager M) (slot : SessionSlot) (acc : Account M)
      → WithinCapacity m
      → length acc.session.instances ≤ max_concurrent_sessions
      → Keeps (add_to name multi m slot acc)
  unfolding add_to close_at instance_count
  add_to-Keeps name multi m slot acc h small =
      let closing =
        set_session-Within m.accounts slot.session (close_session acc.session) h
          (omega (arith, close_session-length acc.session)) in
      Keeps-if acc.session.closed _ _ (λ _. h)
        λ _.
          Keeps-if multi _ _
            (λ _.
              Keeps-if (not slot.multi_session) _ _
                (λ _.
                  new_session_for-Keeps name multi (close_at slot.session acc.session m) closing)
                λ _.
                  Keeps-if (leb max_concurrent_sessions (instance_count acc.session)) _ _ (λ _. tt)
                    λ room.
                      join-Keeps slot.session m acc.session (add_instance acc.session) refl
                        (ground arith) h)
            λ _. closing

  named_lem :
      (name : Bytes) (accounts : List (Account M)) (slot : SessionSlot)
      → is_named name accounts slot ≡ true
      → (acc : Account M) × (get_elem? accounts slot.session ≡ some acc)
        × (bytes_eq name acc.ident ≡ true)
  unfolding is_named has_ident
  named_lem name accounts slot h = elim (Option-cases (get_elem? accounts slot.session)) [
    | inl e ↦ absurd (ground arith)
    | inr (acc, e) ↦ (acc, e, ground arith)
  ]

  -- The slot found for a name is that of a session of that name.
  pub find_in_lem :
      (name : Bytes) (accounts : List (Account M)) (store : List (Bytes × SessionSlot))
      (slot : SessionSlot)
      → find_in name accounts store ≡ some slot
      → (acc : Account M) × (get_elem? accounts slot.session ≡ some acc)
        × (bytes_eq name acc.ident ≡ true)
  unfolding find_in
  find_in_lem name accounts [] slot h = cc
  find_in_lem name accounts ((k, x) ∷ store) slot h = elim (Bool-cases (is_named name accounts x)) [
    | inr q ↦ find_in_lem name accounts store slot (ground arith)
    | inl q ↦ let same : x ≡ slot = ground arith in named_lem name accounts slot (rw (← same) q)
  ]

  add_at-Keeps :
      (name : Bytes) (multi : Bool) (m : SessionManager M) (slot : SessionSlot) (acc : Account M)
      → get_elem? m.accounts slot.session ≡ some acc
      → WithinCapacity m
      → Keeps (add_at name multi m slot (get_elem? m.accounts slot.session))
  unfolding add_at
  add_at-Keeps name multi m slot acc e h =
      subst (λ o. Keeps (add_at name multi m slot o)) (sym e)
        (add_to-Keeps name multi m slot acc h (All-get m.accounts slot.session acc h e))

  add_session-Keeps :
      (name : Bytes) (multi : Bool) (m : SessionManager M)
      → WithinCapacity m
      → Keeps (add_session name multi m)
  unfolding add_session add_found find_rec
  add_session-Keeps name multi m h = elim (Option-cases (find_in name m.accounts m.store)) [
    | inl e ↦
        subst (λ o. Keeps (add_found name multi m o)) (sym e) (new_session_for-Keeps name multi m h)
    | inr (slot, e) ↦
        let (acc, at_slot, _) = find_in_lem name m.accounts m.store slot e in
        subst (λ o. Keeps (add_found name multi m o)) (sym e)
          (add_at-Keeps name multi m slot acc at_slot h)
  ]

  resume-Keeps :
      (name : Bytes) (multi : Bool) (a : ℕ) (m : SessionManager M) (x : Answer M)
      → WithinCapacity m
      → resume_add_session name multi a m ≡ some x
      → Keeps x
  unfolding resume_add_session
  resume-Keeps name multi a m x h e = elim (Bool-cases (is_removed a m.removed)) [
    | inl r ↦
        let same : new_session_for name multi m ≡ x = ground arith in
        subst Keeps same (new_session_for-Keeps name multi m h)
    | inr r ↦ absurd (ground arith)
  ]

  remove_stored-accounts :
      (ident : Bytes) (a : ℕ) (m : SessionManager M) (o : Option SessionSlot)
      → (remove_stored ident a m o).accounts ≡ m.accounts
  unfolding remove_stored
  remove_stored-accounts ident a m none = refl
  remove_stored-accounts ident a m (some slot) = ground arith

  Step-Within : {m n : SessionManager M} → Step m n → WithinCapacity m → WithinCapacity n
  unfolding remove_session
  Step-Within (Step.adds m name multi a i m' e) h = subst Keeps e (add_session-Keeps name multi m h)
  Step-Within (Step.starts_to_wait m name multi a m' e) h =
      subst Keeps e (add_session-Keeps name multi m h)
  Step-Within (Step.resumes m name multi waited a i m' e) h =
      resume-Keeps name multi waited m (Answer.returns a i m') h e
  Step-Within (Step.removes m ident a) h =
      rw (remove_stored-accounts ident a m (lookup bytes_eq ident m.store)) h
  Step-Within (Step.evolves m a acc s e small) h =
      set_session-Within m.accounts a s h (omega (arith, small, All-get m.accounts a acc h e))

  Reach-Within : {m n : SessionManager M} → Reach m n → WithinCapacity m → WithinCapacity n
  Reach-Within Reach.here h = h
  Reach-Within (Reach.next r st) h = Step-Within st (Reach-Within r h)

  -- In whatever order the calls come, while other events give no session more instances, no session
  -- has more than five instances; and AddSession, up to its wait and after the wait for any session,
  -- neither meets the panic of generateInstanceNum nor a missing session.
  pub add_session_capacity :
      (m : SessionManager M) (name : Bytes) (multi : Bool) (waited : ℕ)
      → Reach new_session_manager m
      → WithinCapacity m
        × (add_session name multi m ≢ Answer.panics)
        × (resume_add_session name multi waited m ≢ some Answer.panics)
  unfolding new_session_manager
  add_session_capacity m name multi waited r =
      let h = Reach-Within r tt in
      (
        h,
        λ e. subst Keeps e (add_session-Keeps name multi m h),
        λ e. resume-Keeps name multi waited m Answer.panics h e,
      )
