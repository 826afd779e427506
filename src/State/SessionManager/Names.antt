-- ===== src/State/SessionManager/Names.antt =====
-- state/session_manager.go: the keys of the store and the names of its sessions.
use mathlib.Core.Path.{subst}
use retro_aim_server.Prelude.{
  ℕ, ◌≡◌, ◌⊎◌, inl, inr, refl, sym, ◌∙◌, Bool, true, false, not, Option, none, some, [], ◌∷◌, ◌++◌,
  length, get_elem?, ◌==◌, leb, if◌then◌else◌, arith, Bool-cases, Option-cases, get_elem?-length,
}
use retro_aim_server.Prelude.Bytes.{Bytes, bytes_eq, bytes_eq_iff, bytes_eq_refl}
use retro_aim_server.Prelude.Maps.{lookup, lookup-insert}
use retro_aim_server.State.Session.Lifecycle.{
  Added, add_instance, new_session, close_session, instance_count,
}
use retro_aim_server.State.SessionManager.{
  Account, SessionManager, SessionSlot, Answer, max_concurrent_sessions, new_session_manager,
  find_in, find_rec, store_new, new_session_for, join, close_at, add_to, add_at, add_found,
  add_session, resume_add_session, is_removed, remove_session, remove_stored,
}
use retro_aim_server.State.SessionManager.Capacity.{Step, Reach}
use retro_aim_server.State.SessionManager.Stored.{
  Matched, Matched-mono, IdentAt-append, set_session-Matched, insert-Matched, delete-Matched,
  find_in-lookup, IdentAt-intro, Matched-nil,
}

module _ {M : Type 0} where
  abbrev IsMatched : SessionManager M → Type 0
  IsMatched m = Matched m.accounts m.store

  -- What is stored for an answer to a call for `name`.
  abbrev Stores : Bytes → Answer M → Type 0
  Stores name (Answer.returns a i m) =
      IsMatched m
      × ((slot : SessionSlot) × (lookup bytes_eq name m.store ≡ some slot) × (slot.session ≡ a))
  Stores name Answer.max_reached = Unit {0}
  Stores name (Answer.waits a m) = IsMatched m
  Stores name Answer.panics = Unit {0}

  store_new-Stores :
      (name : Bytes) (multi : Bool) (m : SessionManager M) (x : Added M)
      → IsMatched m
      → Stores name (store_new name multi m x)
  unfolding store_new
  store_new-Stores name multi m Added.refused h = tt
  store_new-Stores name multi m Added.panicked h = tt
  store_new-Stores name multi m (Added.added i s) h =
      let a = length m.accounts in
      let acc : Account M = record { ident = name; session = s } in
      let slot : SessionSlot = record { session = a; multi_session = multi } in
      (
        insert-Matched (m.accounts ++ acc ∷ []) name slot m.store
            (IdentAt-intro (m.accounts ++ acc ∷ []) name a acc (get_elem?-length m.accounts acc)
              refl)
            (Matched-mono m.accounts (m.accounts ++ acc ∷ []) m.store
              (IdentAt-append m.accounts acc) h),
        (
          slot,
          lookup-insert bytes_eq bytes_eq_iff name name slot m.store ∙ rw (bytes_eq_refl name),
          refl,
        ),
      )

  new_session_for-Stores :
      (name : Bytes) (multi : Bool) (m : SessionManager M)
      → IsMatched m
      → Stores name (new_session_for name multi m)
  unfolding new_session_for
  new_session_for-Stores name multi m h = store_new-Stores name multi m (add_instance new_session) h

  join-Stores :
      (name : Bytes) (slot : SessionSlot) (m : SessionManager M) (x : Added M)
      → lookup bytes_eq name m.store ≡ some slot
      → IsMatched m
      → Stores name (join slot.session m x)
  unfolding join
  join-Stores name slot m Added.refused e h = h
  join-Stores name slot m Added.panicked e h = tt
  join-Stores name slot m (Added.added i s) e h =
      (set_session-Matched m.accounts slot.session s m.store h, (slot, e, refl))

  Stores-if :
      (name : Bytes) (b : Bool) (x y : Answer M)
      → Stores name x
      → Stores name y
      → Stores name (if b then x else y)
  Stores-if name true x y h k = h
  Stores-if name false x y h k = k

  add_at-Stores :
      (name : Bytes) (multi : Bool) (m : SessionManager M) (slot : SessionSlot)
      (o : Option (Account M))
      → lookup bytes_eq name m.store ≡ some slot
      → IsMatched m
      → Stores name (add_at name multi m slot o)
  unfolding add_at add_to close_at
  add_at-Stores name multi m slot none e h = tt
  add_at-Stores name multi m slot (some acc) e h =
      let closing =
        set_session-Matched m.accounts slot.session (close_session acc.session) m.store h in
      Stores-if name acc.session.closed _ _ h (
        Stores-if name multi _ _
          (Stores-if name (not slot.multi_session) _ _
            (new_session_for-Stores name multi (close_at slot.session acc.session m) closing)
            (Stores-if name (leb max_concurrent_sessions (instance_count acc.session)) _ _ tt
              (join-Stores name slot m (add_instance acc.session) e h)))
          closing)

  add_session-Stores :
      (name : Bytes) (multi : Bool) (m : SessionManager M)
      → IsMatched m
      → Stores name (add_session name multi m)
  unfolding add_session add_found find_rec
  add_session-Stores name multi m h = elim (Option-cases (find_in name m.accounts m.store)) [
    | inl e ↦
        subst (λ o. Stores name (add_found name multi m o)) (sym e)
          (new_session_for-Stores name multi m h)
    | inr (slot, e) ↦
        subst (λ o. Stores name (add_found name multi m o)) (sym e)
          (add_at-Stores name multi m slot (get_elem? m.accounts slot.session)
            (sym (find_in-lookup name m.accounts m.store h) ∙ e) h)
  ]

  resume-Stores :
      (name : Bytes) (multi : Bool) (a : ℕ) (m : SessionManager M) (x : Answer M)
      → IsMatched m
      → resume_add_session name multi a m ≡ some x
      → Stores name x
  unfolding resume_add_session
  resume-Stores name multi a m x h e = elim (Bool-cases (is_removed a m.removed)) [
    | inl r ↦
        let same : new_session_for name multi m ≡ x = ground arith in
        subst (Stores name) same (new_session_for-Stores name multi m h)
    | inr r ↦ absurd (ground arith)
  ]

  remove_stored-Matched :
      (ident : Bytes) (a : ℕ) (m : SessionManager M) (o : Option SessionSlot)
      → IsMatched m
      → IsMatched (remove_stored ident a m o)
  unfolding remove_stored
  remove_stored-Matched ident a m none h = h
  remove_stored-Matched ident a m (some slot) h = elim (Bool-cases (slot.session == a)) [
    | inl q ↦ rw q (delete-Matched m.accounts ident m.store h)
    | inr q ↦ rw q h
  ]

  Step-Matched : {m n : SessionManager M} → Step m n → IsMatched m → IsMatched n
  unfolding remove_session
  Step-Matched (Step.adds m name multi a i m' e) h =
      (subst (Stores name) e (add_session-Stores name multi m h)).0
  Step-Matched (Step.starts_to_wait m name multi a m' e) h =
      subst (Stores name) e (add_session-Stores name multi m h)
  Step-Matched (Step.resumes m name multi waited a i m' e) h =
      (resume-Stores name multi waited m (Answer.returns a i m') h e).0
  Step-Matched (Step.removes m ident a) h =
      remove_stored-Matched ident a m (lookup bytes_eq ident m.store) h
  Step-Matched (Step.evolves m a acc s e small) h = set_session-Matched m.accounts a s m.store h

  Reach-Matched : {m n : SessionManager M} → Reach m n → IsMatched m → IsMatched n
  Reach-Matched Reach.here h = h
  Reach-Matched (Reach.next r st) h = Step-Matched st (Reach-Matched r h)

  -- In whatever order the calls come, the loop of findRec over the store gives for each name what
  -- the map holds under it.
  pub find_rec-lookup :
      (m : SessionManager M) (name : Bytes)
      → Reach new_session_manager m
      → find_rec name m ≡ lookup bytes_eq name m.store
  unfolding find_rec new_session_manager
  find_rec-lookup m name r =
      find_in-lookup name m.accounts m.store (Reach-Matched r (Matched-nil []))

  -- Of the session that AddSession returns, at once or after its wait, findRec gives the slot for
  -- the name that was asked for.
  pub add_session-found :
      (m m' : SessionManager M) (name : Bytes) (multi : Bool) (a i waited : ℕ)
      → Reach new_session_manager m
      → (add_session name multi m ≡ Answer.returns a i m')
        ⊎ (resume_add_session name multi waited m ≡ some (Answer.returns a i m'))
      → (slot : SessionSlot) × (find_rec name m' ≡ some slot) × (slot.session ≡ a)
  unfolding find_rec new_session_manager
  add_session-found m m' name multi a i waited r (inl e) =
      let h = Reach-Matched r (Matched-nil []) in
      let (k, (slot, l, s)) = subst (Stores name) e (add_session-Stores name multi m h) in
      (slot, find_in-lookup name m'.accounts m'.store k ∙ l, s)
  add_session-found m m' name multi a i waited r (inr e) =
      let h = Reach-Matched r (Matched-nil []) in
      let (k, (slot, l, s)) = resume-Stores name multi waited m (Answer.returns a i m') h e in
      (slot, find_in-lookup name m'.accounts m'.store k ∙ l, s)
