-- ===== src/State/Session/Closing.antt =====
-- state/session.go: what CloseSession and a failed RunOnce leave behind.
use mathlib.Core.Path.{subst}
use retro_aim_server.Prelude.{
  ℕ, ◌≡◌, ◌⊎◌, inl, inr, refl, sym, ap, ◌∙◌, Bool, true, false, Option, none, some, List, [], ◌∷◌,
  length, get_elem?, ◌==◌, arith, Bool-cases,
}
use retro_aim_server.Prelude.Maps.{delete}
use retro_aim_server.State.Session.{SessionInstance}
use retro_aim_server.State.Session.Entries.{delete_head, delete_one, In-nil, In-head}
use retro_aim_server.State.Session.Interleaving.{Step, at_rest, departed_only}
use retro_aim_server.State.Session.Lifecycle.{
  Session, add_instance, Added, depart_only, remove_instance_and_maybe_close, call_back_only, shut,
  mark_closed, close_only, close_only_at, close_each, close_session, run_once, run_first,
}
use retro_aim_server.State.Session.Once.{Once, IsValid, Step-IsValid}

module _ {M : Type 0} where
  -- Nobody is in the middle of a close.
  abbrev pub IsQuiet : Session M → Type 0
  IsQuiet s = IsValid (at_rest s)

  depart_only-closed :
      (n a : ℕ) (s : Session M) → s.closed ≡ true → (depart_only n a s).closed ≡ true
  unfolding depart_only
  depart_only-closed n a s h = ground arith

  close_only_at-closed :
      (a : ℕ) (s : Session M) (o : Option (SessionInstance M))
      → s.closed ≡ true
      → (close_only_at a s o).closed ≡ true
  unfolding close_only_at
  close_only_at-closed a s none h = h
  close_only_at-closed a s (some i) h = elim (Bool-cases i.closed) [
    | inl c ↦ rw c h
    | inr c ↦ rw c (depart_only-closed i.instance_num a (shut a i s) h)
  ]

  close_only-closed : (a : ℕ) (s : Session M) → s.closed ≡ true → (close_only a s).closed ≡ true
  unfolding close_only
  close_only-closed a s h = close_only_at-closed a s (get_elem? s.heap a) h

  close_each-closed :
      (m : List (ℕ × ℕ)) (s : Session M) → s.closed ≡ true → (close_each m s).closed ≡ true
  unfolding close_each
  close_each-closed [] s h = h
  close_each-closed ((n, a) ∷ m) s h =
      close_each-closed m (close_only a s) (close_only-closed a s h)

  close_session-closed : (s : Session M) → (close_session s).closed ≡ true
  unfolding close_session
  close_session-closed s = close_each-closed s.instances (mark_closed s) refl

  pub add_instance-closed : (s : Session M) → s.closed ≡ true → add_instance s ≡ Added.refused
  unfolding add_instance
  add_instance-closed s h = rw h

  -- One round of the loop, where nobody else closes.
  close_only_open :
      (a : ℕ) (i : SessionInstance M) (s : Session M)
      → get_elem? s.heap a ≡ some i
      → i.closed ≡ false
      → close_only a s ≡ depart_only i.instance_num a (shut a i s)
  unfolding close_only
  close_only_open a i s e c = ap (close_only_at a s) e ∙ rw c

  -- The rest of closeOnly, where nobody comes in between.
  departed_only-IsQuiet :
      (n a : ℕ) (x : Bool × Session M) (s : Session M)
      → IsValid (departed_only n x (record (at_rest s) { leaving = (n, a) ∷ [] }))
      → IsQuiet (call_back_only x)
  unfolding departed_only call_back_only
  departed_only-IsQuiet n a (true, t) s v =
      Step-IsValid (Step.calls_back (record (at_rest t) { calling = 1 }) 0 refl)
        (subst (λ p. IsValid (record (at_rest t) { leaving = p; calling = 1 })) (delete_one n a) v)
  departed_only-IsQuiet n a (false, t) s v =
      subst (λ p. IsValid (record (at_rest t) { leaving = p })) (delete_one n a) v

  depart_only-IsQuiet :
      (n a : ℕ) (s : Session M)
      → IsValid (record (at_rest s) { leaving = (n, a) ∷ [] })
      → IsQuiet (depart_only n a s)
  unfolding depart_only
  depart_only-IsQuiet n a s v =
      departed_only-IsQuiet n a (remove_instance_and_maybe_close n a s) s (
        Step-IsValid
          (Step.departs_only (record (at_rest s) { leaving = (n, a) ∷ [] }) n a (In-head n a [])) v)

  close_only-IsQuiet :
      (a : ℕ) (i : SessionInstance M) (s : Session M)
      → get_elem? s.heap a ≡ some i
      → i.closed ≡ false
      → IsQuiet s
      → IsQuiet (close_only a s)
  unfolding delete
  close_only-IsQuiet a i s e c v =
      let n = i.instance_num in
      rw (close_only_open a i s e c)
        (depart_only-IsQuiet n a (shut a i s) (Step-IsValid (Step.shuts (at_rest s) a i e c) v))

  depart_only-instances :
      (n a : ℕ) (s : Session M) → (depart_only n a s).instances ≡ delete ◌==◌ n s.instances
  unfolding depart_only
  depart_only-instances n a s = ground arith

  close_each-ends :
      (m : List (ℕ × ℕ)) (s : Session M)
      → s.instances ≡ m
      → IsQuiet s
      → IsQuiet (close_each m s) × ((close_each m s).instances ≡ [])
  unfolding close_each shut
  close_each-ends [] s e v = (v, e)
  close_each-ends ((n, a) ∷ m) s e v =
      let (i, at_a, num) = v.holds.held n a (rw e (In-head n a m)) in
      let open' : i.closed ≡ false = elim (Bool-cases i.closed) [
        | inl c ↦ absurd (In-nil n a (v.holds.closed_leaving n a i (rw e (In-head n a m)) at_a c))
        | inr c ↦ c
      ] in
      close_each-ends m (close_only a s)
        ((ap Session.instances (close_only_open a i s at_a open')
          ∙ depart_only-instances i.instance_num a (shut a i s)
          ∙ ap (λ k. delete ◌==◌ k s.instances) num
          ∙ ap (delete ◌==◌ n) e
          ∙ delete_head n a m (rw (← e) v.holds.numbered)))
        (close_only-IsQuiet a i s at_a open' v)

  one_close_call :
      {s : Session M} → Once s 0 → s.instances ≡ [] → (length s.heap ≡ 0) ⊎ (s.sess_close_calls ≡ 1)
  one_close_call v e = ground (arith, v.last e)

  -- CloseSession, called while nobody else closes, leaves a session with no instance, all of whose
  -- instances are closed, whose closing callback has run once unless it never had an instance, and
  -- which refuses every later AddInstance.
  pub close_session-ends :
      (s : Session M)
      → IsQuiet s
      → IsQuiet (close_session s)
        × ((close_session s).instances ≡ [])
        × ((length (close_session s).heap ≡ 0) ⊎ ((close_session s).sess_close_calls ≡ 1))
        × (add_instance (close_session s) ≡ Added.refused)
  unfolding close_session mark_closed
  close_session-ends s v =
      let (q, e) =
        close_each-ends s.instances (mark_closed s) refl
          (Step-IsValid (Step.marks_closed (at_rest s)) v) in
      (
        q,
        e,
        one_close_call q.once e,
        add_instance-closed (close_session s) (close_session-closed s),
      )

  -- After CloseSession, called while nobody else closes, every instance that the session ever made
  -- is closed.
  pub close_session-closes :
      (s : Session M) (a : ℕ) (i : SessionInstance M)
      → IsQuiet s
      → get_elem? (close_session s).heap a ≡ some i
      → i.closed ≡ true
  close_session-closes s a i v at_a =
      let (q, e, _, _) = close_session-ends s v in
      elim (Bool-cases i.closed) [
        | inl c ↦ c
        | inr c ↦ absurd (In-nil i.instance_num a (rw (← e) (q.holds.open_in a i at_a c)))
      ]

  -- Where the function given to the first RunOnce fails, each later RunOnce of the session, with
  -- whatever function, returns the same error and runs nothing, and no instance can be added.
  pub run_once_failed :
      {E : Type 0} (fn later : Session M → Session M × Option E) (s : Session M) (e : E)
      → (fn s).1 ≡ some e
      → (run_once later (run_once fn (none, s)).1 ≡ (some e, (run_once fn (none, s)).1))
        × (add_instance (run_once fn (none, s)).1.1 ≡ Added.refused)
  unfolding run_once run_first
  run_once_failed {E} fn later s e h =
      let first : run_once fn (none, s) ≡ (some e, (some (some e), close_session (fn s).0)) =
        ap (λ (o : Option E). run_first o (fn s).0) h in
      subst
        (λ (r : Option E × (Option (Option E) × Session M)).
          (run_once later r.1 ≡ (some e, r.1)) × (add_instance r.1.1 ≡ Added.refused))
        (sym first)
        (refl, add_instance-closed (close_session (fn s).0) (close_session-closed (fn s).0))
