-- ===== src/State/Session/Once.antt =====
-- state/session.go: the invariant of a Session over any interleaving, with the calls of onSessCloseFn.
use retro_aim_server.Prelude.{
  ℕ, suc, ◌+◌, ◌≡◌, ◌≢◌, ◌⊎◌, inl, inr, true, false, some, [], length, ◌==◌, arith, Bool-cases,
  Option-cases, length-set,
}
use retro_aim_server.Prelude.Maps.{delete}
use retro_aim_server.State.Session.{SessionInstance}
use retro_aim_server.State.Session.Entries.{
  In, Numbered, Fresh-lookup, insert-ne-nil, In-ne-nil, In-nil,
}
use retro_aim_server.State.Session.Interleaving.{
  System, Step, Reach, change, at_rest, departed, departed_only,
}
use retro_aim_server.State.Session.Numbering.{generate_instance_num_lem}
use retro_aim_server.State.Session.Invariant.{
  Holds, append-Holds, shut-Holds, delete-Holds, change-Holds,
}
use retro_aim_server.State.Session.Lifecycle.{
  Session, new_session, with_instance, add_instance, Added, remove_instance_and_maybe_close,
  call_sess_close, call_instance_close, shut, mark_closed, generate_instance_num, is_empty,
}

module _ {M : Type 0} where
  -- How often onSessCloseFn ran, where `calling` goroutines are about to run it.
  pub record Once (s : Session M) (calling : ℕ) : Type 0 where
    pub calls :
        (s.sess_close_calls + calling ≡ 0)
        ⊎ ((s.sess_close_calls + calling ≡ 1) × (s.instances ≡ []) × (s.closed ≡ true))
    pub last : s.instances ≡ [] → (length s.heap ≡ 0) ⊎ (s.sess_close_calls + calling ≡ 1)

  pub record IsValid (s : System M) : Type 0 where
    pub holds : Holds s.session.heap s.session.instances s.leaving
    pub once : Once s.session s.calling

  departed-Once :
      (s : System M) (n a : ℕ)
      → s.session.instances ≢ []
      → Once s.session s.calling
      → (let t = departed n a (remove_instance_and_maybe_close n a s.session) s in
          Once t.session t.calling)
  unfolding departed remove_instance_and_maybe_close
  departed-Once s n a busy v = ground arith

  departed_only-Once :
      (s : System M) (n a : ℕ)
      → s.session.instances ≢ []
      → Once s.session s.calling
      → (let t = departed_only n (remove_instance_and_maybe_close n a s.session) s in
          Once t.session t.calling)
  unfolding departed_only remove_instance_and_maybe_close
  departed_only-Once s n a busy v = ground arith

  -- What it takes to join.
  pub add_instance_lem :
      (s : Session M) (a : ℕ) (t : Session M)
      → add_instance s ≡ Added.added a t
      → (n : ℕ) × (generate_instance_num s.instances ≡ some n)
        × (s.closed ≡ false)
        × (a ≡ length s.heap)
        × (t ≡ with_instance n s)
  unfolding add_instance
  add_instance_lem s a t e = elim (Bool-cases s.closed) [
    | inl c ↦ absurd (ground arith)
    | inr c ↦ elim (Option-cases (generate_instance_num s.instances)) [
      | inl q ↦ absurd (ground arith)
      | inr (n, q) ↦ (n, q, c, ground arith, ground arith)
    ]
  ]

  with_instance-IsValid :
      (s : System M) (n : ℕ)
      → generate_instance_num s.session.instances ≡ some n
      → s.session.closed ≡ false
      → IsValid s
      → IsValid (record s { session = with_instance n s.session })
  unfolding with_instance
  with_instance-IsValid s n q c v =
      let (free, low, high) = generate_instance_num_lem s.session.instances n q in
      let held =
        append-Holds s.session.heap s.session.instances s.leaving n v.holds (Fresh-lookup n _ free)
          (low, high) in
      record {
        holds = held;
        once = record {
          calls = ground arith;
          last = λ e. absurd (insert-ne-nil n (length s.session.heap) s.session.instances e);
        };
      }

  shut-Once : (s : Session M) (k a : ℕ) (i : SessionInstance M) → Once s k → Once (shut a i s) k
  unfolding shut
  shut-Once s k a i v = record {
    calls = v.calls;
    last = λ e. rw (length-set s.heap a (record i { closed = true })) (v.last e);
  }

  departed-Holds :
      (s : System M) (n a : ℕ)
      → Holds s.session.heap s.session.instances s.leaving
      → In n a s.leaving
      → (let t = departed n a (remove_instance_and_maybe_close n a s.session) s in
          Holds t.session.heap t.session.instances t.leaving)
  unfolding departed remove_instance_and_maybe_close
  departed-Holds s n a v e =
      let d = delete-Holds s.session.heap s.session.instances s.leaving n a v e in
      elim (Bool-cases (is_empty (delete ◌==◌ n s.session.instances))) [
        | inl q ↦ rw q d
        | inr q ↦ rw q d
      ]

  departed_only-Holds :
      (s : System M) (n a : ℕ)
      → Holds s.session.heap s.session.instances s.leaving
      → In n a s.leaving
      → (let t = departed_only n (remove_instance_and_maybe_close n a s.session) s in
          Holds t.session.heap t.session.instances t.leaving)
  unfolding departed_only remove_instance_and_maybe_close
  departed_only-Holds s n a v e =
      let d = delete-Holds s.session.heap s.session.instances s.leaving n a v e in
      elim (Bool-cases (is_empty (delete ◌==◌ n s.session.instances))) [
        | inl q ↦ rw q d
        | inr q ↦ rw q d
      ]

  mark_closed-Once : (s : Session M) (k : ℕ) → Once s k → Once (mark_closed s) k
  unfolding mark_closed
  mark_closed-Once s k v = ground arith

  -- A callback that ran was one that was about to run.
  called-Once : (s : Session M) (n k : ℕ) → n ≡ suc k → Once s n → Once (call_sess_close s) k
  unfolding call_sess_close
  called-Once s n k e v = ground (arith, v.calls, v.last)

  pub Step-IsValid : {s t : System M} → Step s t → IsValid s → IsValid t
  unfolding shut mark_closed change call_sess_close call_instance_close
  Step-IsValid (Step.adds s a t e) v =
      let (n, q, c, _, t_eq) = add_instance_lem s.session a t e in
      rw t_eq (with_instance-IsValid s n q c v)
  Step-IsValid (Step.shuts s a i at_a c) v = record {
    holds = shut-Holds s.session.heap s.session.instances s.leaving a i v.holds at_a c;
    once = shut-Once s.session s.calling a i v.once;
  }
  Step-IsValid (Step.departs s n a e) v = record {
    holds = departed-Holds s n a v.holds e;
    once = departed-Once s n a (In-ne-nil n a _ (v.holds.leaving_in n a e)) v.once;
  }
  Step-IsValid (Step.departs_only s n a e) v = record {
    holds = departed_only-Holds s n a v.holds e;
    once = departed_only-Once s n a (In-ne-nil n a _ (v.holds.leaving_in n a e)) v.once;
  }
  Step-IsValid (Step.calls_back s k e) v = record {
    holds = v.holds;
    once = called-Once s.session s.calling k e v.once;
  }
  Step-IsValid (Step.calls_instance_back s before after a e) v = record {
    holds = v.holds;
    once = record { calls = v.once.calls; last = v.once.last };
  }
  Step-IsValid (Step.changes s a i j at_a num closed) v = record {
    holds = change-Holds s.session.heap s.session.instances s.leaving a i j v.holds at_a num closed;
    once = record {
      calls = v.once.calls;
      last = λ e. rw (length-set s.session.heap a j) (v.once.last e);
    };
  }
  Step-IsValid (Step.marks_closed s) v = record {
    holds = v.holds;
    once = mark_closed-Once s.session s.calling v.once;
  }

  new-IsValid : IsValid (at_rest new_session)
  unfolding new_session Numbered
  new-IsValid = record {
    holds = record {
      numbered = tt;
      leaving_numbered = tt;
      in_range = λ n a e. absurd (In-nil n a e);
      held = λ n a e. absurd (In-nil n a e);
      leaving_in = λ n a e. absurd (In-nil n a e);
      leaving_closed = λ n a i e. absurd (In-nil n a e);
      open_in = λ a i e. absurd (cc);
      closed_leaving = λ n a i e. absurd (In-nil n a e);
    };
    once = omega arith;
  }

  -- In every state that is reached from a new session, in any interleaving: the numbers in the map
  -- are distinct, from 1 to 255, and those of their instances; every open instance is in the map, and
  -- a closed one only while the goroutine that shut it has not removed it; and onSessCloseFn, counted
  -- with the goroutines that are about to run it, has at most one call; with one, the map is empty
  -- and the session closed; and a map that is empty means one, unless no instance was ever added.
  pub Reach-IsValid : (s : System M) → Reach (at_rest new_session) s → IsValid s
  Reach-IsValid s Reach.here = new-IsValid
  Reach-IsValid s (Reach.next {t} r st) = Step-IsValid st (Reach-IsValid t r)
