-- ===== src/State/Session/Interleaving.antt =====
-- state/session.go: the critical sections of AddInstance, CloseInstance, closeOnly and markClosed,
-- and the callbacks of a close, which run outside of them, in any interleaving of the goroutines.
use retro_aim_server.Prelude.{
  ℕ, suc, ◌+◌, ◌≡◌, Bool, true, false, some, List, [], ◌∷◌, ◌++◌, get_elem?, set, ◌==◌,
}
use retro_aim_server.Prelude.Maps.{delete}
use retro_aim_server.State.Session.{SessionInstance}
use retro_aim_server.State.Session.Entries.{In}
use retro_aim_server.State.Session.Lifecycle.{
  Session, add_instance, Added, remove_instance_and_maybe_close, call_sess_close,
  call_instance_close, shut, mark_closed,
}

-- The session, and the goroutines in the middle of a close. `leaving` has those between the two
-- critical sections, by the number and the address of the instance that each one shut; `calling`
-- counts those about to run onSessCloseFn, and `calling_instances` lists the instances whose
-- onInstanceCloseFn is about to run.
pub record System (M : Type 0) : Type 0 where
  pub session : Session M
  pub leaving : List (ℕ × ℕ)
  pub calling : ℕ
  pub calling_instances : List ℕ

-- Nobody is in the middle of a close.
abbrev pub at_rest : {M : Type 0} → Session M → System M
at_rest s = record { session = s; leaving = []; calling = 0; calling_instances = [] }

-- After removeInstanceAndMaybeClose: the goroutine goes on to the callback that its answer asks for.
unfoldable pub departed : {M : Type 0} → ℕ → ℕ → Bool × Session M → System M → System M
departed n a (true, t) s = record s {
  session = t;
  leaving = delete ◌==◌ n s.leaving;
  calling = s.calling + 1;
}
departed n a (false, t) s = record s {
  session = t;
  leaving = delete ◌==◌ n s.leaving;
  calling_instances = a ∷ s.calling_instances;
}

-- The same in closeOnly.
unfoldable pub departed_only : {M : Type 0} → ℕ → Bool × Session M → System M → System M
departed_only n (true, t) s = record s {
  session = t;
  leaving = delete ◌==◌ n s.leaving;
  calling = s.calling + 1;
}
departed_only n (false, t) s = record s { session = t; leaving = delete ◌==◌ n s.leaving }

-- An instance is written to its place.
unfoldable pub change : {M : Type 0} → ℕ → SessionInstance M → Session M → Session M
change a j s = record s { heap = set s.heap a j }

pub data Step {M : Type 0} : System M → System M → Type 0 where
  adds :
      (s : System M) (a : ℕ) (t : Session M)
      → add_instance s.session ≡ Added.added a t
      → Step s (record s { session = t })
  shuts :
      (s : System M) (a : ℕ) (i : SessionInstance M)
      → get_elem? s.session.heap a ≡ some i
      → i.closed ≡ false
      → Step s
          (record s { session = shut a i s.session; leaving = (i.instance_num, a) ∷ s.leaving })
  departs :
      (s : System M) (n a : ℕ)
      → In n a s.leaving
      → Step s (departed n a (remove_instance_and_maybe_close n a s.session) s)
  departs_only :
      (s : System M) (n a : ℕ)
      → In n a s.leaving
      → Step s (departed_only n (remove_instance_and_maybe_close n a s.session) s)
  calls_back :
      (s : System M) (k : ℕ)
      → s.calling ≡ suc k
      → Step s (record s { session = call_sess_close s.session; calling = k })
  calls_instance_back :
      (s : System M) (before after : List ℕ) (a : ℕ)
      → s.calling_instances ≡ before ++ a ∷ after
      → Step s (record s {
        session = call_instance_close a s.session;
        calling_instances = before ++ after;
      })
  -- Whatever else happens to one instance: its setters, its queue, its own reader.
  changes :
      (s : System M) (a : ℕ) (i j : SessionInstance M)
      → get_elem? s.session.heap a ≡ some i
      → j.instance_num ≡ i.instance_num
      → j.closed ≡ i.closed
      → Step s (record s { session = change a j s.session })
  marks_closed : (s : System M) → Step s (record s { session = mark_closed s.session })

pub data Reach {M : Type 0} (s : System M) : System M → Type 0 where
  here : Reach s s
  next : {t u : System M} → Reach s t → Step t u → Reach s u
