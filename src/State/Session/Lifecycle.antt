-- ===== src/State/Session/Lifecycle.antt =====
-- state/session.go: the instances of a Session, and how they join and leave it. An instance is
-- named by its address, its place in `heap`, where all that the session ever made stay;
-- `instances` is the map from instance numbers, `instances_ordered` the slice. `sess_close_calls`
-- counts the calls of onSessCloseFn, and `instance_close_calls` lists the instances whose
-- onInstanceCloseFn was called.
use retro_aim_server.Prelude.{
  ℕ, zero, suc, ◌+◌, Bool, true, false, Option, none, some, List, [], ◌∷◌, ◌++◌, length, get_elem?,
  set, if◌then◌else◌, ◌==◌,
}
use retro_aim_server.Prelude.Maps.{lookup, insert, delete}
use retro_aim_server.State.Session.{SessionInstance, new_instance, live}

pub record Session (M : Type 0) : Type 0 where
  pub heap : List (SessionInstance M)
  pub instances : List (ℕ × ℕ)
  pub instances_ordered : List ℕ
  pub closed : Bool
  pub sess_close_calls : ℕ
  pub instance_close_calls : List ℕ

-- `for num := uint8(1); num != 0; num++`: 255 rounds, then the counter wraps to 0.
unfoldable pub next_num : List (ℕ × ℕ) → ℕ → ℕ → Option ℕ
next_num m zero num = none
next_num m (suc rounds) num =
    let rest = next_num m rounds (num + 1) in
    elim (lookup ◌==◌ num m) [ none ↦ some num | some _ ↦ rest ]

-- generateInstanceNum; `none` is its panic.
unfoldable pub generate_instance_num : List (ℕ × ℕ) → Option ℕ
unfolding next_num
generate_instance_num m = next_num m 255 1

-- The slice without the first place of an instance.
unfoldable pub remove_addr : ℕ → List ℕ → List ℕ
remove_addr a [] = []
remove_addr a (b ∷ bs) = let rest = remove_addr a bs in if b == a then bs else b ∷ rest

unfoldable pub is_empty : List (ℕ × ℕ) → Bool
is_empty [] = true
is_empty (_ ∷ _) = false

-- nil for a closed session, a panic where no number is free, or the address of the new instance.
pub data Added (M : Type 0) : Type 0 where
  refused panicked : Added M
  added : ℕ → Session M → Added M

module _ {M : Type 0} where
  unfoldable pub new_session : Session M
  new_session = record {
    heap = [];
    instances = [];
    instances_ordered = [];
    closed = false;
    sess_close_calls = 0;
    instance_close_calls = [];
  }

  unfoldable pub with_instance : ℕ → Session M → Session M
  with_instance num s = record s {
    heap = s.heap ++ new_instance num ∷ [];
    instances = insert ◌==◌ num (length s.heap) s.instances;
    instances_ordered = s.instances_ordered ++ length s.heap ∷ [];
  }

  unfoldable pub add_instance : Session M → Added M
  unfolding with_instance
  add_instance s = if s.closed then Added.refused else elim (generate_instance_num s.instances) [
    | none ↦ Added.panicked
    | some num ↦ Added.added (length s.heap) (with_instance num s)
  ]

  -- `num` is the number of the instance at `a`.
  unfoldable pub remove_instance_locked : ℕ → ℕ → Session M → Session M
  remove_instance_locked num a s = record s {
    instances = delete ◌==◌ num s.instances;
    instances_ordered = remove_addr a s.instances_ordered;
  }

  unfoldable pub maybe_close : Session M → Bool × Session M
  unfolding is_empty
  maybe_close s = if is_empty s.instances then (true, record s { closed = true }) else (false, s)

  -- One critical section; the answer says whether the instance was the last one.
  unfoldable pub remove_instance_and_maybe_close : ℕ → ℕ → Session M → Bool × Session M
  unfolding remove_instance_locked maybe_close
  remove_instance_and_maybe_close num a s = maybe_close (remove_instance_locked num a s)

  -- The calls of onSessCloseFn and of onInstanceCloseFn, with no lock held.
  unfoldable pub call_sess_close : Session M → Session M
  call_sess_close s = record s { sess_close_calls = s.sess_close_calls + 1 }

  unfoldable pub call_instance_close : ℕ → Session M → Session M
  call_instance_close a s = record s { instance_close_calls = s.instance_close_calls ++ a ∷ [] }

  -- What CloseInstance does on that answer.
  unfoldable pub call_back : ℕ → Bool × Session M → Session M
  unfolding call_sess_close call_instance_close
  call_back a (true, s) = call_sess_close s
  call_back a (false, s) = call_instance_close a s

  -- The same for closeOnly, which runs no callback of the instance.
  unfoldable pub call_back_only : Bool × Session M → Session M
  unfolding call_sess_close
  call_back_only (true, s) = call_sess_close s
  call_back_only (false, s) = s

  -- All that follows the first critical section, where nobody comes in between.
  unfoldable pub depart : ℕ → ℕ → Session M → Session M
  unfolding remove_instance_and_maybe_close call_back
  depart num a s = call_back a (remove_instance_and_maybe_close num a s)

  unfoldable pub depart_only : ℕ → ℕ → Session M → Session M
  unfolding remove_instance_and_maybe_close call_back_only
  depart_only num a s = call_back_only (remove_instance_and_maybe_close num a s)

  -- The first critical section of CloseInstance and of closeOnly.
  unfoldable pub shut : ℕ → SessionInstance M → Session M → Session M
  shut a i s = record s { heap = set s.heap a (record i { closed = true }) }

  unfoldable pub close_instance_at : ℕ → Session M → Option (SessionInstance M) → Session M
  unfolding shut depart
  close_instance_at a s none = s
  close_instance_at a s (some i) = if i.closed then s else depart i.instance_num a (shut a i s)

  unfoldable pub close_instance : ℕ → Session M → Session M
  unfolding close_instance_at
  close_instance a s = close_instance_at a s (get_elem? s.heap a)

  unfoldable pub close_only_at : ℕ → Session M → Option (SessionInstance M) → Session M
  unfolding shut depart_only
  close_only_at a s none = s
  close_only_at a s (some i) = if i.closed then s else depart_only i.instance_num a (shut a i s)

  unfoldable pub close_only : ℕ → Session M → Session M
  unfolding close_only_at
  close_only a s = close_only_at a s (get_elem? s.heap a)

  unfoldable pub mark_closed : Session M → Session M
  mark_closed s = record s { closed = true }

  -- The loop of CloseSession over its copy of the map. A Go map has no order; this is one of its.
  unfoldable pub close_each : List (ℕ × ℕ) → Session M → Session M
  unfolding close_only
  close_each [] s = s
  close_each ((num, a) ∷ m) s = close_each m (close_only a s)

  unfoldable pub close_session : Session M → Session M
  unfolding close_each mark_closed
  close_session s = let s' = mark_closed s in close_each s'.instances s'

  -- What the one run of `fn` came to.
  unfoldable pub run_first :
      {E : Type 0} → Option E → Session M → Option E × (Option (Option E) × Session M)
  unfolding close_session
  run_first none s = (none, (some none, s))
  run_first (some e) s = (some e, (some (some e), close_session s))

  -- RunOnce over sync.Once, which holds what its one call returned.
  unfoldable pub run_once :
      {E : Type 0}
      → (Session M → Session M × Option E)
      → Option (Option E) × Session M
      → Option E × (Option (Option E) × Session M)
  unfolding run_first
  run_once fn (some err, s) = (err, (some err, s))
  run_once fn (none, s) = run_first (fn s).1 (fn s).0

  -- The instances of the session as they are now, in the order they were added.
  unfoldable pub at_addrs : List (SessionInstance M) → List ℕ → List (SessionInstance M)
  at_addrs heap [] = []
  at_addrs heap (a ∷ as') =
      let rest = at_addrs heap as' in elim (get_elem? heap a) [ none ↦ rest | some i ↦ i ∷ rest ]

  unfoldable pub session_instances : Session M → List (SessionInstance M)
  unfolding at_addrs
  session_instances s = at_addrs s.heap s.instances_ordered

  unfoldable pub any_live : List (SessionInstance M) → Bool
  any_live [] = false
  any_live (i ∷ is) = let rest = any_live is in if live i then true else rest

  unfoldable pub has_live_instances : Session M → Bool
  unfolding session_instances any_live
  has_live_instances s = any_live (session_instances s)

  unfoldable pub instance_count : Session M → ℕ
  instance_count s = length s.instances
