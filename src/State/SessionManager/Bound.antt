-- ===== src/State/SessionManager/Bound.antt =====
-- state/session_manager.go: no session gets more instances than maxConcurrentSessions, so that
-- AddSession never runs into the panic of generateInstanceNum.
use retro_aim_server.Prelude.{
  ℕ, zero, suc, ◌+◌, ◌≤◌, ◌≡◌, inl, inr, none, some, List, [], ◌∷◌, length, get_elem?, ◌==◌, leb,
  if◌then◌else◌, arith, Bool-cases, Option-cases,
}
use retro_aim_server.Prelude.Maps.{lookup, insert, delete}
use retro_aim_server.State.Session.Lifecycle.{
  Session, Added, with_instance, add_instance, next_num, generate_instance_num, close_session,
  close_each, close_only, close_only_at, depart_only, shut, mark_closed,
}
use retro_aim_server.State.Session.Once.{add_instance_lem}

-- How many entries have a number from `num` on.
count_from : ℕ → List (ℕ × ℕ) → ℕ
count_from num [] = 0
count_from num ((k, a) ∷ m) = let rest = count_from num m in if leb num k then suc rest else rest

count_from-le : (num : ℕ) (m : List (ℕ × ℕ)) → count_from num m ≤ length m
unfolding count_from
count_from-le num [] = omega arith
count_from-le num ((k, a) ∷ m) = ground (arith, count_from-le num m)

count_from_mono : (num : ℕ) (m : List (ℕ × ℕ)) → count_from (num + 1) m ≤ count_from num m
unfolding count_from
count_from_mono num [] = omega arith
count_from_mono num ((k, a) ∷ m) = ground (arith, count_from_mono num m)

-- A number that is taken counts.
count_from-taken :
    (num a : ℕ) (m : List (ℕ × ℕ))
    → lookup ◌==◌ num m ≡ some a
    → suc (count_from (num + 1) m) ≤ count_from num m
unfolding count_from lookup
count_from-taken num a [] h = cc
count_from-taken num a ((k, b) ∷ m) h =
    ground (arith, count_from-taken num a m, count_from_mono num m)

next_num-none :
    (m : List (ℕ × ℕ)) (rounds num : ℕ) → next_num m rounds num ≡ none → rounds ≤ count_from num m
unfolding next_num
next_num-none m zero num h = omega arith
next_num-none m (suc rounds) num h = elim (Option-cases (lookup ◌==◌ num m)) [
  | inl e ↦ absurd (ground arith)
  | inr (a, e) ↦
      let below = next_num-none m rounds (num + 1) (ground arith) in
      omega (arith, count_from-taken num a m e)
]

length-insert : (n a : ℕ) (m : List (ℕ × ℕ)) → length (insert ◌==◌ n a m) ≤ length m + 1
unfolding insert
length-insert n a [] = omega arith
length-insert n a ((k, b) ∷ m) = ground (arith, length-insert n a m)

length-delete : (n : ℕ) (m : List (ℕ × ℕ)) → length (delete ◌==◌ n m) ≤ length m
unfolding delete
length-delete n [] = omega arith
length-delete n ((k, b) ∷ m) = ground (arith, length-delete n m)

module _ {M : Type 0} where
  -- AddInstance panics only for a session of at least 255 instances.
  pub add_instance-panics :
      (s : Session M) → add_instance s ≡ Added.panicked → 255 ≤ length s.instances
  unfolding add_instance generate_instance_num
  add_instance-panics s h = elim (Bool-cases s.closed) [
    | inl c ↦ absurd (ground arith)
    | inr c ↦ elim (Option-cases (next_num s.instances 255 1)) [
      | inl q ↦ omega (arith, next_num-none s.instances 255 1 q, count_from-le 1 s.instances)
      | inr (n, q) ↦ absurd (ground arith)
    ]
  ]

  pub add_instance-length :
      (s t : Session M) (a : ℕ)
      → add_instance s ≡ Added.added a t
      → length t.instances ≤ length s.instances + 1
  unfolding with_instance
  add_instance-length s t a h =
      let (n, _, _, _, e) = add_instance_lem s a t h in
      rw e (length-insert n (length s.heap) s.instances)

  depart_only-length :
      (n a : ℕ) (s : Session M) → length (depart_only n a s).instances ≤ length s.instances
  unfolding depart_only
  depart_only-length n a s = ground (arith, length-delete n s.instances)

  close_only_at-length :
      (a : ℕ) (s : Session M) (o : _) → length (close_only_at a s o).instances ≤ length s.instances
  unfolding close_only_at shut
  close_only_at-length a s none = omega arith
  close_only_at-length a s (some i) = elim (Bool-cases i.closed) [
    | inl c ↦ rw c (omega arith)
    | inr c ↦ rw c (depart_only-length i.instance_num a (shut a i s))
  ]

  close_each-length :
      (m : List (ℕ × ℕ)) (s : Session M) → length (close_each m s).instances ≤ length s.instances
  unfolding close_each close_only
  close_each-length [] s = omega arith
  close_each-length ((n, a) ∷ m) s =
      omega
        (arith, close_each-length m (close_only a s), close_only_at-length a s (get_elem? s.heap a))

  pub close_session-length :
      (s : Session M) → length (close_session s).instances ≤ length s.instances
  unfolding close_session mark_closed
  close_session-length s = close_each-length s.instances (mark_closed s)
