-- ===== src/State/Session/Ordered.antt =====
-- state/session.go: the slice that Session.Instances copies, against the map of the instances.
use retro_aim_server.Prelude.{
  ℕ, ◌≡◌, ◌≢◌, ◌⊎◌, inl, inr, refl, sym, ap, ◌∙◌, some, List, [], ◌∷◌, ◌++◌, All, length, ◌==◌,
  ==_iff, arith, Bool-cases,
}
use retro_aim_server.Prelude.Maps.{insert, delete}
use retro_aim_server.State.Session.{SessionInstance}
use retro_aim_server.State.Session.Entries.{
  In, Numbered, Fresh, Fresh-lookup, delete-Fresh, In-unique, In-cons, In-head, In-tail, In-nil,
}
use retro_aim_server.State.Session.Interleaving.{
  System, Step, Reach, change, at_rest, departed, departed_only,
}
use retro_aim_server.State.Session.Numbering.{generate_instance_num_lem}
use retro_aim_server.State.Session.Invariant.{Holds}
use retro_aim_server.State.Session.Lifecycle.{
  Session, new_session, with_instance, remove_instance_and_maybe_close, call_sess_close,
  call_instance_close, shut, mark_closed, remove_addr,
}
use retro_aim_server.State.Session.Once.{IsValid, add_instance_lem, Reach-IsValid}

abbrev pub addrs : List (ℕ × ℕ) → List ℕ
addrs [] = []
addrs ((n, a) ∷ m) = a ∷ addrs m

abbrev pub Distinct : List ℕ → Type 0
Distinct [] = Unit {0}
Distinct (a ∷ as') = All (λ b. b ≢ a) as' × Distinct as'

abbrev pub Among : ℕ → List ℕ → Type 0
Among a [] = ⊥
Among a (b ∷ bs) = (b ≡ a) ⊎ Among a bs

pub In-Among : (n a : ℕ) (m : List (ℕ × ℕ)) → In n a m → Among a (addrs m)
In-Among n a [] e = In-nil n a e
In-Among n a ((k, b) ∷ m) e = elim (In-cons n a k b m e) [
  | inl (_, q) ↦ inl q
  | inr e' ↦ inr (In-Among n a m e')
]

insert-Fresh :
    (n a : ℕ) (m : List (ℕ × ℕ)) → Fresh n m → addrs (insert ◌==◌ n a m) ≡ addrs m ++ a ∷ []
unfolding Fresh insert
insert-Fresh n a [] h = refl
insert-Fresh n a ((k, b) ∷ m) h = ground (arith, insert-Fresh n a m)

-- Where only the number `n` has the address `a`.
delete-addrs :
    (n a : ℕ) (m : List (ℕ × ℕ))
    → Numbered m
    → In n a m
    → ((k : ℕ) → In k a m → k ≡ n)
    → addrs (delete ◌==◌ n m) ≡ remove_addr a (addrs m)
unfolding delete remove_addr Numbered
delete-addrs n a [] d e one = refl
delete-addrs n a ((k, b) ∷ m) d e one = elim (Bool-cases (k == n)) [
  | inl q ↦
      let k_n : k ≡ n = (==_iff k n).0 q in
      let here : In n b ((k, b) ∷ m) = rw k_n (In-head n b m) in
      let b_a : b ≡ a = In-unique n b a ((k, b) ∷ m) d here e in
      rw (q, (==_iff b a).1 b_a) (ap addrs (delete-Fresh n m (rw (← k_n) d.0)))
  | inr q ↦ elim (In-cons n a k b m e) [
    | inl (k_n, _) ↦ absurd (ground arith)
    | inr e' ↦
        let rec = delete-addrs n a m d.1 e' (λ j f. one j (In-tail j a k b m f)) in
        elim (Bool-cases (b == a)) [
          | inl b_a ↦
              let same : b ≡ a = (==_iff b a).0 b_a in
              absurd (ground (arith, one k (rw same (In-head k a m))))
          | inr b_a ↦ rw (q, b_a) (ap (λ l. b ∷ l) rec)
        ]
  ]
]

pub same_some {ℓ} : {A : Type ℓ} (x y : A) → some x ≡ some y → x ≡ y
same_some x y e = cc

addrs-Apart :
    (n a : ℕ) (m : List (ℕ × ℕ))
    → Fresh n m
    → ((k : ℕ) → In k a m → k ≡ n)
    → All (λ b. b ≢ a) (addrs m)
unfolding Fresh
addrs-Apart n a [] f one = tt
addrs-Apart n a ((k, b) ∷ m) f one = (
  λ e. f.0 (one k (rw e (In-head k a m))),
  addrs-Apart n a m f.1 (λ j g. one j (In-tail j a k b m g)),
)

addrs-Distinct :
    (m : List (ℕ × ℕ))
    → Numbered m
    → ((n k a : ℕ) → In n a m → In k a m → k ≡ n)
    → Distinct (addrs m)
unfolding Numbered
addrs-Distinct [] d one = tt
addrs-Distinct ((n, a) ∷ m) d one = (
  addrs-Apart n a m d.0 (λ k f. one n k a (In-head n a m) (In-tail k a n a m f)),
  addrs-Distinct m d.1 (λ j k b f g. one j k b (In-tail j b n a m f) (In-tail k b n a m g)),
)

module _ {M : Type 0} where
  abbrev pub Aligned : System M → Type 0
  Aligned s = s.session.instances_ordered ≡ addrs s.session.instances

  -- Only its own number leads to an instance.
  one_number :
      (h : List (SessionInstance M)) (m p : List (ℕ × ℕ)) (n k a : ℕ)
      → Holds h m p
      → In n a m
      → In k a m
      → k ≡ n
  one_number h m p n k a v e f =
      let (i, at_i, num_i) = v.held n a e in
      let (j, at_j, num_j) = v.held k a f in
      sym num_j ∙ ap SessionInstance.instance_num (same_some j i (sym at_j ∙ at_i)) ∙ num_i

  -- The two maps after removeInstanceAndMaybeClose, whichever close goes on.
  abbrev HasLost : ℕ → ℕ → System M → System M → Type 0
  HasLost n a s t =
      (t.session.instances ≡ delete ◌==◌ n s.session.instances)
      × (t.session.instances_ordered ≡ remove_addr a s.session.instances_ordered)

  departed-HasLost :
      (n a : ℕ) (s : System M)
      → HasLost n a s (departed n a (remove_instance_and_maybe_close n a s.session) s)
  unfolding departed remove_instance_and_maybe_close
  departed-HasLost n a s = ground arith

  departed_only-HasLost :
      (n a : ℕ) (s : System M)
      → HasLost n a s (departed_only n (remove_instance_and_maybe_close n a s.session) s)
  unfolding departed_only remove_instance_and_maybe_close
  departed_only-HasLost n a s = ground arith

  lost-Aligned :
      (s t : System M) (n a : ℕ)
      → IsValid s
      → Aligned s
      → In n a s.leaving
      → HasLost n a s t
      → Aligned t
  lost-Aligned s t n a v h e (x, y) =
      let m = s.session.instances in
      let held = v.holds.leaving_in n a e in
      y
      ∙ ap (remove_addr a) h
      ∙ sym (
          delete-addrs n a m v.holds.numbered held
            (λ k f. one_number s.session.heap m s.leaving n k a v.holds held f))
      ∙ ap addrs (sym x)

  Step-Aligned : {s t : System M} → Step s t → IsValid s → Aligned s → Aligned t
  unfolding shut mark_closed with_instance change call_sess_close call_instance_close
  Step-Aligned (Step.adds s a t e) v h =
      let (n, q, _, _, t_eq) = add_instance_lem s.session a t e in
      let (free, _, _) = generate_instance_num_lem s.session.instances n q in
      let m = s.session.instances in
      let new = length s.session.heap in
      ap Session.instances_ordered t_eq
      ∙ ap (λ l. l ++ new ∷ []) h
      ∙ sym (insert-Fresh n new m (Fresh-lookup n m free))
      ∙ ap (λ (u : Session M). addrs u.instances) (sym t_eq)
  Step-Aligned (Step.shuts s a i at_a c) v h = h
  Step-Aligned (Step.departs s n a e) v h =
      lost-Aligned s (departed n a (remove_instance_and_maybe_close n a s.session) s) n a v h e
        (departed-HasLost n a s)
  Step-Aligned (Step.departs_only s n a e) v h =
      lost-Aligned s (departed_only n (remove_instance_and_maybe_close n a s.session) s) n a v h e
        (departed_only-HasLost n a s)
  Step-Aligned (Step.calls_back s k e) v h = h
  Step-Aligned (Step.calls_instance_back s before after a e) v h = h
  Step-Aligned (Step.changes s a i j at_a num closed) v h = h
  Step-Aligned (Step.marks_closed s) v h = h

  -- In every state that the critical sections of a session can reach, in any interleaving,
  -- Instances gives just the instances of the map.
  pub Reach-Aligned : (s : System M) → Reach (at_rest new_session) s → Aligned s
  unfolding new_session
  Reach-Aligned s Reach.here = refl
  Reach-Aligned s (Reach.next {t} r st) = Step-Aligned st (Reach-IsValid t r) (Reach-Aligned t r)

  -- Each one once.
  pub ordered-Distinct :
      (s : System M) → IsValid s → Aligned s → Distinct s.session.instances_ordered
  ordered-Distinct s v h = rw h (
      addrs-Distinct s.session.instances v.holds.numbered
        (λ n k a e f. one_number s.session.heap s.session.instances s.leaving n k a v.holds e f))
