-- ===== src/State/Session/Teardown.antt =====
-- state/session.go: where every instance has been closed, and every close has run to its end.
use retro_aim_server.Prelude.{
  ℕ, ◌≡◌, ◌⊎◌, inl, inr, refl, sym, ◌∙◌, ◌↔◌, true, false, some, Bool-cases, List, [], ◌∷◌, length,
  get_elem?, arith,
}
use retro_aim_server.State.Session.{SessionInstance}
use retro_aim_server.State.Session.Entries.{In, In-head, In-nil, In-tail}
use retro_aim_server.State.Session.Interleaving.{System, Reach, at_rest}
use retro_aim_server.State.Session.Lifecycle.{Session, Added, add_instance, new_session}
use retro_aim_server.State.Session.Closing.{add_instance-closed}
use retro_aim_server.State.Session.Ordered.{
  Among, Distinct, In-Among, addrs, ordered-Distinct, Reach-Aligned, same_some,
}
use retro_aim_server.State.Session.Once.{Once, IsValid, Reach-IsValid}

Among-In : (a : ℕ) (m : List (ℕ × ℕ)) → Among a (addrs m) → (n : ℕ) × In n a m
Among-In a [] h = absurd h
Among-In a ((n, b) ∷ m) (inl e) = (n, rw e (In-head n a m))
Among-In a ((n, b) ∷ m) (inr h) = let (k, e) = Among-In a m h in (k, In-tail k a n b m e)

module _ {M : Type 0} where
  abbrev pub AllClosed : Session M → Type 0
  AllClosed s = (a : ℕ) (i : SessionInstance M) → get_elem? s.heap a ≡ some i → i.closed ≡ true

  no_entry :
      (s : System M) (m : List (ℕ × ℕ))
      → s.session.instances ≡ m
      → IsValid s
      → s.leaving ≡ []
      → AllClosed s.session
      → m ≡ []
  no_entry s [] e v settled closed = refl
  no_entry s ((n, a) ∷ m) e v settled closed =
      let entry : In n a s.session.instances = rw e (In-head n a m) in
      let (i, at_a, num) = v.holds.held n a entry in
      absurd
        (In-nil n a (rw settled at (v.holds.closed_leaving n a i entry at_a (closed a i at_a))))

  one_close_call :
      (s : Session M) (calling : ℕ)
      → calling ≡ 0
      → Once s calling
      → s.instances ≡ []
      → (length s.heap ≡ 0) ⊎ ((s.sess_close_calls ≡ 1) × (s.closed ≡ true))
  one_close_call s calling e v none_left = ground (arith, v.calls, v.last none_left)

  -- In every state reached from a new session in which all its instances are closed and no goroutine
  -- is in the middle of a close, the map is empty; and if there was an instance at all, onSessCloseFn
  -- has run exactly once, and the session refuses every AddInstance.
  pub torn_down_once :
      (s : System M)
      → Reach (at_rest new_session) s
      → s.leaving ≡ []
      → s.calling ≡ 0
      → AllClosed s.session
      → (s.session.instances ≡ [])
        × ((length s.session.heap ≡ 0)
            ⊎ ((s.session.sess_close_calls ≡ 1) × (add_instance s.session ≡ Added.refused)))
  torn_down_once s r settled quiet closed =
      let v = Reach-IsValid s r in
      let none_left = no_entry s s.session.instances refl v settled closed in
      (
        none_left,
        elim (one_close_call s.session s.calling quiet v.once none_left) [
          | inl e ↦ inl e
          | inr (once, shut) ↦ inr (once, add_instance-closed s.session shut)
        ],
      )

  listed-entry :
      (s : System M) (a n : ℕ) (i : SessionInstance M)
      → IsValid s
      → get_elem? s.session.heap a ≡ some i
      → In n a s.session.instances
      → (i.closed ≡ false) ⊎ In i.instance_num a s.leaving
  listed-entry s a n i v at_a e = elim (Bool-cases i.closed) [
    | inr c ↦ inl c
    | inl c ↦
        let (j, at_a', num) = v.holds.held n a e in
        let same : j ≡ i = same_some j i (sym at_a' ∙ at_a) in
        let here : In i.instance_num a s.session.instances = rw (← same) (rw num e) in
        inr (v.holds.closed_leaving i.instance_num a i here at_a c)
  ]

  -- In every state reached from a new session, in any interleaving, Instances lists no instance twice,
  -- and lists just those instances that are open or whose close has yet to take them out of the map.
  pub instances_listed :
      (s : System M) (a : ℕ) (i : SessionInstance M)
      → Reach (at_rest new_session) s
      → get_elem? s.session.heap a ≡ some i
      → Distinct s.session.instances_ordered
        × (Among a s.session.instances_ordered
            ↔ ((i.closed ≡ false) ⊎ In i.instance_num a s.leaving))
  instances_listed s a i r at_a =
      let v = Reach-IsValid s r in
      let aligned = Reach-Aligned s r in
      (
        ordered-Distinct s v aligned,
        (
          λ h.
              let (n, e) = Among-In a s.session.instances (rw aligned at h) in
              listed-entry s a n i v at_a e,
          λ h. rw aligned (
              In-Among i.instance_num a s.session.instances (elim h [
                | inl c ↦ v.holds.open_in a i at_a c
                | inr e ↦ v.holds.leaving_in i.instance_num a e
              ])),
        ),
      )
