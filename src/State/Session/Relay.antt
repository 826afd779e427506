-- ===== src/State/Session/Relay.antt =====
-- state/session_manager.go: how a message reaches the instances of one session (maybeRelayMessage,
-- maybeRelayMessageActiveOnly, RelayToSelf, RelayToOtherInstances). An instance is named by its
-- address.
use mathlib.Core.Path.{subst}
use retro_aim_server.Prelude.{
  ℕ, ◌≡◌, ◌≢◌, ◌⊎◌, inl, inr, refl, sym, ap, ◌∙◌, Bool, true, false, not, ◌&&◌, Option, none, some,
  List, [], ◌∷◌, ◌++◌, All, length, get_elem?, set, ◌==◌, ==_iff, if◌then◌else◌, arith, Bool-cases,
  Option-cases, get_elem?-set_self, get_elem?-set_ne, ltb,
}
use retro_aim_server.State.Session.{
  SessionInstance, SessSendStatus, relay_message_to_instance, live, active, msg_ch_size,
}
use retro_aim_server.State.Session.Ordered.{
  Among, Distinct, In-Among, Reach-Aligned, ordered-Distinct,
}
use retro_aim_server.State.Session.Interleaving.{System, Reach, at_rest}
use retro_aim_server.State.Session.Once.{Reach-IsValid}
use retro_aim_server.State.Session.Lifecycle.{
  new_session, Session, close_instance, close_instance_at, shut, depart,
}

-- The other instances of the session, in order.
unfoldable pub others : ℕ → List ℕ → List ℕ
others a [] = []
others a (b ∷ bs) = let rest = others a bs in if b == a then rest else b ∷ rest

Among-cases : (a : ℕ) (bs : List ℕ) → Among a bs ⊎ All (λ b. b ≢ a) bs
Among-cases a [] = inr tt
Among-cases a (b ∷ bs) = elim (Bool-cases (b == a)) [
  | inl q ↦ inl (inl ((==_iff b a).0 q))
  | inr q ↦ elim (Among-cases a bs) [ inl m ↦ inl (inr m) | inr o ↦ inr (ground arith, o) ]
]

Among-out : (a : ℕ) (bs : List ℕ) → Among a bs → All (λ b. b ≢ a) bs → ⊥
Among-out a [] m o = m
Among-out a (b ∷ bs) (inl e) o = o.0 e
Among-out a (b ∷ bs) (inr m) o = Among-out a bs m o.1

module _ {M : Type 0} where
  -- What the switch on the answer of RelayMessageToInstance does.
  unfoldable pub after_send : ℕ → Session M → SessSendStatus × SessionInstance M → Session M
  unfolding close_instance
  after_send a s (SessSendStatus.sess_send_ok, i) = record s { heap = set s.heap a i }
  after_send a s (SessSendStatus.sess_send_closed, i) = s
  after_send a s (SessSendStatus.sess_queue_full, i) = close_instance a s

  -- One round of the loops; `takes` is `live` or `active`.
  unfoldable pub relay_at :
      (SessionInstance M → Bool) → M → ℕ → Session M → Option (SessionInstance M) → Session M
  unfolding after_send relay_message_to_instance
  relay_at takes msg a s none = s
  relay_at takes msg a s (some i) =
      if takes i then after_send a s (relay_message_to_instance msg i) else s

  unfoldable pub relay_each : (SessionInstance M → Bool) → M → List ℕ → Session M → Session M
  unfolding relay_at
  relay_each takes msg [] s = s
  relay_each takes msg (a ∷ as') s =
      relay_each takes msg as' (relay_at takes msg a s (get_elem? s.heap a))

  unfoldable pub maybe_relay_message : M → Session M → Session M
  unfolding relay_each
  maybe_relay_message msg s = relay_each live msg s.instances_ordered s

  unfoldable pub maybe_relay_message_active_only : M → Session M → Session M
  unfolding relay_each
  maybe_relay_message_active_only msg s = relay_each active msg s.instances_ordered s

  unfoldable pub relay_to_self : M → ℕ → Session M → Session M
  unfolding relay_at
  relay_to_self msg a s = relay_at (λ _. true) msg a s (get_elem? s.heap a)

  unfoldable pub relay_to_other_instances : M → ℕ → Session M → Session M
  unfolding relay_each others
  relay_to_other_instances msg a s = relay_each live msg (others a s.instances_ordered) s

  -- What becomes of an instance that is sent a message.
  unfoldable pub delivered : (SessionInstance M → Bool) → M → SessionInstance M → SessionInstance M
  delivered takes msg i =
      if takes i && not i.closed
      then if ltb (length i.msg_ch) msg_ch_size
        then record i { msg_ch = i.msg_ch ++ msg ∷ [] }
        else record i { closed = true }
      else i

  depart-heap : (n a : ℕ) (s : Session M) → (depart n a s).heap ≡ s.heap
  unfolding depart
  depart-heap n a s = ground arith

  close_instance-heap :
      (a : ℕ) (i : SessionInstance M) (s : Session M)
      → get_elem? s.heap a ≡ some i
      → i.closed ≡ false
      → (close_instance a s).heap ≡ set s.heap a (record i { closed = true })
  unfolding close_instance close_instance_at shut
  close_instance-heap a i s e c =
      ap (λ o. (close_instance_at a s o).heap) e ∙ rw c (depart-heap i.instance_num a (shut a i s))

  -- One round changes one instance.
  relay_at-heap :
      (takes : SessionInstance M → Bool) (msg : M) (a : ℕ) (i : SessionInstance M) (s : Session M)
      → get_elem? s.heap a ≡ some i
      → ((relay_at takes msg a s (some i)).heap ≡ s.heap) × (delivered takes msg i ≡ i)
        ⊎ ((relay_at takes msg a s (some i)).heap ≡ set s.heap a (delivered takes msg i))
  unfolding relay_at delivered
  relay_at-heap takes msg a i s e = elim (Bool-cases (takes i)) [
    | inr t ↦ inl (rw t, rw t)
    | inl t ↦ elim (Bool-cases i.closed) [
      | inl c ↦ inl (rw (t, c), rw (t, c))
      | inr c ↦ elim (Bool-cases (ltb (length i.msg_ch) msg_ch_size)) [
        | inl room ↦ inr (rw (t, c, room))
        | inr full ↦ inr (rw (t, c, full) (close_instance-heap a i s e c))
      ]
    ]
  ]

  relay_at_self :
      (takes : SessionInstance M → Bool) (msg : M) (a : ℕ) (i : SessionInstance M) (s : Session M)
      → get_elem? s.heap a ≡ some i
      → get_elem? (relay_at takes msg a s (get_elem? s.heap a)).heap a
        ≡ some (delivered takes msg i)
  relay_at_self takes msg a i s e =
      ap (λ o. get_elem? (relay_at takes msg a s o).heap a) e
      ∙ elim (relay_at-heap takes msg a i s e) [
        | inl (same, d) ↦ ap (λ h. get_elem? h a) same ∙ e ∙ ap some (sym d)
        | inr new ↦
            ap (λ h. get_elem? h a) new ∙ get_elem?-set_self s.heap a (delivered takes msg i) i e
      ]

  relay_at_other :
      (takes : SessionInstance M → Bool) (msg : M) (a b : ℕ) (s : Session M)
      → a ≢ b
      → get_elem? (relay_at takes msg a s (get_elem? s.heap a)).heap b ≡ get_elem? s.heap b
  unfolding relay_at
  relay_at_other takes msg a b s d = elim (Option-cases (get_elem? s.heap a)) [
    | inl e ↦ ap (λ o. get_elem? (relay_at takes msg a s o).heap b) e
    | inr (i, e) ↦
        ap (λ o. get_elem? (relay_at takes msg a s o).heap b) e
        ∙ elim (relay_at-heap takes msg a i s e) [
          | inl (same, _) ↦ ap (λ h. get_elem? h b) same
          | inr new ↦
              ap (λ h. get_elem? h b) new ∙ get_elem?-set_ne s.heap a b (delivered takes msg i) d
        ]
  ]

  pub relay_each_out :
      (takes : SessionInstance M → Bool) (msg : M) (as' : List ℕ) (b : ℕ) (s : Session M)
      → All (λ a. a ≢ b) as'
      → get_elem? (relay_each takes msg as' s).heap b ≡ get_elem? s.heap b
  unfolding relay_each
  relay_each_out takes msg [] b s h = refl
  relay_each_out takes msg (a ∷ as') b s h =
      relay_each_out takes msg as' b (relay_at takes msg a s (get_elem? s.heap a)) h.1
      ∙ relay_at_other takes msg a b s h.0

  -- Each instance on the list is sent the message once, as it stood before.
  pub relay_each_in :
      (takes : SessionInstance M → Bool) (msg : M) (as' : List ℕ) (b : ℕ) (i : SessionInstance M)
      (s : Session M)
      → Distinct as'
      → Among b as'
      → get_elem? s.heap b ≡ some i
      → get_elem? (relay_each takes msg as' s).heap b ≡ some (delivered takes msg i)
  unfolding relay_each
  relay_each_in takes msg [] b i s d m e = elim m [ ]
  relay_each_in takes msg (a ∷ as') b i s d m e = elim (Bool-cases (a == b)) [
    | inl q ↦
        let same : a ≡ b = (==_iff a b).0 q in
        let out : All (λ c. c ≢ b) as' = subst (λ x. All (λ c. c ≢ x) as') same d.0 in
        let now : get_elem? (relay_at takes msg a s (get_elem? s.heap a)).heap b
            ≡ some (delivered takes msg i) =
          subst
            (λ x.
              get_elem? (relay_at takes msg x s (get_elem? s.heap x)).heap b
              ≡ some (delivered takes msg i))
            (sym same) (relay_at_self takes msg b i s e) in
        relay_each_out takes msg as' b (relay_at takes msg a s (get_elem? s.heap a)) out ∙ now
    | inr q ↦
        let other : a ≢ b = ground arith in
        let rest : Among b as' = elim m [ inl r ↦ absurd (other r) | inr r ↦ r ] in
        relay_each_in takes msg as' b i (relay_at takes msg a s (get_elem? s.heap a)) d.1 rest
          (relay_at_other takes msg a b s other ∙ e)
  ]

  delivered_closed :
      (takes : SessionInstance M → Bool) (msg : M) (i : SessionInstance M)
      → i.closed ≡ true
      → delivered takes msg i ≡ i
  unfolding delivered
  delivered_closed takes msg i c = ground arith

  -- All instances of a session are sent a message at once, each as it stood before: those that are
  -- live find it last in their queue, or are closed where the queue is full; all others, and those
  -- that have left, are as before. `takes` is `live`, or `active` for the relay to active instances.
  pub relay_each-delivered :
      (takes : SessionInstance M → Bool) (msg : M) (s : System M) (a : ℕ) (i : SessionInstance M)
      → Reach (at_rest new_session) s
      → get_elem? s.session.heap a ≡ some i
      → get_elem? (relay_each takes msg s.session.instances_ordered s.session).heap a
        ≡ some (delivered takes msg i)
  relay_each-delivered takes msg s a i r e =
      let v = Reach-IsValid s r in
      let aligned = Reach-Aligned s r in
      let distinct = ordered-Distinct s v aligned in
      elim (Among-cases a s.session.instances_ordered) [
        | inl m ↦ relay_each_in takes msg s.session.instances_ordered a i s.session distinct m e
        | inr out ↦ elim (Bool-cases i.closed) [
          | inl c ↦
              relay_each_out takes msg s.session.instances_ordered a s.session out
              ∙ e
              ∙ ap some (sym (delivered_closed takes msg i c))
          | inr c ↦
              let m = In-Among i.instance_num a _ (v.holds.open_in a i e c) in
              absurd (Among-out a s.session.instances_ordered (rw aligned m) out)
        ]
      ]
