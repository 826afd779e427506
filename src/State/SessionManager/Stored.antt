-- ===== src/State/SessionManager/Stored.antt =====
-- state/session_manager.go: findRec goes through the whole store and compares the names of the
-- sessions; the store's keys are those names.
use mathlib.Core.Path.{subst}
use retro_aim_server.Prelude.{
  ℕ, ◌≡◌, inl, inr, refl, sym, ap, ◌∙◌, Option, none, some, List, [], ◌∷◌, ◌++◌, get_elem?, set,
  ◌==◌, ==_iff, arith, Bool-cases, get_elem?-append, get_elem?-set_self, get_elem?-set_ne,
}
use retro_aim_server.Prelude.Bytes.{Bytes, bytes_eq, bytes_eq_iff}
use retro_aim_server.Prelude.Maps.{lookup, insert, delete}
use retro_aim_server.State.Session.Lifecycle.{Session}
use retro_aim_server.State.SessionManager.{
  Account, SessionSlot, set_session, set_found, has_ident, is_named, find_in,
}

the_same {ℓ} : {A : Type ℓ} (x y : A) → some x ≡ some y → x ≡ y
the_same x y e = cc

module _ {M : Type 0} where
  pub IdentAt : List (Account M) → Bytes → ℕ → Type 0
  IdentAt accounts k a = (acc : Account M) × (get_elem? accounts a ≡ some acc) × (acc.ident ≡ k)

  pub Matched : List (Account M) → List (Bytes × SessionSlot) → Type 0
  Matched accounts [] = Unit {0}
  Matched accounts ((k, slot) ∷ store) = IdentAt accounts k slot.session × Matched accounts store

  pub Matched-mono :
      (accounts accounts' : List (Account M)) (store : List (Bytes × SessionSlot))
      → ((k : Bytes) (a : ℕ) → IdentAt accounts k a → IdentAt accounts' k a)
      → Matched accounts store
      → Matched accounts' store
  unfolding Matched
  Matched-mono accounts accounts' [] f h = tt
  Matched-mono accounts accounts' ((k, slot) ∷ store) f h =
      (f k slot.session h.0, Matched-mono accounts accounts' store f h.1)

  pub IdentAt-append :
      (accounts : List (Account M)) (x : Account M) (k : Bytes) (a : ℕ)
      → IdentAt accounts k a
      → IdentAt (accounts ++ x ∷ []) k a
  unfolding IdentAt
  IdentAt-append accounts x k a (acc, e, i) = (acc, get_elem?-append accounts (x ∷ []) a acc e, i)

  IdentAt-set_found :
      (accounts : List (Account M)) (b : ℕ) (s : Session M) (o : Option (Account M)) (k : Bytes)
      (a : ℕ)
      → get_elem? accounts b ≡ o
      → IdentAt accounts k a
      → IdentAt (set_found b s accounts o) k a
  unfolding IdentAt set_found
  IdentAt-set_found accounts b s none k a e h = h
  IdentAt-set_found accounts b s (some x) k a e (acc, at_a, i) = elim (Bool-cases (b == a)) [
    | inr q ↦ (acc, get_elem?-set_ne accounts b a _ (ground arith) ∙ at_a, i)
    | inl q ↦
        let same : b ≡ a = (==_iff b a).0 q in
        (
          record x { session = s },
          subst
              (λ c.
                get_elem? (set accounts b (record x { session = s })) c
                ≡ some (record x { session = s }))
              same (get_elem?-set_self accounts b (record x { session = s }) x e),
          ap Account.ident (
                the_same x acc
                  (sym e ∙ subst (λ c. get_elem? accounts c ≡ some acc) (sym same) at_a))
              ∙ i,
        )
  ]

  pub set_session-Matched :
      (accounts : List (Account M)) (b : ℕ) (s : Session M) (store : List (Bytes × SessionSlot))
      → Matched accounts store
      → Matched (set_session b s accounts) store
  unfolding set_session
  set_session-Matched accounts b s store h =
      Matched-mono accounts (set_found b s accounts (get_elem? accounts b)) store
        (λ k a i. IdentAt-set_found accounts b s (get_elem? accounts b) k a refl i) h

  pub insert-Matched :
      (accounts : List (Account M)) (k : Bytes) (slot : SessionSlot)
      (store : List (Bytes × SessionSlot))
      → IdentAt accounts k slot.session
      → Matched accounts store
      → Matched accounts (insert bytes_eq k slot store)
  unfolding Matched insert
  insert-Matched accounts k slot [] i h = (i, tt)
  insert-Matched accounts k slot ((j, x) ∷ store) i h = elim (Bool-cases (bytes_eq j k)) [
    | inl q ↦ rw (q, insert) (i, h.1)
    | inr q ↦ rw (q, insert) (h.0, insert-Matched accounts k slot store i h.1)
  ]

  pub delete-Matched :
      (accounts : List (Account M)) (k : Bytes) (store : List (Bytes × SessionSlot))
      → Matched accounts store
      → Matched accounts (delete bytes_eq k store)
  unfolding Matched delete
  delete-Matched accounts k [] h = tt
  delete-Matched accounts k ((j, x) ∷ store) h = elim (Bool-cases (bytes_eq j k)) [
    | inl q ↦ rw (q, delete) (delete-Matched accounts k store h.1)
    | inr q ↦ rw (q, delete) (h.0, delete-Matched accounts k store h.1)
  ]

  -- Where the keys are the names, the loop is the lookup.
  pub find_in-lookup :
      (name : Bytes) (accounts : List (Account M)) (store : List (Bytes × SessionSlot))
      → Matched accounts store
      → find_in name accounts store ≡ lookup bytes_eq name store
  unfolding find_in lookup Matched IdentAt is_named has_ident
  find_in-lookup name accounts [] h = refl
  find_in-lookup name accounts ((k, slot) ∷ store) h =
      let (acc, at_slot, i) = h.0 in
      ground (
        arith,
        ap (has_ident name) at_slot,
        find_in-lookup name accounts store,
        bytes_eq_iff name k,
        bytes_eq_iff k name,
      )

  pub IdentAt-intro :
      (accounts : List (Account M)) (k : Bytes) (a : ℕ) (acc : Account M)
      → get_elem? accounts a ≡ some acc
      → acc.ident ≡ k
      → IdentAt accounts k a
  unfolding IdentAt
  IdentAt-intro accounts k a acc e i = (acc, e, i)

  pub Matched-nil : (accounts : List (Account M)) → Matched accounts []
  unfolding Matched
  Matched-nil accounts = tt
