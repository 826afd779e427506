-- ===== src/IcqLegacy/Sessions/Indexes.antt =====
-- server/icq_legacy/session.go: the index of addresses and that of UINs agree.
use retro_aim_server.Prelude.{
  ℕ, ◌≡◌, ◌≢◌, inl, inr, sym, ap, ◌∙◌, Option, none, some, List, [], ◌∷◌, ◌++◌, length, get_elem?,
  ◌==◌, ==_iff, ==_refl, arith, Bool-cases, get_elem?-append, get_elem?-length,
}
use retro_aim_server.Prelude.Bytes.{Bytes, bytes_eq, bytes_eq_iff}
use retro_aim_server.Prelude.Maps.{lookup, delete, lookup-insert, lookup-delete}
use retro_aim_server.IcqLegacy.Sessions.{
  LegacySession, LegacySessionManager, delete_addr, remove_session_locked, store_session,
}

-- Who is in the index of addresses has that address, and is the session of its UIN; who is in the
-- map of UINs has that UIN.
pub record IsIndexed (m : LegacySessionManager) : Type 0 where
  pub by_uin :
      (uin a : ℕ)
      → lookup ◌==◌ uin m.sessions ≡ some a
      → (s : LegacySession) × (get_elem? m.heap a ≡ some s) × (s.uin ≡ uin)
  pub by_addr :
      (k : Bytes) (a : ℕ)
      → lookup bytes_eq k m.addr_index ≡ some a
      → (s : LegacySession) × (get_elem? m.heap a ≡ some s)
        × (s.addr ≡ some k)
        × (lookup ◌==◌ s.uin m.sessions ≡ some a)

pub the_same : (x y : LegacySession) → some x ≡ some y → x ≡ y
the_same x y e = cc

pub some_ℕ : (x y : ℕ) → some x ≡ some y → x ≡ y
some_ℕ x y e = cc

-- What is found after a deletion was there before, under another key.
delete_uin :
    (k j a : ℕ) (m : List (ℕ × ℕ))
    → lookup ◌==◌ j (delete ◌==◌ k m) ≡ some a
    → (k ≢ j) × (lookup ◌==◌ j m ≡ some a)
delete_uin k j a m h = elim (Bool-cases (k == j)) [
  | inl q ↦ absurd (ground (arith, lookup-delete ◌==◌ ==_iff k j m))
  | inr q ↦ (ground arith, ground (arith, lookup-delete ◌==◌ ==_iff k j m))
]

delete_uin_other :
    (k j a : ℕ) (m : List (ℕ × ℕ))
    → k ≢ j
    → lookup ◌==◌ j m ≡ some a
    → lookup ◌==◌ j (delete ◌==◌ k m) ≡ some a
delete_uin_other k j a m d h = ground (arith, lookup-delete ◌==◌ ==_iff k j m)

pub delete_addr_lem :
    (o : Option Bytes) (j : Bytes) (a : ℕ) (m : List (Bytes × ℕ))
    → lookup bytes_eq j (delete_addr o m) ≡ some a
    → (o ≢ some j) × (lookup bytes_eq j m ≡ some a)
unfolding delete_addr
delete_addr_lem none j a m h = (λ e. cc, h)
delete_addr_lem (some k) j a m h = elim (Bool-cases (bytes_eq k j)) [
  | inl q ↦ absurd (ground (arith, lookup-delete bytes_eq bytes_eq_iff k j m))
  | inr q ↦ (
    λ e. ground (arith, bytes_eq_iff k j),
    ground (arith, lookup-delete bytes_eq bytes_eq_iff k j m),
  )
]

-- A session leaves.
pub remove-IsIndexed :
    (m : LegacySessionManager) (a : ℕ) (s : LegacySession)
    → lookup ◌==◌ s.uin m.sessions ≡ some a
    → get_elem? m.heap a ≡ some s
    → IsIndexed m
    → IsIndexed (remove_session_locked s m)
unfolding remove_session_locked
remove-IsIndexed m a s here at_a v = record {
  by_uin = λ uin b e. v.by_uin uin b (delete_uin s.uin uin b m.sessions e).1;
  by_addr = λ k b e.
      let (other, old) = delete_addr_lem s.addr k b m.addr_index e in
      let (t, at_b, addr, held) = v.by_addr k b old in
      (
        t,
        at_b,
        addr,
        delete_uin_other s.uin t.uin b m.sessions
            (λ q.
              let b_a = some_ℕ b a (sym held ∙ ap (λ u. lookup ◌==◌ u m.sessions) (sym q) ∙ here) in
              let t_s = the_same t s (sym at_b ∙ ap (get_elem? m.heap) b_a ∙ at_a) in
              other (ap LegacySession.addr (sym t_s) ∙ addr))
            held,
      );
}

-- A new session comes, whose UIN is free.
pub store-IsIndexed :
    (m : LegacySessionManager) (k : Bytes) (s : LegacySession)
    → s.addr ≡ some k
    → lookup ◌==◌ s.uin m.sessions ≡ none
    → IsIndexed m
    → IsIndexed (store_session k s m)
unfolding store_session
store-IsIndexed m k s addr_k free v =
    let new : get_elem? (m.heap ++ s ∷ []) (length m.heap) ≡ some s = get_elem?-length m.heap s in
    record {
      by_uin = λ uin b e. elim (Bool-cases (s.uin == uin)) [
        | inl q ↦
            let b_a : length m.heap ≡ b =
              some_ℕ (length m.heap) b
                (ground (arith, lookup-insert ◌==◌ ==_iff s.uin uin (length m.heap) m.sessions)) in
            (s, ap (get_elem? (m.heap ++ s ∷ [])) (sym b_a) ∙ new, (==_iff s.uin uin).0 q)
        | inr q ↦
            let (t, at_b, u) =
              v.by_uin uin b
                (ground (arith, lookup-insert ◌==◌ ==_iff s.uin uin (length m.heap) m.sessions)) in
            (t, get_elem?-append m.heap (s ∷ []) b t at_b, u)
      ];
      by_addr = λ j b e. elim (Bool-cases (bytes_eq k j)) [
        | inl q ↦
            let b_a : length m.heap ≡ b = some_ℕ (length m.heap) b (
              ground
                (arith, lookup-insert bytes_eq bytes_eq_iff k j (length m.heap) m.addr_index)) in
            (
              s,
              ap (get_elem? (m.heap ++ s ∷ [])) (sym b_a) ∙ new,
              addr_k ∙ ap some ((bytes_eq_iff k j).0 q),
              lookup-insert ◌==◌ ==_iff s.uin s.uin (length m.heap) m.sessions
                  ∙ rw (==_refl s.uin) (ap some b_a),
            )
        | inr q ↦
            let (t, at_b, addr, held) = v.by_addr j b (
              ground
                (arith, lookup-insert bytes_eq bytes_eq_iff k j (length m.heap) m.addr_index)) in
            (
              t,
              get_elem?-append m.heap (s ∷ []) b t at_b,
              addr,
              ground (arith, lookup-insert ◌==◌ ==_iff s.uin t.uin (length m.heap) m.sessions),
            )
      ];
    }
