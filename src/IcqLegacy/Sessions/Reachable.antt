-- ===== src/IcqLegacy/Sessions/Reachable.antt =====
-- server/icq_legacy/session.go: the calls of a LegacySessionManager in any order.
use mathlib.Core.Path.{subst}
use retro_aim_server.Prelude.{
  ℕ, ◌≡◌, ◌≢◌, inl, inr, refl, sym, ap, ◌∙◌, Bool, true, false, Option, none, some, [], get_elem?,
  set, if◌then◌else◌, ◌==◌, ==_iff, arith, Bool-cases, Option-cases, get_elem?-set_self,
  get_elem?-set_ne,
}
use retro_aim_server.Prelude.Bytes.{Bytes, bytes_eq, bytes_eq_iff}
use retro_aim_server.Prelude.Maps.{lookup, lookup-insert, lookup-delete}
use retro_aim_server.IcqLegacy.Sessions.{
  LegacySession, LegacySessionManager, Created, created, new_legacy_session, remove_session_locked,
  remove_found, remove_session, current, read_at, store_session, activate, create_session,
  create_pending_session, delete_addr, move_session, attach_at, attach_found, differs,
  attach_oscar_session, readdress_at, readdress_found, update_session_addr, get_session,
  get_session_by_addr,
}
use retro_aim_server.IcqLegacy.Sessions.Indexes.{
  IsIndexed, the_same, some_ℕ, delete_addr_lem, remove-IsIndexed, store-IsIndexed,
}

-- A session moves to another network address.
move-IsIndexed :
    (m : LegacySessionManager) (a uin : ℕ) (s : LegacySession) (k : Bytes) (i : Option ℕ)
    → lookup ◌==◌ uin m.sessions ≡ some a
    → get_elem? m.heap a ≡ some s
    → IsIndexed m
    → IsIndexed (move_session a s k i m)
unfolding move_session
move-IsIndexed m a uin s k i here at_a v =
    let s' : LegacySession = record s { addr = some k; instance_id = i } in
    let (s0, at_a0, uin_s) = v.by_uin uin a here in
    let s_uin : s.uin ≡ uin = ap LegacySession.uin (the_same s s0 (sym at_a ∙ at_a0)) ∙ uin_s in
    let now : get_elem? (set m.heap a s') a ≡ some s' = get_elem?-set_self m.heap a s' s at_a in
    record {
      by_uin = λ u b e. elim (Bool-cases (a == b)) [
        | inl q ↦
            let a_b : a ≡ b = (==_iff a b).0 q in
            let (t, at_b, t_u) = v.by_uin u b e in
            (
              s',
              ap (get_elem? (set m.heap a s')) (sym a_b) ∙ now,
              ap LegacySession.uin (the_same s t (sym at_a ∙ ap (get_elem? m.heap) a_b ∙ at_b))
                  ∙ t_u,
            )
        | inr q ↦
            let (t, at_b, t_u) = v.by_uin u b e in
            (t, get_elem?-set_ne m.heap a b s' (ground arith) ∙ at_b, t_u)
      ];
      by_addr = λ j b e. elim (Bool-cases (bytes_eq k j)) [
        | inl q ↦
            let b_a : a ≡ b = some_ℕ a b (
              ground (
                arith,
                lookup-insert bytes_eq bytes_eq_iff k j a (delete_addr s.addr m.addr_index),
              )) in
            (
              s',
              ap (get_elem? (set m.heap a s')) (sym b_a) ∙ now,
              ap some ((bytes_eq_iff k j).0 q),
              ap (λ u. lookup ◌==◌ u m.sessions) s_uin ∙ here ∙ ap some b_a,
            )
        | inr q ↦
            let (other, old) = delete_addr_lem s.addr j b m.addr_index (
              ground (
                arith,
                lookup-insert bytes_eq bytes_eq_iff k j a (delete_addr s.addr m.addr_index),
              )) in
            let (t, at_b, addr, held) = v.by_addr j b old in
            let apart : a ≢ b = λ a_b. other (
              ap LegacySession.addr (the_same s t (sym at_a ∙ ap (get_elem? m.heap) a_b ∙ at_b))
              ∙ addr) in
            (t, get_elem?-set_ne m.heap a b s' apart ∙ at_b, addr, held)
      ];
    }

activate-IsIndexed : (i : ℕ) (m : LegacySessionManager) → IsIndexed m → IsIndexed (activate i m)
unfolding activate
activate-IsIndexed i m v = record { by_uin = v.by_uin; by_addr = v.by_addr }

-- RemoveSession keeps the indexes, and frees the UIN.
remove_session-IsIndexed :
    (uin : ℕ) (m : LegacySessionManager)
    → IsIndexed m
    → IsIndexed (remove_session uin m) × (lookup ◌==◌ uin (remove_session uin m).sessions ≡ none)
unfolding remove_session current
remove_session-IsIndexed uin m v = elim (Option-cases (lookup ◌==◌ uin m.sessions)) [
  | inl e ↦
      let same : remove_found m (read_at m (lookup ◌==◌ uin m.sessions)) ≡ m =
        ap (λ o. remove_found m (read_at m o)) e in
      (subst IsIndexed (sym same) v, ap (λ n. lookup ◌==◌ uin n.sessions) same ∙ e)
  | inr (a, e) ↦
      let (s, at_a, s_uin) = v.by_uin uin a e in
      let same : remove_found m (read_at m (lookup ◌==◌ uin m.sessions))
          ≡ remove_session_locked s m =
        ap (λ o. remove_found m (read_at m o)) e ∙ ap (remove_found m) at_a in
      (
        subst IsIndexed (sym same)
            (remove-IsIndexed m a s (ap (λ u. lookup ◌==◌ u m.sessions) s_uin ∙ e) at_a v),
        ap (λ n. lookup ◌==◌ uin n.sessions) same
            ∙ lookup-delete ◌==◌ ==_iff s.uin uin m.sessions
            ∙ rw ((==_iff s.uin uin).1 s_uin),
      )
]

-- A call of CreateSession, CreatePendingSession, AttachOSCARSession, RemoveSession or
-- UpdateSessionAddr. A call that fails changes nothing.
pub data Step : LegacySessionManager → LegacySessionManager → Type 0 where
  creates :
      (m : LegacySessionManager) (uin : ℕ) (addr : Bytes) (version i now : ℕ) (a : ℕ)
      (m' : LegacySessionManager)
      → create_session uin addr version (some i) now m ≡ created a m'
      → Step m m'
  pends :
      (m : LegacySessionManager) (uin : ℕ) (addr : Bytes) (version now : ℕ)
      → Step m (create_pending_session uin addr version now m).1
  attaches :
      (m : LegacySessionManager) (uin : ℕ) (addr : Bytes) (i : ℕ) (a : ℕ)
      (m' : LegacySessionManager)
      → attach_oscar_session uin addr (some i) m ≡ created a m'
      → Step m m'
  removes : (m : LegacySessionManager) (uin : ℕ) → Step m (remove_session uin m)
  updates :
      (m : LegacySessionManager) (uin : ℕ) (addr : Bytes) → Step m (update_session_addr uin addr m)

pub data Reach (m : LegacySessionManager) : LegacySessionManager → Type 0 where
  here : Reach m m
  next : {n o : LegacySessionManager} → Reach m n → Step n o → Reach m o

create-IsIndexed :
    (m : LegacySessionManager) (uin : ℕ) (addr : Bytes) (version now : ℕ) (i : Option ℕ)
    → IsIndexed m
    → IsIndexed
        (store_session addr (new_legacy_session uin addr version i now) (remove_session uin m))
unfolding new_legacy_session
create-IsIndexed m uin addr version now i v =
    let (kept, free) = remove_session-IsIndexed uin m v in
    store-IsIndexed (remove_session uin m) addr (new_legacy_session uin addr version i now) refl
      free kept

-- What an answer leaves behind.
Keeps : Created → Type 0
Keeps (created a m) = IsIndexed m
Keeps (Created.failed e) = Unit {0}

Keeps-if : (b : Bool) (x y : Created) → Keeps x → Keeps y → Keeps (if b then x else y)
Keeps-if true x y h k = h
Keeps-if false x y h k = k

attach_found-Keeps :
    (i uin : ℕ) (addr : Bytes) (m : LegacySessionManager) (o : Option ℕ)
    → lookup ◌==◌ uin m.sessions ≡ o
    → IsIndexed m
    → Keeps (attach_found i addr m o)
unfolding attach_found attach_at Keeps
attach_found-Keeps i uin addr m none e v = tt
attach_found-Keeps i uin addr m (some a) e v =
    let (s, at_a, _) = v.by_uin uin a e in
    subst (λ o. Keeps (attach_at i addr m a o)) (sym at_a)
      (Keeps-if (differs i s.instance_id) _ _ tt (
        activate-IsIndexed i (move_session a s addr (some i) m)
          (move-IsIndexed m a uin s addr (some i) e at_a v)))

update-IsIndexed :
    (uin : ℕ) (addr : Bytes) (m : LegacySessionManager) (o : Option ℕ)
    → lookup ◌==◌ uin m.sessions ≡ o
    → IsIndexed m
    → IsIndexed (readdress_found addr m o)
unfolding readdress_found readdress_at
update-IsIndexed uin addr m none e v = v
update-IsIndexed uin addr m (some a) e v =
    let (s, at_a, _) = v.by_uin uin a e in
    subst (λ o. IsIndexed (readdress_at addr m a o)) (sym at_a)
      (move-IsIndexed m a uin s addr s.instance_id e at_a v)

Step-IsIndexed : {m n : LegacySessionManager} → Step m n → IsIndexed m → IsIndexed n
unfolding create_session create_pending_session attach_oscar_session update_session_addr Keeps
Step-IsIndexed (Step.creates m uin addr version i now a m' e) v =
    subst Keeps e (activate-IsIndexed i _ (create-IsIndexed m uin addr version now (some i) v))
Step-IsIndexed (Step.pends m uin addr version now) v =
    create-IsIndexed m uin addr version now none v
Step-IsIndexed (Step.attaches m uin addr i a m' e) v =
    subst Keeps e (attach_found-Keeps i uin addr m (lookup ◌==◌ uin m.sessions) refl v)
Step-IsIndexed (Step.removes m uin) v = (remove_session-IsIndexed uin m v).0
Step-IsIndexed (Step.updates m uin addr) v =
    update-IsIndexed uin addr m (lookup ◌==◌ uin m.sessions) refl v

abbrev pub no_sessions : LegacySessionManager
no_sessions = record { heap = []; sessions = []; addr_index = []; removed = []; activated = [] }

no_sessions-IsIndexed : IsIndexed no_sessions
unfolding lookup
no_sessions-IsIndexed = record { by_uin = λ uin a e. cc; by_addr = λ k a e. cc }

Reach-IsIndexed : (m : LegacySessionManager) → Reach no_sessions m → IsIndexed m
Reach-IsIndexed m Reach.here = no_sessions-IsIndexed
Reach-IsIndexed m (Reach.next {n} r st) = Step-IsIndexed st (Reach-IsIndexed n r)

-- Whatever calls of these five came before, a session that GetSessionByAddr finds has that address,
-- and GetSession finds the same session by its UIN.
pub get_session_by_addr-get_session :
    (m : LegacySessionManager) (addr : Bytes) (a : ℕ)
    → Reach no_sessions m
    → get_session_by_addr addr m ≡ some a
    → (s : LegacySession) × (get_elem? m.heap a ≡ some s)
      × (s.addr ≡ some addr)
      × (get_session s.uin m ≡ some a)
unfolding get_session_by_addr get_session
get_session_by_addr-get_session m addr a r e = (Reach-IsIndexed m r).by_addr addr a e
