-- ===== src/State/SessionManager.antt =====
-- state/session_manager.go: InMemorySessionManager. A session is named by its address, its place in
-- `accounts`, where all that were made stay. The `removed` channel of a slot is closed when the
-- address of its session is in `removed`. AddSession is cut where it waits: `add_session` runs up
-- to the wait, `resume_add_session` from there. The cfg callbacks and the logger are left out.
pub mod Bound
pub mod Capacity
pub mod Stored
pub mod Names
mod Tests
use retro_aim_server.Prelude.{
  ℕ, ◌+◌, Bool, true, false, not, ◌&&◌, Option, none, some, List, [], ◌∷◌, ◌++◌, length, get_elem?,
  set, if◌then◌else◌, ltb, leb, ◌==◌,
}
use retro_aim_server.Prelude.Bytes.{Bytes, bytes_eq}
use retro_aim_server.Prelude.Maps.{lookup, insert, delete}
use retro_aim_server.State.Session.Lifecycle.{
  Session, Added, new_session, add_instance, close_session, instance_count, has_live_instances,
}
use retro_aim_server.State.Session.Relay.{maybe_relay_message, maybe_relay_message_active_only}

pub record Account (M : Type 0) : Type 0 where
  pub ident : Bytes
  pub session : Session M

pub record SessionSlot : Type 0 where
  pub session : ℕ
  pub multi_session : Bool

pub record SessionManager (M : Type 0) : Type 0 where
  pub accounts : List (Account M)
  pub store : List (Bytes × SessionSlot)
  pub removed : List ℕ

abbrev pub max_concurrent_sessions : ℕ
max_concurrent_sessions = 5

-- An instance of a session, by both addresses; the error of too many instances; or a wait for a
-- session's removal. `panics` is the panic of generateInstanceNum, or a nil dereference.
pub data Answer (M : Type 0) : Type 0 where
  returns : ℕ → ℕ → SessionManager M → Answer M
  max_reached : Answer M
  waits : ℕ → SessionManager M → Answer M
  panics : Answer M

unfoldable pub is_removed : ℕ → List ℕ → Bool
is_removed a [] = false
is_removed a (b ∷ bs) = let rest = is_removed a bs in if a == b then true else rest

-- The sessions of the store, in order.
abbrev pub stored_sessions : List (Bytes × SessionSlot) → List ℕ
stored_sessions [] = []
stored_sessions ((k, slot) ∷ store) = slot.session ∷ stored_sessions store

module _ {M : Type 0} where
  unfoldable pub new_session_manager : SessionManager M
  new_session_manager = record { accounts = []; store = []; removed = [] }

  unfoldable pub set_found :
      ℕ → Session M → List (Account M) → Option (Account M) → List (Account M)
  set_found a s accounts none = accounts
  set_found a s accounts (some acc) = set accounts a (record acc { session = s })

  unfoldable pub set_session : ℕ → Session M → List (Account M) → List (Account M)
  unfolding set_found
  set_session a s accounts = set_found a s accounts (get_elem? accounts a)

  unfoldable pub has_ident : Bytes → Option (Account M) → Bool
  has_ident name none = false
  has_ident name (some acc) = bytes_eq name acc.ident

  unfoldable pub is_named : Bytes → List (Account M) → SessionSlot → Bool
  unfolding has_ident
  is_named name accounts slot = has_ident name (get_elem? accounts slot.session)

  unfoldable pub find_in :
      Bytes → List (Account M) → List (Bytes × SessionSlot) → Option SessionSlot
  unfolding is_named
  find_in name accounts [] = none
  find_in name accounts ((k, slot) ∷ store) =
      let rest = find_in name accounts store in
      if is_named name accounts slot then some slot else rest

  unfoldable pub find_rec : Bytes → SessionManager M → Option SessionSlot
  unfolding find_in
  find_rec name m = find_in name m.accounts m.store

  unfoldable pub store_new : Bytes → Bool → SessionManager M → Added M → Answer M
  store_new name multi m Added.refused = Answer.panics
  store_new name multi m Added.panicked = Answer.panics
  store_new name multi m (Added.added i s) =
      let a = length m.accounts in
      Answer.returns a i (record m {
        accounts = m.accounts ++ record { ident = name; session = s } ∷ [];
        store = insert bytes_eq name (record { session = a; multi_session = multi }) m.store;
      })

  -- newSession.
  unfoldable pub new_session_for : Bytes → Bool → SessionManager M → Answer M
  unfolding store_new
  new_session_for name multi m = store_new name multi m (add_instance new_session)

  -- What AddSession makes of AddInstance's answer for the session at `a`.
  unfoldable pub join : ℕ → SessionManager M → Added M → Answer M
  unfolding set_session
  join a m Added.refused = Answer.waits a m
  join a m Added.panicked = Answer.panics
  join a m (Added.added i s) =
      Answer.returns a i (record m { accounts = set_session a s m.accounts })

  unfoldable pub close_at : ℕ → Session M → SessionManager M → SessionManager M
  unfolding set_session
  close_at a s m = record m { accounts = set_session a (close_session s) m.accounts }

  -- AddSession, where the name has a session.
  unfoldable pub add_to : Bytes → Bool → SessionManager M → SessionSlot → Account M → Answer M
  unfolding new_session_for join close_at
  add_to name multi m slot acc =
      if acc.session.closed
      then Answer.waits slot.session m
      else if multi
      then if not slot.multi_session
        then new_session_for name multi (close_at slot.session acc.session m)
        else if leb max_concurrent_sessions (instance_count acc.session)
        then Answer.max_reached
        else join slot.session m (add_instance acc.session)
      else Answer.waits slot.session (close_at slot.session acc.session m)

  unfoldable pub add_at :
      Bytes → Bool → SessionManager M → SessionSlot → Option (Account M) → Answer M
  unfolding add_to
  add_at name multi m slot none = Answer.panics
  add_at name multi m slot (some acc) = add_to name multi m slot acc

  unfoldable pub add_found : Bytes → Bool → SessionManager M → Option SessionSlot → Answer M
  unfolding new_session_for add_at
  add_found name multi m none = new_session_for name multi m
  add_found name multi m (some slot) = add_at name multi m slot (get_elem? m.accounts slot.session)

  unfoldable pub add_session : Bytes → Bool → SessionManager M → Answer M
  unfolding add_found
  add_session name multi m = add_found name multi m (find_rec name m)

  -- The rest of a call that waits for the session at `a`; `none` while it still waits.
  unfoldable pub resume_add_session : Bytes → Bool → ℕ → SessionManager M → Option (Answer M)
  unfolding new_session_for is_removed
  resume_add_session name multi a m =
      if is_removed a m.removed then some (new_session_for name multi m) else none

  unfoldable pub remove_stored :
      Bytes → ℕ → SessionManager M → Option SessionSlot → SessionManager M
  remove_stored ident a m none = m
  remove_stored ident a m (some slot) =
      if slot.session == a
      then record m { store = delete bytes_eq ident m.store; removed = a ∷ m.removed }
      else m

  -- RemoveSession of the session at `a`, whose name is `ident`.
  unfoldable pub remove_session : Bytes → ℕ → SessionManager M → SessionManager M
  unfolding remove_stored
  remove_session ident a m = remove_stored ident a m (lookup bytes_eq ident m.store)

  unfoldable pub live_at : List (Account M) → SessionSlot → Option ℕ
  live_at accounts slot = elim (get_elem? accounts slot.session) [
    | none ↦ none
    | some acc ↦ if has_live_instances acc.session then some slot.session else none
  ]

  unfoldable pub retrieve_session : Bytes → SessionManager M → Option ℕ
  unfolding live_at
  retrieve_session name m = elim (lookup bytes_eq name m.store) [
    | none ↦ none
    | some slot ↦ live_at m.accounts slot
  ]

  unfoldable pub all_live : List (Account M) → List (Bytes × SessionSlot) → List ℕ
  unfolding live_at
  all_live accounts [] = []
  all_live accounts ((k, slot) ∷ store) =
      let rest = all_live accounts store in
      elim (live_at accounts slot) [ none ↦ rest | some a ↦ a ∷ rest ]

  unfoldable pub all_sessions : SessionManager M → List ℕ
  unfolding all_live
  all_sessions m = all_live m.accounts m.store

  unfoldable pub is_store_empty : SessionManager M → Bool
  is_store_empty m = length m.store == 0

  -- A relay to the session at `a`, by maybeRelayMessage or maybeRelayMessageActiveOnly.
  unfoldable pub relay_with :
      (M → Session M → Session M) → M → ℕ → SessionManager M → SessionManager M
  unfolding set_session
  relay_with relay msg a m = elim (get_elem? m.accounts a) [
    | none ↦ m
    | some acc ↦ record m { accounts = set_session a (relay msg acc.session) m.accounts }
  ]

  unfoldable pub relay_list : M → List ℕ → SessionManager M → SessionManager M
  unfolding relay_with
  relay_list msg [] m = m
  relay_list msg (a ∷ as') m = relay_list msg as' (relay_with maybe_relay_message msg a m)

  unfoldable pub relay_to_all : M → SessionManager M → SessionManager M
  unfolding relay_list
  relay_to_all msg m = relay_list msg (stored_sessions m.store) m

  unfoldable pub relay_to_screen_name : Bytes → M → SessionManager M → SessionManager M
  unfolding relay_with
  relay_to_screen_name name msg m = elim (retrieve_session name m) [
    | none ↦ m
    | some a ↦ relay_with maybe_relay_message msg a m
  ]

  unfoldable pub relay_to_screen_name_active_only : Bytes → M → SessionManager M → SessionManager M
  unfolding relay_with
  relay_to_screen_name_active_only name msg m = elim (retrieve_session name m) [
    | none ↦ m
    | some a ↦ relay_with maybe_relay_message_active_only msg a m
  ]

  unfoldable pub retrieve_by_screen_names : List Bytes → SessionManager M → List ℕ
  retrieve_by_screen_names [] m = []
  retrieve_by_screen_names (name ∷ names) m =
      let rest = retrieve_by_screen_names names m in
      elim (find_rec name m) [ none ↦ rest | some slot ↦ slot.session ∷ rest ]

  unfoldable pub relay_to_screen_names : List Bytes → M → SessionManager M → SessionManager M
  unfolding relay_list
  relay_to_screen_names names msg m = relay_list msg (retrieve_by_screen_names names m) m
