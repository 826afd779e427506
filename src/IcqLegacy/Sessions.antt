-- ===== src/IcqLegacy/Sessions.antt =====
-- server/icq_legacy/session.go and types.go: LegacySessionManager. A session is named by its
-- address, its place in `heap`, where all that were made stay. An address of the network is the
-- text that its String method gives; an OSCAR instance is a number. Random session ids, the message
-- pump, passwords, direct connections and the logger are left out. Instants are nanoseconds.
pub mod Indexes
pub mod Reachable
use Prim.Native.Nat.{bit_and}
use retro_aim_server.Prelude.{
  ℕ, ◌+◌, ◌-◌, Bool, true, false, not, ◌&&◌, ◌||◌, Option, none, some, List, [], ◌∷◌, ◌++◌, any,
  length, get_elem?, set, if◌then◌else◌, ltb, ◌==◌,
}
use retro_aim_server.Prelude.Bytes.{Bytes, bytes_eq}
use retro_aim_server.Prelude.Maps.{lookup, insert, delete}
use retro_aim_server.IcqLegacy.Status.{has_flag, flag_invisible}

pub record LegacySession : Type 0 where
  pub uin : ℕ
  pub addr : Option Bytes
  pub version : ℕ
  pub seq_num_server : ℕ
  pub status : ℕ
  pub last_activity : ℕ
  pub contact_list : List ℕ
  pub visible_list : List ℕ
  pub invisible_list : List ℕ
  pub instance_id : Option ℕ
  pub known_online : List ℕ

-- `removed` lists the OSCAR instances whose session was given to the registry's RemoveSession, and
-- `activated` those whose SetSignonComplete was called.
pub record LegacySessionManager : Type 0 where
  pub heap : List LegacySession
  pub sessions : List (ℕ × ℕ)
  pub addr_index : List (Bytes × ℕ)
  pub removed : List ℕ
  pub activated : List ℕ

pub data SessionError : Type 0 where
  missing_instance not_pending already_attached : SessionError

pub data Created : Type 0 where
  created : ℕ → LegacySessionManager → Created
  failed : SessionError → Created

unfoldable pub new_legacy_session : ℕ → Bytes → ℕ → Option ℕ → ℕ → LegacySession
new_legacy_session uin addr version instance_id now = record {
  uin = uin;
  addr = some addr;
  version = version;
  seq_num_server = 0;
  status = 0;
  last_activity = now;
  contact_list = [];
  visible_list = [];
  invisible_list = [];
  instance_id = instance_id;
  known_online = [];
}

unfoldable pub delete_addr : Option Bytes → List (Bytes × ℕ) → List (Bytes × ℕ)
delete_addr none index = index
delete_addr (some addr) index = delete bytes_eq addr index

unfoldable pub cons_instance : Option ℕ → List ℕ → List ℕ
cons_instance none is = is
cons_instance (some i) is = i ∷ is

-- removeSessionLocked of the session `s`.
unfoldable pub remove_session_locked : LegacySession → LegacySessionManager → LegacySessionManager
unfolding delete_addr cons_instance
remove_session_locked s m = record m {
  sessions = delete ◌==◌ s.uin m.sessions;
  addr_index = delete_addr s.addr m.addr_index;
  removed = cons_instance s.instance_id m.removed;
}

unfoldable pub remove_found : LegacySessionManager → Option LegacySession → LegacySessionManager
unfolding remove_session_locked
remove_found m none = m
remove_found m (some s) = remove_session_locked s m

-- The session of a UIN.
unfoldable pub read_at : LegacySessionManager → Option ℕ → Option LegacySession
read_at m none = none
read_at m (some a) = get_elem? m.heap a

unfoldable pub current : ℕ → LegacySessionManager → Option LegacySession
unfolding read_at
current uin m = read_at m (lookup ◌==◌ uin m.sessions)

unfoldable pub remove_session : ℕ → LegacySessionManager → LegacySessionManager
unfolding remove_found current
remove_session uin m = remove_found m (current uin m)

unfoldable pub store_session : Bytes → LegacySession → LegacySessionManager → LegacySessionManager
store_session addr s m = record m {
  heap = m.heap ++ s ∷ [];
  sessions = insert ◌==◌ s.uin (length m.heap) m.sessions;
  addr_index = insert bytes_eq addr (length m.heap) m.addr_index;
}

unfoldable pub activate : ℕ → LegacySessionManager → LegacySessionManager
activate i m = record m { activated = i ∷ m.activated }

unfoldable pub create_session : ℕ → Bytes → ℕ → Option ℕ → ℕ → LegacySessionManager → Created
unfolding remove_session new_legacy_session store_session activate
create_session uin addr version none now m = failed SessionError.missing_instance
create_session uin addr version (some i) now m = created (length m.heap) (
    activate i (
      store_session addr (new_legacy_session uin addr version (some i) now) (remove_session uin m)))

unfoldable pub create_pending_session :
    ℕ → Bytes → ℕ → ℕ → LegacySessionManager → ℕ × LegacySessionManager
unfolding remove_session new_legacy_session store_session
create_pending_session uin addr version now m = (
  length m.heap,
  store_session addr (new_legacy_session uin addr version none now) (remove_session uin m),
)

-- The session at `a` moves to the address `addr`.
unfoldable pub move_session :
    ℕ → LegacySession → Bytes → Option ℕ → LegacySessionManager → LegacySessionManager
unfolding delete_addr
move_session a s addr instance_id m = record m {
  heap = set m.heap a (record s { addr = some addr; instance_id = instance_id });
  addr_index = insert bytes_eq addr a (delete_addr s.addr m.addr_index);
}

unfoldable pub differs : ℕ → Option ℕ → Bool
differs i none = false
differs i (some j) = not (j == i)

unfoldable pub attach_at : ℕ → Bytes → LegacySessionManager → ℕ → Option LegacySession → Created
unfolding differs move_session activate
attach_at i addr m a none = failed SessionError.not_pending
attach_at i addr m a (some s) =
    if differs i s.instance_id
    then failed SessionError.already_attached
    else created a (activate i (move_session a s addr (some i) m))

unfoldable pub attach_found : ℕ → Bytes → LegacySessionManager → Option ℕ → Created
unfolding attach_at
attach_found i addr m none = failed SessionError.not_pending
attach_found i addr m (some a) = attach_at i addr m a (get_elem? m.heap a)

unfoldable pub attach_oscar_session : ℕ → Bytes → Option ℕ → LegacySessionManager → Created
unfolding attach_found
attach_oscar_session uin addr none m = failed SessionError.missing_instance
attach_oscar_session uin addr (some i) m = attach_found i addr m (lookup ◌==◌ uin m.sessions)

unfoldable pub readdress_at :
    Bytes → LegacySessionManager → ℕ → Option LegacySession → LegacySessionManager
unfolding move_session
readdress_at addr m a none = m
readdress_at addr m a (some s) = move_session a s addr s.instance_id m

unfoldable pub readdress_found : Bytes → LegacySessionManager → Option ℕ → LegacySessionManager
unfolding readdress_at
readdress_found addr m none = m
readdress_found addr m (some a) = readdress_at addr m a (get_elem? m.heap a)

unfoldable pub update_session_addr : ℕ → Bytes → LegacySessionManager → LegacySessionManager
unfolding readdress_found
update_session_addr uin addr m = readdress_found addr m (lookup ◌==◌ uin m.sessions)

unfoldable pub get_session : ℕ → LegacySessionManager → Option ℕ
get_session uin m = lookup ◌==◌ uin m.sessions

unfoldable pub get_session_by_addr : Bytes → LegacySessionManager → Option ℕ
get_session_by_addr addr m = lookup bytes_eq addr m.addr_index

-- The first part of CleanupExpired: the sessions that are silent for longer than `timeout`.
unfoldable pub is_expired : ℕ → ℕ → Option LegacySession → Bool
is_expired now timeout none = false
is_expired now timeout (some s) = ltb timeout (now - s.last_activity)

unfoldable pub collect_expired : ℕ → ℕ → List LegacySession → List (ℕ × ℕ) → List ℕ
unfolding is_expired
collect_expired now timeout heap [] = []
collect_expired now timeout heap ((uin, a) ∷ sessions) =
    let rest = collect_expired now timeout heap sessions in
    if is_expired now timeout (get_elem? heap a) then a ∷ rest else rest

unfoldable pub is_stored : Option ℕ → Bool
is_stored none = false
is_stored (some a) = true

unfoldable pub expire_at : LegacySessionManager → Option LegacySession → ℕ × LegacySessionManager
unfolding remove_session_locked is_stored
expire_at m none = (0, m)
expire_at m (some s) =
    if is_stored (lookup ◌==◌ s.uin m.sessions) then (1, remove_session_locked s m) else (0, m)

-- The second part, after the lock was given up and taken again: how many were removed, and the rest.
unfoldable pub remove_expired : List ℕ → LegacySessionManager → ℕ × LegacySessionManager
unfolding expire_at
remove_expired [] m = (0, m)
remove_expired (a ∷ expired) m =
    let one = expire_at m (get_elem? m.heap a) in
    let rest = remove_expired expired one.1 in (one.0 + rest.0, rest.1)

unfoldable pub is_visible_to : LegacySession → ℕ → Bool
is_visible_to s viewer =
    if has_flag s.status flag_invisible
    then any (λ v. v == viewer) s.visible_list
    else not (any (λ v. v == viewer) s.invisible_list)

unfoldable pub visible_at : ℕ → Option LegacySession → Bool
unfolding is_visible_to
visible_at viewer none = false
visible_at viewer (some s) = is_visible_to s viewer

-- GetOnlineContacts, for a session of the UIN `viewer` with these contacts: the UINs found.
unfoldable pub online_contacts : ℕ → List ℕ → LegacySessionManager → List ℕ
unfolding visible_at current
online_contacts viewer [] m = []
online_contacts viewer (uin ∷ contacts) m =
    let rest = online_contacts viewer contacts m in
    if visible_at viewer (current uin m) then uin ∷ rest else rest

unfoldable pub lists_contact : ℕ → Option LegacySession → Bool
lists_contact uin none = false
lists_contact uin (some s) = any (λ c. c == uin) s.contact_list

-- NotifyContactsOfStatus: the UINs whose session has `s` as a contact and may see it.
unfoldable pub notified : LegacySession → List LegacySession → List (ℕ × ℕ) → List ℕ
unfolding lists_contact is_visible_to
notified s heap [] = []
notified s heap ((uin, a) ∷ sessions) =
    let rest = notified s heap sessions in
    if not (uin == s.uin) && (lists_contact s.uin (get_elem? heap a) && is_visible_to s uin)
    then uin ∷ rest
    else rest

unfoldable pub notify_contacts_of_status : LegacySession → LegacySessionManager → List ℕ
unfolding notified
notify_contacts_of_status s m = notified s m.heap m.sessions

unfoldable pub count : LegacySessionManager → ℕ
count m = length m.sessions
