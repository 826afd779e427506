-- ===== src/IcqLegacy/Tests.antt =====
-- server/icq_legacy at concrete inputs.
use retro_aim_server.Prelude.{◌≡◌, refl, none, some, [], ◌∷◌, get_elem?}
use retro_aim_server.Prelude.Bytes.{Bytes, bytes_eq}
use retro_aim_server.Prelude.Maps.{lookup, insert, delete}
use retro_aim_server.IcqLegacy.Sessions.{
  LegacySession, LegacySessionManager, create_pending_session, get_session, get_session_by_addr,
  remove_expired,
}
use retro_aim_server.IcqLegacy.Sessions.Reachable.{
  Step, Reach, no_sessions, get_session_by_addr-get_session,
}
use retro_aim_server.IcqLegacy.Status.{map_legacy_status_to_oscar, map_oscar_status_to_legacy}
use retro_aim_server.IcqLegacy.Status.Stable.{map_oscar_status_to_legacy-stable}

map_oscar_status_to_legacy-stable_example :
    map_oscar_status_to_legacy (map_legacy_status_to_oscar (map_oscar_status_to_legacy 0x10000113))
    ≡ map_oscar_status_to_legacy 0x10000113
map_oscar_status_to_legacy-stable_example = map_oscar_status_to_legacy-stable 0x10000113

-- Away, DND and Busy together, invisible.
dnd_invisible : map_oscar_status_to_legacy 0x10000113 ≡ 0x10000102
unfolding map_oscar_status_to_legacy
dnd_invisible = refl

abbrev home : Bytes
home = 49 ∷ 46 ∷ 50 ∷ []

abbrev pending : LegacySessionManager
pending = (create_pending_session 10001 home 5 77 no_sessions).1

found_by_addr : get_session_by_addr home pending ≡ some 0
unfolding get_session_by_addr create_pending_session lookup insert bytes_eq
found_by_addr = refl

get_session_by_addr-get_session_example :
    (s : LegacySession) × (get_elem? pending.heap 0 ≡ some s)
    × (s.addr ≡ some home)
    × (get_session s.uin pending ≡ some 0)
get_session_by_addr-get_session_example =
    get_session_by_addr-get_session pending home 0
      (Reach.next Reach.here (Step.pends no_sessions 10001 home 5 77)) found_by_addr

-- A client that comes back between the two parts of CleanupExpired loses its new session: the old
-- one, at place 0, is removed by its UIN, which is the new one's.
abbrev away : Bytes
away = 50 ∷ 46 ∷ 49 ∷ []

abbrev back : LegacySessionManager
back = (create_pending_session 10001 away 5 99 pending).1

new_session_lost : get_session 10001 (remove_expired (0 ∷ []) back).1 ≡ none
unfolding get_session remove_expired create_pending_session lookup insert delete
new_session_lost = refl

still_indexed : get_session_by_addr away (remove_expired (0 ∷ []) back).1 ≡ some 1
unfolding get_session_by_addr remove_expired create_pending_session lookup insert delete bytes_eq
still_indexed = refl
