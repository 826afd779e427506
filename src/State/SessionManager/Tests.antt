-- ===== src/State/SessionManager/Tests.antt =====
-- state/session_manager.go at concrete inputs.
use retro_aim_server.Prelude.{ℕ, ◌≡◌, ◌≢◌, inl, refl, true, some, [], ◌∷◌}
use retro_aim_server.Prelude.Bytes.{Bytes, bytes_eq}
use retro_aim_server.Prelude.Maps.{lookup, insert}
use retro_aim_server.State.Session.Lifecycle.{
  new_session, with_instance, add_instance, generate_instance_num, next_num,
}
use retro_aim_server.State.SessionManager.{
  SessionManager, SessionSlot, Answer, new_session_manager, add_session, resume_add_session,
  find_rec,
}
use retro_aim_server.State.SessionManager.Capacity.{
  Step, Reach, WithinCapacity, add_session_capacity,
}
use retro_aim_server.State.SessionManager.Names.{find_rec-lookup, add_session-found}

abbrev ann : Bytes
ann = 97 ∷ 110 ∷ 110 ∷ []

abbrev with_ann : SessionManager ℕ
with_ann = record {
  accounts = record { ident = ann; session = with_instance 1 new_session } ∷ [];
  store = (ann, record { session = 0; multi_session = true }) ∷ [];
  removed = [];
}

add_ann : add_session ann true new_session_manager ≡ Answer.returns 0 0 with_ann
unfolding add_session find_rec new_session_manager add_instance generate_instance_num next_num
    lookup new_session insert
add_ann = refl

Reach-with_ann : Reach new_session_manager with_ann
Reach-with_ann = Reach.next Reach.here (Step.adds new_session_manager ann true 0 0 with_ann add_ann)

add_session_capacity_example :
    WithinCapacity with_ann
    × (add_session ann true with_ann ≢ Answer.panics)
    × (resume_add_session ann true 0 with_ann ≢ some Answer.panics)
add_session_capacity_example = add_session_capacity with_ann ann true 0 Reach-with_ann

find_rec-lookup_example : find_rec ann with_ann ≡ lookup bytes_eq ann with_ann.store
find_rec-lookup_example = find_rec-lookup with_ann ann Reach-with_ann

add_session-found_example :
    (slot : SessionSlot) × (find_rec ann with_ann ≡ some slot) × (slot.session ≡ 0)
add_session-found_example =
    add_session-found new_session_manager with_ann ann true 0 0 0 Reach.here (inl add_ann)
