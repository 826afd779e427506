-- ===== src/WebApi/Tests.antt =====
-- Concrete inputs for the theorems on the event queue.
use Prim.Native.Nat.{max}
use retro_aim_server.Prelude.{ℕ, ◌-◌, ◌≡◌, refl, ◌⊎◌, true, List, [], ◌∷◌, length, drop, arith}
use retro_aim_server.Prelude.Bytes.{Bytes}
use retro_aim_server.WebApi.Events.{Fetch, new_event_queue, get_events_after, fetch}
use retro_aim_server.WebApi.Events.Numbering.{stamped, push_all, get_events_after-push_all}
use retro_aim_server.WebApi.Events.Waiting.{System, Step, Reach, new_system, Reach-IsAlert}

abbrev three_pushes : List (Bytes × ℕ × ℕ)
three_pushes = (105 ∷ [], 7, 100) ∷ (105 ∷ [], 8, 101) ∷ (112 ∷ [], 9, 102) ∷ []

-- Three events pushed on a queue of two, read after the first.
get_events_after-push_all_example :
    ((push_all three_pushes (new_event_queue 2)).events
      ≡ drop (length three_pushes - 2) (stamped 0 three_pushes))
    × (get_events_after 1 (push_all three_pushes (new_event_queue 2))
        ≡ drop (max 1 (length three_pushes - 2)) (stamped 0 three_pushes))
get_events_after-push_all_example = get_events_after-push_all three_pushes 2 1 (omega arith)

abbrev after_fetch : System ℕ
after_fetch = record (new_system 10) { last = 0; call = fetch 0 (new_event_queue {D = ℕ} 10) }

fetch_waits : after_fetch.call ≡ Fetch.waiting
unfolding fetch new_event_queue
fetch_waits = refl

first_fetch : Reach {D = ℕ} (new_system 10) after_fetch
first_fetch = Reach.next Reach.here (Step.fetches (new_system 10) 0 (λ e. cc e))

Reach-IsAlert_example :
    (get_events_after after_fetch.last after_fetch.queue ≡ [])
    ⊎ (after_fetch.queue.signalled ≡ true)
Reach-IsAlert_example = Reach-IsAlert 10 after_fetch first_fetch fetch_waits
