-- ===== src/State/Tests.antt =====
-- Concrete inputs for the theorems on the session and the feedbag, and runs of the code.
use retro_aim_server.State.FeedbagList.Changes.{add_group}
use retro_aim_server.State.FeedbagList.Edits.{Edit, Edited, upsert_item-Edited}
use retro_aim_server.Prelude.{keep, not, ◌==◌}
use retro_aim_server.Prelude.Bytes.{uint}
use retro_aim_server.Wire.Tlv.{uint16_slice}
use retro_aim_server.Wire.FeedbagItem.{order_members}
use retro_aim_server.State.FeedbagList.Placing.{Placed, reorder_in_group_order-Placed}
use retro_aim_server.State.FeedbagList.Groups.{reorder_in_group_order}
use retro_aim_server.Prelude.{
  ℕ, ◌+◌, ◌<◌, ◌≡◌, ◌≢◌, refl, ◌⊎◌, true, false, none, some, List, [], ◌∷◌, ◌++◌, map, any, All,
  arith, if◌then◌else◌, ltb, ◌&&◌,
}
use retro_aim_server.Prelude.Bytes.{Bytes}
use retro_aim_server.Prelude.Int.{pos}
use retro_aim_server.Wire.RateLimit.{RateClass, RateLimitStatus, rate_class}
use retro_aim_server.Wire.FeedbagItem.{FeedbagItem}
use retro_aim_server.State.RateLimits.{
  RateClassState, Limits, evaluate_class, is_limited, observe_rate_changes,
}
use retro_aim_server.State.RateLimits.Laws.{
  Released, evaluate_class-Released, observe_rate_changes_again,
}
use retro_aim_server.State.RateLimits.Spacing.{
  statuses, is_disconnect, Spaced-clear, flood_disconnect,
}
use retro_aim_server.State.FeedbagList.{
  FeedbagList, is_taken, gen_id, items_match, delete_item, normalized, upsert_item,
}
use retro_aim_server.State.FeedbagList.Ids.{gen_id-free}
use retro_aim_server.State.FeedbagList.Deletion.{delete_item-first}
use retro_aim_server.State.FeedbagList.Storing.{Stores}
use retro_aim_server.State.FeedbagList.Groups.{bare, new_feedbag_list}
use retro_aim_server.State.FeedbagList.Buddies.{delete_group}

abbrev a_class : RateClass
a_class = rate_class 1 80 2500 2000 1500 800 6000

abbrev a_state : RateClassState
a_state = record {
  class = a_class;
  current_level = pos 6000;
  last_time = 0;
  current_status = RateLimitStatus.clear;
  subscribed = true;
  limited_now = false;
}

abbrev limited_state : RateClassState
limited_state = record a_state { current_level = pos 1400; limited_now = true }

abbrev some_limits : Limits
some_limits = record {
  states = a_state ∷ a_state ∷ [];
  original = [];
  observed = a_state ∷ a_state ∷ [];
}

evaluate_class-Released_example :
    let (status, after) = evaluate_class 5000000 limited_state in
    (after.limited_now ≡ is_limited status)
    × (after.current_status ≡ status)
    × Released limited_state.class status after.current_level
evaluate_class-Released_example = evaluate_class-Released 5000000 limited_state refl

observe_rate_changes_again_example :
    let first = observe_rate_changes 5000000 some_limits.states some_limits.observed in
    let again = observe_rate_changes 5000000 first.states first.observed in
    (again.class_delta ≡ []) × (again.state_delta ≡ [])
observe_rate_changes_again_example =
    observe_rate_changes_again 5000000 some_limits.states some_limits.observed (refl, (refl, tt))

Spaced-clear_example :
    All (λ status. status ≡ RateLimitStatus.clear) (statuses a_state (2500000000 ∷ 5100000000 ∷ []))
Spaced-clear_example =
    Spaced-clear 1 79 2500 2000 1500 800 6000 10000 (omega arith) (omega arith, omega arith)
      (2500000000 ∷ 5100000000 ∷ []) a_state 6000 refl refl (omega arith) (omega arith)
      (omega arith)

-- A class whose average stands at its disconnect level, and one message at once.
abbrev low_state : RateClassState
low_state = record a_state { current_level = pos 800 }

flood_disconnect_example : any is_disconnect (statuses low_state (0 ∷ [])) ≡ true
flood_disconnect_example =
    flood_disconnect 1 79 2500 2000 1500 800 6000 10000 (omega arith) (omega arith, omega arith)
      (0 ∷ []) low_state 800 refl refl (omega arith) (omega arith) (omega arith) (omega arith)
      (omega arith) (omega arith)

-- The functions from outside: a generator that always gives 7, and lower case for ASCII letters.
abbrev always_7 : ℕ → ℕ → ℕ
always_7 call bound = 7

abbrev lower : ℕ → ℕ
lower c = if ltb 64 c && ltb c 91 then c + 32 else c

abbrev ascii_lower : Bytes → Bytes
ascii_lower = map lower

-- The root group, the unnamed group 3, and a buddy in it.
abbrev unnamed_group : FeedbagItem
unnamed_group = record (bare 1 []) { group_id = 3 }

abbrev a_buddy : FeedbagItem
a_buddy = record (bare 0 (98 ∷ [])) { group_id = 3; item_id = 7 }

abbrev some_items : List FeedbagItem
some_items = bare 1 [] ∷ unnamed_group ∷ a_buddy ∷ []

abbrev the_list : FeedbagList
the_list = new_feedbag_list some_items

gen_id-free_example :
    ((gen_id always_7 the_list).0 ≢ 0)
    × (is_taken the_list (gen_id always_7 the_list).0 ≡ false)
    × ((gen_id always_7 the_list).0 < 65536)
unfolding is_taken new_feedbag_list
gen_id-free_example = gen_id-free always_7 the_list 5 (omega arith) (omega arith) (omega arith) refl

-- The buddy, named with a capital and a space.
delete_item-first_example :
    let item = record a_buddy { name = 32 ∷ 66 ∷ [] } in
    ((delete_item ascii_lower item the_list ≡ (none, the_list))
      × All (λ a. items_match ascii_lower (the_list.heap a) item ≡ false) the_list.items)
    ⊎ ((before : List ℕ) × (a : ℕ) × (after : List ℕ) × (the_list.items ≡ before ++ a ∷ after)
        × (items_match ascii_lower (the_list.heap a) item ≡ true)
        × All (λ b. items_match ascii_lower (the_list.heap b) item ≡ false) before
        × (delete_item ascii_lower item the_list ≡ (
          some (the_list.heap a),
          record the_list {
            items = before ++ after;
            pending_deletes = the_list.pending_deletes ++ a ∷ [];
          },
        )))
delete_item-first_example =
    delete_item-first ascii_lower (record a_buddy { name = 32 ∷ 66 ∷ [] }) the_list

-- After a group was added.
upsert_item-Edited_example :
    Stores
      (λ existing. items_match ascii_lower existing (normalized ascii_lower a_buddy))
      (normalized ascii_lower a_buddy)
      (add_group ascii_lower always_7 (70 ∷ []) the_list).1
      (upsert_item ascii_lower always_7 a_buddy
        (add_group ascii_lower always_7 (70 ∷ []) the_list).1)
upsert_item-Edited_example =
    upsert_item-Edited ascii_lower always_7 some_items a_buddy
      (add_group ascii_lower always_7 (70 ∷ []) the_list).1
      (Edited.next Edited.here (Edit.adds_group (70 ∷ [])))

-- DeleteGroup with the empty name takes the root group off the list, which has that name too and
-- stands first, and leaves the unnamed group.
delete_group_test :
    map (delete_group ascii_lower [] the_list).heap (delete_group ascii_lower [] the_list).items
    ≡ unnamed_group ∷ []
unfolding delete_group new_feedbag_list
delete_group_test = refl

-- A group whose order holds 4 and 1000; 9 goes before 1000.
abbrev ordered_group : FeedbagItem
ordered_group = record unnamed_group {
  tlv_list = record { tag = 200; value = 0 ∷ 4 ∷ 3 ∷ 232 ∷ [] } ∷ [];
}

abbrev ordered_list : FeedbagList
ordered_list = record the_list { heap = λ a. ordered_group }

reorder_in_group_order-Placed_example :
    Placed 9 1000
      (keep (λ id. not (id == 9)) (4 ∷ 1000 ∷ []))
      (order_members ((reorder_in_group_order 1 9 1000 ordered_list).heap 1))
unfolding uint16_slice uint
reorder_in_group_order-Placed_example =
    reorder_in_group_order-Placed 1 9 1000 ordered_list (4 ∷ 1000 ∷ []) refl (omega arith)
      (omega arith)
