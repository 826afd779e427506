-- ===== src/WebApi/Events.antt =====
-- EventQueue of server/webapi/events.go. The mutex makes `append_event` and each reading of the
-- events one step. `waitChan` holds one token at most (`signalled`), and `closeChan` only says whether Close
-- ran (`closed`). The payloads have a type of the caller's, and the clock is an argument.
pub mod Numbering
pub mod Waiting
use retro_aim_server.Prelude.{
  ℕ, ◌+◌, ◌-◌, ◌%◌, ◌^◌, Bool, true, false, List, [], ◌∷◌, ◌++◌, length, drop, if◌then◌else◌, ltb,
}
use retro_aim_server.Prelude.Bytes.{Bytes}

pub record Event (D : Type 0) : Type 0 where
  pub event_type : Bytes
  pub seq_num : ℕ
  pub timestamp : ℕ
  pub payload : D

pub record EventQueue (D : Type 0) : Type 0 where
  pub events : List (Event D)
  pub seq_num : ℕ
  pub max_size : ℕ
  pub signalled : Bool
  pub closed : Bool

module _ {D : Type 0} where
  unfoldable pub new_event_queue : ℕ → EventQueue D
  new_event_queue max_size = record {
    events = [];
    seq_num = 0;
    max_size = max_size;
    signalled = false;
    closed = false;
  }

  -- `q.events[len(q.events)-q.maxSize:]`, when there are more.
  unfoldable pub trim : ℕ → List (Event D) → List (Event D)
  trim max_size events =
      if ltb max_size (length events) then drop (length events - max_size) events else events

  -- The critical section of Push. The counter is a uint64.
  unfoldable pub append_event : Bytes → D → ℕ → EventQueue D → EventQueue D
  unfolding trim
  append_event event_type payload now q =
      let seq = (q.seq_num + 1) % 2 ^ 64 in
      let event : Event D = record {
        event_type = event_type;
        seq_num = seq;
        timestamp = now;
        payload = payload;
      } in
      record q {
        events = trim q.max_size (q.events ++ event ∷ []);
        seq_num = seq;
        signalled = true;
      }

  -- Push, where no Close comes between its test and its critical section.
  unfoldable pub push : Bytes → D → ℕ → EventQueue D → EventQueue D
  unfolding append_event
  push event_type payload now q = if q.closed then q else append_event event_type payload now q

  unfoldable pub events_after : ℕ → List (Event D) → List (Event D)
  events_after seq [] = []
  events_after seq (event ∷ events) =
      let rest = events_after seq events in if ltb seq event.seq_num then event ∷ rest else rest

  unfoldable pub get_events_after : ℕ → EventQueue D → List (Event D)
  unfolding events_after
  get_events_after seq q = events_after seq q.events

  unfoldable pub get_all_events : EventQueue D → List (Event D)
  get_all_events q = q.events

  unfoldable pub close : EventQueue D → EventQueue D
  close q = record q { closed = true }

-- What Fetch is doing: it has returned, with events or with the context's error, or it waits.
pub data Fetch (D : Type 0) : Type 0 where
  returned : List (Event D) → Fetch D
  cancelled : Fetch D
  waiting : Fetch D

module _ {D : Type 0} where
  unfoldable pub found : List (Event D) → Fetch D
  found [] = Fetch.waiting
  found (event ∷ events) = Fetch.returned (event ∷ events)

  -- Fetch up to its `for`.
  unfoldable pub fetch : ℕ → EventQueue D → Fetch D
  unfolding get_events_after found
  fetch last q = if q.closed then Fetch.returned [] else found (get_events_after last q)

  -- The case of `<-q.waitChan`: the token is taken, and the events are read again.
  unfoldable pub wake : ℕ → EventQueue D → Fetch D × EventQueue D
  unfolding get_events_after found
  wake last q = (found (get_events_after last q), record q { signalled = false })
