-- ===== src/WebApi/Events/Waiting.antt =====
-- A queue of server/webapi/events.go and one client's Fetch calls, among pushes and Close by others.
use retro_aim_server.Prelude.{ℕ, ◌≡◌, refl, ◌≢◌, inl, inr, ◌⊎◌, true, Bool-cases, List, [], ◌∷◌}
use retro_aim_server.Prelude.Bytes.{Bytes}
use retro_aim_server.WebApi.Events.{
  Event, EventQueue, Fetch, new_event_queue, append_event, close, get_events_after, found, fetch,
  wake,
}

-- The queue, the number that the client last asked after, and what came of that call.
pub record System (D : Type 0) : Type 0 where
  pub queue : EventQueue D
  pub last : ℕ
  pub call : Fetch D

-- A call starts when the one before has ended; a waiting call may take the token, see that the
-- queue is closed, time out, or be cancelled. A Push that has tested isClosed may append at any later
-- time, after a Close too; one that found the queue closed changes nothing.
pub data Step {D : Type 0} : System D → System D → Type 0 where
  pushes :
      (s : System D) (event_type : Bytes) (payload : D) (now : ℕ)
      → Step s (record s { queue = append_event event_type payload now s.queue })
  closes : (s : System D) → Step s (record s { queue = close s.queue })
  fetches :
      (s : System D) (last : ℕ)
      → s.call ≢ Fetch.waiting
      → Step s (record s { last = last; call = fetch last s.queue })
  wakes :
      (s : System D)
      → s.call ≡ Fetch.waiting
      → s.queue.signalled ≡ true
      → Step s (record s { queue = (wake s.last s.queue).1; call = (wake s.last s.queue).0 })
  sees_close :
      (s : System D)
      → s.call ≡ Fetch.waiting
      → s.queue.closed ≡ true
      → Step s (record s { call = Fetch.returned [] })
  times_out :
      (s : System D) → s.call ≡ Fetch.waiting → Step s (record s { call = Fetch.returned [] })
  cancels : (s : System D) → s.call ≡ Fetch.waiting → Step s (record s { call = Fetch.cancelled })

pub data Reach {D : Type 0} (s : System D) : System D → Type 0 where
  here : Reach s s
  next : {t u : System D} → Reach s t → Step t u → Reach s u

module _ {D : Type 0} where
  abbrev pub new_system : ℕ → System D
  new_system max_size = record {
    queue = new_event_queue max_size;
    last = 0;
    call = Fetch.returned [];
  }

  -- A call that waits has nothing to wait for, or will be woken.
  abbrev IsAlert : System D → Type 0
  IsAlert s =
      s.call ≡ Fetch.waiting → (get_events_after s.last s.queue ≡ []) ⊎ (s.queue.signalled ≡ true)

  found-waiting : (events : List (Event D)) → found events ≡ Fetch.waiting → events ≡ []
  unfolding found
  found-waiting [] h = refl
  found-waiting (e ∷ es) h = cc

  append_event-IsAlert :
      (q : EventQueue D) (event_type : Bytes) (payload : D) (now last : ℕ)
      → (get_events_after last (append_event event_type payload now q) ≡ [])
        ⊎ ((append_event event_type payload now q).signalled ≡ true)
  unfolding append_event
  append_event-IsAlert q event_type payload now last = inr refl

  fetch-waiting :
      (last : ℕ) (q : EventQueue D) → fetch last q ≡ Fetch.waiting → get_events_after last q ≡ []
  unfolding fetch
  fetch-waiting last q h = elim (Bool-cases q.closed) [
    | inl c ↦ absurd (cc (rw c at h))
    | inr c ↦ found-waiting _ (rw c at h)
  ]

  Step-IsAlert : {s t : System D} → Step s t → IsAlert s → IsAlert t
  unfolding fetch wake close get_events_after
  Step-IsAlert (pushes s event_type payload now) a h =
      append_event-IsAlert s.queue event_type payload now s.last
  Step-IsAlert (closes s) a h = a h
  Step-IsAlert (fetches s last e) a h = inl (fetch-waiting last s.queue h)
  Step-IsAlert (wakes s e g) a h = inl (found-waiting _ h)
  Step-IsAlert (sees_close s e c) a h = absurd (cc h)
  Step-IsAlert (times_out s e) a h = absurd (cc h)
  Step-IsAlert (cancels s e) a h = absurd (cc h)

  -- No wakeup is lost: whenever the client waits, after any steps on a new queue, no event is newer
  -- than the number it asked after, or the token that wakes it is there.
  pub Reach-IsAlert :
      (max_size : ℕ) (s : System D)
      → Reach (new_system max_size) s
      → s.call ≡ Fetch.waiting
      → (get_events_after s.last s.queue ≡ []) ⊎ (s.queue.signalled ≡ true)
  Reach-IsAlert max_size s here h = absurd (cc h)
  Reach-IsAlert max_size s (next r st) h = Step-IsAlert st (Reach-IsAlert max_size _ r) h
