-- ===== src/State/Session/Tests.antt =====
-- state/session.go and the relays of state/session_manager.go at concrete inputs.
use retro_aim_server.Prelude.{
  ℕ, zero, suc, ◌≤◌, ◌≡◌, ◌⊎◌, ◌↔◌, refl, sym, ap, false, Option, none, some, List, [], ◌∷◌, length,
  get_elem?,
}
use retro_aim_server.Prelude.Maps.{lookup, insert, delete}
use retro_aim_server.Prelude.Bytes.{Bytes}
use retro_aim_server.Prelude.Int.{pos}
use retro_aim_server.State.Session.{
  SessionInstance, new_instance, set_idle, set_signon_complete, live,
}
use retro_aim_server.State.Session.Interleaving.{System, Step, Reach, change, at_rest, departed}
use retro_aim_server.State.Session.Lifecycle.{
  Session, Added, new_session, with_instance, add_instance, close_session, generate_instance_num,
  next_num, run_once, shut, remove_instance_and_maybe_close, call_sess_close,
}
use retro_aim_server.State.Session.Once.{IsValid, Reach-IsValid}
use retro_aim_server.State.Session.Closing.{IsQuiet, close_session-ends, run_once_failed}
use retro_aim_server.State.Session.Entries.{In, In-head}
use retro_aim_server.State.Session.Ordered.{Among, Distinct, same_some}
use retro_aim_server.State.Session.Teardown.{AllClosed, torn_down_once, instances_listed}
use retro_aim_server.State.Session.NotifyTxn.{
  NotifyState, accepted, max_notify_txn_names, has_name, begin_notify_txn, notify_each,
  end_notify_txn, end_notify_txn-notify_each,
}
use retro_aim_server.State.Session.Relay.{relay_each, delivered, relay_each-delivered}
use retro_aim_server.State.Session.Status.{session_idle, idle_time, away_message}
use retro_aim_server.State.Session.Status.Latest.{
  NoneAfter, Has, NoneAway, IsLatestAway, idle_time-latest, away_message-latest,
}

abbrev start : System ℕ
start = at_rest new_session

abbrev one_joined : System ℕ
one_joined = at_rest (with_instance 1 new_session)

joins : Step start one_joined
unfolding add_instance generate_instance_num next_num lookup new_session with_instance
joins = Step.adds start 0 one_joined.session refl

abbrev ready : SessionInstance ℕ
ready = set_signon_complete (new_instance 1)

abbrev signed_on : System ℕ
signed_on = at_rest (change 0 ready one_joined.session)

signs_on : Step one_joined signed_on
unfolding with_instance new_session new_instance set_signon_complete
signs_on = Step.changes one_joined 0 (new_instance 1) ready refl refl refl

Reach-signed_on : Reach start signed_on
Reach-signed_on = Reach.next (Reach.next Reach.here joins) signs_on

Reach-IsValid_example : IsValid signed_on
Reach-IsValid_example = Reach-IsValid signed_on Reach-signed_on

close_session-ends_example :
    IsQuiet (close_session signed_on.session)
    × ((close_session signed_on.session).instances ≡ [])
    × ((length (close_session signed_on.session).heap ≡ 0)
        ⊎ ((close_session signed_on.session).sess_close_calls ≡ 1))
    × (add_instance (close_session signed_on.session) ≡ Added.refused)
close_session-ends_example =
    close_session-ends signed_on.session (Reach-IsValid signed_on Reach-signed_on)

-- The one instance is shut, and its goroutine takes it out and calls back.
abbrev shut_down : System ℕ
shut_down = record signed_on { session = shut 0 ready signed_on.session; leaving = (1, 0) ∷ [] }

abbrev taken_out : System ℕ
taken_out = departed 1 0 (remove_instance_and_maybe_close 1 0 shut_down.session) shut_down

abbrev torn_down : System ℕ
torn_down = record taken_out { session = call_sess_close taken_out.session; calling = 0 }

Reach-torn_down : Reach start torn_down
unfolding set_signon_complete new_instance with_instance new_session change shut
    remove_instance_and_maybe_close departed delete insert
Reach-torn_down =
    Reach.next
      (Reach.next (Reach.next Reach-signed_on (Step.shuts signed_on 0 ready refl refl))
        (Step.departs shut_down 1 0 (In-head 1 0 [])))
      (Step.calls_back taken_out 0 refl)

torn_down_all : AllClosed torn_down.session
unfolding set_signon_complete new_instance with_instance new_session change shut
    remove_instance_and_maybe_close departed call_sess_close delete insert
torn_down_all zero i e = ap SessionInstance.closed (same_some i _ (sym e))
torn_down_all (suc a) i e = cc

torn_down_once_example :
    (torn_down.session.instances ≡ [])
    × ((length torn_down.session.heap ≡ 0)
        ⊎ ((torn_down.session.sess_close_calls ≡ 1)
            × (add_instance torn_down.session ≡ Added.refused)))
unfolding departed remove_instance_and_maybe_close delete shut change with_instance insert
    new_session
torn_down_once_example = torn_down_once torn_down Reach-torn_down refl refl torn_down_all

instances_listed_example :
    Distinct signed_on.session.instances_ordered
    × (Among 0 signed_on.session.instances_ordered
        ↔ ((ready.closed ≡ false) ⊎ In ready.instance_num 0 signed_on.leaving))
unfolding change with_instance new_session
instances_listed_example = instances_listed signed_on 0 ready Reach-signed_on refl

abbrev fails : Session ℕ → Session ℕ × Option ℕ
fails s = (s, some 7)

abbrev succeeds : Session ℕ → Session ℕ × Option ℕ
succeeds s = (s, none)

run_once_failed_example :
    (run_once succeeds (run_once fails (none, signed_on.session)).1
      ≡ (some 7, (run_once fails (none, signed_on.session)).1))
    × (add_instance (run_once fails (none, signed_on.session)).1.1 ≡ Added.refused)
run_once_failed_example = run_once_failed fails succeeds signed_on.session 7 refl

relay_each-delivered_example :
    get_elem? (relay_each live 5 signed_on.session.instances_ordered signed_on.session).heap 0
    ≡ some (delivered live 5 ready)
unfolding change with_instance new_session
relay_each-delivered_example = relay_each-delivered live 5 signed_on 0 ready Reach-signed_on refl

-- The message is in the queue of the one live instance.
delivered-ready : delivered live 5 ready ≡ record ready { msg_ch = 5 ∷ [] }
unfolding delivered live set_signon_complete new_instance
delivered-ready = refl

abbrev idle_pair : List (SessionInstance ℕ)
idle_pair =
    set_idle (pos 90) (pos 20) (new_instance 1) ∷ set_idle (pos 95) (pos 5) (new_instance 2) ∷ []

idle_time-latest_example :
    NoneAfter (idle_time idle_pair) idle_pair × Has (idle_time idle_pair) idle_pair
unfolding session_idle set_idle
idle_time-latest_example = idle_time-latest idle_pair refl

away_message-latest_example :
    (NoneAway idle_pair × (away_message idle_pair ≡ []))
    ⊎ ((k : SessionInstance ℕ) × IsLatestAway k idle_pair × (away_message idle_pair ≡ k.away_msg))
away_message-latest_example = away_message-latest idle_pair

abbrev no_txn : NotifyState
no_txn = record { active = false; should_send = false; names = [] }

abbrev two_calls : List (List Bytes)
two_calls = ((97 ∷ []) ∷ []) ∷ ((98 ∷ []) ∷ (97 ∷ []) ∷ []) ∷ []

end_notify_txn-notify_each_example :
    (length (end_notify_txn (notify_each two_calls (begin_notify_txn no_txn)).1).0.1
      ≤ max_notify_txn_names)
    × (has_name (98 ∷ []) (end_notify_txn (notify_each two_calls (begin_notify_txn no_txn)).1).0.1
        ≡ accepted (98 ∷ []) two_calls (notify_each two_calls (begin_notify_txn no_txn)).0)
end_notify_txn-notify_each_example = end_notify_txn-notify_each (98 ∷ []) two_calls no_txn
