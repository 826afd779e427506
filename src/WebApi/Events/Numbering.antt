-- ===== src/WebApi/Events/Numbering.antt =====
-- What EventQueue of server/webapi/events.go holds and returns after any events were pushed.
use Prim.Native.Nat.{max}
use mathlib.Core.List.{append_assoc, append-nil}
use retro_aim_server.Prelude.{
  ℕ, zero, suc, ◌+◌, ◌-◌, ◌%◌, ◌^◌, ◌≤◌, ◌<◌, ◌≡◌, refl, sym, ap, ◌∙◌, inl, inr, Bool-cases, Bool,
  true, false, List, [], ◌∷◌, ◌++◌, length, drop, length-append, length-drop, if◌then◌else◌, ltb,
  arith,
}
use retro_aim_server.Prelude.Bytes.{Bytes}
use retro_aim_server.WebApi.Events.{
  Event, EventQueue, new_event_queue, trim, push, events_after, get_events_after,
}

next_number : (n : ℕ) → suc n < 2 ^ 64 → (n + 1) % 2 ^ 64 ≡ suc n
next_number n h = omega arith

module _ {D : Type 0} where
  -- What is pushed is a type, a payload and the time; here as events numbered from `n + 1` on.
  unfoldable pub stamped : ℕ → List (Bytes × D × ℕ) → List (Event D)
  stamped n [] = []
  stamped n ((event_type, payload, now) ∷ xs) =
      record { event_type = event_type; seq_num = suc n; timestamp = now; payload = payload }
      ∷ stamped (suc n) xs

  unfoldable pub push_all : List (Bytes × D × ℕ) → EventQueue D → EventQueue D
  unfolding push
  push_all [] q = q
  push_all ((event_type, payload, now) ∷ xs) q = push_all xs (push event_type payload now q)

  drop_into : (k : ℕ) (l ys : List (Event D)) → k ≤ length l → drop k l ++ ys ≡ drop k (l ++ ys)
  drop_into zero l ys h = refl
  drop_into (suc k) [] ys h = absurd (omega arith)
  drop_into (suc k) (x ∷ l) ys h = drop_into k l ys (omega arith)

  drop_at : (j k : ℕ) (l : List (Event D)) → j ≡ k → drop j l ≡ drop k l
  drop_at j k l h = ap (λ i. drop i l) h

  drop_nil : (k : ℕ) → ◌≡◌ {A = List (Event D)} (drop k []) []
  drop_nil zero = refl
  drop_nil (suc k) = refl

  drop_twice : (a b : ℕ) (l : List (Event D)) → drop a (drop b l) ≡ drop (b + a) l
  drop_twice a zero l = ap (λ k. drop k l) (omega arith)
  drop_twice a (suc b) [] = drop_nil a ∙ sym (drop_nil (suc b + a))
  drop_twice a (suc b) (x ∷ l) =
      drop_twice a b l ∙ drop_at (suc (b + a)) (suc b + a) (x ∷ l) (omega arith)

  drop_if :
      (b : Bool) (x y z : ℕ) (l : List (Event D))
      → (b ≡ true → x ≡ z)
      → (b ≡ false → y ≡ z)
      → (if b then drop x l else drop y l) ≡ drop z l
  drop_if true x y z l h k = ap (λ n. drop n l) (h refl)
  drop_if false x y z l h k = ap (λ n. drop n l) (k refl)

  length_last : (l : List (Event D)) (e : Event D) → length (l ++ e ∷ []) ≡ suc (length l)
  length_last l e = omega (arith, length-append l (e ∷ []))

  trim_last :
      (m : ℕ) (l : List (Event D)) (e : Event D)
      → trim m (drop (length l - m) l ++ e ∷ []) ≡ drop (suc (length l) - m) (l ++ e ∷ [])
  unfolding trim
  trim_last m l e = rw (drop_into (length l - m) l (e ∷ []) (omega arith)) (
      rw (length-drop (length l - m) (l ++ e ∷ []), length_last l e)
        (rw (drop_twice (suc (length l) - (length l - m) - m) (length l - m) (l ++ e ∷ [])) (
          drop_if (ltb m (suc (length l) - (length l - m))) _ _ _ (l ++ e ∷ []) (λ h. ground arith)
            (λ h. ground arith))))

  -- The queue holds the last of the events pushed so far.
  abbrev Holds : ℕ → List (Event D) → EventQueue D → Type 0
  Holds m before q =
      (q.events ≡ drop (length before - m) before)
      × (q.seq_num ≡ length before)
      × (q.closed ≡ false)
      × (q.max_size ≡ m)

  push-Holds :
      (event_type : Bytes) (payload : D) (now m : ℕ) (before : List (Event D)) (q : EventQueue D)
      → suc (length before) < 2 ^ 64
      → Holds m before q
      → Holds m
          (before
            ++ record {
              event_type = event_type;
              seq_num = suc (length before);
              timestamp = now;
              payload = payload;
            }
              ∷ [])
          (push event_type payload now q)
  unfolding push
  push-Holds event_type payload now m before q small (e, n, c, s) =
      let event : Event D = record {
        event_type = event_type;
        seq_num = suc (length before);
        timestamp = now;
        payload = payload;
      } in
      (
        rw (c, s, e, n, next_number (length before) small, length_last before event)
            (trim_last m before event),
        rw (c, length_last before event, n) (omega arith),
        rw c,
        rw c s,
      )

  push_all-Holds :
      (xs : List (Bytes × D × ℕ)) (m : ℕ) (before : List (Event D)) (q : EventQueue D)
      → length before + length xs < 2 ^ 64
      → Holds m before q
      → Holds m (before ++ stamped (length before) xs) (push_all xs q)
  unfolding push_all stamped
  push_all-Holds [] m before q small h = rw (append-nil before) h
  push_all-Holds ((event_type, payload, now) ∷ xs) m before q small h =
      let e : Event D = record {
        event_type = event_type;
        seq_num = suc (length before);
        timestamp = now;
        payload = payload;
      } in
      let ih =
        push_all-Holds xs m (before ++ e ∷ []) (push event_type payload now q)
          (omega (arith, length_last before e))
          (push-Holds event_type payload now m before q (omega arith) h) in
      rw (length_last before e, append_assoc before (e ∷ []) (stamped (suc (length before)) xs)) at
        ih

  events_after-stamped :
      (k n : ℕ) (xs : List (Bytes × D × ℕ))
      → events_after k (stamped n xs) ≡ drop (k - n) (stamped n xs)
  unfolding events_after stamped
  events_after-stamped k n [] = sym (drop_nil (k - n))
  events_after-stamped k n ((event_type, payload, now) ∷ xs) =
      let ih = events_after-stamped k (suc n) xs in
      let all = (event_type, payload, now) ∷ xs in
      elim (Bool-cases (ltb k (suc n))) [
        | inl h ↦ rw h (
            ap
              (λ rest.
                record {
                  event_type = event_type;
                  seq_num = suc n;
                  timestamp = now;
                  payload = payload;
                }
                ∷ rest)
              (ih ∙ drop_at (k - suc n) 0 (stamped (suc n) xs) (ground arith))
            ∙ drop_at 0 (k - n) (stamped n all) (ground arith))
        | inr h ↦ rw h (ih ∙ drop_at (suc (k - suc n)) (k - n) (stamped n all) (ground arith))
      ]

  drop-stamped :
      (j n : ℕ) (xs : List (Bytes × D × ℕ)) → drop j (stamped n xs) ≡ stamped (n + j) (drop j xs)
  unfolding stamped
  drop-stamped zero n xs = ap (λ i. stamped i xs) (omega arith)
  drop-stamped (suc j) n [] = refl
  drop-stamped (suc j) n (x ∷ xs) =
      drop-stamped j (suc n) xs ∙ ap (λ i. stamped i (drop j xs)) (omega arith)

  length-stamped : (n : ℕ) (xs : List (Bytes × D × ℕ)) → length (stamped n xs) ≡ length xs
  unfolding stamped
  length-stamped n [] = refl
  length-stamped n (x ∷ xs) = ap suc (length-stamped (suc n) xs)

  -- After any pushes on a new queue, fewer than 2 ^ 64, the queue holds the last `m` of them at most,
  -- numbered from 1 on in the order of the pushes, and a reading after number `k` gives those that
  -- it holds beyond the first `k`.
  pub get_events_after-push_all :
      (xs : List (Bytes × D × ℕ)) (m k : ℕ)
      → length xs < 2 ^ 64
      → ((push_all xs (new_event_queue m)).events ≡ drop (length xs - m) (stamped 0 xs))
        × (get_events_after k (push_all xs (new_event_queue m))
            ≡ drop (max k (length xs - m)) (stamped 0 xs))
  unfolding get_events_after new_event_queue
  get_events_after-push_all xs m k h =
      let (e, _, _, _) =
        push_all-Holds xs m [] (new_event_queue m) (omega arith)
          (sym (drop_nil (0 - m)), refl, refl, refl) in
      let held = rw (length-stamped 0 xs) at e in
      (
        held,
        rw held (
            rw (drop-stamped (length xs - m) 0 xs) (
              events_after-stamped k (0 + (length xs - m)) (drop (length xs - m) xs)
              ∙ ap (drop (k - (0 + (length xs - m)))) (sym (drop-stamped (length xs - m) 0 xs))
              ∙ drop_twice (k - (0 + (length xs - m))) (length xs - m) (stamped 0 xs)
              ∙ ap (λ j. drop j (stamped 0 xs)) (omega arith))),
      )
