-- ===== src/State/Session/NotifyTxn.antt =====
-- state/session.go: BeginNotifyTxn, NotifyTxn and EndNotifyTxn of SessionInstance. The set of names
-- is a list in the order of insertion; a name is its bytes.
use mathlib.Core.Path.{subst}
use retro_aim_server.Prelude.{
  ℕ, ◌+◌, ◌≤◌, ◌≡◌, ◌⊎◌, inl, inr, refl, sym, Bool, true, false, not, ◌||◌, Option, none, some,
  List, [], ◌∷◌, ◌++◌, length, ltb, if◌then◌else◌, arith, Bool-cases, length-append,
}
use retro_aim_server.Prelude.Bytes.{Bytes, bytes_eq, bytes_eq_iff}

pub record NotifyState : Type 0 where
  pub active : Bool
  pub should_send : Bool
  pub names : List Bytes

pub data NotifyError : Type 0 where
  not_active too_many_names : NotifyError

abbrev pub max_notify_txn_names : ℕ
max_notify_txn_names = 1000

unfoldable pub has_name : Bytes → List Bytes → Bool
has_name n [] = false
has_name n (m ∷ names) = let rest = has_name n names in if bytes_eq n m then true else rest

-- `names[name] = struct{}{}`.
unfoldable pub add_name : Bytes → List Bytes → List Bytes
unfolding has_name
add_name n names = if has_name n names then names else names ++ n ∷ []

unfoldable pub add_names : List Bytes → List Bytes → List Bytes
unfolding add_name
add_names [] names = names
add_names (n ∷ ns) names = add_names ns (add_name n names)

unfoldable pub begin_notify_txn : NotifyState → NotifyState
begin_notify_txn s = record { active = true; should_send = false; names = [] }

-- NotifyTxn: the error, if any, and the state.
unfoldable pub notify_txn : List Bytes → NotifyState → Option NotifyError × NotifyState
unfolding add_names
notify_txn ns s =
    if not s.active
    then (some NotifyError.not_active, s)
    else if ltb max_notify_txn_names (length s.names + length ns)
    then (some NotifyError.too_many_names, s)
    else (none, record s { should_send = true; names = add_names ns s.names })

-- Whether to notify and whom, and the state.
unfoldable pub end_notify_txn : NotifyState → (Bool × List Bytes) × NotifyState
end_notify_txn s = (
  if s.active then (s.should_send, s.names) else (false, []),
  record { active = false; should_send = false; names = [] },
)

-- A transaction's calls in turn, with what each answered.
unfoldable pub notify_each :
    List (List Bytes) → NotifyState → List (Option NotifyError) × NotifyState
unfolding notify_txn
notify_each [] s = ([], s)
notify_each (ns ∷ calls) s =
    let rest = notify_each calls (notify_txn ns s).1 in ((notify_txn ns s).0 ∷ rest.0, rest.1)

-- A name of one of the calls that were accepted.
abbrev pub accepted : Bytes → List (List Bytes) → List (Option NotifyError) → Bool
accepted n (ns ∷ calls) (none ∷ answers) = has_name n ns || accepted n calls answers
accepted n (ns ∷ calls) (some e ∷ answers) = accepted n calls answers
accepted n _ _ = false

has_name-append :
    (n m : Bytes) (names : List Bytes)
    → has_name n (names ++ m ∷ []) ≡ (has_name n names || bytes_eq n m)
unfolding has_name
has_name-append n m [] = ground arith
has_name-append n m (x ∷ names) = ground (arith, has_name-append n m names)

has_name-add_name :
    (n m : Bytes) (names : List Bytes)
    → has_name n (add_name m names) ≡ (has_name n names || bytes_eq n m)
unfolding add_name
has_name-add_name n m names = ground (arith, has_name-append n m names, bytes_eq_iff n m)

has_name-add_names :
    (n : Bytes) (ns names : List Bytes)
    → has_name n (add_names ns names) ≡ (has_name n names || has_name n ns)
unfolding add_names has_name
has_name-add_names n [] names = ground arith
has_name-add_names n (m ∷ ns) names =
    ground (arith, has_name-add_names n ns (add_name m names), has_name-add_name n m names)

length-add_name : (m : Bytes) (names : List Bytes) → length (add_name m names) ≤ length names + 1
unfolding add_name
length-add_name m names = ground (arith, length-append names (m ∷ []))

length-add_names : (ns names : List Bytes) → length (add_names ns names) ≤ length names + length ns
unfolding add_names
length-add_names [] names = omega arith
length-add_names (m ∷ ns) names =
    omega (arith, length-add_names ns (add_name m names), length-add_name m names)

-- What one call answers, while a transaction is open.
notify_txn_lem :
    (ns : List Bytes) (s : NotifyState)
    → s.active ≡ true
    → (notify_txn ns s ≡ (some NotifyError.too_many_names, s))
      ⊎ ((notify_txn ns s ≡ (none, record s { should_send = true; names = add_names ns s.names }))
          × (length s.names + length ns ≤ max_notify_txn_names))
unfolding notify_txn
notify_txn_lem ns s a = elim (Bool-cases (ltb max_notify_txn_names (length s.names + length ns))) [
  | inl big ↦ inl (rw (a, big))
  | inr small ↦ inr (rw (a, small), ground arith)
]

-- What a transaction's calls came to: still open, within the bound, and with which names.
Gathered : Bytes → List (List Bytes) → List Bytes → List (Option NotifyError) × NotifyState → Type 0
Gathered n calls before r =
    (r.1.active ≡ true)
    × (length r.1.names ≤ max_notify_txn_names)
    × (has_name n r.1.names ≡ (has_name n before || accepted n calls r.0))

Gathered-refused :
    (n : Bytes) (calls : List (List Bytes)) (ns before : List Bytes) (e : NotifyError)
    (r : List (Option NotifyError) × NotifyState)
    → Gathered n calls before r
    → Gathered n (ns ∷ calls) before (some e ∷ r.0, r.1)
unfolding Gathered
Gathered-refused n calls ns before e r h = h

Gathered-accepted :
    (n : Bytes) (calls : List (List Bytes)) (ns before : List Bytes)
    (r : List (Option NotifyError) × NotifyState)
    → Gathered n calls (add_names ns before) r
    → Gathered n (ns ∷ calls) before (none ∷ r.0, r.1)
unfolding Gathered
Gathered-accepted n calls ns before r h = ground (arith, has_name-add_names n ns before)

Gathered-none :
    (n : Bytes) (s : NotifyState)
    → s.active ≡ true
    → length s.names ≤ max_notify_txn_names
    → Gathered n [] s.names ([], s)
unfolding Gathered
Gathered-none n s a b = (a, b, ground arith)

notify_each-Gathered :
    (n : Bytes) (calls : List (List Bytes)) (s : NotifyState)
    → s.active ≡ true
    → length s.names ≤ max_notify_txn_names
    → Gathered n calls s.names (notify_each calls s)
unfolding notify_each
notify_each-Gathered n [] s a b = Gathered-none n s a b
notify_each-Gathered n (ns ∷ calls) s a b =
    let Result : Option NotifyError × NotifyState → Type 0 = λ r.
      Gathered n (ns ∷ calls) s.names
        (r.0 ∷ (notify_each calls r.1).0, (notify_each calls r.1).1) in
    elim (notify_txn_lem ns s a) [
      | inl e ↦
          subst Result (sym e)
            (Gathered-refused n calls ns s.names _ _ (notify_each-Gathered n calls s a b))
      | inr (e, small) ↦
          let s' = record s { should_send = true; names = add_names ns s.names } in
          subst Result (sym e) (
            Gathered-accepted n calls ns s.names _
              (notify_each-Gathered n calls s' a (omega (arith, length-add_names ns s.names))))
    ]

-- A transaction that is begun, used and ended names, of all those given to it, just the names of
-- the calls that were accepted, and never more than 1000.
pub end_notify_txn-notify_each :
    (n : Bytes) (calls : List (List Bytes)) (s : NotifyState)
    → (length (end_notify_txn (notify_each calls (begin_notify_txn s)).1).0.1
        ≤ max_notify_txn_names)
      × (has_name n (end_notify_txn (notify_each calls (begin_notify_txn s)).1).0.1
          ≡ accepted n calls (notify_each calls (begin_notify_txn s)).0)
unfolding end_notify_txn begin_notify_txn Gathered has_name
end_notify_txn-notify_each n calls s =
    let t = begin_notify_txn s in
    let (a, b, c) = notify_each-Gathered n calls t refl (omega arith) in rw a (b, c)
