-- ===== src/State/Session/Entries.antt =====
-- state/session.go: the entries of a Session's map of instances, number and address.
use retro_aim_server.Prelude.{
  ℕ, ◌≡◌, ◌≢◌, ◌⊎◌, inl, inr, refl, none, List, [], ◌∷◌, ◌==◌, arith, ==_refl,
}
use retro_aim_server.Prelude.Maps.{lookup, insert, delete}

-- An entry of the map of instances.
unfoldable pub In : ℕ → ℕ → List (ℕ × ℕ) → Type 0
In n a [] = ⊥
In n a ((m, b) ∷ es) = ((m ≡ n) × (b ≡ a)) ⊎ In n a es

-- The numbers of a map are distinct.
unfoldable pub Fresh : ℕ → List (ℕ × ℕ) → Type 0
Fresh n [] = Unit {0}
Fresh n ((m, b) ∷ es) = (m ≢ n) × Fresh n es

unfoldable pub Numbered : List (ℕ × ℕ) → Type 0
unfolding Fresh
Numbered [] = Unit {0}
Numbered ((n, a) ∷ es) = Fresh n es × Numbered es

pub Fresh-delete : (n k : ℕ) (es : List (ℕ × ℕ)) → Fresh n es → Fresh n (delete ◌==◌ k es)
unfolding Fresh delete
Fresh-delete n k [] h = h
Fresh-delete n k ((m, b) ∷ es) h = ground (arith, Fresh-delete n k es)

pub Numbered-delete : (k : ℕ) (es : List (ℕ × ℕ)) → Numbered es → Numbered (delete ◌==◌ k es)
unfolding Numbered delete
Numbered-delete k [] h = h
Numbered-delete k ((m, b) ∷ es) h = ground (arith, Numbered-delete k es, Fresh-delete m k es)

pub In-Fresh : (n a : ℕ) (es : List (ℕ × ℕ)) → Fresh n es → In n a es → ⊥
unfolding Fresh In
In-Fresh n a [] f h = h
In-Fresh n a ((m, b) ∷ es) f h = ground (arith, In-Fresh n a es)

-- With distinct numbers, a number has one address.
pub In-unique : (n a b : ℕ) (es : List (ℕ × ℕ)) → Numbered es → In n a es → In n b es → a ≡ b
unfolding Numbered In
In-unique n a b [] d h k = elim h [ ]
In-unique n a b ((m, c) ∷ es) d h k =
    ground (arith, In-unique n a b es, In-Fresh m a es, In-Fresh m b es)

pub In-delete : (n a k : ℕ) (es : List (ℕ × ℕ)) → n ≢ k → In n a es → In n a (delete ◌==◌ k es)
unfolding In delete
In-delete n a k [] d h = h
In-delete n a k ((m, c) ∷ es) d h = ground (arith, In-delete n a k es)

pub delete-In : (n a k : ℕ) (es : List (ℕ × ℕ)) → In n a (delete ◌==◌ k es) → (n ≢ k) × In n a es
unfolding In delete
delete-In n a k [] h = elim h [ ]
delete-In n a k ((m, c) ∷ es) h = ground (arith, delete-In n a k es)

pub Fresh-lookup : (n : ℕ) (m : List (ℕ × ℕ)) → lookup ◌==◌ n m ≡ none → Fresh n m
unfolding Fresh lookup
Fresh-lookup n [] h = tt
Fresh-lookup n ((k, a) ∷ m) h = ground (arith, Fresh-lookup n m)

pub Fresh-insert : (n k a : ℕ) (m : List (ℕ × ℕ)) → n ≢ k → Fresh n m → Fresh n (insert ◌==◌ k a m)
unfolding Fresh insert
Fresh-insert n k a [] d h = ground arith
Fresh-insert n k a ((j, b) ∷ m) d h = ground (arith, Fresh-insert n k a m)

pub Numbered-insert :
    (n a : ℕ) (m : List (ℕ × ℕ)) → Fresh n m → Numbered m → Numbered (insert ◌==◌ n a m)
unfolding Numbered insert Fresh
Numbered-insert n a [] f h = ground arith
Numbered-insert n a ((j, b) ∷ m) f h = ground (arith, Numbered-insert n a m, Fresh-insert j n a m)

-- A new entry is there, and the old ones stay.
pub In-insert : (n a : ℕ) (m : List (ℕ × ℕ)) → In n a (insert ◌==◌ n a m)
unfolding In insert
In-insert n a [] = inl (refl, refl)
In-insert n a ((j, b) ∷ m) = ground (arith, In-insert n a m)

pub insert-In :
    (n a k b : ℕ) (m : List (ℕ × ℕ)) → In k b (insert ◌==◌ n a m) → ((k ≡ n) × (b ≡ a)) ⊎ In k b m
unfolding In insert
insert-In n a k b [] h = ground arith
insert-In n a k b ((j, c) ∷ m) h = ground (arith, insert-In n a k b m)

pub In-insert_old :
    (n a k b : ℕ) (m : List (ℕ × ℕ)) → Fresh n m → In k b m → In k b (insert ◌==◌ n a m)
unfolding In insert Fresh
In-insert_old n a k b [] f h = elim h [ ]
In-insert_old n a k b ((j, c) ∷ m) f h = ground (arith, In-insert_old n a k b m)

pub insert-ne-nil : (n a : ℕ) (m : List (ℕ × ℕ)) → insert ◌==◌ n a m ≢ []
unfolding insert
insert-ne-nil n a [] h = cc
insert-ne-nil n a ((j, b) ∷ m) h = ground arith

pub Fresh-of : (n : ℕ) (m : List (ℕ × ℕ)) → ((a : ℕ) → In n a m → ⊥) → Fresh n m
unfolding Fresh In
Fresh-of n [] h = tt
Fresh-of n ((k, a) ∷ m) h = (λ e. h a (inl (e, refl)), Fresh-of n m (λ b e. h b (inr e)))

pub In-cons :
    (n a k b : ℕ) (m : List (ℕ × ℕ)) → In n a ((k, b) ∷ m) → ((k ≡ n) × (b ≡ a)) ⊎ In n a m
unfolding In
In-cons n a k b m h = h

pub In-head : (n a : ℕ) (m : List (ℕ × ℕ)) → In n a ((n, a) ∷ m)
unfolding In
In-head n a m = inl (refl, refl)

pub In-tail : (n a k b : ℕ) (m : List (ℕ × ℕ)) → In n a m → In n a ((k, b) ∷ m)
unfolding In
In-tail n a k b m h = inr h

pub In-nil : (n a : ℕ) → In n a [] → ⊥
unfolding In
In-nil n a h = h

pub In-ne-nil : (n a : ℕ) (m : List (ℕ × ℕ)) → In n a m → m ≢ []
unfolding In
In-ne-nil n a [] h e = h
In-ne-nil n a (x ∷ m) h e = cc

pub delete-Fresh : (n : ℕ) (m : List (ℕ × ℕ)) → Fresh n m → delete ◌==◌ n m ≡ m
unfolding Fresh delete
delete-Fresh n [] h = refl
delete-Fresh n ((k, b) ∷ m) h = ground (arith, delete-Fresh n m)

-- Deleting the first entry of a map of distinct numbers leaves the others.
pub delete_head :
    (n a : ℕ) (m : List (ℕ × ℕ)) → Numbered ((n, a) ∷ m) → delete ◌==◌ n ((n, a) ∷ m) ≡ m
unfolding Numbered delete
delete_head n a m h = rw (==_refl n) (delete-Fresh n m h.0)

pub delete_one : (n a : ℕ) → delete ◌==◌ n ((n, a) ∷ []) ≡ []
unfolding delete
delete_one n a = rw (==_refl n)
