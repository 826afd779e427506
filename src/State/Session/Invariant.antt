-- ===== src/State/Session/Invariant.antt =====
-- state/session.go: what holds of a Session between two critical sections.
use mathlib.Core.Path.{subst}
use retro_aim_server.Prelude.{
  ℕ, ◌<◌, ◌≡◌, ◌≢◌, ◌⊎◌, inl, inr, refl, sym, ◌∙◌, ap, true, false, some, List, [], ◌∷◌, ◌++◌,
  length, get_elem?, set, ◌==◌, arith, ==_iff, Bool-cases, get_elem?-set_self, get_elem?-set_ne,
  get_elem?-append, get_elem?-length, get_elem?-snoc, get_elem?-lt,
}
use retro_aim_server.Prelude.Maps.{insert, delete}
use retro_aim_server.State.Session.{SessionInstance, new_instance}
use retro_aim_server.State.Session.Numbering.{set-cases, same_read}
use retro_aim_server.State.Session.Entries.{
  In, Fresh, Numbered, Numbered-delete, In-unique, In-delete, delete-In, Numbered-insert, In-insert,
  insert-In, In-insert_old, Fresh-of, In-cons, In-head, In-tail,
}

-- The bookkeeping of the two maps, over the instances themselves.
module _ {M : Type 0} where
  pub record Holds (h : List (SessionInstance M)) (m p : List (ℕ × ℕ)) : Type 0 where
    pub numbered : Numbered m
    pub leaving_numbered : Numbered p
    pub in_range : (n a : ℕ) → In n a m → (0 < n) × (n < 256)
    pub held :
        (n a : ℕ)
        → In n a m
        → (i : SessionInstance M) × (get_elem? h a ≡ some i) × (i.instance_num ≡ n)
    pub leaving_in : (n a : ℕ) → In n a p → In n a m
    pub leaving_closed :
        (n a : ℕ) (i : SessionInstance M) → In n a p → get_elem? h a ≡ some i → i.closed ≡ true
    pub open_in :
        (a : ℕ) (i : SessionInstance M)
        → get_elem? h a ≡ some i
        → i.closed ≡ false
        → In i.instance_num a m
    pub closed_leaving :
        (n a : ℕ) (i : SessionInstance M)
        → In n a m
        → get_elem? h a ≡ some i
        → i.closed ≡ true
        → In n a p

  -- An instance joins.
  pub append-Holds :
      (h : List (SessionInstance M)) (m p : List (ℕ × ℕ)) (n : ℕ)
      → Holds h m p
      → Fresh n m
      → (0 < n) × (n < 256)
      → Holds (h ++ new_instance n ∷ []) (insert ◌==◌ n (length h) m) p
  unfolding new_instance
  append-Holds h m p n v f r = record {
    numbered = Numbered-insert n (length h) m f v.numbered;
    leaving_numbered = v.leaving_numbered;
    in_range = λ k a e. elim (insert-In n (length h) k a m e) [
      | inl (q, _) ↦ rw q r
      | inr old ↦ v.in_range k a old
    ];
    held = λ k a e. elim (insert-In n (length h) k a m e) [
      | inl (q, q') ↦ rw (q, q') (new_instance n, get_elem?-length h (new_instance n), refl)
      | inr old ↦
          let (i, e', q) = v.held k a old in (i, get_elem?-append h (new_instance n ∷ []) a i e', q)
    ];
    leaving_in = λ k a e. In-insert_old n (length h) k a m f (v.leaving_in k a e);
    leaving_closed = λ k a i e q. elim (get_elem?-snoc h (new_instance n) i a q) [
      | inl old ↦ v.leaving_closed k a i e old
      | inr (at_end, _) ↦
          let (j, e', _) = v.held k a (v.leaving_in k a e) in
          absurd (omega (arith, get_elem?-lt h a j e'))
    ];
    open_in = λ a i q c. elim (get_elem?-snoc h (new_instance n) i a q) [
      | inl old ↦ In-insert_old n (length h) i.instance_num a m f (v.open_in a i old c)
      | inr (at_end, same) ↦ rw (at_end, ← same) (In-insert n (length h) m)
    ];
    closed_leaving = λ k a i e q c. elim (get_elem?-snoc h (new_instance n) i a q) [
      | inl old ↦ elim (insert-In n (length h) k a m e) [
        | inl (_, at_end) ↦ absurd (omega (arith, get_elem?-lt h a i old))
        | inr e' ↦ v.closed_leaving k a i e' old c
      ]
      | inr (_, same) ↦ absurd (cc)
    ];
  }

  -- An instance is shut.
  pub shut-Holds :
      (h : List (SessionInstance M)) (m p : List (ℕ × ℕ)) (a : ℕ) (i : SessionInstance M)
      → Holds h m p
      → get_elem? h a ≡ some i
      → i.closed ≡ false
      → Holds (set h a (record i { closed = true })) m ((i.instance_num, a) ∷ p)
  unfolding Numbered
  shut-Holds h m p a i v at_a c =
      let here : In i.instance_num a m = v.open_in a i at_a c in
      let shut_i : SessionInstance M = record i { closed = true } in
      let reads : (b : ℕ) (j : SessionInstance M)
          → get_elem? (set h a shut_i) b ≡ some j
          → ((b ≡ a) × (shut_i ≡ j)) ⊎ ((b ≢ a) × (get_elem? h b ≡ some j)) =
        λ b j. set-cases h a b shut_i i j at_a in
      record {
        numbered = v.numbered;
        leaving_numbered = (
          Fresh-of i.instance_num p (λ b e.
              let same = In-unique i.instance_num a b m v.numbered here (v.leaving_in _ b e) in
              let closed = v.leaving_closed i.instance_num a i (rw same e) at_a in cc),
          v.leaving_numbered,
        );
        in_range = v.in_range;
        held = λ n b e.
            let (j, at_b, num) = v.held n b e in
            elim (Bool-cases (b == a)) [
              | inl q ↦
                  let same : b ≡ a = (==_iff b a).0 q in
                  (
                    shut_i,
                    rw same (get_elem?-set_self h a shut_i i at_a),
                    ap SessionInstance.instance_num (same_read h b a j i same at_b at_a) ∙ num,
                  )
              | inr q ↦ (j, get_elem?-set_ne h a b shut_i (ground arith) ∙ at_b, num)
            ];
        leaving_in = λ n b e. elim (In-cons n b i.instance_num a p e) [
          | inl (q, q') ↦ rw (← q, ← q') here
          | inr old ↦ v.leaving_in n b old
        ];
        leaving_closed = λ n b j e at_b. elim (reads b j at_b) [
          | inl (_, same) ↦ ap SessionInstance.closed (sym same)
          | inr (d, old) ↦ elim (In-cons n b i.instance_num a p e) [
            | inl (_, q) ↦ absurd (d (sym q))
            | inr e' ↦ v.leaving_closed n b j e' old
          ]
        ];
        open_in = λ b j at_b open'. elim (reads b j at_b) [
          | inl (_, same) ↦ absurd (cc (ap SessionInstance.closed same))
          | inr (_, old) ↦ v.open_in b j old open'
        ];
        closed_leaving = λ n b j e at_b closed. elim (reads b j at_b) [
          | inl (same, _) ↦
              let (j', at_b', num) = v.held n b e in
              let q =
                ap SessionInstance.instance_num (same_read h b a j' i same at_b' at_a) ∙ num in
              rw (same, ← q) (In-head i.instance_num a p)
          | inr (_, old) ↦ In-tail n b i.instance_num a p (v.closed_leaving n b j e old closed)
        ];
      }

  -- An instance departs.
  pub delete-Holds :
      (h : List (SessionInstance M)) (m p : List (ℕ × ℕ)) (n a : ℕ)
      → Holds h m p
      → In n a p
      → Holds h (delete ◌==◌ n m) (delete ◌==◌ n p)
  delete-Holds h m p n a v e = record {
    numbered = Numbered-delete n m v.numbered;
    leaving_numbered = Numbered-delete n p v.leaving_numbered;
    in_range = λ k b q. v.in_range k b (delete-In k b n m q).1;
    held = λ k b q. v.held k b (delete-In k b n m q).1;
    leaving_in =
        λ k b q. let (d, old) = delete-In k b n p q in In-delete k b n m d (v.leaving_in k b old);
    leaving_closed = λ k b i q. v.leaving_closed k b i (delete-In k b n p q).1;
    open_in = λ b i at_b c.
        let old = v.open_in b i at_b c in
        elim (Bool-cases (i.instance_num == n)) [
          | inl q ↦
              let num : i.instance_num ≡ n = (==_iff i.instance_num n).0 q in
              let same = In-unique n a b m v.numbered (v.leaving_in n a e) (rw (← num) old) in
              absurd (cc (v.leaving_closed n a i e (rw same at_b)))
          | inr q ↦ In-delete i.instance_num b n m (ground arith) old
        ];
    closed_leaving = λ k b i q at_b c.
        let (d, old) = delete-In k b n m q in
        In-delete k b n p d (v.closed_leaving k b i old at_b c);
  }

  -- An instance changes, but neither its number nor whether it is closed.
  pub change-Holds :
      (h : List (SessionInstance M)) (m p : List (ℕ × ℕ)) (a : ℕ) (i j : SessionInstance M)
      → Holds h m p
      → get_elem? h a ≡ some i
      → j.instance_num ≡ i.instance_num
      → j.closed ≡ i.closed
      → Holds (set h a j) m p
  change-Holds h m p a i j v at_a num_eq closed_eq =
      let before : (b : ℕ) (x : SessionInstance M)
          → get_elem? (set h a j) b ≡ some x
          → (y : SessionInstance M) × (get_elem? h b ≡ some y)
            × (x.instance_num ≡ y.instance_num)
            × (x.closed ≡ y.closed) =
        λ b x at_b. elim (set-cases h a b j i x at_a at_b) [
          | inl (same, e) ↦ (
            i,
            rw same at_a,
            ap SessionInstance.instance_num (sym e) ∙ num_eq,
            ap SessionInstance.closed (sym e) ∙ closed_eq,
          )
          | inr (_, old) ↦ (x, old, refl, refl)
        ] in
      record {
        numbered = v.numbered;
        leaving_numbered = v.leaving_numbered;
        in_range = v.in_range;
        held = λ n b e.
            let (y, at_b, num) = v.held n b e in
            elim (Bool-cases (b == a)) [
              | inl q ↦
                  let same : b ≡ a = (==_iff b a).0 q in
                  (
                    j,
                    rw same (get_elem?-set_self h a j i at_a),
                    num_eq
                        ∙ ap SessionInstance.instance_num (same_read h b a y i same at_b at_a)
                        ∙ num,
                  )
              | inr q ↦ (y, get_elem?-set_ne h a b j (ground arith) ∙ at_b, num)
            ];
        leaving_in = v.leaving_in;
        leaving_closed = λ n b x e at_b.
            let (y, old, _, c) = before b x at_b in c ∙ v.leaving_closed n b y e old;
        open_in = λ b x at_b open'.
            let (y, old, num, c) = before b x at_b in
            subst (λ n. In n b m) (sym num) (v.open_in b y old (sym c ∙ open'));
        closed_leaving = λ n b x e at_b closed.
            let (y, old, _, c) = before b x at_b in v.closed_leaving n b y e old (sym c ∙ closed);
      }
