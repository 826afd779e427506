-- ===== src/Wire/RateLimit/Classes.antt =====
-- wire/rate_limit.go: the two default tables agree, so that a lookup never leads to a panic.
use retro_aim_server.Prelude.{
  ℕ, zero, suc, ◌≤◌, ◌≡◌, refl, none, some, List, [], ◌∷◌, All, arith, Option-cases, inl, inr,
}
use retro_aim_server.Wire.RateLimit.{RateClass, get_class, default_rate_limit_classes}
use retro_aim_server.Wire.RateLimit.Table.{lookup, rate_class_lookup, default_snac_rate_limits}

lookup-All :
    {A : Type 0} (P : A → Type 0) (m : List (ℕ × A)) (k : ℕ) (v : A)
    → All (λ e. P e.1) m
    → lookup k m ≡ some v
    → P v
unfolding lookup
lookup-All P [] k v h e = cc
lookup-All P ((j, u) ∷ m) k v (h, hs) e = ground (arith, lookup-All P m k v hs)

abbrev IsClassId : ℕ → Type 0
IsClassId c = (1 ≤ c) × (c ≤ 5)

get_class-default :
    (id : ℕ)
    → IsClassId id
    → (c : RateClass) × (get_class default_rate_limit_classes id ≡ some c) × (c.id ≡ id)
unfolding get_class
get_class-default zero h = absurd (omega arith)
get_class-default (suc zero) h = (_, refl, refl)
get_class-default (suc (suc zero)) h = (_, refl, refl)
get_class-default (suc (suc (suc zero))) h = (_, refl, refl)
get_class-default (suc (suc (suc (suc zero)))) h = (_, refl, refl)
get_class-default (suc (suc (suc (suc (suc zero))))) h = (_, refl, refl)
get_class-default (suc (suc (suc (suc (suc (suc n)))))) h = absurd (omega arith)

table-IsClassId : All (λ g. All (λ e. IsClassId e.1) g.1) default_snac_rate_limits
table-IsClassId = omega arith

-- The class that RateClassLookup finds in the default table for any SNAC is one of the default
-- classes, under its own id: RateLimitClasses.Get does not panic on it.
pub rate_class_lookup-get_class :
    (food_group sub_group id : ℕ)
    → rate_class_lookup default_snac_rate_limits food_group sub_group ≡ some id
    → (c : RateClass) × (get_class default_rate_limit_classes id ≡ some c) × (c.id ≡ id)
unfolding rate_class_lookup
rate_class_lookup-get_class food_group sub_group id h =
    elim (Option-cases (lookup food_group default_snac_rate_limits)) [
      | inl missing ↦ absurd (none_ne (rw (missing, rate_class_lookup) at h))
      | inr (group, found) ↦ get_class-default id (
          lookup-All IsClassId group sub_group id
            (lookup-All (λ g. All (λ e. IsClassId e.1) g) default_snac_rate_limits food_group group
              table-IsClassId found)
            (rw (found, rate_class_lookup) at h))
    ]
  where
    none_ne : (none ≡ some id) → ⊥
    none_ne e = cc
