-- ===== src/IcqLegacy/Status/Stable.antt =====
-- server/icq_legacy/service.go: the two status maps together.
use Prim.Native.Nat.{bit_and}
use retro_aim_server.Prelude.{ℕ, ◌≡◌, ◌⊎◌, refl, Bool, true, false, ◌&&◌, ◌==◌, ==_iff, arith}
use retro_aim_server.IcqLegacy.Status.{
  has_flag, with_flags, map_flags, map_legacy_status_to_oscar, legacy_fallback, legacy_base,
  flag_invisible, flag_web_aware, flag_birthday, flag_dc_auth, map_oscar_status_to_legacy,
}

-- What holds of all six kinds of status.
every_base : (ℕ → Bool) → Bool
every_base p = p 0x00 && (p 0x01 && (p 0x02 && (p 0x04 && (p 0x10 && p 0x20))))

IsBase : ℕ → Type 0
IsBase b = (b ≡ 0x00) ⊎ (b ≡ 0x01) ⊎ (b ≡ 0x02) ⊎ (b ≡ 0x04) ⊎ (b ≡ 0x10) ⊎ (b ≡ 0x20)

every_base_sound : (p : ℕ → Bool) (b : ℕ) → every_base p ≡ true → IsBase b → p b ≡ true
unfolding every_base IsBase
every_base_sound p b h k = ground (arith)

legacy_fallback-IsBase : (b : ℕ) → IsBase (legacy_fallback b)
unfolding legacy_fallback IsBase
legacy_fallback-IsBase b = ground arith

legacy_base-IsBase : (b : ℕ) → IsBase (legacy_base b)
unfolding legacy_base IsBase
legacy_base-IsBase b = ground (arith, legacy_fallback-IsBase b)

both_ways : (Bool → Bool) → Bool
both_ways p = p true && p false

both_ways_sound : (p : Bool → Bool) (b : Bool) → both_ways p ≡ true → p b ≡ true
unfolding both_ways
both_ways_sound p true h = ground arith
both_ways_sound p false h = ground arith

comes_back : ℕ → Bool → Bool → Bool → Bool → Bool
comes_back base i w b d =
    map_oscar_status_to_legacy (map_legacy_status_to_oscar (with_flags base i w b d))
    == with_flags base i w b d

table :
    every_base (λ base.
      both_ways (λ i. both_ways (λ w. both_ways (λ b. both_ways (λ d. comes_back base i w b d)))))
    ≡ true
unfolding every_base both_ways comes_back map_oscar_status_to_legacy map_legacy_status_to_oscar
    with_flags
table = refl

comes_back_lem : (base : ℕ) (i w b d : Bool) → IsBase base → comes_back base i w b d ≡ true
comes_back_lem base i w b d h = both_ways_sound _ d (
    both_ways_sound _ b
      (both_ways_sound _ w (both_ways_sound _ i (every_base_sound _ base table h))))

-- For every OSCAR status, the old status that a client is told, mapped to OSCAR and back, is the
-- same again.
pub map_oscar_status_to_legacy-stable :
    (status : ℕ)
    → map_oscar_status_to_legacy (map_legacy_status_to_oscar (map_oscar_status_to_legacy status))
      ≡ map_oscar_status_to_legacy status
unfolding map_oscar_status_to_legacy map_flags comes_back
map_oscar_status_to_legacy-stable status = (==_iff _ _).0 (
    comes_back_lem (legacy_base (bit_and status 0xFF)) (has_flag status flag_invisible)
      (has_flag status flag_web_aware) (has_flag status flag_birthday)
      (has_flag status flag_dc_auth) (legacy_base-IsBase (bit_and status 0xFF)))
