-- ===== src/Wire/RateLimit/Table.antt =====
-- wire/rate_limit.go: DefaultSNACRateLimits, the rate class of each SNAC, by food group and subgroup.
-- An entry is the subgroup's number in wire/snacs.go with its class, in the order of the source.
use retro_aim_server.Prelude.{ℕ, Option, none, some, List, [], ◌∷◌, if◌then◌else◌, ◌==◌}

abbrev oservice_rate_classes : List (ℕ × ℕ)
oservice_rate_classes =
    (0x0001, 1)
    ∷ (0x0002, 1)
    ∷ (0x0003, 1)
    ∷ (0x0004, 1)
    ∷ (0x0005, 1)
    ∷ (0x0006, 1)
    ∷ (0x0007, 1)
    ∷ (0x0008, 1)
    ∷ (0x0009, 1)
    ∷ (0x000a, 1)
    ∷ (0x000b, 1)
    ∷ (0x000c, 1)
    ∷ (0x000d, 1)
    ∷ (0x000e, 1)
    ∷ (0x000f, 1)
    ∷ (0x0010, 1)
    ∷ (0x0011, 1)
    ∷ (0x0012, 1)
    ∷ (0x0013, 1)
    ∷ (0x0014, 1)
    ∷ (0x0015, 1)
    ∷ (0x0016, 1)
    ∷ (0x0017, 1)
    ∷ (0x0018, 1)
    ∷ (0x0019, 1)
    ∷ (0x001a, 1)
    ∷ (0x001b, 1)
    ∷ (0x001c, 1)
    ∷ (0x001d, 1)
    ∷ (0x001e, 1)
    ∷ (0x001f, 1)
    ∷ (0x0020, 1)
    ∷ (0x0021, 1)
    ∷ (0x0022, 1)
    ∷ (0x0023, 1)
    ∷ []

abbrev locate_rate_classes : List (ℕ × ℕ)
locate_rate_classes =
    (0x0001, 1)
    ∷ (0x0002, 1)
    ∷ (0x0003, 1)
    ∷ (0x0004, 1)
    ∷ (0x0005, 3)
    ∷ (0x0006, 1)
    ∷ (0x0007, 1)
    ∷ (0x0008, 1)
    ∷ (0x0009, 4)
    ∷ (0x000a, 1)
    ∷ (0x000b, 4)
    ∷ (0x000c, 1)
    ∷ (0x000d, 1)
    ∷ (0x000e, 1)
    ∷ (0x000f, 1)
    ∷ (0x0010, 1)
    ∷ (0x0011, 1)
    ∷ (0x0012, 1)
    ∷ (0x0013, 1)
    ∷ (0x0014, 1)
    ∷ (0x0015, 1)
    ∷ []

abbrev buddy_rate_classes : List (ℕ × ℕ)
buddy_rate_classes =
    (0x0001, 1)
    ∷ (0x0002, 1)
    ∷ (0x0003, 1)
    ∷ (0x0004, 2)
    ∷ (0x0005, 2)
    ∷ (0x0006, 1)
    ∷ (0x0007, 1)
    ∷ (0x0008, 1)
    ∷ (0x0009, 1)
    ∷ (0x000a, 1)
    ∷ (0x000b, 1)
    ∷ (0x000c, 1)
    ∷ (0x000f, 1)
    ∷ (0x0010, 1)
    ∷ []

abbrev icbm_rate_classes : List (ℕ × ℕ)
icbm_rate_classes =
    (0x0001, 1)
    ∷ (0x0002, 1)
    ∷ (0x0003, 1)
    ∷ (0x0004, 1)
    ∷ (0x0005, 1)
    ∷ (0x0006, 3)
    ∷ (0x0007, 1)
    ∷ (0x0008, 1)
    ∷ (0x0009, 1)
    ∷ (0x000a, 1)
    ∷ (0x000b, 1)
    ∷ (0x000c, 1)
    ∷ (0x000d, 1)
    ∷ (0x000e, 1)
    ∷ (0x000f, 1)
    ∷ (0x0010, 1)
    ∷ (0x0011, 1)
    ∷ (0x0012, 1)
    ∷ (0x0013, 1)
    ∷ (0x0014, 1)
    ∷ []

abbrev advert_rate_classes : List (ℕ × ℕ)
advert_rate_classes = (0x0001, 1) ∷ (0x0002, 1) ∷ (0x0003, 1) ∷ []

abbrev invite_rate_classes : List (ℕ × ℕ)
invite_rate_classes = (0x0001, 1) ∷ (0x0002, 1) ∷ (0x0003, 1) ∷ []

abbrev admin_rate_classes : List (ℕ × ℕ)
admin_rate_classes =
    (0x0001, 1)
    ∷ (0x0002, 1)
    ∷ (0x0003, 1)
    ∷ (0x0004, 1)
    ∷ (0x0005, 1)
    ∷ (0x0006, 1)
    ∷ (0x0007, 1)
    ∷ (0x0008, 1)
    ∷ (0x0009, 1)
    ∷ []

abbrev popup_rate_classes : List (ℕ × ℕ)
popup_rate_classes = (0x0001, 1) ∷ (0x0002, 1) ∷ []

abbrev permit_deny_rate_classes : List (ℕ × ℕ)
permit_deny_rate_classes =
    (0x0001, 1)
    ∷ (0x0002, 1)
    ∷ (0x0003, 1)
    ∷ (0x0004, 1)
    ∷ (0x0005, 2)
    ∷ (0x0006, 2)
    ∷ (0x0007, 2)
    ∷ (0x0008, 2)
    ∷ (0x0009, 1)
    ∷ (0x000a, 1)
    ∷ (0x000b, 1)
    ∷ []

abbrev user_lookup_rate_classes : List (ℕ × ℕ)
user_lookup_rate_classes = (0x0001, 1) ∷ (0x0002, 1) ∷ (0x0003, 1) ∷ []

abbrev stats_rate_classes : List (ℕ × ℕ)
stats_rate_classes = (0x0001, 1) ∷ (0x0002, 1) ∷ (0x0003, 1) ∷ (0x0004, 1) ∷ []

abbrev translate_rate_classes : List (ℕ × ℕ)
translate_rate_classes = (0x0001, 1) ∷ (0x0002, 1) ∷ (0x0003, 1) ∷ []

abbrev chat_nav_rate_classes : List (ℕ × ℕ)
chat_nav_rate_classes =
    (0x0001, 1)
    ∷ (0x0002, 1)
    ∷ (0x0003, 1)
    ∷ (0x0004, 1)
    ∷ (0x0005, 1)
    ∷ (0x0006, 1)
    ∷ (0x0007, 1)
    ∷ (0x0008, 1)
    ∷ (0x0009, 1)
    ∷ []

abbrev chat_rate_classes : List (ℕ × ℕ)
chat_rate_classes =
    (0x0001, 1)
    ∷ (0x0002, 1)
    ∷ (0x0003, 1)
    ∷ (0x0004, 1)
    ∷ (0x0005, 2)
    ∷ (0x0006, 1)
    ∷ (0x0007, 1)
    ∷ (0x0008, 1)
    ∷ (0x0009, 1)
    ∷ []

abbrev odir_rate_classes : List (ℕ × ℕ)
odir_rate_classes = (0x0001, 1) ∷ (0x0002, 1) ∷ (0x0003, 1) ∷ (0x0004, 1) ∷ []

abbrev bart_rate_classes : List (ℕ × ℕ)
bart_rate_classes = (0x0001, 1) ∷ (0x0002, 1) ∷ (0x0004, 1) ∷ (0x0006, 1) ∷ []

abbrev feedbag_rate_classes : List (ℕ × ℕ)
feedbag_rate_classes =
    (0x0001, 1)
    ∷ (0x0002, 1)
    ∷ (0x0003, 1)
    ∷ (0x0004, 1)
    ∷ (0x0005, 1)
    ∷ (0x0006, 1)
    ∷ (0x0007, 1)
    ∷ (0x0008, 1)
    ∷ (0x0009, 1)
    ∷ (0x000a, 1)
    ∷ (0x000b, 1)
    ∷ (0x000c, 1)
    ∷ (0x000d, 1)
    ∷ (0x000e, 1)
    ∷ (0x000f, 1)
    ∷ (0x0010, 1)
    ∷ (0x0011, 1)
    ∷ (0x0012, 1)
    ∷ (0x0013, 1)
    ∷ (0x0014, 1)
    ∷ (0x0015, 1)
    ∷ (0x0016, 1)
    ∷ (0x0017, 1)
    ∷ (0x0018, 1)
    ∷ (0x0019, 1)
    ∷ (0x001a, 1)
    ∷ (0x001b, 1)
    ∷ (0x001c, 1)
    ∷ (0x001d, 1)
    ∷ (0x001e, 1)
    ∷ (0x001f, 1)
    ∷ (0x0020, 1)
    ∷ (0x0021, 1)
    ∷ (0x0022, 1)
    ∷ (0x0023, 1)
    ∷ (0x0024, 1)
    ∷ (0x0025, 1)
    ∷ (0x0026, 1)
    ∷ (0x0027, 1)
    ∷ (0x0028, 1)
    ∷ []

abbrev icq_rate_classes : List (ℕ × ℕ)
icq_rate_classes = (0x0001, 1) ∷ (0x0002, 1) ∷ (0x0003, 1) ∷ []

abbrev bucp_rate_classes : List (ℕ × ℕ)
bucp_rate_classes =
    (0x0001, 1)
    ∷ (0x0002, 1)
    ∷ (0x0004, 1)
    ∷ (0x0006, 1)
    ∷ (0x0008, 1)
    ∷ (0x000a, 1)
    ∷ (0x000c, 1)
    ∷ []

abbrev alert_rate_classes : List (ℕ × ℕ)
alert_rate_classes =
    (0x0001, 1)
    ∷ (0x0002, 1)
    ∷ (0x0004, 1)
    ∷ (0x0006, 1)
    ∷ (0x0007, 1)
    ∷ (0x0008, 1)
    ∷ (0x000a, 1)
    ∷ (0x000d, 1)
    ∷ (0x000e, 1)
    ∷ (0x000f, 1)
    ∷ (0x0010, 1)
    ∷ (0x0011, 1)
    ∷ (0x0012, 1)
    ∷ (0x0015, 1)
    ∷ (0x0016, 1)
    ∷ (0x0017, 1)
    ∷ []

abbrev pub default_snac_rate_limits : List (ℕ × List (ℕ × ℕ))
default_snac_rate_limits =
    (0x0001, oservice_rate_classes)
    ∷ (0x0002, locate_rate_classes)
    ∷ (0x0003, buddy_rate_classes)
    ∷ (0x0004, icbm_rate_classes)
    ∷ (0x0005, advert_rate_classes)
    ∷ (0x0006, invite_rate_classes)
    ∷ (0x0007, admin_rate_classes)
    ∷ (0x0008, popup_rate_classes)
    ∷ (0x0009, permit_deny_rate_classes)
    ∷ (0x000a, user_lookup_rate_classes)
    ∷ (0x000b, stats_rate_classes)
    ∷ (0x000c, translate_rate_classes)
    ∷ (0x000d, chat_nav_rate_classes)
    ∷ (0x000e, chat_rate_classes)
    ∷ (0x000f, odir_rate_classes)
    ∷ (0x0010, bart_rate_classes)
    ∷ (0x0013, feedbag_rate_classes)
    ∷ (0x0015, icq_rate_classes)
    ∷ (0x0017, bucp_rate_classes)
    ∷ (0x0018, alert_rate_classes)
    ∷ []

-- An index into a Go map.
unfoldable pub lookup : {A : Type 0} → ℕ → List (ℕ × A) → Option A
lookup k [] = none
lookup k ((j, v) ∷ m) = let rest = lookup k m in if j == k then some v else rest

-- RateClassLookup; `none` is the pair (0, false).
unfoldable pub rate_class_lookup : List (ℕ × List (ℕ × ℕ)) → ℕ → ℕ → Option ℕ
unfolding lookup
rate_class_lookup limits food_group sub_group = elim (lookup food_group limits) [
  | none ↦ none
  | some group ↦ lookup sub_group group
]
