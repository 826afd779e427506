-- ===== src/IcqLegacy/Status.antt =====
-- server/icq_legacy/service.go and legacy_message_bridge.go: the status of a user in the old
-- protocols and in OSCAR, as uint32 values.
pub mod Stable
use Prim.Native.Nat.{bit_and, bit_or}
use retro_aim_server.Prelude.{ℕ, ◌+◌, Bool, not, ◌&&◌, if◌then◌else◌, ◌==◌, ◌||◌}

-- `status&flag != 0`.
unfoldable pub has_flag : ℕ → ℕ → Bool
has_flag status flag = not (bit_and status flag == 0)

-- `if set { status |= flag }`.
unfoldable pub or_if : Bool → ℕ → ℕ → ℕ
or_if b flag status = if b then bit_or status flag else status

-- ICQLegacyStatus….
abbrev pub legacy_online : ℕ
legacy_online = 0x00

abbrev pub legacy_away : ℕ
legacy_away = 0x01

abbrev pub legacy_dnd : ℕ
legacy_dnd = 0x02

abbrev pub legacy_na : ℕ
legacy_na = 0x04

abbrev pub legacy_occupied : ℕ
legacy_occupied = 0x10

abbrev pub legacy_ffc : ℕ
legacy_ffc = 0x20

-- The flags have the same bits in both: Invisible, WebAware, Birthday, DCAuth or DirectRequireAuth.
abbrev pub flag_invisible : ℕ
flag_invisible = 0x00000100

abbrev pub flag_web_aware : ℕ
flag_web_aware = 0x00010000

abbrev pub flag_birthday : ℕ
flag_birthday = 0x00080000

abbrev pub flag_dc_auth : ℕ
flag_dc_auth = 0x10000000

unfoldable pub with_flags : ℕ → Bool → Bool → Bool → Bool → ℕ
unfolding or_if
with_flags status invisible web_aware birthday dc_auth = or_if dc_auth flag_dc_auth (
    or_if birthday flag_birthday
      (or_if web_aware flag_web_aware (or_if invisible flag_invisible status)))

unfoldable pub map_flags : ℕ → ℕ → ℕ
unfolding with_flags has_flag
map_flags source status =
    with_flags status (has_flag source flag_invisible) (has_flag source flag_web_aware)
      (has_flag source flag_birthday) (has_flag source flag_dc_auth)

-- The switch of mapLegacyStatusToOSCAR: OServiceUserStatusAway is 0x01, DND 0x02, Out 0x04,
-- Busy 0x10, Chat 0x20.
unfoldable pub oscar_base : ℕ → ℕ
oscar_base b =
    if b == 0x00
    then 0x00
    else if b == 0x01
    then 0x01
    else if b == 0x02
    then 0x01 + 0x02 + 0x10
    else if b == 0x04
    then 0x01 + 0x04
    else if b == 0x05
    then 0x01 + 0x04
    else if b == 0x10
    then 0x01 + 0x10
    else if b == 0x11
    then 0x01 + 0x10
    else if b == 0x13
    then 0x01 + 0x02 + 0x10
    else if b == 0x20
    then 0x20
    else 0x00

unfoldable pub map_legacy_status_to_oscar : ℕ → ℕ
unfolding oscar_base map_flags
map_legacy_status_to_oscar status = map_flags status (oscar_base (bit_and status 0xFF))

-- The inner switch, for combinations that are not known.
unfoldable pub legacy_fallback : ℕ → ℕ
unfolding has_flag
legacy_fallback b =
    if has_flag b 0x20
    then legacy_ffc
    else if has_flag b 0x02 && has_flag b 0x10
    then legacy_dnd
    else if has_flag b 0x10
    then legacy_occupied
    else if has_flag b 0x04
    then legacy_na
    else if has_flag b 0x02
    then legacy_dnd
    else if has_flag b 0x01
    then legacy_away
    else legacy_online

unfoldable pub legacy_base : ℕ → ℕ
unfolding legacy_fallback
legacy_base b =
    if b == 0x00
    then legacy_online
    else if b == 0x01
    then legacy_away
    else if b == 0x02
    then legacy_dnd
    else if b == 0x04
    then legacy_na
    else if b == 0x05
    then legacy_na
    else if b == 0x10
    then legacy_occupied
    else if b == 0x11
    then legacy_occupied
    else if b == 0x13
    then legacy_dnd
    else if b == 0x20
    then legacy_ffc
    else legacy_fallback b

-- The flags come last, as in the source: mapOSCARStatusToLegacy, and oscarStatusToLegacy of the
-- bridge, which has the same body.
unfoldable pub map_oscar_status_to_legacy : ℕ → ℕ
unfolding legacy_base map_flags
map_oscar_status_to_legacy status = map_flags status (legacy_base (bit_and status 0xFF))
