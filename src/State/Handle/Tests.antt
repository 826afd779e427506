-- ===== src/State/Handle/Tests.antt =====
-- state/user.go: ValidateAIMHandle on strings of ASCII, and on one of three Hebrew letters.
use retro_aim_server.Prelude.{
  ℕ, ◌≡◌, ◌≢◌, ◌↔◌, refl, Bool, not, ◌&&◌, ◌||◌, List, [], ◌∷◌, ltb, leb, ◌==◌, ◌+◌, ◌*◌, ◌-◌,
  if◌then◌else◌,
}
use retro_aim_server.Prelude.Bytes.{Bytes}
use retro_aim_server.State.Handle.{
  valid, bad_length, bad_format, panic, validate_aim_handle, IsAimHandle,
  validate_aim_handle-IsAimHandle,
}

within : ℕ → ℕ → ℕ → Bool
within low high c = leb low c && leb c high

-- The letters of ASCII and of Hebrew, and those of Latin-1 from 0xC0 on.
is_letter : ℕ → Bool
is_letter c =
    within 0x41 0x5a c
    || within 0x61 0x7a c
    || (within 0xc0 0xff c && not (c == 0xd7) && not (c == 0xf7))
    || within 0x5d0 0x5ea c

is_digit : ℕ → Bool
is_digit c = within 0x30 0x39 c

abbrev ascii : Bytes → List ℕ
ascii s = s

-- UTF-8 of one and two bytes.
utf8 : Bytes → List ℕ
utf8 [] = []
utf8 (a ∷ []) = a ∷ []
utf8 (a ∷ b ∷ s) =
    let short = utf8 (b ∷ s) in
    let long = utf8 s in if ltb a 0x80 then a ∷ short else ((a - 0xc0) * 64 + (b - 0x80)) ∷ long

abbrev bob : Bytes
bob = 66 ∷ 111 ∷ 98 ∷ 32 ∷ 55 ∷ []

verdicts :
    (validate_aim_handle ascii is_letter is_digit bob ≡ valid)
    × (validate_aim_handle ascii is_letter is_digit (66 ∷ 111 ∷ 98 ∷ 32 ∷ []) ≡ bad_format)
    × (validate_aim_handle ascii is_letter is_digit (55 ∷ 111 ∷ 98 ∷ []) ≡ bad_format)
    × (validate_aim_handle ascii is_letter is_digit (66 ∷ 32 ∷ 32 ∷ 98 ∷ []) ≡ bad_length)
    × (validate_aim_handle ascii is_letter is_digit [] ≡ bad_length)
unfolding validate_aim_handle is_letter is_digit within
verdicts = (refl, refl, refl, refl, refl)

-- Three letters alef, whose first byte is the multiplication sign of Latin-1.
alefs :
    validate_aim_handle utf8 is_letter is_digit (0xd7 ∷ 0x90 ∷ 0xd7 ∷ 0x90 ∷ 0xd7 ∷ 0x90 ∷ [])
    ≡ bad_format
unfolding validate_aim_handle utf8 is_letter is_digit within
alefs = refl

validate_aim_handle-IsAimHandle_example :
    ((validate_aim_handle ascii is_letter is_digit bob ≡ valid)
      ↔ IsAimHandle ascii is_letter is_digit bob)
    × (validate_aim_handle ascii is_letter is_digit bob ≢ panic)
validate_aim_handle-IsAimHandle_example =
    validate_aim_handle-IsAimHandle ascii is_letter is_digit refl bob
