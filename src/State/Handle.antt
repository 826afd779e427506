-- ===== src/State/Handle.antt =====
-- state/user.go: ValidateAIMHandle.
--
-- `runes` stands for the decoding that `range` over a string does, and `is_letter` and `is_digit` for
-- unicode.IsLetter and unicode.IsDigit.
use retro_aim_server.Prelude.{
  ℕ, zero, suc, ◌+◌, ◌-◌, ◌≤◌, ◌≡◌, ◌≢◌, ◌⊎◌, ◌↔◌, inl, inr, refl, ap, Bool, true, false, not, ◌&&◌,
  ◌||◌, Option, none, some, List, [], ◌∷◌, length, All, get_elem?, ltb, ◌==◌, if◌then◌else◌, arith,
  Option-cases, lt-get_elem?,
}
use retro_aim_server.Prelude.Bytes.{Bytes}
mod Tests

-- ErrAIMHandleLength, ErrAIMHandleInvalidFormat, a nil error, and an index out of range.
pub data Verdict : Type 0 where
  valid bad_length bad_format panic : Verdict

abbrev pub space : ℕ
space = 32

module _ (runes : Bytes → List ℕ) (is_letter is_digit : ℕ → Bool) where
  -- The loop, with `c` counted so far; `none` is its early return.
  unfoldable pub count_runes : ℕ → List ℕ → Option ℕ
  count_runes c [] = some c
  count_runes c (r ∷ rs) =
      let counts = is_letter r || is_digit r in
      let rest = count_runes (if counts then c + 1 else c) rs in
      if counts then rest else if not (r == space) then none else rest

  -- `!unicode.IsLetter(rune(s[0])) || s[len(s)-1] == ' '`, and the returns after it.
  unfoldable pub check_ends : Bytes → Verdict
  check_ends s = elim (get_elem? s 0) [
    | none ↦ panic
    | some first ↦ if not (is_letter first) then bad_format else elim (get_elem? s (length s - 1)) [
      | none ↦ panic
      | some last ↦ if last == space then bad_format else valid
    ]
  ]

  unfoldable pub check_count : Bytes → Option ℕ → Verdict
  unfolding check_ends
  check_count s none = bad_format
  check_count s (some c) = if ltb c 3 then bad_length else check_ends s

  unfoldable pub validate_aim_handle : Bytes → Verdict
  unfolding count_runes check_count
  validate_aim_handle s =
      if ltb 16 (length s) then bad_length else check_count s (count_runes 0 (runes s))

  -- How many of the runes are letters or digits.
  unfoldable pub alphanumeric : List ℕ → ℕ
  alphanumeric [] = 0
  alphanumeric (r ∷ rs) =
      let rest = alphanumeric rs in if is_letter r || is_digit r then suc rest else rest

  abbrev pub IsHandleRune : ℕ → Type 0
  IsHandleRune r = (is_letter r || is_digit r || r == space) ≡ true

  -- At most 16 bytes, of letters, digits and spaces, three of them no spaces, the first byte a letter
  -- and the last one no space.
  pub record IsAimHandle (s : Bytes) : Type 0 where
    pub short : length s ≤ 16
    pub clean : All IsHandleRune (runes s)
    pub enough : 3 ≤ alphanumeric (runes s)
    pub first : (b : ℕ) × (get_elem? s 0 ≡ some b) × (is_letter b ≡ true)
    pub last : (b : ℕ) × (get_elem? s (length s - 1) ≡ some b) × ((b == space) ≡ false)

  count_runes-some :
      (c n : ℕ) (rs : List ℕ)
      → count_runes c rs ≡ some n
      → All IsHandleRune rs × (n ≡ c + alphanumeric rs)
  unfolding count_runes alphanumeric
  count_runes-some c n [] h = (tt, ground arith)
  count_runes-some c n (r ∷ rs) h =
      ground (arith, count_runes-some c n rs, count_runes-some (c + 1) n rs)

  count_runes-clean :
      (c : ℕ) (rs : List ℕ) → All IsHandleRune rs → count_runes c rs ≡ some (c + alphanumeric rs)
  unfolding count_runes alphanumeric
  count_runes-clean c [] h = ap some (omega arith)
  count_runes-clean c (r ∷ rs) h =
      ground (arith, count_runes-clean c rs h.1, count_runes-clean (c + 1) rs h.1)

  Ends : Bytes → Type 0
  Ends s =
      ((b : ℕ) × (get_elem? s 0 ≡ some b) × (is_letter b ≡ true))
      × ((b : ℕ) × (get_elem? s (length s - 1) ≡ some b) × ((b == space) ≡ false))

  check_ends-valid : (s : Bytes) → check_ends s ≡ valid → Ends s
  unfolding check_ends Ends
  check_ends-valid s h = elim (Option-cases (get_elem? s 0)) [
    | inl e ↦ cc
    | inr (a, e) ↦ elim (Option-cases (get_elem? s (length s - 1))) [
      | inl f ↦ ground (arith, e, f)
      | inr (b, f) ↦ ((a, e, ground (arith, e, f)), (b, f, ground (arith, e, f)))
    ]
  ]

  valid-check_ends : (s : Bytes) → Ends s → check_ends s ≡ valid
  unfolding check_ends Ends
  valid-check_ends s ((a, e, p), (b, f, q)) = ground (arith, e, f)

  check_ends-panic : (s : Bytes) → 1 ≤ length s → check_ends s ≢ panic
  unfolding check_ends
  check_ends-panic s h p =
      let (a, e) = lt-get_elem? s 0 (omega arith) in
      let (b, f) = lt-get_elem? s (length s - 1) (omega arith) in ground (arith, e, f)

  module _ (runes-nil : runes [] ≡ []) where
    enough-length : (s : Bytes) (n : ℕ) → count_runes 0 (runes s) ≡ some n → 3 ≤ n → 1 ≤ length s
    unfolding alphanumeric
    enough-length [] n h k =
        let (clean, size) = count_runes-some 0 n (runes []) h in
        let none_of_none : alphanumeric (runes []) ≡ alphanumeric [] = ap alphanumeric runes-nil in
        absurd (omega (arith, size, none_of_none))
    enough-length (b ∷ s) n h k = omega arith

    validate_aim_handle-panic : (s : Bytes) → validate_aim_handle s ≢ panic
    unfolding validate_aim_handle check_count
    validate_aim_handle-panic s p = elim (Option-cases (count_runes 0 (runes s))) [
      | inl e ↦ ground (arith, e)
      | inr (n, e) ↦ ground (arith, e, check_ends-panic s, enough-length s n e)
    ]

    valid-IsAimHandle : (s : Bytes) → validate_aim_handle s ≡ valid → IsAimHandle s
    unfolding validate_aim_handle check_count Ends
    valid-IsAimHandle s h = elim (Option-cases (count_runes 0 (runes s))) [
      | inl e ↦ ground (arith, e)
      | inr (n, e) ↦
          let (clean, size) = count_runes-some 0 n (runes s) e in
          let (first, last) = check_ends-valid s (ground (arith, e)) in
          record {
            short = ground (arith, e);
            clean = clean;
            enough = ground (arith, e);
            first = first;
            last = last;
          }
    ]

    IsAimHandle-valid : (s : Bytes) → IsAimHandle s → validate_aim_handle s ≡ valid
    unfolding validate_aim_handle check_count Ends
    IsAimHandle-valid s h = ground (
      arith,
      h.short,
      h.enough,
      count_runes-clean 0 (runes s) h.clean,
      valid-check_ends s (h.first, h.last),
    )

    -- Where the empty string has no runes: ValidateAIMHandle returns no error just for the strings of at
    -- most 16 bytes that have only letters, digits and spaces, at least three of them no spaces, whose
    -- first byte is a letter and whose last one is no space; and it never indexes out of range.
    pub validate_aim_handle-IsAimHandle :
        (s : Bytes)
        → ((validate_aim_handle s ≡ valid) ↔ IsAimHandle s) × (validate_aim_handle s ≢ panic)
    validate_aim_handle-IsAimHandle s =
        ((valid-IsAimHandle s, IsAimHandle-valid s), validate_aim_handle-panic s)
