-- ===== src/State/Cookie/Tests.antt =====
-- state/cookie.go at concrete inputs, with a sum of bytes in place of HMAC.
use retro_aim_server.Prelude.{
  ℕ, zero, suc, ◌+◌, ◌*◌, ◌%◌, ◌≡◌, refl, [], ◌∷◌, length, replicate, All, arith, ltb,
  if◌then◌else◌, length-replicate,
}
use retro_aim_server.Prelude.Bytes.{Bytes, IsByte, big_endian, bytes_eq, put_uint, uint}
use retro_aim_server.Wire.Codec.Types.{El, no_tag}
use retro_aim_server.Wire.Codec.Marshal.{done, marshal}
use retro_aim_server.Wire.Codec.Unmarshal.{unmarshal}
use retro_aim_server.State.Cookie.{
  server_cookie, hmac_token_payload, default_cookie_ttl, second, expiry_of, auth_cookie_len,
  invalid, expired, too_long, Answer, success, failure, issue, issue_cookie, crack_cookie,
}
use retro_aim_server.State.Cookie.Cracking.{issue_too_long}
use retro_aim_server.State.Cookie.Login.{crack_cookie-issue_cookie}

sum : Bytes → ℕ
sum [] = 0
sum (x ∷ b) = x + sum b

checksum : Bytes → Bytes → Bytes
checksum key b = replicate 32 ((sum key + sum b) % 256)

replicate-IsByte : (n x : ℕ) → IsByte x → All IsByte (replicate n x)
replicate-IsByte zero x h = tt
replicate-IsByte (suc n) x h = (h, replicate-IsByte n x h)

length-checksum : (key b : Bytes) → length (checksum key b) ≡ 32
unfolding checksum
length-checksum key b = length-replicate 32 ((sum key + sum b) % 256)

checksum-IsByte : (key b : Bytes) → All IsByte (checksum key b)
unfolding checksum
checksum-IsByte key b = replicate-IsByte 32 _ (omega arith)

-- The BOS service, the screen name "bob", the client "AIM" and a life of a minute.
abbrev login_cookie : El server_cookie
login_cookie = (2, (98 ∷ 111 ∷ 98 ∷ [], (65 ∷ 73 ∷ 77 ∷ [], ([], (1, (0, (0, (60, tt))))))))

outcome : Answer (El server_cookie × ℕ) → ℕ
outcome (success (c, expiry)) = expiry
outcome (failure expired) = 1
outcome (failure invalid) = 2
outcome (failure _) = 3

run : Bytes → ℕ → ℕ
run other later =
    elim (issue_cookie checksum (7 ∷ []) login_cookie default_cookie_ttl (1000 * second)) [
      | success cookie ↦ outcome (crack_cookie checksum other cookie later)
      | failure e ↦ 4
    ]

-- In time, too late by a nanosecond, and with another key.
three_runs :
    (run (7 ∷ []) (1060 * second) ≡ 1060)
    × (run (7 ∷ []) (1060 * second + 1) ≡ 1)
    × (run (8 ∷ []) (1030 * second) ≡ 2)
unfolding run outcome checksum sum issue_cookie crack_cookie marshal put_uint unmarshal uint
    bytes_eq
three_runs = (refl, refl, refl)

issue_too_long_example :
    issue checksum (7 ∷ []) (replicate 215 65) default_cookie_ttl 0
    ≡ failure (too_long (42 + length {A = ℕ} (replicate 215 65)))
issue_too_long_example =
    issue_too_long checksum length-checksum (7 ∷ []) (replicate 215 65) default_cookie_ttl 0
      (omega (arith, length-replicate {A = ℕ} 215 65))

crack_cookie-issue_cookie_example :
    (contents : Bytes) × (payload : Bytes) × (cookie : Bytes) × (marshal server_cookie no_tag
        big_endian login_cookie
      ≡ done contents)
    × (marshal hmac_token_payload no_tag big_endian
          (expiry_of (1000 * second) default_cookie_ttl, (contents, tt))
        ≡ done payload)
    × (issue_cookie checksum (7 ∷ []) login_cookie default_cookie_ttl (1000 * second)
        ≡ success cookie)
    × (length cookie ≡ auth_cookie_len)
    × (crack_cookie checksum (8 ∷ []) cookie (1030 * second) ≡ (
        if bytes_eq (checksum (7 ∷ []) payload) (checksum (8 ∷ []) payload)
        then (if ltb (expiry_of (1000 * second) default_cookie_ttl * second) (1030 * second)
            then failure expired
            else success (login_cookie, expiry_of (1000 * second) default_cookie_ttl))
        else failure invalid))
crack_cookie-issue_cookie_example =
    crack_cookie-issue_cookie checksum length-checksum checksum-IsByte (7 ∷ []) (8 ∷ [])
      login_cookie default_cookie_ttl (1000 * second) (1030 * second)
      (
        omega arith,
        (
          (omega arith, (omega arith, (omega arith, tt))),
          (omega arith, (omega arith, (omega arith, tt))),
          tt,
        ),
        omega arith,
        omega arith,
        omega arith,
        omega arith,
        omega arith,
      )
