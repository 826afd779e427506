-- ===== src/State/Cookie.antt =====
-- state/cookie.go: HMACCookieBaker and the tokens that it issues and cracks.
--
-- An instant is in nanoseconds since 1970, and a token's life is no negative time: the callers give
-- DefaultCookieTTL or a number of seconds that a client asked for. The current time, which the
-- source asks the clock for, is an argument. `hmac_sha256` stands for HMAC with SHA-256, which
-- takes a key and then the bytes to sign.
use retro_aim_server.Prelude.{
  ℕ, ◌+◌, ◌-◌, ◌*◌, ◌/◌, ◌%◌, ◌^◌, Bool, true, List, [], ◌∷◌, ◌++◌, length, replicate, ltb,
  if◌then◌else◌,
}
use retro_aim_server.Prelude.Bytes.{Bytes, big_endian, bytes_eq}
use retro_aim_server.Wire.Codec.Types.{
  Ty, uint, text, slice, struct, field, end, El, Error, OscarTag, no_tag, StructName, Kind, Quirk,
}
use retro_aim_server.Wire.Codec.Marshal.{Outcome, done, failed, marshal}
use retro_aim_server.Wire.Codec.Unmarshal.{ok, err, unmarshal, Result}
pub mod Tokens
pub mod Cracking
pub mod Login
mod Tests

abbrev pub auth_cookie_len : ℕ
auth_cookie_len = 256

-- time.Second.
abbrev pub second : ℕ
second = 1000000000

abbrev pub default_cookie_ttl : ℕ
default_cookie_ttl = 60 * second

abbrev pub len_uint8 : OscarTag
len_uint8 = record no_tag { has_len_prefix = true; len_prefix = Kind.uint8 }

abbrev pub len_uint16 : OscarTag
len_uint16 = record no_tag { has_len_prefix = true; len_prefix = Kind.uint16 }

-- `Service`, `ScreenName`, `ClientID`, `ChatCookie`, `MultiConnFlag`, `KerberosAuth`, `SessionNum`
-- and `TokenTTL`.
abbrev pub server_cookie : Ty
server_cookie = struct StructName.other (
    field no_tag (uint 2) (
      field len_uint8 text (
        field len_uint8 text (
          field len_uint8 text (
            field no_tag (uint 1)
              (field no_tag (uint 1) (field no_tag (uint 1) (field no_tag (uint 4) end))))))))

-- `Expiry` and `Data`.
abbrev pub hmac_token_payload : Ty
hmac_token_payload =
    struct StructName.other (field no_tag (uint 4) (field len_uint16 (slice (uint 1)) end))

-- `Data` and `Sig`.
abbrev pub hmac_token : Ty
hmac_token =
    struct StructName.other
      (field len_uint16 (slice (uint 1)) (field len_uint16 (slice (uint 1)) end))

pub data CookieError : Type 0 where
  not_marshalled not_unmarshalled payload_not_unmarshalled : Error → CookieError
  too_long : ℕ → CookieError
  invalid expired : CookieError

pub data Answer (A : Type 0) : Type 0 where
  success : A → Answer A
  failure : CookieError → Answer A

-- `uint32(time.Now().Add(ttl).Unix())`.
unfoldable pub expiry_of : ℕ → ℕ → ℕ
expiry_of now ttl = (now + ttl) / second % 2 ^ 32

-- The end of Issue: zeros up to the fixed length.
unfoldable pub pad_cookie : Bytes → Answer Bytes
pad_cookie buf =
    if ltb auth_cookie_len (length buf)
    then failure (too_long (length buf))
    else success (buf ++ replicate (auth_cookie_len - length buf) 0)

-- Issue from the token on.
unfoldable pub pad_token : Outcome → Answer Bytes
unfolding pad_cookie
pad_token (failed e) = failure (not_marshalled e)
pad_token (done buf) = pad_cookie buf

-- `expiry.Before(time.Now())`, with the end of Crack.
unfoldable pub crack_payload : ℕ → Result (El hmac_token_payload) → Answer (Bytes × ℕ)
crack_payload now (err e rest) = failure (payload_not_unmarshalled e)
crack_payload now (ok (expiry, (data', _)) rest) =
    if ltb (expiry * second) now then failure expired else success (data', expiry)

-- AuthService.CrackCookie of foodgroup/auth.go, from the contents of the token on.
unfoldable pub read_contents : ℕ → Result (El server_cookie) → Answer (El server_cookie × ℕ)
read_contents expiry (err e rest) = failure (not_unmarshalled e)
read_contents expiry (ok cookie rest) = success (cookie, expiry)

unfoldable pub cracked : Answer (Bytes × ℕ) → Answer (El server_cookie × ℕ)
unfolding read_contents
cracked (failure e) = failure e
cracked (success (buf, expiry)) =
    read_contents expiry (unmarshal server_cookie no_tag big_endian Quirk.none buf)

module _ (hmac_sha256 : Bytes → Bytes → Bytes) where
  -- The token that `hash` makes of data.
  abbrev pub hash : Bytes → Bytes → El hmac_token
  hash key data' = (data', (hmac_sha256 key data', tt))

  unfoldable pub validate : Bytes → El hmac_token → Bool
  validate key token = bytes_eq token.1.0 (hash key token.0).1.0

  -- Issue from the payload on, which may fail to marshal.
  unfoldable pub sign : Bytes → Outcome → Answer Bytes
  unfolding pad_token
  sign key (failed e) = failure (not_marshalled e)
  sign key (done payload) = pad_token (marshal hmac_token no_tag big_endian (hash key payload))

  unfoldable pub issue : Bytes → Bytes → ℕ → ℕ → Answer Bytes
  unfolding expiry_of sign
  issue key data' ttl now =
      sign key (marshal hmac_token_payload no_tag big_endian (expiry_of now ttl, (data', tt)))

  -- Crack from the token on.
  unfoldable pub crack_token : Bytes → ℕ → Result (El hmac_token) → Answer (Bytes × ℕ)
  unfolding validate crack_payload
  crack_token key now (err e rest) = failure (not_unmarshalled e)
  crack_token key now (ok token rest) =
      if validate key token
      then crack_payload now (unmarshal hmac_token_payload no_tag big_endian Quirk.none token.0)
      else failure invalid

  unfoldable pub crack : Bytes → Bytes → ℕ → Answer (Bytes × ℕ)
  unfolding crack_token
  crack key cookie now =
      crack_token key now (unmarshal hmac_token no_tag big_endian Quirk.none cookie)

  unfoldable pub crack_cookie : Bytes → Bytes → ℕ → Answer (El server_cookie × ℕ)
  unfolding crack cracked
  crack_cookie key cookie now = cracked (crack key cookie now)

  -- How loginSuccessResponse of foodgroup/auth.go makes the cookie of a login.
  unfoldable pub issue_marshalled : Bytes → ℕ → ℕ → Outcome → Answer Bytes
  unfolding issue
  issue_marshalled key ttl now (failed e) = failure (not_marshalled e)
  issue_marshalled key ttl now (done buf) = issue key buf ttl now

  unfoldable pub issue_cookie : Bytes → El server_cookie → ℕ → ℕ → Answer Bytes
  unfolding issue_marshalled
  issue_cookie key login_cookie ttl now =
      issue_marshalled key ttl now (marshal server_cookie no_tag big_endian login_cookie)
