-- ===== src/State/Cookie/Cracking.antt =====
-- state/cookie.go: what Crack makes of what Issue gave out.
use retro_aim_server.Prelude.{
  ℕ, ◌+◌, ◌-◌, ◌*◌, ◌^◌, ◌≤◌, ◌<◌, ◌≡◌, refl, ◌∙◌, ap, [], ◌++◌, length, All, arith, length-append,
  length-replicate, replicate, ltb, if◌then◌else◌,
}
use mathlib.Core.List.{append-nil}
use retro_aim_server.Prelude.Bytes.{Bytes, IsByte, big_endian, bytes_eq}
use retro_aim_server.Wire.Codec.Types.{El, no_tag, Quirk}
use retro_aim_server.Wire.Codec.Marshal.{done, marshal}
use retro_aim_server.Wire.Codec.Unmarshal.{ok, unmarshal, Result}
use retro_aim_server.State.Cookie.{
  hmac_token_payload, hmac_token, too_long, invalid, expired, success, failure, expiry_of, second,
  auth_cookie_len, pad_cookie, pad_token, crack_payload, sign, crack_token, validate, issue, crack,
}
use retro_aim_server.State.Cookie.Tokens.{
  marshal_payload, marshal_token, payload_of, payload_of-IsByte, length-payload_of, token_of,
  length-token_of, read_payload_of, read_token_of,
}

expiry_of-bound : (now ttl : ℕ) → expiry_of now ttl < 2 ^ 32
unfolding expiry_of
expiry_of-bound now ttl = omega arith

pad_cookie-short :
    (b : Bytes) → length b ≤ 256 → pad_cookie b ≡ success (b ++ replicate (256 - length b) 0)
unfolding pad_cookie
pad_cookie-short b h = ground arith

pad_cookie-long : (b : Bytes) → 256 < length b → pad_cookie b ≡ failure (too_long (length b))
unfolding pad_cookie
pad_cookie-long b h = ground arith

crack_payload-ok :
    (now e : ℕ) (b : Bytes) (r : Result (El hmac_token_payload))
    → r ≡ ok (e, (b, tt)) []
    → crack_payload now r ≡ (if ltb (e * second) now then failure expired else success (b, e))
unfolding crack_payload
crack_payload-ok now e b r h = rw h refl

module _ (hmac_sha256 : Bytes → Bytes → Bytes) where
  issue-token_of :
      (key data' : Bytes) (ttl now : ℕ)
      → issue hmac_sha256 key data' ttl now ≡ (
          let payload = payload_of (expiry_of now ttl) data' in
          pad_cookie (token_of payload (hmac_sha256 key payload)))
  unfolding issue sign pad_token
  issue-token_of key data' ttl now =
      let payload = payload_of (expiry_of now ttl) data' in
      ap (sign hmac_sha256 key) (marshal_payload (expiry_of now ttl) data')
      ∙ ap pad_token (marshal_token payload (hmac_sha256 key payload))

  crack-token_of :
      (key cookie payload sig rest : Bytes) (now e : ℕ) (b : Bytes)
      → unmarshal hmac_token no_tag big_endian Quirk.none cookie ≡ ok (payload, (sig, tt)) rest
      → unmarshal hmac_token_payload no_tag big_endian Quirk.none payload ≡ ok (e, (b, tt)) []
      → crack hmac_sha256 key cookie now ≡ (
          if bytes_eq sig (hmac_sha256 key payload)
          then (if ltb (e * second) now then failure expired else success (b, e))
          else failure invalid)
  unfolding crack crack_token validate
  crack-token_of key cookie payload sig rest now e b h k =
      ap (crack_token hmac_sha256 key now) h
      ∙ ap (λ a. if bytes_eq sig (hmac_sha256 key payload) then a else failure invalid)
          (crack_payload-ok now e b _ k)

-- HMAC with SHA-256 gives 32 bytes.
module _ (hmac_sha256 : Bytes → Bytes → Bytes)
    (hmac_size : (key b : Bytes) → length (hmac_sha256 key b) ≡ 32) where
  length-signed :
      (key b : Bytes) (e : ℕ)
      → length (token_of (payload_of e b) (hmac_sha256 key (payload_of e b))) ≡ 42 + length b
  length-signed key b e = omega (
    arith,
    length-token_of (payload_of e b) (hmac_sha256 key (payload_of e b)),
    hmac_size key (payload_of e b),
    length-payload_of e b,
  )

  -- Issue refuses data of more than 214 bytes, whatever its key and the times, and says how long the
  -- token would have been: 42 bytes more than the data.
  pub issue_too_long :
      (key data' : Bytes) (ttl now : ℕ)
      → 214 < length data'
      → issue hmac_sha256 key data' ttl now ≡ failure (too_long (42 + length data'))
  issue_too_long key data' ttl now h =
      let token = token_of (payload_of (expiry_of now ttl) data') _ in
      let size = length-signed key data' (expiry_of now ttl) in
      issue-token_of hmac_sha256 key data' ttl now
      ∙ pad_cookie-long token (omega (arith, size))
      ∙ ap (λ n. failure (too_long n)) size

  module _ (hmac_bytes : (key b : Bytes) → All IsByte (hmac_sha256 key b)) where
    -- Issue makes of at most 214 bytes of data a cookie of 256 bytes. Crack, with a key of its own,
    -- refuses that cookie as invalid unless the two keys give the payload the same signature, and else
    -- as expired after the expiry; up to then it gives back the data and the expiry.
    pub crack-issue :
        (key other data' : Bytes) (ttl now later : ℕ)
        → All IsByte data'
        → length data' ≤ 214
        → (payload : Bytes) × (cookie : Bytes) × (marshal hmac_token_payload no_tag big_endian
              (expiry_of now ttl, (data', tt))
            ≡ done payload)
          × (issue hmac_sha256 key data' ttl now ≡ success cookie)
          × (length cookie ≡ auth_cookie_len)
          × (crack hmac_sha256 other cookie later ≡ (
              if bytes_eq (hmac_sha256 key payload) (hmac_sha256 other payload)
              then (if ltb (expiry_of now ttl * second) later
                  then failure expired
                  else success (data', expiry_of now ttl))
              else failure invalid))
    crack-issue key other data' ttl now later hb hl =
        let e = expiry_of now ttl in
        let payload = payload_of e data' in
        let sig = hmac_sha256 key payload in
        let token = token_of payload sig in
        let zeros : Bytes = replicate (256 - length token) 0 in
        let size = length-signed key data' e in
        (
          payload,
          token ++ zeros,
          marshal_payload e data',
          issue-token_of hmac_sha256 key data' ttl now
              ∙ pad_cookie-short token (omega (arith, size)),
          omega (
            arith,
            size,
            length-append token zeros,
            length-replicate {A = ℕ} (256 - length token) 0,
          ),
          crack-token_of hmac_sha256 other (token ++ zeros) payload sig zeros later e data'
              (read_token_of payload sig zeros (payload_of-IsByte e data') (hmac_bytes key payload)
                (omega (arith, length-payload_of e data')) (omega (arith, hmac_size key payload)))
              (rw (append-nil payload) at
                (read_payload_of e data' [] (expiry_of-bound now ttl) hb (omega arith))),
        )
