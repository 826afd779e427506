-- ===== src/State/Cookie/Login.antt =====
-- state/cookie.go and foodgroup/auth.go: the ServerCookie of a login inside a token.
use retro_aim_server.Prelude.{
  ℕ, ◌+◌, ◌*◌, ◌^◌, ◌≤◌, ◌<◌, ◌≡◌, refl, ◌∙◌, ap, Bool, true, false, [], ◌∷◌, ◌++◌, length, All,
  All-append, arith, length-append, ltb, if◌then◌else◌,
}
use mathlib.Core.List.{append-nil}
use retro_aim_server.Prelude.Bytes.{
  Bytes, IsByte, big_endian, bytes_eq, put_uint, length-put_uint, put_uint-IsByte,
}
use retro_aim_server.Wire.Codec.Types.{El, no_tag, is_struct, Quirk}
use retro_aim_server.Wire.Codec.Marshal.{done, marshal, null_terminate}
use retro_aim_server.Wire.Codec.Unmarshal.{ok, unmarshal}
use retro_aim_server.Wire.Codec.Shape.{Codable, Fits}
use retro_aim_server.Wire.Codec.RoundTrip.{marshal-Carried}
use retro_aim_server.State.Cookie.{
  server_cookie, hmac_token_payload, expired, success, failure, expiry_of, second, auth_cookie_len,
  invalid, cracked, read_contents, crack_cookie, issue_marshalled, issue_cookie,
}
use retro_aim_server.State.Cookie.Tokens.{Carried-at}
use retro_aim_server.State.Cookie.Cracking.{crack-issue}

-- Numbers in their ranges, strings of bytes, and no more of those than a cookie has room for.
abbrev pub IsServerCookie : El server_cookie → Type 0
IsServerCookie (service, (name, (client, (chat, (multi, (kerberos, (num, (ttl, _)))))))) =
    (service < 65536)
    × (All IsByte name × All IsByte client × All IsByte chat)
    × (length name + length client + length chat ≤ 202)
    × (multi < 256)
    × (kerberos < 256)
    × (num < 256)
    × (ttl < 2 ^ 32)

cookie-Codable : Codable server_cookie no_tag
unfolding is_struct
cookie-Codable = (
  refl,
  refl,
  refl,
  (
    refl,
    refl,
    (
      (refl, refl),
      refl,
      (
        (refl, refl),
        refl,
        ((refl, refl), refl, (refl, refl, (refl, refl, (refl, refl, (refl, refl, tt))))),
      ),
    ),
  ),
)

not_terminated : (b : Bytes) → null_terminate false b ≡ b
unfolding null_terminate
not_terminated [] = refl
not_terminated (x ∷ b) = refl

abbrev text_of : Bytes → Bytes
text_of b = let s = null_terminate false b in put_uint big_endian 1 (length s) ++ s

length-text_of : (b : Bytes) → length (text_of b) ≡ 1 + length b
length-text_of b = rw (not_terminated b) (
    omega (
      arith,
      length-append (put_uint big_endian 1 (length b)) b,
      length-put_uint big_endian 1 (length b),
    ))

text_of-IsByte : (b : Bytes) → All IsByte b → All IsByte (text_of b)
text_of-IsByte b h = rw (not_terminated b) (
    All-append IsByte (put_uint big_endian 1 (length b)) b (put_uint-IsByte big_endian 1 (length b))
      h)

text_fits : (b : Bytes) → length b < 256 → (length (null_terminate false b) < 256) × (b ≡ b)
text_fits b h = (rw (not_terminated b) h, refl)

length-put_join : (n v : ℕ) (r : Bytes) → length (put_uint big_endian n v ++ r) ≡ n + length r
length-put_join n v r =
    omega (arith, length-append (put_uint big_endian n v) r, length-put_uint big_endian n v)

length-text_join : (b r : Bytes) → length (text_of b ++ r) ≡ 1 + length b + length r
length-text_join b r = omega (arith, length-append (text_of b) r, length-text_of b)

joined : (a b : Bytes) → All IsByte a → All IsByte b → All IsByte (a ++ b)
joined a b = All-append IsByte a b

abbrev cookie_of : El server_cookie → Bytes
cookie_of (service, (name, (client, (chat, (multi, (kerberos, (num, (ttl, _)))))))) =
    put_uint big_endian 2 service
    ++ (text_of name
        ++ (text_of client
            ++ (text_of chat
                ++ (put_uint big_endian 1 multi
                    ++ (put_uint big_endian 1 kerberos
                        ++ (put_uint big_endian 1 num ++ (put_uint big_endian 4 ttl ++ [])))))))

marshal_cookie :
    (c : El server_cookie) → marshal server_cookie no_tag big_endian c ≡ done (cookie_of c)
unfolding marshal
marshal_cookie c = refl

cookie-Fits : (c : El server_cookie) → IsServerCookie c → Fits server_cookie no_tag big_endian c
cookie-Fits c (hs, _, size, hm, hk, hn, ht) = (
  (
    omega arith,
    (
      text_fits c.1.0 (omega arith),
      (
        text_fits c.1.1.0 (omega arith),
        (
          text_fits c.1.1.1.0 (omega arith),
          (omega arith, (omega arith, (omega arith, (omega arith, tt)))),
        ),
      ),
    ),
  ),
  omega arith,
)

length-cookie_of : (c : El server_cookie) → IsServerCookie c → length (cookie_of c) ≤ 214
length-cookie_of (service, (name, (client, (chat, (multi, (kerberos, (num, (ttl, _)))))))) h =
    let r7 : Bytes = put_uint big_endian 4 ttl ++ [] in
    let r6 : Bytes = put_uint big_endian 1 num ++ r7 in
    let r5 : Bytes = put_uint big_endian 1 kerberos ++ r6 in
    let r4 : Bytes = put_uint big_endian 1 multi ++ r5 in
    let r3 : Bytes = text_of chat ++ r4 in
    let r2 : Bytes = text_of client ++ r3 in
    let r1 : Bytes = text_of name ++ r2 in
    omega (
      arith,
      length-put_join 2 service r1,
      length-text_join name r2,
      length-text_join client r3,
      length-text_join chat r4,
      length-put_join 1 multi r5,
      length-put_join 1 kerberos r6,
      length-put_join 1 num r7,
      length-put_join 4 ttl [],
    )

cookie_of-IsByte : (c : El server_cookie) → IsServerCookie c → All IsByte (cookie_of c)
cookie_of-IsByte (service, (name, (client, (chat, (multi, (kerberos, (num, (ttl, _))))))))
      (_, (hn, hc, hr), _, _, _, _, _) =
    joined (put_uint big_endian 2 service) _ (put_uint-IsByte big_endian 2 service) (
      joined (text_of name) _ (text_of-IsByte name hn) (
        joined (text_of client) _ (text_of-IsByte client hc) (
          joined (text_of chat) _ (text_of-IsByte chat hr) (
            joined (put_uint big_endian 1 multi) _ (put_uint-IsByte big_endian 1 multi) (
              joined (put_uint big_endian 1 kerberos) _ (put_uint-IsByte big_endian 1 kerberos) (
                joined (put_uint big_endian 1 num) _ (put_uint-IsByte big_endian 1 num) (
                  joined (put_uint big_endian 4 ttl) [] (put_uint-IsByte big_endian 4 ttl) tt)))))))

cracked-if :
    (valid late : Bool) (expiry : ℕ) (b : Bytes) (c : El server_cookie)
    → unmarshal server_cookie no_tag big_endian Quirk.none b ≡ ok c []
    → cracked
        (if valid then (if late then failure expired else success (b, expiry)) else failure invalid)
      ≡ (if valid then (if late then failure expired else success (c, expiry)) else failure invalid)
unfolding cracked
cracked-if false late expiry b c k = refl
cracked-if true true expiry b c k = refl
cracked-if true false expiry b c k = ap (read_contents expiry) k

module _ (hmac_sha256 : Bytes → Bytes → Bytes)
    (hmac_size : (key b : Bytes) → length (hmac_sha256 key b) ≡ 32)
    (hmac_bytes : (key b : Bytes) → All IsByte (hmac_sha256 key b)) where
  -- The cookie that a login is given, for a ServerCookie with its numbers in range and at most 202
  -- bytes of strings, has 256 bytes. CrackCookie, with a key of its own, refuses it as invalid unless
  -- both keys give the payload the same signature, and else as expired after its expiry; up to then it
  -- gives back that ServerCookie and the expiry.
  pub crack_cookie-issue_cookie :
      (key other : Bytes) (c : El server_cookie) (ttl now later : ℕ)
      → IsServerCookie c
      → (contents : Bytes) × (payload : Bytes) × (cookie : Bytes) × (marshal server_cookie no_tag
            big_endian c
          ≡ done contents)
        × (marshal hmac_token_payload no_tag big_endian (expiry_of now ttl, (contents, tt))
            ≡ done payload)
        × (issue_cookie hmac_sha256 key c ttl now ≡ success cookie)
        × (length cookie ≡ auth_cookie_len)
        × (crack_cookie hmac_sha256 other cookie later ≡ (
            if bytes_eq (hmac_sha256 key payload) (hmac_sha256 other payload)
            then (if ltb (expiry_of now ttl * second) later
                then failure expired
                else success (c, expiry_of now ttl))
            else failure invalid))
  unfolding issue_cookie issue_marshalled crack_cookie
  crack_cookie-issue_cookie key other c ttl now later h =
      let b = cookie_of c in
      let (payload, cookie, signed, e, size, back) =
        crack-issue hmac_sha256 hmac_size hmac_bytes key other b ttl now later
          (cookie_of-IsByte c h) (length-cookie_of c h) in
      let body =
        Carried-at (unmarshal server_cookie no_tag big_endian Quirk.none) b (marshal_cookie c)
          (marshal-Carried server_cookie no_tag big_endian c cookie-Codable (cookie-Fits c h)) [] in
      let valid = bytes_eq (hmac_sha256 key payload) (hmac_sha256 other payload) in
      (
        b,
        payload,
        cookie,
        marshal_cookie c,
        signed,
        ap (issue_marshalled hmac_sha256 key ttl now) (marshal_cookie c) ∙ e,
        size,
        ap cracked back
            ∙ cracked-if valid (ltb (expiry_of now ttl * second) later) (expiry_of now ttl) b c
                (rw (append-nil b) at body),
      )
