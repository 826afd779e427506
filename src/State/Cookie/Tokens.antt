-- ===== src/State/Cookie/Tokens.antt =====
-- state/cookie.go: the bytes of a payload and of a token, and what the codec reads of them.
use retro_aim_server.Prelude.{
  ℕ, ◌+◌, ◌<◌, ◌^◌, ◌≡◌, refl, true, [], ◌∷◌, ◌++◌, length, All, arith, length-append, ap, sym, ◌∙◌,
  inl, All-append,
}
use retro_aim_server.Prelude.Bytes.{
  Bytes, IsByte, big_endian, put_uint, length-put_uint, put_uint-IsByte,
}
use retro_aim_server.Wire.Codec.Types.{no_tag, is_struct, Quirk}
use retro_aim_server.Wire.Codec.Marshal.{Outcome, done, marshal, flat_bytes}
use retro_aim_server.Wire.Codec.Shape.{Codable, Fits}
use retro_aim_server.Wire.Codec.Unmarshal.{ok, unmarshal, Reader}
use retro_aim_server.Wire.Codec.Pieces.{Carried}
use retro_aim_server.Wire.Codec.RoundTrip.{marshal-Carried}
use retro_aim_server.Wire.Flap.Snac.{done_bytes}
use retro_aim_server.Wire.Flap.Stream.{length-flat_bytes, payload_bytes}
use retro_aim_server.State.Cookie.{hmac_token_payload, hmac_token}

payload-Codable : Codable hmac_token_payload no_tag
unfolding is_struct
payload-Codable = (refl, refl, refl, (refl, refl, ((refl, refl, refl, refl), refl, tt)))

token-Codable : Codable hmac_token no_tag
unfolding is_struct
token-Codable =
    (refl, refl, refl, ((refl, refl, refl, refl), refl, ((refl, refl, refl, refl), refl, tt)))

abbrev counted : Bytes → Bytes
counted b =
    let buf = flat_bytes (put_uint big_endian 1) b in put_uint big_endian 2 (length buf) ++ buf

length-counted : (b : Bytes) → length (counted b) ≡ 2 + length b
length-counted b = omega (
  arith,
  length-append (put_uint big_endian 2 (length (flat_bytes (put_uint big_endian 1) b)))
      (flat_bytes (put_uint big_endian 1) b),
  length-put_uint big_endian 2 (length (flat_bytes (put_uint big_endian 1) b)),
  length-flat_bytes 1 b,
)

pub marshal_payload :
    (e : ℕ) (b : Bytes)
    → marshal hmac_token_payload no_tag big_endian (e, (b, tt))
      ≡ done (put_uint big_endian 4 e ++ (counted b ++ []))
unfolding marshal
marshal_payload e b = refl

pub marshal_token :
    (b s : Bytes)
    → marshal hmac_token no_tag big_endian (b, (s, tt)) ≡ done (counted b ++ (counted s ++ []))
unfolding marshal
marshal_token b s = refl

payload-Fits :
    (e : ℕ) (b : Bytes)
    → e < 2 ^ 32
    → All IsByte b
    → length b < 65536
    → Fits hmac_token_payload no_tag big_endian (e, (b, tt))
payload-Fits e b he hb hl = (
  (omega arith, ((hb, rw payload_bytes (omega (arith, length-flat_bytes 1 b))), tt)),
  omega arith,
)

token-Fits :
    (b s : Bytes)
    → All IsByte b
    → All IsByte s
    → length b < 65536
    → length s < 65536
    → Fits hmac_token no_tag big_endian (b, (s, tt))
token-Fits b s hb hs lb ls = (
  (
    (hb, rw payload_bytes (omega (arith, length-flat_bytes 1 b))),
    ((hs, rw payload_bytes (omega (arith, length-flat_bytes 1 s))), tt),
  ),
  omega arith,
)

flat_bytes-IsByte : (b : Bytes) → All IsByte (flat_bytes (put_uint big_endian 1) b)
unfolding flat_bytes
flat_bytes-IsByte [] = tt
flat_bytes-IsByte (x ∷ b) =
    All-append IsByte (put_uint big_endian 1 x) _ (put_uint-IsByte big_endian 1 x)
      (flat_bytes-IsByte b)

counted-IsByte : (b : Bytes) → All IsByte (counted b)
counted-IsByte b =
    All-append IsByte (put_uint big_endian 2 _) _ (put_uint-IsByte big_endian 2 _)
      (flat_bytes-IsByte b)

-- The bytes that Issue signs.
abbrev pub payload_of : ℕ → Bytes → Bytes
payload_of e b = put_uint big_endian 4 e ++ (counted b ++ [])

pub payload_of-IsByte : (e : ℕ) (b : Bytes) → All IsByte (payload_of e b)
payload_of-IsByte e b =
    All-append IsByte (put_uint big_endian 4 e) _ (put_uint-IsByte big_endian 4 e)
      (All-append IsByte (counted b) [] (counted-IsByte b) tt)

pub length-payload_of : (e : ℕ) (b : Bytes) → length (payload_of e b) ≡ 6 + length b
length-payload_of e b = omega (
  arith,
  length-append (put_uint big_endian 4 e) (counted b ++ []),
  length-put_uint big_endian 4 e,
  length-append (counted b) [],
  length-counted b,
)

abbrev pub token_of : Bytes → Bytes → Bytes
token_of b s = counted b ++ (counted s ++ [])

pub length-token_of : (b s : Bytes) → length (token_of b s) ≡ 4 + (length b + length s)
length-token_of b s = omega (
  arith,
  length-append (counted b) (counted s ++ []),
  length-append (counted s) [],
  length-counted b,
  length-counted s,
)

pub Carried-at :
    {A : Type 0} {m : Outcome} (reader : Reader A) {v : A} (b : Bytes)
    → m ≡ done b
    → Carried m reader true v
    → (rest : Bytes) → reader (b ++ rest) ≡ ok v rest
unfolding done_bytes
Carried-at reader b e (c, w, back) rest = rw (ap done_bytes (sym e ∙ w)) (back rest (inl refl))

pub read_payload_of :
    (e : ℕ) (b rest : Bytes)
    → e < 2 ^ 32
    → All IsByte b
    → length b < 65536
    → unmarshal hmac_token_payload no_tag big_endian Quirk.none (payload_of e b ++ rest)
      ≡ ok (e, (b, tt)) rest
read_payload_of e b rest he hb hl =
    Carried-at (unmarshal hmac_token_payload no_tag big_endian Quirk.none) (payload_of e b)
      (marshal_payload e b)
      (marshal-Carried hmac_token_payload no_tag big_endian (e, (b, tt)) payload-Codable
        (payload-Fits e b he hb hl))
      rest

pub read_token_of :
    (b s rest : Bytes)
    → All IsByte b
    → All IsByte s
    → length b < 65536
    → length s < 65536
    → unmarshal hmac_token no_tag big_endian Quirk.none (token_of b s ++ rest)
      ≡ ok (b, (s, tt)) rest
read_token_of b s rest hb hs lb ls =
    Carried-at (unmarshal hmac_token no_tag big_endian Quirk.none) (token_of b s)
      (marshal_token b s)
      (marshal-Carried hmac_token no_tag big_endian (b, (s, tt)) token-Codable
        (token-Fits b s hb hs lb ls))
      rest
