-- ===== src/IcqLegacy/Crypt/RoundTrips.antt =====
-- server/icq_legacy/wire_legacy_crypt.go: passwords and V4 packets, scrambled and put back.
use Prim.Native.Nat.{bit_and, bit_xor, max}
use mathlib.Core.Path.{ap₂}
use retro_aim_server.Prelude.{
  ℕ, zero, suc, ◌+◌, ◌-◌, ◌/◌, ◌%◌, ◌<◌, ◌≤◌, ◌≡◌, inl, inr, refl, sym, ap, ◌∙◌, true, false, [],
  ◌∷◌, ◌++◌, All, length, get_elem?, take, drop, ltb, arith, Bool-cases, length-append, length-take,
  length-drop,
}
use retro_aim_server.Prelude.Bytes.{Bytes, IsByte, little_endian, put_uint}
use retro_aim_server.Prelude.Xor.{xor_twice}
use retro_aim_server.IcqLegacy.Crypt.{
  table_at, byte_at, or_zero, scramble_from, scramble_password, unscramble_password,
  encrypt_v4_from, encrypt_v4_packet, decrypt_v4_packet, v5_table,
}

or_zero-byte : (table : Bytes) (i : ℕ) → All IsByte table → or_zero (get_elem? table i) < 256
unfolding or_zero
or_zero-byte [] i h = omega arith
or_zero-byte (b ∷ table) zero h = h.0
or_zero-byte (b ∷ table) (suc i) h = or_zero-byte table i h.1

v5_table-bytes : All IsByte v5_table
unfolding v5_table
v5_table-bytes = omega arith

table_at-byte : (i : ℕ) → table_at i < 256
unfolding table_at
table_at-byte i = or_zero-byte v5_table i v5_table-bytes

scramble_from_twice :
    (i : ℕ) (bs : Bytes) → All IsByte bs → scramble_from i (scramble_from i bs) ≡ bs
unfolding scramble_from
scramble_from_twice i [] h = refl
scramble_from_twice i (b ∷ bs) (hb, h) =
    ap₂ ◌∷◌ (xor_twice b (table_at (i % 256)) hb (table_at-byte (i % 256)))
      (scramble_from_twice (i + 1) bs h)

-- UnscramblePassword gives back what ScramblePassword was given.
pub unscramble_password-scramble_password :
    (password : Bytes)
    → All IsByte password
    → unscramble_password (scramble_password password) ≡ password
unfolding unscramble_password scramble_password
unscramble_password-scramble_password password h = scramble_from_twice 0 password h

abbrev v4_byte : ℕ → ℕ → ℕ
v4_byte key i = table_at (bit_xor (bit_and i 0xFF) (byte_at (put_uint little_endian 4 key) (i % 4)))

encrypt_v4_from_twice :
    (key i n : ℕ) (bs : Bytes)
    → All IsByte bs
    → encrypt_v4_from key i n (encrypt_v4_from key i n bs) ≡ bs
unfolding encrypt_v4_from
encrypt_v4_from_twice key i zero bs h = refl
encrypt_v4_from_twice key i (suc n) [] h = refl
encrypt_v4_from_twice key i (suc n) (b ∷ bs) (hb, h) =
    ap₂ ◌∷◌
      (xor_twice b (v4_byte key i) hb
        (table_at-byte (bit_xor (bit_and i 0xFF) (byte_at (put_uint little_endian 4 key) (i % 4)))))
      (encrypt_v4_from_twice key (i + 1) n bs h)

length-encrypt_v4_from :
    (key i n : ℕ) (bs : Bytes) → length (encrypt_v4_from key i n bs) ≡ length bs
unfolding encrypt_v4_from
length-encrypt_v4_from key i zero bs = refl
length-encrypt_v4_from key i (suc n) [] = refl
length-encrypt_v4_from key i (suc n) (b ∷ bs) = ap suc (length-encrypt_v4_from key (i + 1) n bs)

pub All-drop : (n : ℕ) (bs : Bytes) → All IsByte bs → All IsByte (drop n bs)
All-drop zero bs h = h
All-drop (suc n) [] h = h
All-drop (suc n) (b ∷ bs) h = All-drop n bs h.1

-- A packet cut at `n`, its rest replaced by something of the same length.
pub take_rejoin : (n : ℕ) (p q : Bytes) → n ≤ length p → take n (take n p ++ q) ≡ take n p
take_rejoin zero p q h = refl
take_rejoin (suc n) [] q h = absurd (omega arith)
take_rejoin (suc n) (b ∷ p) q h = ap (λ l. b ∷ l) (take_rejoin n p q (omega arith))

pub drop_rejoin : (n m : ℕ) (p q : Bytes) → n ≤ length p → drop (n + m) (take n p ++ q) ≡ drop m q
drop_rejoin zero m p q h = let e : 0 + m ≡ m = omega arith in ap (λ k. drop k q) e
drop_rejoin (suc n) m [] q h = absurd (omega arith)
drop_rejoin (suc n) m (b ∷ p) q h =
    let e : suc n + m ≡ suc (n + m) = omega arith in
    ap (λ k. drop k (b ∷ take n p ++ q)) e ∙ drop_rejoin n m p q (omega arith)

take-drop : (n : ℕ) (p : Bytes) → take n p ++ drop n p ≡ p
take-drop zero p = refl
take-drop (suc n) [] = refl
take-drop (suc n) (b ∷ p) = ap (λ l. b ∷ l) (take-drop n p)

-- A packet whose bytes from `n` on are rewritten by an involution that keeps the length.
pub length-rejoin :
    (n : ℕ) (p q : Bytes)
    → n ≤ length p
    → length q ≡ length (drop n p)
    → length (take n p ++ q) ≡ length p
length-rejoin n p q h e =
    omega (arith, length-append (take n p) q, length-take n p, length-drop n p)

pub rejoin_twice :
    (n : ℕ) (p : Bytes) (f : Bytes → Bytes)
    → n ≤ length p
    → f (f (drop n p)) ≡ drop n p
    → take n (take n p ++ f (drop n p)) ++ f (drop n (take n p ++ f (drop n p))) ≡ p
rejoin_twice n p f h e =
    let e0 : n + 0 ≡ n = omega arith in
    let back : drop n (take n p ++ f (drop n p)) ≡ f (drop n p) =
      ap (λ k. drop k (take n p ++ f (drop n p))) (sym e0) ∙ drop_rejoin n 0 p (f (drop n p)) h in
    ap₂ ◌++◌ (take_rejoin n p (f (drop n p)) h) (ap f back ∙ e) ∙ take-drop n p

encrypt_v4_packet_short :
    (packet : Bytes) (key : ℕ)
    → ltb (length packet) 8 ≡ true
    → encrypt_v4_packet packet key ≡ packet
unfolding encrypt_v4_packet
encrypt_v4_packet_short packet key h = rw h

encrypt_v4_packet_long :
    (packet : Bytes) (key : ℕ)
    → ltb (length packet) 8 ≡ false
    → encrypt_v4_packet packet key
      ≡ take 4 packet ++ encrypt_v4_from key 0 (max 1 ((length packet - 4) / 4)) (drop 4 packet)
unfolding encrypt_v4_packet
encrypt_v4_packet_long packet key h = rw h

-- DecryptV4Packet gives back what EncryptV4Packet was given, with the same key.
decrypt_v4_packet-encrypt_v4_packet :
    (packet : Bytes) (key : ℕ)
    → All IsByte packet
    → decrypt_v4_packet (encrypt_v4_packet packet key) key ≡ packet
unfolding decrypt_v4_packet
decrypt_v4_packet-encrypt_v4_packet packet key h = elim (Bool-cases (ltb (length packet) 8)) [
  | inl short ↦
      let e = encrypt_v4_packet_short packet key short in ap (λ p. encrypt_v4_packet p key) e ∙ e
  | inr long ↦
      let f = λ (n : ℕ) (bs : Bytes). encrypt_v4_from key 0 (max 1 ((n - 4) / 4)) bs in
      let n = length packet in
      let body = drop 4 packet in
      let out = take 4 packet ++ f n body in
      let same : length out ≡ n =
        length-rejoin 4 packet (f n body) (ground arith) (length-encrypt_v4_from key 0 _ body) in
      ap (λ p. encrypt_v4_packet p key) (encrypt_v4_packet_long packet key long)
      ∙ encrypt_v4_packet_long out key (rw same long)
      ∙ ap (λ m. take 4 out ++ f m (drop 4 out)) same
      ∙ rejoin_twice 4 packet (f n) (ground arith)
          (encrypt_v4_from_twice key 0 _ body (All-drop 4 packet h))
]
