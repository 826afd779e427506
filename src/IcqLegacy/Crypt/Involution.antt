-- ===== src/IcqLegacy/Crypt/Involution.antt =====
-- server/icq_legacy/wire_legacy_crypt.go: DecryptV5Packet leaves the check code that its key comes
-- from, and is its own inverse.
use mathlib.Core.Path.{ap₂}
use retro_aim_server.Prelude.{
  ℕ, zero, suc, ◌+◌, ◌/◌, ◌%◌, ◌^◌, ◌<◌, ◌≡◌, inl, inr, refl, sym, ap, ◌∙◌, true, false, [], ◌∷◌,
  ◌++◌, All, length, take, drop, ltb, ◌==◌, arith, Bool-cases,
}
use retro_aim_server.Prelude.Bytes.{Bytes, IsByte}
use retro_aim_server.Prelude.Xor.{xor_twice}
use retro_aim_server.IcqLegacy.Crypt.{
  get_v5_key, low_byte, high_byte, round_key, decrypt_from, decrypt_v5_packet,
}
use retro_aim_server.IcqLegacy.Crypt.RoundTrips.{All-drop, drop_rejoin, length-rejoin, rejoin_twice}

low_byte_twice : (i k b : ℕ) → b < 256 → k < 256 → low_byte i k (low_byte i k b) ≡ b
unfolding low_byte
low_byte_twice i k b hb hk = elim (Bool-cases (i == 0x16)) [
  | inl e ↦ rw e
  | inr e ↦ rw e (xor_twice b k hb hk)
]

high_byte_twice : (i k b : ℕ) → b < 256 → k < 256 → high_byte i k (high_byte i k b) ≡ b
unfolding high_byte
high_byte_twice i k b hb hk = elim (Bool-cases (i == 0x12)) [
  | inl e ↦ rw e
  | inr e ↦ rw e (xor_twice b k hb hk)
]

decrypt_from_twice :
    (key i : ℕ) (bs : Bytes) → All IsByte bs → decrypt_from key i (decrypt_from key i bs) ≡ bs
unfolding decrypt_from
decrypt_from_twice key i [] h = refl
decrypt_from_twice key i (a ∷ []) h = ap (λ x. x ∷ []) (low_byte_twice i _ a h.0 (omega arith))
decrypt_from_twice key i (a ∷ b ∷ []) h =
    ap₂ (λ x y. x ∷ y ∷ []) (low_byte_twice i (round_key key i % 256) a h.0 (omega arith))
      (low_byte_twice i (round_key key i / 2 ^ 8 % 256) b h.1.0 (omega arith))
decrypt_from_twice key i (a ∷ b ∷ c ∷ []) h =
    ap₂ ◌∷◌ (low_byte_twice i (round_key key i % 256) a h.0 (omega arith)) (
      ap₂ (λ x y. x ∷ y ∷ [])
        (low_byte_twice i (round_key key i / 2 ^ 8 % 256) b h.1.0 (omega arith))
        (high_byte_twice i (round_key key i / 2 ^ 16 % 256) c h.1.1.0 (omega arith)))
decrypt_from_twice key i (a ∷ b ∷ c ∷ d ∷ rest) h =
    ap₂ ◌∷◌ (low_byte_twice i (round_key key i % 256) a h.0 (omega arith)) (
      ap₂ ◌∷◌ (low_byte_twice i (round_key key i / 2 ^ 8 % 256) b h.1.0 (omega arith)) (
        ap₂ ◌∷◌ (high_byte_twice i (round_key key i / 2 ^ 16 % 256) c h.1.1.0 (omega arith)) (
          ap₂ ◌∷◌ (high_byte_twice i (round_key key i / 2 ^ 24 % 256) d h.1.1.1.0 (omega arith))
            (decrypt_from_twice key (i + 4) rest h.1.1.1.1))))

length-decrypt_from : (key i : ℕ) (bs : Bytes) → length (decrypt_from key i bs) ≡ length bs
unfolding decrypt_from
length-decrypt_from key i [] = refl
length-decrypt_from key i (a ∷ []) = refl
length-decrypt_from key i (a ∷ b ∷ []) = refl
length-decrypt_from key i (a ∷ b ∷ c ∷ []) = refl
length-decrypt_from key i (a ∷ b ∷ c ∷ d ∷ rest) =
    ap (λ n. suc (suc (suc (suc n)))) (length-decrypt_from key (i + 4) rest)

-- The bytes of the check code, in the rounds at 0x12 and at 0x16.
check_at_16 : (key : ℕ) (bs : Bytes) → take 2 (decrypt_from key 0x16 bs) ≡ take 2 bs
unfolding decrypt_from low_byte
check_at_16 key [] = refl
check_at_16 key (a ∷ []) = refl
check_at_16 key (a ∷ b ∷ []) = refl
check_at_16 key (a ∷ b ∷ c ∷ []) = refl
check_at_16 key (a ∷ b ∷ c ∷ d ∷ rest) = refl

check_at_12 :
    (key : ℕ) (bs : Bytes) → take 4 (drop 2 (decrypt_from key 0x12 bs)) ≡ take 4 (drop 2 bs)
unfolding decrypt_from high_byte
check_at_12 key [] = refl
check_at_12 key (a ∷ []) = refl
check_at_12 key (a ∷ b ∷ []) = refl
check_at_12 key (a ∷ b ∷ c ∷ []) = refl
check_at_12 key (a ∷ b ∷ c ∷ d ∷ rest) = ap (λ l. c ∷ d ∷ l) (check_at_16 key rest)

check_at_0E :
    (key : ℕ) (bs : Bytes) → take 4 (drop 6 (decrypt_from key 0x0E bs)) ≡ take 4 (drop 6 bs)
unfolding decrypt_from
check_at_0E key [] = refl
check_at_0E key (a ∷ []) = refl
check_at_0E key (a ∷ b ∷ []) = refl
check_at_0E key (a ∷ b ∷ c ∷ []) = refl
check_at_0E key (a ∷ b ∷ c ∷ d ∷ rest) = check_at_12 key rest

check_at_0A :
    (key : ℕ) (bs : Bytes) → take 4 (drop 10 (decrypt_from key 0x0A bs)) ≡ take 4 (drop 10 bs)
unfolding decrypt_from
check_at_0A key [] = refl
check_at_0A key (a ∷ []) = refl
check_at_0A key (a ∷ b ∷ []) = refl
check_at_0A key (a ∷ b ∷ c ∷ []) = refl
check_at_0A key (a ∷ b ∷ c ∷ d ∷ rest) = check_at_0E key rest

drop_nil : (n : ℕ) → drop n (let e : Bytes = [] in e) ≡ []
drop_nil zero = refl
drop_nil (suc n) = refl

drop-drop : (n m : ℕ) (p : Bytes) → drop m (drop n p) ≡ drop (n + m) p
drop-drop zero m p = let e : 0 + m ≡ m = omega arith in ap (λ k. drop k p) (sym e)
drop-drop (suc n) m [] = drop_nil m ∙ sym (drop_nil (suc n + m))
drop-drop (suc n) m (b ∷ p) =
    let e : suc n + m ≡ suc (n + m) = omega arith in
    drop-drop n m p ∙ ap (λ k. drop k (b ∷ p)) (sym e)

get_v5_key_cong :
    (p q : Bytes) (n : ℕ)
    → length p ≡ length q
    → take 4 (drop 0x14 p) ≡ take 4 (drop 0x14 q)
    → get_v5_key p n ≡ get_v5_key q n
unfolding get_v5_key
get_v5_key_cong p q n e f = rw (e, f)

decrypt_v5_packet_short : (p : Bytes) → ltb (length p) 0x18 ≡ true → decrypt_v5_packet p ≡ p
unfolding decrypt_v5_packet
decrypt_v5_packet_short p h = rw h

decrypt_v5_packet_long :
    (p : Bytes)
    → ltb (length p) 0x18 ≡ false
    → decrypt_v5_packet p ≡ take 0x0A p ++ decrypt_from (get_v5_key p (length p)) 0x0A (drop 0x0A p)
unfolding decrypt_v5_packet
decrypt_v5_packet_long p h = rw h

-- DecryptV5Packet, which takes its key from the check code in the packet, is its own inverse: what
-- a client encrypts by the same operation is read back.
pub decrypt_v5_packet_twice :
    (p : Bytes) → All IsByte p → decrypt_v5_packet (decrypt_v5_packet p) ≡ p
decrypt_v5_packet_twice p h = elim (Bool-cases (ltb (length p) 0x18)) [
  | inl short ↦ let e = decrypt_v5_packet_short p short in ap decrypt_v5_packet e ∙ e
  | inr long ↦
      let key = get_v5_key p (length p) in
      let body = drop 0x0A p in
      let out = take 0x0A p ++ decrypt_from key 0x0A body in
      let same : length out ≡ length p =
        length-rejoin 0x0A p (decrypt_from key 0x0A body) (ground arith)
          (length-decrypt_from key 0x0A body) in
      let check : take 4 (drop 0x14 out) ≡ take 4 (drop 0x14 p) =
        ap (take 4) (drop_rejoin 0x0A 10 p (decrypt_from key 0x0A body) (ground arith))
        ∙ check_at_0A key body
        ∙ ap (take 4) (drop-drop 0x0A 10 p) in
      let same_key : get_v5_key out (length out) ≡ key =
        ap (get_v5_key out) same ∙ get_v5_key_cong out p (length p) same check in
      ap decrypt_v5_packet (decrypt_v5_packet_long p long)
      ∙ decrypt_v5_packet_long out (rw same long)
      ∙ ap (λ k. take 0x0A out ++ decrypt_from k 0x0A (drop 0x0A out)) same_key
      ∙ rejoin_twice 0x0A p (decrypt_from key 0x0A) (ground arith)
          (decrypt_from_twice key 0x0A body (All-drop 0x0A p h))
]
