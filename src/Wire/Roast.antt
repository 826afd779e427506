-- ===== src/Wire/Roast.antt =====
-- wire/user.go: the roasting of passwords, a repeated xor with a fixed table. A byte is a number
-- below 256. (The two MD5 hashes of that file are not modelled.)
use Prim.Native.Nat.{bit_xor}
use retro_aim_server.Prelude.{
  ℕ, zero, suc, ◌%◌, ◌<◌, ◌≡◌, refl, Bool, true, ◌&&◌, [], ◌∷◌, length, All, arith, ◌==◌,
}
use retro_aim_server.Prelude.Bytes.{Bytes, IsByte}

unfoldable pub byte_at : Bytes → ℕ → ℕ
byte_at [] i = 0
byte_at (b ∷ table) zero = b
byte_at (b ∷ table) (suc i) = byte_at table i

-- The loop of roastPass from index `i` on.
unfoldable pub roast_from : ℕ → Bytes → Bytes → Bytes
unfolding byte_at
roast_from i table [] = []
roast_from i table (b ∷ pass) =
    bit_xor b (byte_at table (i % length table)) ∷ roast_from (suc i) table pass

unfoldable pub roast_pass : Bytes → Bytes → Bytes
unfolding roast_from
roast_pass pass table = roast_from 0 table pass

abbrev pub oscar_table : Bytes
oscar_table =
    0xF3 ∷ 0x26 ∷ 0x81 ∷ 0xC4 ∷ 0x39 ∷ 0x86 ∷ 0xDB ∷ 0x92 ∷ 0x71 ∷ 0xA3 ∷ 0xB9 ∷ 0xE6 ∷ 0x53 ∷ 0x7A
    ∷ 0x95 ∷ 0x7C ∷ []

abbrev pub kerberos_table : Bytes
kerberos_table =
    0x76 ∷ 0x91 ∷ 0xc5 ∷ 0xe7 ∷ 0xd0 ∷ 0xd9 ∷ 0x95 ∷ 0xdd ∷ 0x9e ∷ 0x2F ∷ 0xea ∷ 0xd8 ∷ 0x6B ∷ 0x21
    ∷ 0xc2 ∷ 0xbc ∷ []

abbrev pub java_table : Bytes
java_table =
    0xF3 ∷ 0xB3 ∷ 0x6C ∷ 0x99 ∷ 0x95 ∷ 0x3F ∷ 0xAC ∷ 0xB6 ∷ 0xC5 ∷ 0xFA ∷ 0x6B ∷ 0x63 ∷ 0x69 ∷ 0x6C
    ∷ 0xC3 ∷ 0x9A ∷ []

-- "Tic/Toc"
abbrev pub toc_table : Bytes
toc_table = b'T' ∷ b'i' ∷ b'c' ∷ b'/' ∷ b'T' ∷ b'o' ∷ b'c' ∷ []

-- The clients that roast a password, each by a table of its own.
pub data Client : Type 0 where
  oscar kerberos java toc : Client

unfoldable pub roast_table : Client → Bytes
roast_table Client.oscar = oscar_table
roast_table Client.kerberos = kerberos_table
roast_table Client.java = java_table
roast_table Client.toc = toc_table

-- RoastOSCARPassword, RoastKerberosPassword, RoastOSCARJavaPassword and RoastTOCPassword.
unfoldable pub roast : Client → Bytes → Bytes
unfolding roast_table roast_pass
roast client pass = roast_pass pass (roast_table client)

-- xor with `k` undoes itself on every byte, by evaluation.
undoes_below : ℕ → ℕ → Bool
undoes_below zero k = true
undoes_below (suc n) k = (bit_xor (bit_xor n k) k == n) && undoes_below n k

undoes_all : Bytes → Bool
undoes_all [] = true
undoes_all (k ∷ table) = undoes_below 256 k && undoes_all table

undoes_below→eq : (n k b : ℕ) → undoes_below n k ≡ true → b < n → bit_xor (bit_xor b k) k ≡ b
unfolding undoes_below
undoes_below→eq zero k b e h = absurd (omega arith)
undoes_below→eq (suc n) k b e h = ground (arith, undoes_below→eq n k b)

both : (x y : Bool) → (x && y) ≡ true → (x ≡ true) × (y ≡ true)
both x y p = ground arith

byte_at-undoes :
    (table : Bytes) (i b : ℕ)
    → undoes_all table ≡ true
    → i < length table
    → b < 256
    → bit_xor (bit_xor b (byte_at table i)) (byte_at table i) ≡ b
unfolding byte_at undoes_all
byte_at-undoes [] i b e h hb = absurd (omega arith)
byte_at-undoes (k ∷ table) zero b e h hb = undoes_below→eq 256 k b (both _ _ e).0 hb
byte_at-undoes (k ∷ table) (suc i) b e h hb =
    byte_at-undoes table i b (both _ _ e).1 (omega arith) hb

roast_from-undoes :
    (i : ℕ) (table pass : Bytes)
    → undoes_all table ≡ true
    → 0 < length table
    → All IsByte pass
    → roast_from i table (roast_from i table pass) ≡ pass
unfolding roast_from
roast_from-undoes i table [] e h bytes = refl
roast_from-undoes i table (b ∷ pass) e h (hb, bytes) = cc (
  byte_at-undoes table (i % length table) b e (omega arith) hb,
  roast_from-undoes (suc i) table pass e h bytes,
)

undoes_table : (client : Client) → undoes_all (roast_table client) ≡ true
unfolding undoes_all undoes_below roast_table
undoes_table Client.oscar = refl
undoes_table Client.kerberos = refl
undoes_table Client.java = refl
undoes_table Client.toc = refl

table_not_empty : (client : Client) → 0 < length (roast_table client)
unfolding roast_table
table_not_empty Client.oscar = omega arith
table_not_empty Client.kerberos = omega arith
table_not_empty Client.java = omega arith
table_not_empty Client.toc = omega arith

-- Roasting with any of the four tables twice gives the password back.
roast_twice :
    (client : Client) (pass : Bytes) → All IsByte pass → roast client (roast client pass) ≡ pass
unfolding roast roast_pass
roast_twice client pass bytes =
    roast_from-undoes 0 (roast_table client) pass (undoes_table client) (table_not_empty client)
      bytes
