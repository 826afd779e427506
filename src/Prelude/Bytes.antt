-- ===== src/Prelude/Bytes.antt =====
-- Byte strings: a `[]byte` or a `string` of the source is a list of numbers below 256. Unsigned
-- integers as bytes in the two orders of encoding/binary, and the equality of byte strings.
use Prim.Native.Nat.{ℕ, zero, suc, ◌+◌, ◌*◌, ◌/◌, ◌%◌, ◌^◌, ◌<◌}
use mathlib.Core.Path.{◌≡◌, refl, ap, ◌∙◌}
use mathlib.Core.Logic.{◌↔◌}
use mathlib.Core.Bool.{Bool, true, false, ◌&&◌}
use mathlib.Core.List.{List, [], ◌∷◌, reverse, reverse-reverse, reverse-cons}
use native.Mathlib.Omega.{arith}
use native.Mathlib.Nat.{pow-suc}
use retro_aim_server.Prelude.Tests.{◌==◌}
use retro_aim_server.Prelude.Lists.{length, length-reverse, All, All-append}

abbrev pub Bytes : Type 0
Bytes = List ℕ

abbrev pub IsByte : ℕ → Type 0
IsByte b = b < 256

-- binary.BigEndian and binary.LittleEndian.
pub data ByteOrder : Type 0 where
  big_endian little_endian : ByteOrder

-- The `n` low bytes of `v`, lowest first.
abbrev le_bytes : ℕ → ℕ → Bytes
le_bytes zero v = []
le_bytes (suc n) v = (v % 256) ∷ le_bytes n (v / 256)

abbrev le_value : Bytes → ℕ
le_value [] = 0
le_value (b ∷ bs) = b + 256 * le_value bs

-- `order.PutUint…` and `order.Uint…` for integers of `n` bytes.
unfoldable pub put_uint : ByteOrder → ℕ → ℕ → Bytes
put_uint little_endian n v = le_bytes n v
put_uint big_endian n v = reverse (le_bytes n v)

unfoldable pub uint : ByteOrder → Bytes → ℕ
uint little_endian bs = le_value bs
uint big_endian bs = le_value (reverse bs)

length-le_bytes : (n v : ℕ) → length (le_bytes n v) ≡ n
length-le_bytes zero v = refl
length-le_bytes (suc n) v = ap suc (length-le_bytes n (v / 256))

le_value-le_bytes : (n v : ℕ) → v < 256 ^ n → le_value (le_bytes n v) ≡ v
le_value-le_bytes zero v h = omega arith
le_value-le_bytes (suc n) v h =
    omega (arith, le_value-le_bytes n (v / 256) (omega (arith, pow-suc 256 n)))

pub length-put_uint : (o : ByteOrder) (n v : ℕ) → length (put_uint o n v) ≡ n
unfolding put_uint
length-put_uint little_endian n v = length-le_bytes n v
length-put_uint big_endian n v = length-reverse (le_bytes n v) ∙ length-le_bytes n v

pub uint-put_uint : (o : ByteOrder) (n v : ℕ) → v < 256 ^ n → uint o (put_uint o n v) ≡ v
unfolding put_uint uint
uint-put_uint little_endian n v h = le_value-le_bytes n v h
uint-put_uint big_endian n v h = rw (reverse-reverse (le_bytes n v)) (le_value-le_bytes n v h)

le_bytes-IsByte : (n v : ℕ) → All IsByte (le_bytes n v)
le_bytes-IsByte zero v = tt
le_bytes-IsByte (suc n) v = (omega arith, le_bytes-IsByte n (v / 256))

reverse-IsByte : (b : Bytes) → All IsByte b → All IsByte (reverse b)
reverse-IsByte [] h = tt
reverse-IsByte (x ∷ b) h =
    rw (reverse-cons x b) (All-append IsByte (reverse b) (x ∷ []) (reverse-IsByte b h.1) (h.0, tt))

pub put_uint-IsByte : (o : ByteOrder) (n v : ℕ) → All IsByte (put_uint o n v)
unfolding put_uint
put_uint-IsByte little_endian n v = le_bytes-IsByte n v
put_uint-IsByte big_endian n v = reverse-IsByte (le_bytes n v) (le_bytes-IsByte n v)

-- `==` on byte strings.
unfoldable pub bytes_eq : Bytes → Bytes → Bool
bytes_eq [] [] = true
bytes_eq (a ∷ r) (b ∷ s) = (a == b) && bytes_eq r s
bytes_eq _ _ = false

bytes_eq→eq : (a b : Bytes) → bytes_eq a b ≡ true → a ≡ b
unfolding bytes_eq
bytes_eq→eq [] [] h = refl
bytes_eq→eq (a ∷ r) (b ∷ s) h = ground (arith, bytes_eq→eq r s)
bytes_eq→eq [] (b ∷ s) h = cc
bytes_eq→eq (a ∷ r) [] h = cc

pub bytes_eq_refl : (a : Bytes) → bytes_eq a a ≡ true
unfolding bytes_eq
bytes_eq_refl [] = refl
bytes_eq_refl (a ∷ r) = ground (arith, bytes_eq_refl r)

pub bytes_eq_iff : (a b : Bytes) → (bytes_eq a b ≡ true) ↔ (a ≡ b)
bytes_eq_iff a b = (bytes_eq→eq a b, λ e. rw e (bytes_eq_refl b))
