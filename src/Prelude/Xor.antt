-- ===== src/Prelude/Xor.antt =====
-- The exclusive or of two bytes, undone by doing it again.
use Prim.Native.Nat.{ℕ, bit_xor}
use mathlib.Core.Path.{◌≡◌, refl}
use mathlib.Core.Bool.{true}
use retro_aim_server.Prelude.Bytes.{IsByte}
use retro_aim_server.Prelude.Tests.{◌==◌, ==_iff}
use retro_aim_server.Prelude.Tables.{passes, passes-at}

byte_pairs : passes (λ key. passes (λ b. bit_xor (bit_xor b key) key == b) 256) 256 ≡ true
unfolding passes
byte_pairs = refl

pub xor_twice : (b k : ℕ) → IsByte b → IsByte k → bit_xor (bit_xor b k) k ≡ b
xor_twice b k hb hk = (==_iff _ b).0 (passes-at _ 256 (passes-at _ 256 byte_pairs k hk) b hb)
