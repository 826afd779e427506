-- ===== src/IcqLegacy/Crypt/Tests.antt =====
-- server/icq_legacy/wire_legacy_crypt.go at concrete inputs.
use retro_aim_server.Prelude.{◌≡◌, refl, [], ◌∷◌, arith}
use retro_aim_server.Prelude.Bytes.{Bytes}
use retro_aim_server.IcqLegacy.Crypt.{scramble_password, unscramble_password, decrypt_v5_packet}
use retro_aim_server.IcqLegacy.Crypt.RoundTrips.{unscramble_password-scramble_password}
use retro_aim_server.IcqLegacy.Crypt.Involution.{decrypt_v5_packet_twice}

abbrev secret : Bytes
secret = 115 ∷ 101 ∷ 99 ∷ 114 ∷ 101 ∷ 116 ∷ []

unscramble_password-scramble_password_example :
    unscramble_password (scramble_password secret) ≡ secret
unscramble_password-scramble_password_example =
    unscramble_password-scramble_password secret (omega arith)

-- "secret" is xored with 59 60 37 6B 65 62.
scrambled : scramble_password secret ≡ 42 ∷ 5 ∷ 84 ∷ 25 ∷ 0 ∷ 22 ∷ []
unfolding scramble_password
scrambled = refl

abbrev v4_packet : Bytes
v4_packet = 4 ∷ 0 ∷ 7 ∷ 9 ∷ 1 ∷ 2 ∷ 3 ∷ 4 ∷ 5 ∷ 6 ∷ 7 ∷ 8 ∷ []

abbrev v5_packet : Bytes
v5_packet =
    5 ∷ 0 ∷ 0 ∷ 0 ∷ 0 ∷ 0 ∷ 17 ∷ 34 ∷ 51 ∷ 68 ∷ 85 ∷ 102 ∷ 119 ∷ 136 ∷ 153 ∷ 170 ∷ 187 ∷ 204 ∷ 221
    ∷ 238 ∷ 255 ∷ 1 ∷ 2 ∷ 3 ∷ 4 ∷ 5 ∷ []

decrypt_v5_packet_twice_example : decrypt_v5_packet (decrypt_v5_packet v5_packet) ≡ v5_packet
decrypt_v5_packet_twice_example = decrypt_v5_packet_twice v5_packet (omega arith)
