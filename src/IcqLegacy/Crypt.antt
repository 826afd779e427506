-- ===== src/IcqLegacy/Crypt.antt =====
-- server/icq_legacy/wire_legacy_crypt.go: the encryption of ICQ V3 to V5 packets and the scrambled
-- passwords. Packets and passwords are byte strings, uint32 values numbers below 2^32; what
-- math/rand gives is an argument.
pub mod RoundTrips
pub mod Involution
mod Tests
use Prim.Native.Nat.{bit_and, bit_or, bit_xor, max}
use retro_aim_server.Prelude.{
  ℕ, zero, suc, ◌+◌, ◌-◌, ◌*◌, ◌/◌, ◌%◌, ◌^◌, Bool, Option, none, some, [], ◌∷◌, ◌++◌, length,
  get_elem?, take, drop, if◌then◌else◌, ltb, ◌==◌,
}
use retro_aim_server.Prelude.Bytes.{Bytes, little_endian, uint, put_uint}

unfoldable pub v5_table : Bytes
v5_table =
    0x59 ∷ 0x60 ∷ 0x37 ∷ 0x6B ∷ 0x65 ∷ 0x62 ∷ 0x46 ∷ 0x48 ∷ 0x53 ∷ 0x61 ∷ 0x4C ∷ 0x59 ∷ 0x60 ∷ 0x57
    ∷ 0x5B ∷ 0x3D ∷ 0x5E ∷ 0x34 ∷ 0x6D ∷ 0x36 ∷ 0x50 ∷ 0x3F ∷ 0x6F ∷ 0x67 ∷ 0x53 ∷ 0x61 ∷ 0x4C
    ∷ 0x59 ∷ 0x40 ∷ 0x47 ∷ 0x63 ∷ 0x39 ∷ 0x50 ∷ 0x5F ∷ 0x5F ∷ 0x3F ∷ 0x6F ∷ 0x47 ∷ 0x43 ∷ 0x69
    ∷ 0x48 ∷ 0x33 ∷ 0x31 ∷ 0x64 ∷ 0x35 ∷ 0x5A ∷ 0x4A ∷ 0x42 ∷ 0x56 ∷ 0x40 ∷ 0x67 ∷ 0x53 ∷ 0x41
    ∷ 0x07 ∷ 0x6C ∷ 0x49 ∷ 0x58 ∷ 0x3B ∷ 0x4D ∷ 0x46 ∷ 0x68 ∷ 0x43 ∷ 0x69 ∷ 0x48 ∷ 0x33 ∷ 0x31
    ∷ 0x44 ∷ 0x65 ∷ 0x62 ∷ 0x46 ∷ 0x48 ∷ 0x53 ∷ 0x41 ∷ 0x07 ∷ 0x6C ∷ 0x69 ∷ 0x48 ∷ 0x33 ∷ 0x51
    ∷ 0x54 ∷ 0x5D ∷ 0x4E ∷ 0x6C ∷ 0x49 ∷ 0x38 ∷ 0x4B ∷ 0x55 ∷ 0x4A ∷ 0x62 ∷ 0x46 ∷ 0x48 ∷ 0x33
    ∷ 0x51 ∷ 0x34 ∷ 0x6D ∷ 0x36 ∷ 0x50 ∷ 0x5F ∷ 0x5F ∷ 0x5F ∷ 0x3F ∷ 0x6F ∷ 0x47 ∷ 0x63 ∷ 0x59
    ∷ 0x40 ∷ 0x67 ∷ 0x33 ∷ 0x31 ∷ 0x64 ∷ 0x35 ∷ 0x5A ∷ 0x6A ∷ 0x52 ∷ 0x6E ∷ 0x3C ∷ 0x51 ∷ 0x34
    ∷ 0x6D ∷ 0x36 ∷ 0x50 ∷ 0x5F ∷ 0x5F ∷ 0x3F ∷ 0x4F ∷ 0x37 ∷ 0x4B ∷ 0x35 ∷ 0x5A ∷ 0x4A ∷ 0x62
    ∷ 0x66 ∷ 0x58 ∷ 0x3B ∷ 0x4D ∷ 0x66 ∷ 0x58 ∷ 0x5B ∷ 0x5D ∷ 0x4E ∷ 0x6C ∷ 0x49 ∷ 0x58 ∷ 0x3B
    ∷ 0x4D ∷ 0x66 ∷ 0x58 ∷ 0x3B ∷ 0x4D ∷ 0x46 ∷ 0x48 ∷ 0x53 ∷ 0x61 ∷ 0x4C ∷ 0x59 ∷ 0x40 ∷ 0x67
    ∷ 0x33 ∷ 0x31 ∷ 0x64 ∷ 0x55 ∷ 0x6A ∷ 0x32 ∷ 0x3E ∷ 0x44 ∷ 0x45 ∷ 0x52 ∷ 0x6E ∷ 0x3C ∷ 0x31
    ∷ 0x64 ∷ 0x55 ∷ 0x6A ∷ 0x52 ∷ 0x4E ∷ 0x6C ∷ 0x69 ∷ 0x48 ∷ 0x53 ∷ 0x61 ∷ 0x4C ∷ 0x39 ∷ 0x30
    ∷ 0x6F ∷ 0x47 ∷ 0x63 ∷ 0x59 ∷ 0x60 ∷ 0x57 ∷ 0x5B ∷ 0x3D ∷ 0x3E ∷ 0x64 ∷ 0x35 ∷ 0x3A ∷ 0x3A
    ∷ 0x5A ∷ 0x6A ∷ 0x52 ∷ 0x4E ∷ 0x6C ∷ 0x69 ∷ 0x48 ∷ 0x53 ∷ 0x61 ∷ 0x6C ∷ 0x49 ∷ 0x58 ∷ 0x3B
    ∷ 0x4D ∷ 0x46 ∷ 0x68 ∷ 0x63 ∷ 0x39 ∷ 0x50 ∷ 0x5F ∷ 0x5F ∷ 0x3F ∷ 0x6F ∷ 0x67 ∷ 0x53 ∷ 0x41
    ∷ 0x25 ∷ 0x41 ∷ 0x3C ∷ 0x51 ∷ 0x54 ∷ 0x3D ∷ 0x5E ∷ 0x54 ∷ 0x5D ∷ 0x4E ∷ 0x4C ∷ 0x39 ∷ 0x50
    ∷ 0x5F ∷ 0x5F ∷ 0x5F ∷ 0x3F ∷ 0x6F ∷ 0x47 ∷ 0x43 ∷ 0x69 ∷ 0x48 ∷ 0x33 ∷ 0x51 ∷ 0x54 ∷ 0x5D
    ∷ 0x6E ∷ 0x3C ∷ 0x31 ∷ 0x64 ∷ 0x35 ∷ 0x5A ∷ 0x00 ∷ 0x00 ∷ []

unfoldable pub or_zero : Option ℕ → ℕ
or_zero none = 0
or_zero (some b) = b

-- `v5Table[i]`, and a byte of a packet that is there.
unfoldable pub table_at : ℕ → ℕ
unfolding v5_table or_zero
table_at i = or_zero (get_elem? v5_table i)

unfoldable pub byte_at : Bytes → ℕ → ℕ
unfolding or_zero
byte_at packet i = or_zero (get_elem? packet i)

abbrev pub u32 : ℕ → ℕ
u32 n = n % 2 ^ 32

-- The check code's bits, put back in order, and the key.
unfoldable pub descramble : ℕ → ℕ
descramble check =
    let a1 = bit_and check 0x0001F000 / 2 ^ 0x0C in
    let a2 = bit_and check 0x07C007C0 / 2 ^ 0x01 in
    let a3 = u32 (bit_and check 0x003E0001 * 2 ^ 0x0A) in
    let a4 = bit_and check 0xF8000000 / 2 ^ 0x10 in
    let a5 = u32 (bit_and check 0x0000083E * 2 ^ 0x0F) in u32 (a5 + a1 + a2 + a3 + a4)

unfoldable pub get_v5_key : Bytes → ℕ → ℕ
unfolding descramble
get_v5_key packet packet_len =
    if ltb (length packet) 0x18
    then 0
    else u32
        (u32 packet_len * 0x68656C6C + descramble (uint little_endian (take 4 (drop 0x14 packet))))

-- The two halves of a round of the loop at `i`, which leave the check code at 0x14 to 0x17.
unfoldable pub low_byte : ℕ → ℕ → ℕ → ℕ
low_byte i k b = if i == 0x16 then b else bit_xor b k

unfoldable pub high_byte : ℕ → ℕ → ℕ → ℕ
high_byte i k b = if i == 0x12 then b else bit_xor b k

unfoldable pub round_key : ℕ → ℕ → ℕ
unfolding table_at
round_key key i = u32 (key + table_at (bit_and i 0xFF))

-- The loop from `i` on, four bytes a round; bytes past the end are passed over.
unfoldable pub decrypt_from : ℕ → ℕ → Bytes → Bytes
unfolding low_byte high_byte round_key
decrypt_from key i [] = []
decrypt_from key i (a ∷ []) = low_byte i (round_key key i % 256) a ∷ []
decrypt_from key i (a ∷ b ∷ []) =
    low_byte i (round_key key i % 256) a ∷ low_byte i (round_key key i / 2 ^ 8 % 256) b ∷ []
decrypt_from key i (a ∷ b ∷ c ∷ []) =
    low_byte i (round_key key i % 256) a
    ∷ low_byte i (round_key key i / 2 ^ 8 % 256) b
    ∷ high_byte i (round_key key i / 2 ^ 16 % 256) c
    ∷ []
decrypt_from key i (a ∷ b ∷ c ∷ d ∷ rest) =
    low_byte i (round_key key i % 256) a
    ∷ low_byte i (round_key key i / 2 ^ 8 % 256) b
    ∷ high_byte i (round_key key i / 2 ^ 16 % 256) c
    ∷ high_byte i (round_key key i / 2 ^ 24 % 256) d
    ∷ decrypt_from key (i + 4) rest

-- DecryptV5Packet; the session id is not used.
unfoldable pub decrypt_v5_packet : Bytes → Bytes
unfolding get_v5_key decrypt_from
decrypt_v5_packet packet =
    if ltb (length packet) 0x18
    then packet
    else take 0x0A packet
      ++ decrypt_from (get_v5_key packet (length packet)) 0x0A (drop 0x0A packet)

-- Four bytes as one number, the first highest.
unfoldable pub word : ℕ → ℕ → ℕ → ℕ → ℕ
word a b c d = ((a * 2 ^ 8 + b) * 2 ^ 8 + c) * 2 ^ 8 + d

-- calculateV5CheckCode, for `r1 < 0x10` and `r2 < 0xFF`; a packet of 10 bytes may be too short for
-- `packet[r1]`, which panics in Go.
unfoldable pub calculate_v5_check_code : ℕ → ℕ → Bytes → ℕ
unfolding word byte_at table_at
calculate_v5_check_code r1 r2 packet =
    if ltb (length packet) 10
    then 0
    else bit_xor (word (byte_at packet 8) (byte_at packet 4) (byte_at packet 2) (byte_at packet 6))
        (bit_xor (word r1 (byte_at packet r1) r2 (table_at r2)) 0x00FF00FF)

-- The encryption of the bytes from 0x0A on, a word of at most four bytes at a time.
unfoldable pub encrypt_from : ℕ → ℕ → Bytes → Bytes
unfolding round_key
encrypt_from key pos [] = []
encrypt_from key pos (a ∷ []) = bit_xor a (round_key key pos % 256) ∷ []
encrypt_from key pos (a ∷ b ∷ []) =
    bit_xor a (round_key key pos % 256) ∷ bit_xor b (round_key key pos / 2 ^ 8 % 256) ∷ []
encrypt_from key pos (a ∷ b ∷ c ∷ []) =
    bit_xor a (round_key key pos % 256)
    ∷ bit_xor b (round_key key pos / 2 ^ 8 % 256)
    ∷ bit_xor c (round_key key pos / 2 ^ 16 % 256)
    ∷ []
encrypt_from key pos (a ∷ b ∷ c ∷ d ∷ rest) =
    bit_xor a (round_key key pos % 256)
    ∷ bit_xor b (round_key key pos / 2 ^ 8 % 256)
    ∷ bit_xor c (round_key key pos / 2 ^ 16 % 256)
    ∷ bit_xor d (round_key key pos / 2 ^ 24 % 256)
    ∷ encrypt_from key (pos + 4) rest

unfoldable pub put_at : ℕ → ℕ → Bytes → Bytes
put_at i v packet = take i packet ++ put_uint little_endian 4 v ++ drop (i + 4) packet

-- EncryptV5Packet, with what rand gave.
unfoldable pub encrypt_v5_packet : ℕ → ℕ → Bytes → Bytes
unfolding calculate_v5_check_code put_at encrypt_from
encrypt_v5_packet r1 r2 packet =
    if ltb (length packet) 0x18
    then packet
    else let cc = calculate_v5_check_code r1 r2 packet in
      let stamped = put_at 0x14 cc packet in
      let key = u32 (u32 (length packet) * 0x68656C6C + cc) in
      take 0x0A stamped ++ encrypt_from key 0x0A (drop 0x0A stamped)

unfoldable pub scramble_from : ℕ → Bytes → Bytes
unfolding table_at
scramble_from i [] = []
scramble_from i (b ∷ bs) = bit_xor b (table_at (i % 256)) ∷ scramble_from (i + 1) bs

unfoldable pub scramble_password : Bytes → Bytes
unfolding scramble_from
scramble_password password = scramble_from 0 password

unfoldable pub unscramble_password : Bytes → Bytes
unfolding scramble_from
unscramble_password scrambled = scramble_from 0 scrambled

-- V4CheckCode, for `0 < r1 < len(packet) - 4` and `r2 < 256`.
unfoldable pub v4_check_code : ℕ → ℕ → Bytes → ℕ
unfolding word byte_at table_at
v4_check_code r1 r2 packet =
    if ltb (length packet) 10
    then 0
    else bit_xor (word (byte_at packet 8) (byte_at packet 4) (byte_at packet 2) (byte_at packet 6))
        (u32 (word r1 (byte_at packet r1) r2 (table_at r2)))

unfoldable pub v4_encryption_key : ℕ → ℕ → ℕ
v4_encryption_key packet_len check_code = u32 (u32 packet_len * 0x66756B65 + check_code)

-- The loop of EncryptV4Packet over the bytes from 4 on, `rounds` of them from the `i`th.
unfoldable pub encrypt_v4_from : ℕ → ℕ → ℕ → Bytes → Bytes
unfolding table_at byte_at
encrypt_v4_from key i zero bs = bs
encrypt_v4_from key i (suc rounds) [] = []
encrypt_v4_from key i (suc rounds) (b ∷ bs) =
    bit_xor b (table_at (bit_xor (bit_and i 0xFF) (byte_at (put_uint little_endian 4 key) (i % 4))))
    ∷ encrypt_v4_from key (i + 1) rounds bs

unfoldable pub encrypt_v4_packet : Bytes → ℕ → Bytes
unfolding encrypt_v4_from
encrypt_v4_packet packet key =
    if ltb (length packet) 8
    then packet
    else take 4 packet ++ encrypt_v4_from key 0 (max 1 ((length packet - 4) / 4)) (drop 4 packet)

unfoldable pub decrypt_v4_packet : Bytes → ℕ → Bytes
unfolding encrypt_v4_packet
decrypt_v4_packet packet key = encrypt_v4_packet packet key

unfoldable pub add_v5_server_checkcode : ℕ → ℕ → Bytes → Bytes
unfolding calculate_v5_check_code put_at
add_v5_server_checkcode r1 r2 packet =
    if ltb (length packet) 21
    then packet
    else put_at 0x11 (calculate_v5_check_code r1 r2 packet) packet

unfoldable pub set_v3_checkcode : Bytes → Bytes
unfolding word byte_at table_at put_at
set_v3_checkcode packet =
    if ltb (length packet) 16
    then packet
    else let check_a =
        word (byte_at packet 8) (byte_at packet 4) (byte_at packet 2) (byte_at packet 6) in
      let table_offset =
        bit_and
          (bit_xor (bit_xor (bit_xor (byte_at packet 0) (byte_at packet 2)) (byte_at packet 4))
            (byte_at packet 6))
          0xFF in
      let check_b = bit_xor (table_offset * 2 ^ 8 + table_at table_offset) 0x00FF00FF in
      put_at 12 (bit_xor check_a check_b) packet
