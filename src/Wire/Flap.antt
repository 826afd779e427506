-- ===== src/Wire/Flap.antt =====
-- wire/frames.go: FLAP frames and FlapClient, which numbers the frames that it sends. The mutex
-- serialises the operations, so that each is one step. `w` takes whole frames: whether a write
-- succeeds is the caller's choice (`accepts`), and the bytes of a failed write are not kept.
pub mod Stream
pub mod Snac
use retro_aim_server.Prelude.{
  ℕ, suc, ◌+◌, ◌%◌, ◌^◌, Bool, true, false, List, [], ◌∷◌, ◌++◌, if◌then◌else◌,
}
use retro_aim_server.Prelude.Bytes.{Bytes, big_endian}
use retro_aim_server.Wire.Codec.Types.{
  Ty, uint, slice, struct, end, field, El, Kind, OscarTag, no_tag, StructName, Quirk,
}
use retro_aim_server.Wire.Codec.Marshal.{Outcome, done, failed, marshal, ◌>>=◌}
use retro_aim_server.Wire.Codec.Unmarshal.{Reader, unmarshal, within, return, ◌>>=◌ as and_then}

abbrev pub len_prefix_uint16 : OscarTag
len_prefix_uint16 = record no_tag { has_len_prefix = true; len_prefix = Kind.uint16 }

-- `StartMarker`, `FrameType`, `Sequence` and `Payload`.
abbrev pub flap_frame : Ty
flap_frame = struct StructName.other (
    field no_tag (uint 1) (
      field no_tag (uint 1) (field no_tag (uint 2) (field len_prefix_uint16 (slice (uint 1)) end))))

abbrev pub flap_frame_disconnect : Ty
flap_frame_disconnect =
    struct StructName.other
      (field no_tag (uint 1) (field no_tag (uint 1) (field no_tag (uint 2) end)))

abbrev pub snac_frame : Ty
snac_frame = struct StructName.other (
    field no_tag (uint 2)
      (field no_tag (uint 2) (field no_tag (uint 2) (field no_tag (uint 4) end))))

-- TLV of wire/tlv.go, and a struct that embeds a list of them with no prefix: TLVRestBlock.
abbrev pub tlv : Ty
tlv = struct StructName.tlv (field no_tag (uint 2) (field len_prefix_uint16 (slice (uint 1)) end))

abbrev pub tlv_rest_block : Ty
tlv_rest_block = struct StructName.other (field no_tag (slice tlv) end)

abbrev pub flap_signon_frame : Ty
flap_signon_frame =
    struct StructName.other (field no_tag (uint 4) (field no_tag tlv_rest_block end))

abbrev pub frame_signon : ℕ
frame_signon = 0x01

abbrev pub frame_data : ℕ
frame_data = 0x02

abbrev pub frame_signoff : ℕ
frame_signoff = 0x04

abbrev pub frame_keep_alive : ℕ
frame_keep_alive = 0x05

-- The uint32 counter, and the bytes written so far.
pub record FlapClient : Type 0 where
  pub sequence : ℕ
  pub written : Bytes

-- NewFlapClient: nothing is written yet.
abbrev pub new_flap_client : ℕ → FlapClient
new_flap_client start_seq = record { sequence = start_seq; written = [] }

abbrev pub frame_value : ℕ → ℕ → Bytes → El flap_frame
frame_value frame_type sequence payload = (42, (frame_type, (sequence % 2 ^ 16, (payload, tt))))

-- `f.sequence++` on a uint32.
unfoldable pub next_sequence : ℕ → ℕ
next_sequence sequence = (sequence + 1) % 2 ^ 32

-- What follows the marshalling of a frame: the write, and then the count.
unfoldable pub write_frame : Bool → Outcome → FlapClient → Bool × FlapClient
unfolding next_sequence
write_frame accepts frame f = elim frame [
  | failed e ↦ (false, f)
  | done b ↦
      if accepts
      then (true, record f { sequence = next_sequence f.sequence; written = f.written ++ b })
      else (false, f)
]

-- A frame is marshalled and written; the counter moves on only if that succeeds. The result says
-- whether it did.
unfoldable pub send_frame : Bool → ℕ → Bytes → FlapClient → Bool × FlapClient
unfolding write_frame
send_frame accepts frame_type payload f =
    write_frame accepts
      (marshal flap_frame no_tag big_endian (frame_value frame_type f.sequence payload)) f

-- A frame around what marshal makes of a body: an error there leaves the client as it was.
unfoldable pub send_body : Bool → ℕ → Outcome → FlapClient → Bool × FlapClient
unfolding send_frame
send_body accepts frame_type body f = elim body [
  | failed e ↦ (false, f)
  | done payload ↦ send_frame accepts frame_type payload f
]

unfoldable pub send_signon_frame : Bool → El tlv_rest_block → FlapClient → Bool × FlapClient
unfolding send_body
send_signon_frame accepts tlvs f =
    send_body accepts frame_signon (marshal flap_signon_frame no_tag big_endian (1, (tlvs, tt))) f

unfoldable pub new_signoff : Bool → El tlv_rest_block → FlapClient → Bool × FlapClient
unfolding send_body
new_signoff accepts tlvs f =
    send_body accepts frame_signoff (marshal tlv_rest_block no_tag big_endian tlvs) f

-- The header and then the body, of whatever type the message has.
unfoldable pub snac_payload : El snac_frame → (t : Ty) → El t → Outcome
snac_payload frame t body = marshal snac_frame no_tag big_endian frame >>= λ head.
    marshal t no_tag big_endian body >>= λ rest. done (head ++ rest)

unfoldable pub send_snac : Bool → El snac_frame → (t : Ty) → El t → FlapClient → Bool × FlapClient
unfolding send_body snac_payload
send_snac accepts frame t body f = send_body accepts frame_data (snac_payload frame t body) f

unfoldable pub send_data_frame : Bool → Bytes → FlapClient → Bool × FlapClient
unfolding send_frame
send_data_frame accepts payload f = send_frame accepts frame_data payload f

unfoldable pub send_keep_alive_frame : Bool → FlapClient → Bool × FlapClient
unfolding send_frame
send_keep_alive_frame accepts f = send_frame accepts frame_keep_alive [] f

-- OldSignoff writes a header with no payload length, and does not count it.
unfoldable pub old_signoff : Bool → FlapClient → Bool × FlapClient
old_signoff accepts f =
    elim (marshal flap_frame_disconnect no_tag big_endian
      (42, (frame_signoff, (f.sequence % 2 ^ 16, tt)))) [
        | failed e ↦ (false, f)
        | done b ↦ if accepts then (true, record f { written = f.written ++ b }) else (false, f)
      ]

unfoldable pub receive_flap : Reader (El flap_frame)
receive_flap r = unmarshal flap_frame no_tag big_endian Quirk.none r

-- The payload of a frame, read as a buffer of its own.
unfoldable pub read_payload : {A : Type 0} → Reader A → Reader A
unfolding receive_flap within
read_payload inner = and_then receive_flap (λ flap. within flap.1.1.1.0 inner)

unfoldable pub receive_signon_frame : Reader (El flap_signon_frame)
unfolding read_payload
receive_signon_frame = read_payload (unmarshal flap_signon_frame no_tag big_endian Quirk.none)

-- The header and then a body of the type that the caller expects.
unfoldable pub read_snac : (t : Ty) → Reader (El snac_frame × El t)
read_snac t =
    and_then (unmarshal snac_frame no_tag big_endian Quirk.none)
      (λ frame. and_then (unmarshal t no_tag big_endian Quirk.none) (λ body. return (frame, body)))

unfoldable pub receive_snac : (t : Ty) → Reader (El snac_frame × El t)
unfolding read_payload read_snac
receive_snac t = read_payload (read_snac t)
