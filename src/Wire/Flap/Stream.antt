-- ===== src/Wire/Flap/Stream.antt =====
-- A stream of frames of wire/frames.go: what a receiver reads of what FlapClient sent.
use mathlib.Core.List.{append_assoc, append-nil}
use retro_aim_server.Prelude.{
  ℕ, suc, ◌+◌, ◌%◌, ◌^◌, ◌<◌, ◌≡◌, refl, sym, ap, ◌∙◌, inl, true, List, [], ◌∷◌, ◌++◌, length,
  length-append, ◌*◌, All, arith,
}
use retro_aim_server.Prelude.Bytes.{Bytes, IsByte, big_endian, put_uint, length-put_uint}
use retro_aim_server.Wire.Codec.Types.{El, no_tag, uint, is_struct}
use retro_aim_server.Wire.Codec.Marshal.{
  done, marshal, marshal_elements, marshal_struct, flat_bytes, fixed_bytes,
}
use retro_aim_server.Wire.Codec.Unmarshal.{ok, read_count}
use retro_aim_server.Wire.Codec.Reading.{Decodes, DecodesAll, read_count-DecodesAll}
use retro_aim_server.Wire.Codec.Shape.{Codable, Fits}
use retro_aim_server.Wire.Codec.RoundTrip.{marshal-Carried}
use retro_aim_server.Wire.Flap.{
  FlapClient, flap_frame, frame_value, send_frame, write_frame, next_sequence, receive_flap,
}

flap_frame-Codable : Codable flap_frame no_tag
unfolding is_struct
flap_frame-Codable = (
  refl,
  refl,
  refl,
  (refl, refl, (refl, refl, (refl, refl, ((refl, refl, refl, refl), refl, tt)))),
)

pub length-flat_bytes :
    (n : ℕ) (payload : Bytes)
    → length (flat_bytes (put_uint big_endian n) payload) ≡ n * length payload
unfolding flat_bytes
length-flat_bytes n [] = omega arith
length-flat_bytes n (b ∷ payload) = omega (
  arith,
  length-append (put_uint big_endian n b) (flat_bytes (put_uint big_endian n) payload),
  length-put_uint big_endian n b,
  length-flat_bytes n payload,
)

pub payload_bytes :
    (payload : Bytes)
    → marshal_elements (uint 1) (marshal_struct (uint 1) no_tag big_endian) big_endian payload
      ≡ done (flat_bytes (put_uint big_endian 1) payload)
unfolding marshal_elements fixed_bytes
payload_bytes payload = refl

-- The frames that a client may send: a type of one byte, and a payload whose length fits 16 bits.
abbrev pub IsSendable : ℕ × Bytes → Type 0
IsSendable x = (x.0 < 256) × All IsByte x.1 × (length x.1 < 65536)

frame_value-Fits :
    (x : ℕ × Bytes) (sequence : ℕ)
    → IsSendable x
    → Fits flap_frame no_tag big_endian (frame_value x.0 sequence x.1)
frame_value-Fits (frame_type, payload) sequence (ht, hb, hl) = (
  (
    omega arith,
    (ht, (omega arith, ((hb, rw payload_bytes (omega (arith, length-flat_bytes 1 payload))), tt))),
  ),
  omega arith,
)

pub frame_bytes :
    (x : ℕ × Bytes) (sequence : ℕ)
    → IsSendable x
    → (b : Bytes) × (marshal flap_frame no_tag big_endian (frame_value x.0 sequence x.1) ≡ done b)
      × Decodes receive_flap (frame_value x.0 sequence x.1) b
unfolding receive_flap
frame_bytes x sequence h =
    let (b, w, back) =
      marshal-Carried flap_frame no_tag big_endian (frame_value x.0 sequence x.1) flap_frame-Codable
        (frame_value-Fits x sequence h) in
    (b, w, λ rest. back rest (inl refl))

-- Frames sent one after the other, every write accepted.
unfoldable pub send_all : List (ℕ × Bytes) → FlapClient → FlapClient
send_all [] f = f
send_all (x ∷ xs) f = send_all xs (send_frame true x.0 x.1 f).1

-- The frames as a receiver should see them, numbered from `n` on modulo 2 ^ 16.
unfoldable pub numbered : ℕ → List (ℕ × Bytes) → List (El flap_frame)
numbered n [] = []
numbered n (x ∷ xs) = frame_value x.0 n x.1 ∷ numbered (suc n) xs

pub length-numbered :
    (n : ℕ) (frames : List (ℕ × Bytes)) → length (numbered n frames) ≡ length frames
unfolding numbered
length-numbered n [] = refl
length-numbered n (x ∷ xs) = ap suc (length-numbered (suc n) xs)

-- The counter of a client that has sent `n` frames; what is on the wire is its low 16 bits.
counted :
    (n s frame_type : ℕ) (payload : Bytes)
    → s ≡ n % 2 ^ 32
    → frame_value frame_type s payload ≡ frame_value frame_type n payload
counted n s frame_type payload h = ap (λ k. (42, (frame_type, (k, (payload, tt))))) (omega arith)

next_counted : (n s : ℕ) → s ≡ n % 2 ^ 32 → next_sequence s ≡ suc n % 2 ^ 32
unfolding next_sequence
next_counted n s h = omega arith

sent :
    (x : ℕ × Bytes) (f : FlapClient) (b : Bytes)
    → marshal flap_frame no_tag big_endian (frame_value x.0 f.sequence x.1) ≡ done b
    → (send_frame true x.0 x.1 f).1
      ≡ record f { sequence = next_sequence f.sequence; written = f.written ++ b }
unfolding send_frame write_frame
sent x f b h = ap (λ o. (write_frame true o f).1) h

sends :
    (frames : List (ℕ × Bytes)) (n : ℕ) (f : FlapClient)
    → All IsSendable frames
    → f.sequence ≡ n % 2 ^ 32
    → (b : Bytes) × ((send_all frames f).written ≡ f.written ++ b)
      × ((send_all frames f).sequence ≡ (n + length frames) % 2 ^ 32)
      × DecodesAll receive_flap (numbered n frames) b
unfolding send_all numbered
sends [] n f h e = ([], sym (append-nil f.written), e ∙ omega arith, refl)
sends (x ∷ xs) n f (h, hs) e =
    let (head, w, d) = frame_bytes x f.sequence h in
    let (tail, ws, s, ds) =
      sends xs (suc n)
        (record f { sequence = next_sequence f.sequence; written = f.written ++ head }) hs
        (next_counted n f.sequence e) in
    (
      head ++ tail,
      rw (send_all, sent x f head w) (ws ∙ append_assoc f.written head tail),
      rw (send_all, sent x f head w) (s ∙ omega arith),
      (head, tail, refl, rw (counted n f.sequence x.0 x.1 e) at d, ds),
    )

-- A client that has counted `n` frames and sends some more, each of which is sendable and accepted,
-- has counted them all modulo 2 ^ 32, and has added bytes from which a receiver reads exactly those
-- frames, in order, numbered from `n` on modulo 2 ^ 16, and leaves what follows.
pub receive_flap-send_all :
    (frames : List (ℕ × Bytes)) (n : ℕ) (f : FlapClient)
    → All IsSendable frames
    → f.sequence ≡ n % 2 ^ 32
    → (b : Bytes) × ((send_all frames f).written ≡ f.written ++ b)
      × ((send_all frames f).sequence ≡ (n + length frames) % 2 ^ 32)
      × ((rest : Bytes)
          → read_count (length frames) receive_flap (b ++ rest) ≡ ok (numbered n frames) rest)
receive_flap-send_all frames n f h e =
    let (b, w, s, ds) = sends frames n f h e in
    (
      b,
      w,
      s,
      λ rest.
          rw (← length-numbered n frames)
            (read_count-DecodesAll receive_flap (numbered n frames) b rest ds),
    )
