-- ===== src/Wire/Flap/Snac.antt =====
-- SNAC messages in FLAP frames, wire/frames.go: what ReceiveSNAC reads of what SendSNAC wrote.
use mathlib.Core.List.{append-nil}
use retro_aim_server.Prelude.{◌≡◌, refl, sym, ap, ◌∙◌, inl, inr, true, [], ◌++◌}
use retro_aim_server.Prelude.Bytes.{Bytes, big_endian}
use retro_aim_server.Wire.Codec.Types.{Ty, El, no_tag, is_struct, Quirk}
use retro_aim_server.Wire.Codec.Marshal.{Outcome, done, failed, marshal, ◌>>=◌ as and_then}
use retro_aim_server.Wire.Codec.Unmarshal.{ok, unmarshal, within, Reader}
use retro_aim_server.Wire.Codec.Reading.{>>=-ok}
use retro_aim_server.Wire.Codec.Shape.{Codable, Fits}
use retro_aim_server.Wire.Codec.RoundTrip.{marshal-Carried}
use retro_aim_server.Wire.Flap.{
  FlapClient, flap_frame, snac_frame, frame_data, frame_value, write_frame, send_frame, send_body,
  snac_payload, send_snac, next_sequence, receive_flap, read_payload, read_snac, receive_snac,
}
use retro_aim_server.Wire.Flap.Stream.{IsSendable, frame_bytes}

snac_frame-Codable : Codable snac_frame no_tag
unfolding is_struct
snac_frame-Codable = (refl, refl, refl, (refl, refl, (refl, refl, (refl, refl, (refl, refl, tt)))))

unfoldable pub done_bytes : Outcome → Bytes
done_bytes (done b) = b
done_bytes (failed e) = []

within-ok :
    {A : Type 0} (b rest : Bytes) (inner : Reader A) {a : A} {s : Bytes}
    → inner b ≡ ok a s
    → within b inner rest ≡ ok a rest
unfolding within
within-ok b rest inner e = rw (within, e) refl

and_then_done : (m : Outcome) (f : Bytes → Outcome) {b : Bytes} → m ≡ done b → and_then m f ≡ f b
and_then_done m f e = rw e

same_payload :
    (t : Ty) (frame : El snac_frame) (body : El t) (head tail payload : Bytes)
    → marshal snac_frame no_tag big_endian frame ≡ done head
    → marshal t no_tag big_endian body ≡ done tail
    → snac_payload frame t body ≡ done payload
    → head ++ tail ≡ payload
unfolding snac_payload done_bytes
same_payload t frame body head tail payload hw tw e = ap done_bytes (
    sym (
      and_then_done (marshal snac_frame no_tag big_endian frame) _ hw
      ∙ and_then_done (marshal t no_tag big_endian body) _ tw)
    ∙ e)

send_snac-payload :
    (t : Ty) (frame : El snac_frame) (body : El t) (f : FlapClient)
    → send_snac true frame t body f ≡ send_body true frame_data (snac_payload frame t body) f
unfolding send_snac
send_snac-payload t frame body f = refl

send_body-frame :
    (payload : Bytes) (f : FlapClient)
    → send_body true frame_data (done payload) f
      ≡ write_frame true
          (marshal flap_frame no_tag big_endian (frame_value frame_data f.sequence payload))
          f
unfolding send_body send_frame
send_body-frame payload f = refl

write_frame-done :
    (b : Bytes) (f : FlapClient)
    → write_frame true (done b) f
      ≡ (true, record f { sequence = next_sequence f.sequence; written = f.written ++ b })
unfolding write_frame
write_frame-done b f = refl

sent_snac :
    (t : Ty) (frame : El snac_frame) (body : El t) (payload b : Bytes) (f : FlapClient)
    → snac_payload frame t body ≡ done payload
    → marshal flap_frame no_tag big_endian (frame_value frame_data f.sequence payload) ≡ done b
    → send_snac true frame t body f
      ≡ (true, record f { sequence = next_sequence f.sequence; written = f.written ++ b })
sent_snac t frame body payload b f e w =
    send_snac-payload t frame body f
    ∙ ap (λ o. send_body true frame_data o f) e
    ∙ send_body-frame payload f
    ∙ ap (λ o. write_frame true o f) w
    ∙ write_frame-done b f

read_both :
    (t : Ty) (frame : El snac_frame) (body : El t) (head tail : Bytes)
    → unmarshal snac_frame no_tag big_endian Quirk.none (head ++ tail) ≡ ok frame tail
    → unmarshal t no_tag big_endian Quirk.none tail ≡ ok body []
    → read_snac t (head ++ tail) ≡ ok (frame, body) []
unfolding read_snac
read_both t frame body head tail h k =
    >>=-ok (unmarshal snac_frame no_tag big_endian Quirk.none) _ (head ++ tail) h
    ∙ >>=-ok (unmarshal t no_tag big_endian Quirk.none) _ tail k

-- A SNAC whose header and body fit their types, and whose bytes a frame can hold, is sent in one
-- accepted frame, and ReceiveSNAC, given the body's type, reads the header and the body back from the
-- bytes written and leaves what follows them.
pub receive_snac-send_snac :
    (t : Ty) (frame : El snac_frame) (body : El t) (payload : Bytes) (f : FlapClient)
    → Codable t no_tag
    → Fits t no_tag big_endian body
    → Fits snac_frame no_tag big_endian frame
    → snac_payload frame t body ≡ done payload
    → IsSendable (frame_data, payload)
    → (b : Bytes) × (send_snac true frame t body f
        ≡ (true, record f { sequence = next_sequence f.sequence; written = f.written ++ b }))
      × ((rest : Bytes) → receive_snac t (b ++ rest) ≡ ok (frame, body) rest)
unfolding receive_snac read_payload
receive_snac-send_snac t frame body payload f c fit fit_frame e sendable =
    let (head, hw, hback) =
      marshal-Carried snac_frame no_tag big_endian frame snac_frame-Codable fit_frame in
    let (tail, tw, tback) = marshal-Carried t no_tag big_endian body c fit in
    let (b, w, d) = frame_bytes (frame_data, payload) f.sequence sendable in
    let same : head ++ tail ≡ payload = same_payload t frame body head tail payload hw tw e in
    let inner =
      read_both t frame body head tail (hback tail (inl refl))
        (rw (append-nil tail) at (tback [] (inr refl))) in
    (
      b,
      sent_snac t frame body payload b f e w,
      λ rest.
          >>=-ok receive_flap _ (b ++ rest) (d rest)
          ∙ within-ok payload rest (read_snac t) (rw same at inner),
    )
