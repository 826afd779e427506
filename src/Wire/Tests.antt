-- ===== src/Wire/Tests.antt =====
-- Concrete inputs for the theorems on the wire protocol, and runs of the code.
use retro_aim_server.Prelude.{
  ℕ, ◌+◌, ◌%◌, ◌^◌, ◌≡◌, refl, inr, false, none, some, Option, Bool, List, [], ◌∷◌, ◌++◌, length,
  arith, keep, any, not, ◌==◌,
}
use retro_aim_server.Prelude.Bytes.{Bytes, big_endian, put_uint, uint}
use retro_aim_server.Prelude.Int.{pos}
use retro_aim_server.Wire.Codec.Types.{El, no_tag, Quirk, is_struct}
use retro_aim_server.Wire.Codec.Marshal.{done, marshal, flat_bytes}
use retro_aim_server.Wire.Codec.Unmarshal.{ok, unmarshal, read_count}
use retro_aim_server.Wire.Codec.RoundTrip.{unmarshal-marshal}
use retro_aim_server.Wire.BuddyPrefs.{set_buddy_pref, buddy_pref, bytes_or_nil}
use retro_aim_server.Wire.BuddyPrefs.Setting.{buddy_pref-set_buddy_pref}
use retro_aim_server.Wire.Tlv.{Tlv, new_tlv, new_tlv_bytes, bytes, set_tlv, uint16_slice}
use retro_aim_server.Wire.Tlv.Laws.{bytes-set_tlv, uint16_slice-set_tlv}
use retro_aim_server.Wire.Flap.{FlapClient, new_flap_client, tlv_rest_block, receive_flap}
use retro_aim_server.Wire.Flap.Stream.{send_all, numbered, receive_flap-send_all}
use retro_aim_server.Wire.Flap.{snac_frame, send_snac, receive_snac, next_sequence, snac_payload}
use retro_aim_server.Wire.Flap.Snac.{receive_snac-send_snac}
use retro_aim_server.Wire.Codec.Shape.{Codable}
use retro_aim_server.Prelude.{true}
use retro_aim_server.Wire.RateLimit.{
  RateClass, RateLimitStatus, rate_class, next_average, check_rate_limit,
  default_rate_limit_classes, get_class,
}
use retro_aim_server.Wire.RateLimit.Table.{rate_class_lookup}
use retro_aim_server.Wire.RateLimit.Average.{next_average-mean, check_rate_limit_long_gap}
use retro_aim_server.Wire.RateLimit.Classes.{rate_class_lookup-get_class}
use retro_aim_server.Wire.FeedbagItem.{
  FeedbagItem, order_members, append_order_members, remove_order_members,
}
use retro_aim_server.Wire.FeedbagItem.Order.{
  AreIds, order_members-append_order_members, order_members-remove_order_members,
}

abbrev two_tlvs : El tlv_rest_block
two_tlvs = (((1, ((65 ∷ 66 ∷ []), tt)) ∷ (2, ([], tt)) ∷ []), tt)

tlv_rest_block-Codable : Codable tlv_rest_block no_tag
unfolding is_struct
tlv_rest_block-Codable = (
  refl,
  refl,
  refl,
  (
    (refl, refl, refl, (refl, refl, refl, (refl, refl, ((refl, refl, refl, refl), refl, tt)))),
    refl,
    tt,
  ),
)

-- The two TLVs in a block that runs to the end of its buffer.
unmarshal-marshal_example :
    (b : Bytes) × (marshal tlv_rest_block no_tag big_endian two_tlvs ≡ done b)
    × (unmarshal tlv_rest_block no_tag big_endian Quirk.none (b ++ []) ≡ ok two_tlvs [])
unfolding is_struct marshal put_uint
unmarshal-marshal_example =
    unmarshal-marshal tlv_rest_block no_tag big_endian two_tlvs [] tlv_rest_block-Codable
      (omega arith) (inr refl)

abbrev two_frames : List (ℕ × Bytes)
two_frames = (2, 7 ∷ 8 ∷ []) ∷ (5, []) ∷ []

abbrev last_client : FlapClient
last_client = new_flap_client 4294967295

-- The counter wraps between the two frames.
receive_flap-send_all_example :
    (b : Bytes) × ((send_all two_frames last_client).written ≡ [] ++ b)
    × ((send_all two_frames last_client).sequence ≡ (4294967295 + length two_frames) % 2 ^ 32)
    × ((rest : Bytes)
        → read_count (length two_frames) receive_flap (b ++ rest)
          ≡ ok (numbered 4294967295 two_frames) rest)
receive_flap-send_all_example =
    receive_flap-send_all two_frames 4294967295 last_client (omega arith) (omega arith)

abbrev two_attributes : List Tlv
two_attributes = record { tag = 1; value = 9 ∷ [] } ∷ record { tag = 2; value = [] } ∷ []

abbrev new_attribute : Tlv
new_attribute = record { tag = 2; value = 3 ∷ [] }

bytes-set_tlv_example : bytes 2 (set_tlv new_attribute two_attributes) ≡ some (3 ∷ [])
bytes-set_tlv_example = bytes-set_tlv 2 new_attribute two_attributes

abbrev order_attribute : Tlv
order_attribute = record { tag = 200; value = flat_bytes (put_uint big_endian 2) (4 ∷ 1000 ∷ []) }

uint16_slice-set_tlv_example :
    uint16_slice 200 (set_tlv order_attribute two_attributes) ≡ some (4 ∷ 1000 ∷ [])
unfolding marshal new_tlv
uint16_slice-set_tlv_example =
    uint16_slice-set_tlv 200 (4 ∷ 1000 ∷ []) order_attribute two_attributes (omega arith) refl

abbrev a_group : FeedbagItem
a_group = record {
  name = 71 ∷ [];
  group_id = 3;
  item_id = 0;
  class_id = 1;
  tlv_list = order_attribute ∷ [];
}

a_group_order : order_members a_group ≡ 4 ∷ 1000 ∷ []
unfolding order_members uint16_slice flat_bytes put_uint uint
a_group_order = refl

a_group-AreIds : AreIds (order_members a_group)
a_group-AreIds = rw a_group_order (omega arith)

order_members-append_order_members_example :
    order_members (append_order_members (7 ∷ []) a_group) ≡ order_members a_group ++ 7 ∷ []
order_members-append_order_members_example =
    order_members-append_order_members (7 ∷ []) a_group (omega arith) a_group-AreIds

order_members-remove_order_members_example :
    order_members (remove_order_members (4 ∷ []) a_group)
    ≡ keep (λ id. not (any (λ member. member == id) (4 ∷ []))) (order_members a_group)
order_members-remove_order_members_example =
    order_members-remove_order_members (4 ∷ []) a_group a_group-AreIds

next_average-mean_example :
    next_average (rate_class 1 80 2500 2000 1500 800 6000) (pos 6000) (pos 100) ≡ pos 5926
next_average-mean_example =
    next_average-mean (rate_class 1 80 2500 2000 1500 800 6000) 79 6000 6000 100 refl refl
      (omega arith) (omega arith)

check_rate_limit_long_gap_example :
    (check_rate_limit (pos 2147483648) (rate_class 1 80 2500 2000 1500 800 6000) (pos 6000) false).0
    ≡ RateLimitStatus.disconnect
check_rate_limit_long_gap_example =
    check_rate_limit_long_gap (rate_class 1 80 2500 2000 1500 800 6000) 79 6000 6000 2147483648 799
      false refl refl refl (omega arith) (omega arith) (omega arith)

rate_class_lookup-get_class_example :
    (c : RateClass) × (get_class default_rate_limit_classes 3 ≡ some c) × (c.id ≡ 3)
unfolding rate_class_lookup
rate_class_lookup-get_class_example = rate_class_lookup-get_class 4 6 3 refl

abbrev a_snac : El snac_frame
a_snac = (1, (2, (0, (7, tt))))

-- A SNAC with a body of two TLVs.
receive_snac-send_snac_example :
    (b : Bytes) × (send_snac true a_snac tlv_rest_block two_tlvs last_client ≡ (
      true,
      record last_client {
        sequence = next_sequence last_client.sequence;
        written = last_client.written ++ b;
      },
    ))
    × ((rest : Bytes) → receive_snac tlv_rest_block (b ++ rest) ≡ ok (a_snac, two_tlvs) rest)
unfolding is_struct marshal put_uint snac_payload
receive_snac-send_snac_example =
    receive_snac-send_snac tlv_rest_block a_snac two_tlvs
      (0 ∷ 1 ∷ 0 ∷ 2 ∷ 0 ∷ 0 ∷ 0 ∷ 0 ∷ 0 ∷ 7 ∷ 0 ∷ 1 ∷ 0 ∷ 2 ∷ 65 ∷ 66 ∷ 0 ∷ 2 ∷ 0 ∷ 0 ∷ [])
      last_client tlv_rest_block-Codable (omega arith) (omega arith) refl (omega arith)

-- Preference 0x16 of an empty list, and 0x4B of one that has the second bitmask already.
buddy_pref-set_buddy_pref_example :
    (list' : List Tlv) × (set_buddy_pref [] 0x16 false ≡ some list')
    × (buddy_pref list' 0x16 ≡ false)
unfolding bytes bytes_or_nil
buddy_pref-set_buddy_pref_example = buddy_pref-set_buddy_pref 0x16 false [] (tt, tt)

-- Preferences 32 and 33 share a bit: to clear one clears the other.
abbrev then_cleared : Option (List Tlv) → Option (List Tlv)
then_cleared none = none
then_cleared (some l) = set_buddy_pref l 0x21 false

abbrev reads_pref : Option (List Tlv) → Option Bool
reads_pref none = none
reads_pref (some l) = some (buddy_pref l 0x20)

cleared_together : reads_pref (then_cleared (set_buddy_pref [] 0x20 true)) ≡ some false
unfolding set_buddy_pref buddy_pref bytes set_tlv new_tlv_bytes
cleared_together = refl
