-- ===== src/Wire/BuddyPrefs/Setting.antt =====
-- wire/buddy_prefs.go: what SetBuddyPref stores is what BuddyPref reads.
use mathlib.Core.Path.{ap₂}
use retro_aim_server.Prelude.{
  ℕ, zero, suc, ◌-◌, ◌/◌, ◌%◌, ◌^◌, ◌<◌, ◌≤◌, ◌≡◌, ◌≢◌, refl, ap, ◌∙◌, Bool, true, false, not, ◌&&◌,
  Option, some, List, [], ◌∷◌, All, All-append, length, get_elem?, set, replicate, length-append,
  length-replicate, length-set, get_elem?-set_self, if◌then◌else◌, ltb, leb, ◌==◌, ==_refl, arith,
}
use retro_aim_server.Prelude.Bytes.{Bytes, IsByte}
use retro_aim_server.Prelude.Maps.{lookup}
use retro_aim_server.Wire.Tlv.{Tlv, new_tlv_bytes, set_tlv, bytes}
use retro_aim_server.Wire.Tlv.Laws.{bytes-set_tlv}
use retro_aim_server.Wire.BuddyPrefs.{
  buddy_pref_tags, offset, buddy_pref_bit, default_of, read_bit, read_at, read_masks,
  read_buddy_pref, buddy_pref, buddy_pref_defaults, left_pad, right_pad, bytes_or_nil, pref_length,
  pad, update_byte, write_bit, store_masks, update_found, set_masks, set_buddy_pref,
}
use retro_aim_server.Wire.BuddyPrefs.Masks.{is_set-write_bit}

-- The byte and the bit of a preference in a bitmask of `len` bytes.
index_of : ℕ → ℕ → ℕ
index_of n len = if ltb n 32 then len - 1 - n / 8 else offset n / 8

bit_of : ℕ → ℕ
bit_of n = if ltb n 32 then n % 8 else 7 - offset n % 8

bit_of-lt : (n : ℕ) → bit_of n < 8
unfolding bit_of
bit_of-lt n = ground arith

shifted : (e : ℕ) → e < 8 → 0x80 / 2 ^ e ≡ 2 ^ (7 - e)
shifted zero h = refl
shifted (suc zero) h = refl
shifted (suc (suc zero)) h = refl
shifted (suc (suc (suc zero))) h = refl
shifted (suc (suc (suc (suc zero)))) h = refl
shifted (suc (suc (suc (suc (suc zero))))) h = refl
shifted (suc (suc (suc (suc (suc (suc zero)))))) h = refl
shifted (suc (suc (suc (suc (suc (suc (suc zero))))))) h = refl
shifted (suc (suc (suc (suc (suc (suc (suc (suc e)))))))) h = absurd (omega arith)

buddy_pref_bit_lem :
    (n len : ℕ)
    → (ltb n 32 && not (ltb (n / 8) len)) ≡ false
    → buddy_pref_bit n len ≡ (some (index_of n len), 2 ^ bit_of n)
unfolding buddy_pref_bit index_of bit_of
buddy_pref_bit_lem n len h = ground (arith, shifted (offset n % 8))

pref_length_fits :
    (n : ℕ) (valid value : Bytes)
    → ((ltb n 32 && not (ltb (n / 8) (pref_length n valid value))) ≡ false)
      × (index_of n (pref_length n valid value) < pref_length n valid value)
      × (length valid ≤ pref_length n valid value)
      × (length value ≤ pref_length n valid value)
unfolding pref_length index_of
pref_length_fits n valid value = ground arith

length-pad : (n : ℕ) (b : Bytes) (len : ℕ) → length b ≤ len → length (pad n b len) ≡ len
unfolding pad left_pad right_pad
length-pad n b len h = ground (
  arith,
  length-append (replicate (len - length b) 0) b,
  length-append b (replicate (len - length b) 0),
  length-replicate {A = ℕ} (len - length b) 0,
)

replicate-bytes : (k : ℕ) → All IsByte (replicate k 0)
replicate-bytes zero = tt
replicate-bytes (suc k) = (omega arith, replicate-bytes k)

All-if {ℓ} :
    {A : Type ℓ} (P : A → Type 0) (b : Bool) (xs ys : List A)
    → All P xs
    → All P ys
    → All P (if b then xs else ys)
All-if P true xs ys h k = h
All-if P false xs ys h k = k

pad-bytes : (n : ℕ) (b : Bytes) (len : ℕ) → All IsByte b → All IsByte (pad n b len)
unfolding pad left_pad right_pad
pad-bytes n b len h =
    let zeros = replicate-bytes (len - length b) in
    All-if IsByte (ltb n 32) _ _
      (All-if IsByte (leb len (length b)) b _ h (All-append IsByte _ b zeros h))
      (All-if IsByte (leb len (length b)) b _ h (All-append IsByte b _ h zeros))

get_elem?-some :
    (b : Bytes) (i : ℕ)
    → i < length b
    → All IsByte b
    → (x : ℕ) × (get_elem? b i ≡ some x) × (x < 256)
get_elem?-some [] i h all = absurd (omega arith)
get_elem?-some (x ∷ b) zero h (byte, rest) = (x, refl, byte)
get_elem?-some (x ∷ b) (suc i) h (byte, rest) = get_elem?-some b i (omega arith) rest

-- A bit of a bitmask is written, and read back.
write_mask :
    (f : ℕ → ℕ) (b : Bytes) (i : ℕ)
    → i < length b
    → All IsByte b
    → (x : ℕ) × (x < 256)
      × (update_byte f b (some i) ≡ some (set b i (f x)))
      × (get_elem? (set b i (f x)) i ≡ some (f x))
unfolding update_byte
write_mask f b i h all =
    let (x, e, byte) = get_elem?-some b i h all in
    (x, byte, ap (update_found f b i) e, get_elem?-set_self b i (f x) x e)

read_masks_set :
    (n len : ℕ) (valid value : Bytes) (x y : ℕ) (v : Bool)
    → length valid ≡ len
    → (ltb n 32 && not (ltb (n / 8) len)) ≡ false
    → x < 256
    → y < 256
    → get_elem? valid (index_of n len) ≡ some (write_bit true (2 ^ bit_of n) x)
    → get_elem? value (index_of n len) ≡ some (write_bit v (2 ^ bit_of n) y)
    → read_masks n (some valid) (some value) ≡ (true, v)
unfolding read_masks read_at read_bit
read_masks_set n len valid value x y v l h hx hy at_valid at_value =
    let k = bit_of n in
    let here = ap (λ m. buddy_pref_bit n m) l ∙ buddy_pref_bit_lem n len h in
    ap (λ p. read_at p valid value) here
    ∙ ap (λ o. read_bit (2 ^ k) o (get_elem? value (index_of n len))) at_valid
    ∙ ap (λ o. read_bit (2 ^ k) (some (write_bit true (2 ^ k) x)) o) at_value
    ∙ ap₂ (λ (a b : Bool). (a, b))
        (is_set-write_bit k k true x (bit_of-lt n) (bit_of-lt n) hx ∙ rw (==_refl k))
        (is_set-write_bit k k v y (bit_of-lt n) (bit_of-lt n) hy ∙ rw (==_refl k))

tags_apart : (n : ℕ) → (buddy_pref_tags n).0 ≢ (buddy_pref_tags n).1
unfolding buddy_pref_tags
tags_apart n e = ground arith

bytes_stored :
    (t u : ℕ) (list : List Tlv) (valid value : Bytes)
    → t ≢ u
    → let stored = set_tlv (new_tlv_bytes u value) (set_tlv (new_tlv_bytes t valid) list) in
      (bytes t stored ≡ some valid) × (bytes u stored ≡ some value)
unfolding new_tlv_bytes
bytes_stored t u list valid value d =
    let one : Tlv = record { tag = t; value = valid } in
    let two : Tlv = record { tag = u; value = value } in
    (
      bytes-set_tlv t two (set_tlv one list) ∙ ground (arith, bytes-set_tlv t one list),
      bytes-set_tlv u two (set_tlv one list) ∙ rw (==_refl u),
    )

set_masks_lem :
    (n : ℕ) (v : Bool) (list : List Tlv) (valid value : Bytes)
    → All IsByte valid
    → All IsByte value
    → (list' : List Tlv) × (set_masks n v list valid value ≡ some list')
      × (read_buddy_pref list' n ≡ (true, v))
unfolding set_masks read_buddy_pref store_masks
set_masks_lem n v list valid value hv hw =
    let len = pref_length n valid value in
    let i = index_of n len in
    let k = bit_of n in
    let (there, inside, fits_v, fits_w) = pref_length_fits n valid value in
    let vs = pad n valid len in
    let ws = pad n value len in
    let length_v = length-pad n valid len fits_v in
    let length_w = length-pad n value len fits_w in
    let (x, hx, stored_x, read_x) =
      write_mask (write_bit true (2 ^ k)) vs i (rw length_v inside) (pad-bytes n valid len hv) in
    let (y, hy, stored_y, read_y) =
      write_mask (write_bit v (2 ^ k)) ws i (rw length_w inside) (pad-bytes n value len hw) in
    let vs' = set vs i (write_bit true (2 ^ k) x) in
    let ws' = set ws i (write_bit v (2 ^ k) y) in
    let (t, u) = buddy_pref_tags n in
    let list' = set_tlv (new_tlv_bytes u ws') (set_tlv (new_tlv_bytes t vs') list) in
    let (got_v, got_w) = bytes_stored t u list vs' ws' (tags_apart n) in
    (
      list',
      ap
            (λ (p : Option ℕ × ℕ).
              store_masks (t, u) list (update_byte (write_bit true p.1) vs p.0)
                (update_byte (write_bit v p.1) ws p.0))
            (buddy_pref_bit_lem n len there)
          ∙ ap (λ o. store_masks (t, u) list o (update_byte (write_bit v (2 ^ k)) ws (some i)))
              stored_x
          ∙ ap (λ o. store_masks (t, u) list (some vs') o) stored_y,
      ap (λ o. read_masks n o (bytes u list')) got_v
          ∙ ap (λ o. read_masks n (some vs') o) got_w
          ∙ read_masks_set n len vs' ws' x y v (length-set vs i _ ∙ length_v) there hx hy read_x
              read_y,
    )

-- The values of a preference's TLVs are bytes.
abbrev pub HasBytes : ℕ → List Tlv → Type 0
HasBytes n list =
    All IsByte (bytes_or_nil (bytes (buddy_pref_tags n).0 list))
    × All IsByte (bytes_or_nil (bytes (buddy_pref_tags n).1 list))

-- SetBuddyPref never indexes out of range, and of the list that it gives BuddyPref reads the value
-- that was set, whatever bitmasks the list held before.
pub buddy_pref-set_buddy_pref :
    (n : ℕ) (v : Bool) (list : List Tlv)
    → HasBytes n list
    → (list' : List Tlv) × (set_buddy_pref list n v ≡ some list') × (buddy_pref list' n ≡ v)
unfolding set_buddy_pref buddy_pref
buddy_pref-set_buddy_pref n v list (hv, hw) =
    let (list', stored, got) = set_masks_lem n v list _ _ hv hw in
    (
      list',
      stored,
      ap (λ (r : Bool × Bool). if r.0 then r.1 else default_of (lookup ◌==◌ n buddy_pref_defaults))
          got,
    )
