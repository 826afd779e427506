-- ===== src/State/Session.antt =====
-- state/session.go: SessionInstance, one connection of an account, and its own operations. An
-- instant is a number of nanoseconds from a fixed origin, and `none` is the zero time, which lies
-- before all others. `stopCh` is closed in the same critical section that sets `closed`, so the
-- flag stands for both. The payload of a SNAC message is a type of the caller's.
pub mod Lifecycle
pub mod Entries
pub mod Interleaving
pub mod Numbering
pub mod Invariant
pub mod Once
pub mod Ordered
pub mod Relay
mod Tests
pub mod Closing
pub mod Teardown
pub mod Status
pub mod NotifyTxn
use Prim.Native.Nat.{bit_and, bit_or}
use retro_aim_server.Prelude.{
  ℕ, ◌-◌, Bool, true, false, not, ◌&&◌, ◌||◌, Option, none, some, List, [], ◌∷◌, ◌++◌, length,
  if◌then◌else◌, ltb, ◌==◌,
}
use retro_aim_server.Prelude.Bytes.{Bytes}
use retro_aim_server.Prelude.Int.{ℤ, pos, ◌-ℤ◌}

pub record SessionInstance (M : Type 0) : Type 0 where
  pub instance_num : ℕ
  pub signon_complete : Bool
  pub closed : Bool
  pub msg_ch : List M
  pub idle : Bool
  pub idle_time : Option ℤ
  pub away_msg : Bytes
  pub away_time : Option ℤ
  pub user_info_bitmask : ℕ
  pub user_status_bitmask : ℕ
  pub contacts_init : Bool

-- OServiceUserFlag… and OServiceUserStatus….
abbrev pub flag_oscar_free : ℕ
flag_oscar_free = 0x0010

abbrev pub flag_unavailable : ℕ
flag_unavailable = 0x0020

abbrev pub status_away : ℕ
status_away = 0x0001

abbrev pub status_invisible : ℕ
status_invisible = 0x0100

-- The capacity of `msgCh`.
abbrev pub msg_ch_size : ℕ
msg_ch_size = 1000

pub data SessSendStatus : Type 0 where
  sess_send_ok sess_send_closed sess_queue_full : SessSendStatus

module _ {M : Type 0} where
  -- What AddInstance fills in.
  unfoldable pub new_instance : ℕ → SessionInstance M
  new_instance num = record {
    instance_num = num;
    signon_complete = false;
    closed = false;
    msg_ch = [];
    idle = false;
    idle_time = none;
    away_msg = [];
    away_time = none;
    user_info_bitmask = flag_oscar_free;
    user_status_bitmask = 0;
    contacts_init = false;
  }

  unfoldable pub is_away : SessionInstance M → Bool
  is_away i =
      not (bit_and i.user_info_bitmask flag_unavailable == 0)
      || not (bit_and i.user_status_bitmask status_away == 0)

  unfoldable pub is_invisible : SessionInstance M → Bool
  is_invisible i = bit_and i.user_status_bitmask status_invisible == status_invisible

  unfoldable pub active : SessionInstance M → Bool
  unfolding is_away
  active i = not i.closed && i.signon_complete && not i.idle && not (is_away i)

  unfoldable pub live : SessionInstance M → Bool
  live i = not i.closed && i.signon_complete

  unfoldable pub set_idle : ℤ → ℤ → SessionInstance M → SessionInstance M
  set_idle now dur i = record i { idle = true; idle_time = some (now -ℤ dur) }

  unfoldable pub unset_idle : SessionInstance M → SessionInstance M
  unset_idle i = record i { idle = false }

  unfoldable pub set_signon_complete : SessionInstance M → SessionInstance M
  set_signon_complete i = record i { signon_complete = true }

  unfoldable pub set_user_info_flag : ℤ → ℕ → SessionInstance M → SessionInstance M
  set_user_info_flag now flag i = record i {
    user_info_bitmask = bit_or i.user_info_bitmask flag;
    away_time = if flag == flag_unavailable then some now else i.away_time;
  }

  -- `a &^ b` clears the bits of `b`, those of `a & b`, in `a`.
  unfoldable pub clear_user_info_flag : ℕ → SessionInstance M → SessionInstance M
  clear_user_info_flag flag i = record i {
    user_info_bitmask = i.user_info_bitmask - bit_and i.user_info_bitmask flag;
  }

  unfoldable pub set_user_status_bitmask : ℤ → ℕ → SessionInstance M → SessionInstance M
  unfolding is_away
  set_user_status_bitmask now bitmask i = record i {
    user_status_bitmask = bitmask;
    away_time =
        if (bit_and bitmask status_away == status_away) && not (is_away i)
        then some now
        else i.away_time;
  }

  -- RelayMessageToInstance: a full queue refuses, it never blocks.
  unfoldable pub relay_message_to_instance :
      M → SessionInstance M → SessSendStatus × SessionInstance M
  relay_message_to_instance msg i =
      if i.closed
      then (SessSendStatus.sess_send_closed, i)
      else if ltb (length i.msg_ch) msg_ch_size
      then (SessSendStatus.sess_send_ok, record i { msg_ch = i.msg_ch ++ msg ∷ [] })
      else (SessSendStatus.sess_queue_full, i)
