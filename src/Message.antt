-- ===== src/Message.antt =====
-- src/comm.h: a message in a buffer; and what the code uses of the MAVLink C library.
use mavlink_router.Prelude.{ℕ, Bool, Option, List, get_or}

-- `struct buffer` with its `curr`. A target of -1 is `none`; `payload` is an offset into `data`.
pub record Msg : Type 0 where
  pub bytes : List ℕ
  pub msg_id : ℕ
  pub target_sysid : Option ℕ
  pub target_compid : Option ℕ
  pub src_sysid : ℕ
  pub src_compid : ℕ
  pub payload_len : ℕ
  pub payload_ofs : ℕ

-- `mavlink_msg_entry_t`; the two flags of it that the code tests are Booleans.
pub record MsgEntry : Type 0 where
  pub msgid : ℕ
  pub crc_extra : ℕ
  pub max_msg_len : ℕ
  pub have_target_system : Bool
  pub have_target_component : Bool
  pub target_system_ofs : ℕ
  pub target_component_ofs : ℕ

-- The constants and functions of the MAVLink library, which is not part of the repository.
pub record Mavlink : Type 0 where
  pub stx : ℕ
  pub stx_mavlink1 : ℕ
  pub iflag_signed : ℕ
  pub signature_block_len : ℕ
  pub max_packet_len : ℕ
  pub get_msg_entry : ℕ → Option MsgEntry
  pub crc_calculate : List ℕ → ℕ
  pub crc_accumulate : ℕ → ℕ → ℕ

-- `data[i]`, for an index inside the buffer.
abbrev pub byte : List ℕ → ℕ → ℕ
byte bytes i = get_or bytes i 0
