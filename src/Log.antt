-- ===== src/Log.antt =====
-- src/logendpoint.cpp: the part that the endpoints that write logs share. What opening the file and adding
-- the timers gives is an input.
pub mod Invariant
pub mod Arming
pub mod Deletion
use mavlink_router.Prelude.{
  ℕ, ◌+◌, ◌-◌, ◌%◌, ◌^◌, Bool, true, false, ◌&&◌, ◌||◌, not, Option, none, some, List, [], ◌∷◌, ltb,
  leb, ◌==◌, if◌then◌else◌, is_some, length,
}
use mavlink_router.Os.{Errno, einval, Ret, count, failed, is_zero}
use mavlink_router.Message.{Msg}
use mavlink_router.Text.{Bytes, strncaseeq, memcaseeq}
use mavlink_router.Conf.Values.{c_string, Strtol, safe_atoi}

pub data LogMode : Type 0 where
  always while_armed disabled : LogMode

-- `LogEndpoint`; of a timer only whether it is there. The system is `none` for -1, and so is the file.
pub record LogEndpoint : Type 0 where
  pub log_mode : LogMode
  pub target_system_id : Option ℕ
  pub file : Option ℕ
  pub logging_start : Bool
  pub fsync : Bool
  pub alive : Bool
  pub timeout_write_total : ℕ
  pub write_total : ℕ
  pub write_bytes : ℕ

-- What `_get_file` and the two calls of `add_timeout` give.
pub record Opening : Type 0 where
  pub file : Option ℕ
  pub logging_start : Bool
  pub fsync : Bool

-- The two timers of `LogEndpoint::start`, once the file is open.
unfoldable pub add_timers : Opening → ℕ → LogEndpoint → Bool × LogEndpoint
add_timers o fd e =
    if not o.logging_start
    then (false, record e { file = none; logging_start = false })
    else if not o.fsync
    then (false, record e { file = none; logging_start = false; fsync = false })
    else (true, record e { file = some fd; logging_start = true; fsync = true })

-- `LogEndpoint::start`
unfoldable pub start : Opening → LogEndpoint → Bool × LogEndpoint
start o e = elim e.file [
  | some fd ↦ (false, e)
  | none ↦ elim o.file [ none ↦ (false, record e { file = none }) | some fd ↦ add_timers o fd e ]
]

-- `LogEndpoint::stop`
unfoldable pub stop : LogEndpoint → LogEndpoint
stop e = record e { file = none; logging_start = false; fsync = false; alive = false }

-- `_remove_logging_start_timeout`, and then `_start_alive_timeout`, where `added` says whether there is
-- a timer.
unfoldable pub logging_started : Bool → LogEndpoint → LogEndpoint
logging_started added e = record e { logging_start = false; alive = added }

-- The first lines of `write_msg` of a log: the system of the first autopilot heard is the one to log.
unfoldable pub set_target : ℕ → ℕ → Msg → LogEndpoint → LogEndpoint
set_target heartbeat autopilot m e = elim e.target_system_id [
  | some sysid ↦ e
  | none ↦
      if m.msg_id == heartbeat && m.src_compid == autopilot
      then record e { target_system_id = some m.src_sysid }
      else e
]

-- What a log consists of besides, with its own `start` and `stop`.
pub record Backend (S : Type 0) : Type 0 where
  pub log : S → LogEndpoint
  pub with_log : LogEndpoint → S → S
  pub start_log : S → Bool × S
  pub stop_log : S → S

-- `start()`, and the mode `disabled` if it fails.
unfoldable pub try_start : {S : Type 0} → Backend S → S → S
try_start b s =
    let (started, t) = b.start_log s in
    if started then t else b.with_log (record (b.log t) { log_mode = disabled }) t

-- The mode `while_armed`, at a heartbeat with this flag.
unfoldable pub follow_arming : {S : Type 0} → Backend S → Bool → S → S
unfolding try_start
follow_arming b armed s =
    if not (is_some (b.log s).file) && armed
    then try_start b s
    else if is_some (b.log s).file && not armed
    then b.stop_log s
    else s

-- What is to be done in a mode; the first flag says whether the message is a heartbeat of the vehicle.
unfoldable pub follow_mode : {S : Type 0} → Backend S → Bool → Bool → LogMode → S → S
unfolding follow_arming try_start
follow_mode b beats armed always s = if is_some (b.log s).file then s else try_start b s
follow_mode b beats armed while_armed s = if beats then follow_arming b armed s else s
follow_mode b beats armed disabled s = s

-- `_handle_auto_start_stop`; `armed` is the flag in the heartbeat.
unfoldable pub handle_auto_start_stop : {S : Type 0} → Backend S → ℕ → ℕ → Msg → Bool → S → S
unfolding follow_mode
handle_auto_start_stop b heartbeat autopilot m armed s = elim (b.log s).target_system_id [
  | none ↦ s
  | some target ↦
      let beats = m.msg_id == heartbeat && m.src_sysid == target && m.src_compid == autopilot in
      follow_mode b beats armed (b.log s).log_mode s
]

-- `_alive_timeout`
unfoldable pub alive_timeout : {S : Type 0} → Backend S → S → S
alive_timeout b s =
    let t =
      if (b.log s).timeout_write_total == (b.log s).write_total
      then (b.start_log (b.stop_log s)).1
      else s in
    b.with_log (record (b.log t) { timeout_write_total = (b.log t).write_total }) t

-- The statistics at the end of `write_msg` of a log.
unfoldable pub count_write : ℕ → LogEndpoint → LogEndpoint
count_write n e = record e {
  write_total = (e.write_total + 1) % 2 ^ 32;
  write_bytes = (e.write_bytes + n) % 2 ^ 64;
}

abbrev always_word : Bytes
always_word = b'a' ∷ b'l' ∷ b'w' ∷ b'a' ∷ b'y' ∷ b's' ∷ []

abbrev while_armed_word : Bytes
while_armed_word = b'w' ∷ b'h' ∷ b'i' ∷ b'l' ∷ b'e' ∷ b'-' ∷ b'a' ∷ b'r' ∷ b'm' ∷ b'e' ∷ b'd' ∷ []

-- `parse_log_mode`
pub parse_log_mode : Bytes → LogMode → Ret × LogMode
parse_log_mode val storage =
    let mode = c_string val in
    if ltb 20 (length val)
    then (failed einval, storage)
    else if memcaseeq mode always_word
    then (count 0, always)
    else if memcaseeq mode while_armed_word
    then (count 0, while_armed)
    else (failed einval, storage)

-- `parse_fcu_id`; the result is stored before it is found to be too large, so it is there whatever is returned.
pub parse_fcu_id : (Bytes → Strtol) → Bytes → Option ℕ → Ret × Option ℕ
parse_fcu_id strtol val storage =
    let (ret, ival) = safe_atoi strtol (c_string val) in
    elim ival [
      | none ↦ (ret, storage)
      | some i ↦
          if (ltb 255 i && ltb i (2 ^ 31)) || leb (2 ^ 31) i || i == 0
          then (failed einval, some i)
          else (ret, some i)
    ]

-- `_get_prefix`, over the numbers that the names in the directory begin with.
unfoldable pub get_prefix : ℕ → List ℕ → ℕ
get_prefix prefix [] = prefix
get_prefix prefix (u ∷ us) =
    get_prefix (if leb prefix u && ltb u (2 ^ 32 - 1) then u + 1 else prefix) us
