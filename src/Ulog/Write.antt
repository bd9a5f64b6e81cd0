-- ===== src/Ulog/Write.antt =====
-- src/ulog.cpp, `ULog::write_msg`: what a message that reaches the log does.
use mavlink_router.Prelude.{
  ℕ, Bool, ◌||◌, not, Option, none, some, List, ◌==◌, if◌then◌else◌, length,
}
use mavlink_router.Os.{Ret}
use mavlink_router.Message.{Msg}
use mavlink_router.Log.{
  LogEndpoint, Opening, Backend, logging_started, set_target, handle_auto_start_stop, count_write,
}
use mavlink_router.Ulog.{Ulog, LoggingData, ulog_stop, ulog_start, logging_data_process}

-- The log with what `write` returns to it, as a kind of log.
abbrev pub ulog_backend : Opening → Backend (Ulog × List Ret)
ulog_backend o = record {
  log = λ (u, rs). u.log;
  with_log = λ e (u, rs). (record u { log = e }, rs);
  start_log = λ (u, rs). let (started, v) = ulog_start o u in (started, (v, rs));
  stop_log = λ (u, rs). ulog_stop rs u;
}

-- Constants of the MAVLink library.
pub record Constants : Type 0 where
  pub heartbeat : ℕ
  pub autopilot : ℕ
  pub cmd_logging_start : ℕ
  pub result_accepted : ℕ

-- What the library reads in the payload, by the kind of the message.
pub data Content : Type 0 where
  command_ack : ℕ → ℕ → Content
  logging_data_acked logging_data : LoggingData → Content
  uninteresting : Content

-- The case of `MAVLINK_MSG_ID_COMMAND_ACK`.
unfoldable pub take_ack : Constants → ℕ → ℕ → Bool → ℕ → LogEndpoint → LogEndpoint
take_ack k command result added n e =
    if not e.logging_start || not (command == k.cmd_logging_start)
    then e
    else count_write n (if result == k.result_accepted then logging_started added e else e)

-- The case of `MAVLINK_MSG_ID_LOGGING_DATA`, less the acknowledgement that is sent before it.
unfoldable pub take_data : Opening → LoggingData → ℕ → Ulog × List Ret → Option (Ulog × List Ret)
take_data o d n (u, rs) = elim (logging_data_process o d rs u) [
  | none ↦ none
  | some (end, v, more) ↦ some (record v { log = count_write n v.log }, more)
]

-- The `switch`.
unfoldable pub take_content :
    Constants → Opening → Bool → ℕ → Content → Ulog × List Ret → Option (Ulog × List Ret)
unfolding take_data
take_content k o added n (command_ack command result) (u, rs) =
    some (record u { log = take_ack k command result added n u.log }, rs)
take_content k o added n (logging_data_acked d) s = take_data o d n s
take_content k o added n (logging_data d) s = take_data o d n s
take_content k o added n uninteresting s = some s

-- `write_msg`: the first `Opening` is for a start that the message causes, the second for a restart; `armed`
-- is the flag in a heartbeat, and `added` says whether the timer of `_start_alive_timeout` is there. The result,
-- which is always the length of the message, is left out; `none` is a write behind the buffer.
unfoldable pub write_msg :
    Constants
    → Opening
    → Opening
    → Bool
    → Bool
    → Content
    → Msg
    → Ulog × List Ret
    → Option (Ulog × List Ret)
unfolding take_content
write_msg k o again armed added content m (u, rs) =
    let v = record u { log = set_target k.heartbeat k.autopilot m u.log } in
    let s = handle_auto_start_stop (ulog_backend o) k.heartbeat k.autopilot m armed (v, rs) in
    take_content k again added (length m.bytes) content s
