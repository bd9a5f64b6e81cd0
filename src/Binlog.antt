-- ===== src/Binlog.antt =====
-- src/binlog.cpp: the log that the flight stack sends in numbered blocks, each of which is acknowledged.
pub mod Acks
mod Tests
use mavlink_router.Prelude.{
  ℕ, zero, suc, ◌+◌, ◌-◌, ◌*◌, ◌%◌, ◌^◌, Bool, true, false, ◌&&◌, not, Option, none, some, List, [],
  ◌∷◌, ◌++◌, ltb, ◌==◌, if◌then◌else◌, is_some, length,
}
use mavlink_router.Os.{Ret, count, failed, is_failure, is_eagain}
use mavlink_router.Text.{Bytes}
use mavlink_router.Message.{Msg}
use mavlink_router.Log.{
  LogEndpoint, Opening, Backend, start, stop, logging_started, set_target, handle_auto_start_stop,
  count_write,
}

-- The length of the data of a block.
abbrev pub block_len : ℕ
block_len = 200

-- A message REMOTE_LOG_BLOCK_STATUS: its kind and the number of the block.
pub data Status : Type 0 where
  ack nack : ℕ → Status
  stop_logging : Status

-- `BinLog`, with the messages that it has sent, and what it has written and where, the newest last.
pub record Binlog : Type 0 where
  pub log : LogEndpoint
  pub last_acked_seqno : ℕ
  pub sent : List Status
  pub blocks : List (ℕ × Bytes)

-- A message that is routed.
abbrev pub send : Status → Binlog → Binlog
send m b = record b { sent = b.sent ++ (m ∷ []) }

-- `BinLog::start`
unfoldable pub binlog_start : Opening → Binlog → Bool × Binlog
binlog_start o b =
    let (started, log) = start o b.log in
    if not started
    then (false, record b { log = log })
    else (true, record b { log = log; last_acked_seqno = 0; blocks = [] })

-- `BinLog::stop`
unfoldable pub binlog_stop : Binlog → Binlog
binlog_stop b =
    if is_some b.log.file
    then record b { sent = b.sent ++ (stop_logging ∷ []); log = stop b.log }
    else b

-- The loop of `_send_ack`, from `i` on; each turn packs `seqno`.
unfoldable pub send_nacks : ℕ → ℕ → ℕ → Binlog → Binlog
send_nacks zero i seqno b = b
send_nacks (suc fuel) i seqno b =
    let rest = send_nacks fuel ((i + 1) % 2 ^ 32) seqno (send (nack seqno) b) in
    if ltb i seqno then rest else b

-- `_send_ack`
unfoldable pub send_ack : ℕ → Binlog → Binlog
send_ack seqno b =
    let c = send_nacks seqno ((b.last_acked_seqno + 1) % 2 ^ 32) seqno b in
    if ltb seqno b.last_acked_seqno
    then send (ack seqno) b
    else record (send (ack seqno) c) { last_acked_seqno = seqno }

-- `_restart`
unfoldable pub restart : Opening → Binlog → Binlog
restart o b = (binlog_start o (binlog_stop b)).1

-- `_logging_data_process`: `sought` says whether `lseek` succeeds, and `r` is what `write` returns.
unfoldable pub logging_data_process : Opening → Bool → Ret → ℕ → Bytes → Binlog → Binlog
logging_data_process o sought r seqno bytes b =
    let written : Bool = elim r [ count n ↦ n == block_len | failed e ↦ false ] in
    if not sought
    then restart o b
    else if is_failure r && not (is_eagain r)
    then restart o b
    else if not written
    then b
    else send_ack seqno
        (record b { blocks = b.blocks ++ ((seqno * block_len % 2 ^ 32, bytes) ∷ []) })

abbrev pub binlog_backend : Opening → Backend Binlog
binlog_backend o = record {
  log = λ b. b.log;
  with_log = λ e b. record b { log = e };
  start_log = λ b. binlog_start o b;
  stop_log = λ b. binlog_stop b;
}

-- The end of `write_msg`, for a block.
unfoldable pub take_block : Opening → Bool → Bool → Ret → ℕ → Bytes → ℕ → Binlog → Binlog
take_block o added sought r seqno bytes n b =
    let begun = record b { log = logging_started added b.log } in
    let c = if b.log.logging_start then begun else b in
    let d = logging_data_process o sought r seqno bytes c in
    if b.log.logging_start && not (seqno == 0)
    then send stop_logging b
    else record d { log = count_write n d.log }

-- `write_msg`, where `block` is the number and the data of a message REMOTE_LOG_DATA_BLOCK, as the MAVLink
-- library reads them.
unfoldable pub write_msg :
    ℕ
    → ℕ
    → Opening
    → Opening
    → Bool
    → Bool
    → Bool
    → Ret
    → Option (ℕ × Bytes)
    → Msg
    → Binlog
    → Binlog
write_msg heartbeat autopilot o again armed added sought r block m b =
    let c =
      handle_auto_start_stop (binlog_backend o) heartbeat autopilot m armed
        (record b { log = set_target heartbeat autopilot m b.log }) in
    elim block [
      | none ↦ c
      | some (seqno, bytes) ↦ take_block again added sought r seqno bytes (length m.bytes) c
    ]
