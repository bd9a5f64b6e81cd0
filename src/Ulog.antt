-- ===== src/Ulog.antt =====
-- src/ulog.cpp: the log that the flight stack streams in ULog format.
pub mod Flush
pub mod Halts
pub mod Stream
pub mod Write
pub mod Timers
pub mod Sound
mod Tests
pub mod Valid
pub mod Bounds
use mavlink_router.Prelude.{
  ℕ, zero, suc, ◌+◌, ◌-◌, ◌*◌, ◌%◌, ◌/◌, ◌^◌, Bool, true, false, ◌&&◌, ◌||◌, not, Option, none,
  some, List, [], ◌∷◌, ◌++◌, ltb, leb, ◌==◌, if◌then◌else◌, is_some, length, get_or, take, drop,
}
use mavlink_router.Os.{Errno, eagain, Ret, count, failed, is_zero, is_eagain, is_failure}
use mavlink_router.Text.{Bytes}
use mavlink_router.Log.{LogEndpoint, Opening, start, stop}

abbrev pub buffer_len_max : ℕ
buffer_len_max = 2048

abbrev pub partial_max : ℕ
partial_max = buffer_len_max / 2

abbrev pub ulog_header_size : ℕ
ulog_header_size = 16

abbrev pub no_first_msg_offset : ℕ
no_first_msg_offset = 255

-- `sizeof(struct ulog_msg_header)`
abbrev pub msg_header_size : ℕ
msg_header_size = 3

abbrev pub ulog_magic : Bytes
ulog_magic = 0x55 ∷ 0x4C ∷ 0x6F ∷ 0x67 ∷ 0x01 ∷ 0x12 ∷ 0x35 ∷ []

-- `ULog`: the buffers hold the bytes that are valid, from `buffer_index` on, and of `_buffer_partial`
-- from its start. `written` is all that the file has taken.
pub record Ulog : Type 0 where
  pub log : LogEndpoint
  pub expected_seq : ℕ
  pub waiting_header : Bool
  pub waiting_first_msg_offset : Bool
  pub buffer : Bytes
  pub buffer_index : ℕ
  pub partial : Bytes
  pub written : Bytes

-- How `_logging_flush` ends: with all done that can be; because the file takes no more; with an error;
-- with a message cut off for good. `unanswered` is no end of the code: the list of what `write` returns
-- has run out.
pub data End : Type 0 where
  done blocked broken corrupt unanswered : End

-- What it returns.
abbrev pub succeeded : End → Bool
succeeded broken = false
succeeded done = true
succeeded blocked = true
succeeded corrupt = true
succeeded unanswered = true

abbrev pub taken : Ret → ℕ
taken (count k) = k
taken (failed e) = 0

-- The first loop.
unfoldable pub flush_partial : List Ret → Ulog → End × Ulog × List Ret
flush_partial [] u = (if ltb 0 (length u.partial) then unanswered else done, u, [])
flush_partial (r ∷ rs) u =
    let n = taken r in
    let rest =
      flush_partial rs
        (record u { partial = drop n u.partial; written = u.written ++ take n u.partial }) in
    if length u.partial == 0
    then (done, u, r ∷ rs)
    else if is_zero r || is_eagain r
    then (blocked, u, rs)
    else if is_failure r
    then (broken, u, rs)
    else rest

-- `full_msg_size`, a `uint16_t`, of the message at the start of the buffer.
pub full_msg_size : Bytes → ℕ
full_msg_size b = ((get_or b 0 0 + get_or b 1 0 * 256) % 2 ^ 16 + msg_header_size) % 2 ^ 16

-- The condition of the second loop, and the `break` that follows.
unfoldable pub holds_message : Bytes → Bool
holds_message b = leb msg_header_size (length b) && leb (full_msg_size b) (length b)

abbrev pub is_count : ℕ → Ret → Bool
is_count n (count k) = k == n
is_count n (failed e) = false

-- A message that the file took some bytes of.
unfoldable pub keep_partial : ℕ → ℕ → Ulog → End × Ulog
keep_partial full r u =
    let msg = take full u.buffer in
    if ltb partial_max (full - r)
    then (corrupt, record u { partial = []; written = u.written ++ take r msg })
    else (
      done,
      record u {
        partial = drop r msg;
        written = u.written ++ take r msg;
        buffer = drop full u.buffer;
        buffer_index = u.buffer_index + full;
      },
    )

-- The second loop.
unfoldable pub flush_messages : List Ret → Ulog → End × Ulog × List Ret
unfolding keep_partial
flush_messages [] u = (if holds_message u.buffer then unanswered else done, u, [])
flush_messages (r ∷ rs) u =
    let full = full_msg_size u.buffer in
    let rest = flush_messages rs (record u {
      written = u.written ++ take full u.buffer;
      buffer = drop full u.buffer;
      buffer_index = u.buffer_index + full;
    }) in
    let (end, v) = keep_partial full (taken r) u in
    if not (holds_message u.buffer)
    then (done, u, r ∷ rs)
    else if is_count full r
    then rest
    else if is_zero r || is_eagain r
    then (blocked, u, rs)
    else if is_failure r
    then (broken, u, rs)
    else (end, v, rs)

-- `_logging_flush`, with what each `write` returns.
unfoldable pub logging_flush : List Ret → Ulog → End × Ulog × List Ret
logging_flush rs u =
    let (end, v, more) = flush_partial rs u in
    if length v.partial == 0 then flush_messages more v else (end, v, more)

-- The loop in `stop`, which goes on as long as a flush that takes no more does not fail.
unfoldable pub stop_loop : ℕ → List Ret → Ulog → Ulog × List Ret
stop_loop zero rs u = (u, rs)
stop_loop (suc fuel) rs u =
    let (end, v, more) = logging_flush rs u in
    let rest = stop_loop fuel more v in
    if length u.partial == 0 then (u, rs) else if succeeded end then rest else (v, more)

-- `ULog::stop`, less the message that it sends; each turn of the loop calls `write` at least once.
unfoldable pub ulog_stop : List Ret → Ulog → Ulog × List Ret
ulog_stop rs u =
    let (v, more) = stop_loop (suc (length rs)) rs (record u { buffer = [] }) in
    if is_some u.log.file then (record v { log = stop v.log }, more) else (u, rs)

-- `ULog::start`
unfoldable pub ulog_start : Opening → Ulog → Bool × Ulog
ulog_start o u =
    let (started, log) = start o u.log in
    if not started then (false, record u { log = log }) else (
      true,
      record u {
        log = log;
        waiting_header = true;
        waiting_first_msg_offset = false;
        expected_seq = 0;
        buffer = [];
        buffer_index = 0;
        partial = [];
        written = [];
      },
    )

-- `memcmp` of texts of one length, for equality.
unfoldable pub same_bytes : Bytes → Bytes → Bool
same_bytes [] ys = true
same_bytes (x ∷ xs) [] = false
same_bytes (x ∷ xs) (y ∷ ys) = x == y && same_bytes xs ys

-- `mavlink_logging_data_t`; `bytes` is the memory from its field `data` on.
pub record LoggingData : Type 0 where
  pub sequence : ℕ
  pub length : ℕ
  pub first_message_offset : ℕ
  pub bytes : Bytes

-- `_logging_seq`: whether the message is handled, and if so, whether messages were lost before it; and the
-- number that is expected next.
unfoldable pub logging_seq : ℕ → ℕ → Option Bool × ℕ
logging_seq seq expected =
    if expected == seq
    then (some false, (expected + 1) % 2 ^ 16)
    else if ltb expected seq
    then if ltb ((2 ^ 16 - 1) / 2) (seq - expected)
      then (none, expected)
      else (some true, (seq + 1) % 2 ^ 16)
    else if ltb (expected - seq) ((2 ^ 16 - 1) / 2)
    then (none, expected)
    else (some true, (seq + 1) % 2 ^ 16)

-- What is to be done after the header of the file: the rest of the message, or a restart.
unfoldable pub take_header : LoggingData → Ulog → Option (LoggingData × Ulog)
take_header msg u =
    if not u.waiting_header
    then some (msg, u)
    else if ltb msg.length ulog_header_size
    then none
    else if not (same_bytes (take 7 msg.bytes) ulog_magic)
    then none
    else some (
      record msg {
        bytes = take msg.length (drop ulog_header_size msg.bytes) ++ drop msg.length msg.bytes;
        length = msg.length - ulog_header_size;
      },
      record u { partial = take ulog_header_size msg.bytes; waiting_header = false },
    )

-- After messages were lost: what is whole is written, and the rest is dropped.
unfoldable pub drop_lost : Bool → List Ret → Ulog → Ulog × List Ret
drop_lost drops rs u =
    let (end, v, more) = logging_flush rs u in
    if drops
    then (record v { buffer = []; buffer_index = 0; waiting_first_msg_offset = true }, more)
    else (u, rs)

-- The two tests that make room for a message.
unfoldable pub make_room : ℕ → Ulog → Ulog
make_room n u =
    let v =
      if ltb buffer_len_max (length u.buffer + n)
      then record u { buffer = []; waiting_first_msg_offset = true }
      else u in
    if ltb buffer_len_max (v.buffer_index + length v.buffer + n)
    then record v { buffer_index = 0 }
    else v

-- The end of `_logging_data_process`, from the place in the message on where its bytes begin. `none` where it
-- writes behind the end of the buffer.
unfoldable pub store : ℕ → LoggingData → List Ret → Ulog → Option (End × Ulog × List Ret)
store begin msg rs u =
    let n = (msg.length + 2 ^ 8 - begin) % 2 ^ 8 in
    if msg.length == 0
    then some (done, u, rs)
    else if ltb buffer_len_max (u.buffer_index + length u.buffer + n)
    then none
    else some (logging_flush rs (record u { buffer = u.buffer ++ take n (drop begin msg.bytes) }))

unfoldable pub find_begin : LoggingData → List Ret → Ulog → Option (End × Ulog × List Ret)
find_begin msg rs u =
    if not u.waiting_first_msg_offset
    then store 0 msg rs u
    else if msg.first_message_offset == no_first_msg_offset
    then some (done, u, rs)
    else store msg.first_message_offset msg rs (record u { waiting_first_msg_offset = false })

-- `_logging_data_process`
unfoldable pub logging_data_process :
    Opening → LoggingData → List Ret → Ulog → Option (End × Ulog × List Ret)
logging_data_process o msg rs u =
    let (handled, expected) = logging_seq msg.sequence u.expected_seq in
    let v = record u { expected_seq = expected } in
    elim handled [
      | none ↦ some (done, v, rs)
      | some drops ↦ elim (take_header msg v) [
        | none ↦ let (w, more) = ulog_stop rs v in some (done, (ulog_start o w).1, more)
        | some (msg', w) ↦
            let (x, more) = drop_lost drops rs w in find_begin msg' more (make_room msg'.length x)
      ]
    ]
