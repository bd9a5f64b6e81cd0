-- ===== src/Ulog/Timers.antt =====
-- src/ulog.cpp: what restarting a log does to its timers.
use mavlink_router.Prelude.{
  ℕ, zero, suc, ◌+◌, ◌^◌, ◌≡◌, refl, ap, ◌∙◌, inl, inr, Bool, true, false, Option, none, some, List,
  [], ◌++◌, ◌-◌, ◌%◌, take, drop, ltb, arith, ◌==◌, Bool-cases, length,
}
use mavlink_router.Os.{Ret}
use mavlink_router.Log.{LogEndpoint, Opening, stop}
use mavlink_router.Log.Invariant.{IsConsistent}
use mavlink_router.Log.Arming.{IsBackend, log_start-IsConsistent, log_stop-IsConsistent}
use mavlink_router.Ulog.{
  Ulog, End, done, LoggingData, logging_flush, stop_loop, ulog_stop, ulog_start, take_header,
  drop_lost, make_room, store, find_begin, logging_data_process, succeeded, no_first_msg_offset,
  buffer_len_max, logging_seq, ulog_header_size, same_bytes, ulog_magic,
}
use mavlink_router.Ulog.Flush.{logging_flush-Flushed}
use mavlink_router.Ulog.Valid.{IsValid}
use mavlink_router.Ulog.Write.{ulog_backend}

stop_loop_log : (fuel : ℕ) (rs : List Ret) (u : Ulog) → (stop_loop fuel rs u).0.log ≡ u.log
unfolding stop_loop
stop_loop_log zero rs u = refl
stop_loop_log (suc fuel) rs u =
    let (end, v, more) = logging_flush rs u in
    let same = (logging_flush-Flushed rs u).log in
    elim (Bool-cases (length u.partial == 0)) [
      | inl e ↦ rw e refl
      | inr n ↦ rw n (elim (Bool-cases (succeeded end)) [
        | inl s ↦ rw s (stop_loop_log fuel more v ∙ same)
        | inr s ↦ rw s same
      ])
    ]

-- `ULog` starts and stops the way `LogEndpoint` does.
pub ulog_backend-IsBackend : (o : Opening) → IsBackend o (ulog_backend o)
unfolding ulog_start ulog_stop
ulog_backend-IsBackend o = record {
  log-with_log = λ e s. refl;
  start_result = λ (u, rs). ground arith;
  start_state = λ (u, rs). ground arith;
  stop_open =
      λ (u, rs) e. rw e (ap stop (stop_loop_log (suc (length rs)) rs (record u { buffer = [] })));
  stop_closed = λ (u, rs) e. rw e refl;
}

-- Both parts of a log are well formed.
pub record IsSound (u : Ulog) : Type 0 where
  pub buffers : IsValid u
  pub timers : IsConsistent u.log

-- A valid log with other settings is valid.
pub with_log-IsValid : (e : LogEndpoint) (u : Ulog) → IsValid u → IsValid (record u { log = e })
with_log-IsValid e u i = record {
  extent = i.extent;
  partial_fits = i.partial_fits;
  waits = i.waits;
}

abbrev HasLog : LogEndpoint → Option (End × Ulog × List Ret) → Type 0
HasLog e none = Unit
HasLog e (some (end, u, rs)) = u.log ≡ e

-- If it ends, the timers of the log are consistent.
abbrev pub AreTimers : Option (End × Ulog × List Ret) → Type 0
AreTimers none = Unit
AreTimers (some (end, u, rs)) = IsConsistent u.log

store-HasLog :
    (begin : ℕ) (msg : LoggingData) (rs : List Ret) (u : Ulog) → HasLog u.log (store begin msg rs u)
unfolding store
store-HasLog begin msg rs u =
    let n = (msg.length + 2 ^ 8 - begin) % 2 ^ 8 in
    elim (Bool-cases (msg.length == 0)) [
      | inl e ↦ rw e refl
      | inr m ↦
          rw m (elim (Bool-cases (ltb buffer_len_max (u.buffer_index + length u.buffer + n))) [
            | inl e ↦ rw e tt
            | inr k ↦
                rw k
                  (logging_flush-Flushed rs
                    (record u { buffer = u.buffer ++ take n (drop begin msg.bytes) })).log
          ])
    ]

find_begin-HasLog :
    (msg : LoggingData) (rs : List Ret) (u : Ulog) → HasLog u.log (find_begin msg rs u)
unfolding find_begin
find_begin-HasLog msg rs u = elim (Bool-cases u.waiting_first_msg_offset) [
  | inr n ↦ simp n (store-HasLog 0 msg rs u)
  | inl w ↦ simp w (elim (Bool-cases (msg.first_message_offset == no_first_msg_offset)) [
    | inl e ↦ rw e refl
    | inr n ↦ rw n (
        store-HasLog msg.first_message_offset msg rs
          (record u { waiting_first_msg_offset = false }))
  ])
]

make_room_log : (n : ℕ) (u : Ulog) → (make_room n u).log ≡ u.log
unfolding make_room
make_room_log n u = ground arith

drop_lost_log : (drops : Bool) (rs : List Ret) (u : Ulog) → (drop_lost drops rs u).0.log ≡ u.log
unfolding drop_lost
drop_lost_log true rs u = (logging_flush-Flushed rs u).log
drop_lost_log false rs u = refl

IsConsistent-HasLog :
    (e : LogEndpoint) (o : Option (End × Ulog × List Ret))
    → IsConsistent e
    → HasLog e o
    → AreTimers o
IsConsistent-HasLog e none i h = tt
IsConsistent-HasLog e (some (end, u, rs)) i h = rw h i

IsTaken : LogEndpoint → Option (LoggingData × Ulog) → Type 0
IsTaken e none = Unit
IsTaken e (some (msg, u)) = u.log ≡ e

take_header-IsTaken : (msg : LoggingData) (u : Ulog) → IsTaken u.log (take_header msg u)
unfolding take_header IsTaken
take_header-IsTaken msg u = elim (Bool-cases u.waiting_header) [
  | inr n ↦ simp n refl
  | inl w ↦ simp w (elim (Bool-cases (ltb msg.length ulog_header_size)) [
    | inl e ↦ rw e tt
    | inr n ↦ rw n (elim (Bool-cases (same_bytes (take 7 msg.bytes) ulog_magic)) [
      | inr e ↦ rw e tt
      | inl m ↦ rw m refl
    ])
  ])
]

pub logging_data_process_timers :
    (o : Opening) (msg : LoggingData) (rs : List Ret) (u : Ulog)
    → IsConsistent u.log
    → AreTimers (logging_data_process o msg rs u)
unfolding logging_data_process IsTaken
logging_data_process_timers o msg rs u i = handled (logging_seq msg.sequence u.expected_seq).0
  where
    v : Ulog
    v = record u { expected_seq = (logging_seq msg.sequence u.expected_seq).1 }

    law : IsBackend o (ulog_backend o)
    law = ulog_backend-IsBackend o

    headed :
        (drops : Bool) (h : Option (LoggingData × Ulog))
        → IsTaken v.log h
        → AreTimers (elim h [
          | none ↦ let (w, more) = ulog_stop rs v in some (done, (ulog_start o w).1, more)
          | some (msg', w) ↦
              let (x, more) = drop_lost drops rs w in find_begin msg' more (make_room msg'.length x)
        ])
    headed drops none t =
        log_start-IsConsistent o (ulog_backend o) law (ulog_stop rs v)
          (log_stop-IsConsistent o (ulog_backend o) law (v, rs) i)
    headed drops (some (msg', w)) t =
        let (x, more) = drop_lost drops rs w in
        let same = make_room_log msg'.length x ∙ drop_lost_log drops rs w ∙ t in
        IsConsistent-HasLog (make_room msg'.length x).log
          (find_begin msg' more (make_room msg'.length x)) (rw same i)
          (find_begin-HasLog msg' more (make_room msg'.length x))

    handled :
        (h : Option Bool)
        → AreTimers (elim h [
          | none ↦ some (done, v, rs)
          | some drops ↦ elim (take_header msg v) [
            | none ↦ let (w, more) = ulog_stop rs v in some (done, (ulog_start o w).1, more)
            | some (msg', w) ↦
                let (x, more) = drop_lost drops rs w in
                find_begin msg' more (make_room msg'.length x)
          ]
        ])
    handled none = i
    handled (some drops) = headed drops (take_header msg v) (take_header-IsTaken msg v)
