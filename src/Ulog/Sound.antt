-- ===== src/Ulog/Sound.antt =====
-- src/ulog.cpp, `ULog::write_msg`: what holds of the log after any message.
use mavlink_router.Prelude.{
  ℕ, ◌^◌, ◌<◌, ◌≡◌, inl, inr, Bool, true, ◌||◌, not, Option, none, some, List, arith, ◌==◌,
  Bool-cases, length,
}
use mavlink_router.Os.{Ret}
use mavlink_router.Message.{Msg}
use mavlink_router.Log.{
  LogEndpoint, disabled, Opening, set_target, handle_auto_start_stop, count_write,
}
use mavlink_router.Log.Invariant.{
  IsConsistent, logging_started-IsConsistent, set_target-IsConsistent, count_write-IsConsistent,
}
use mavlink_router.Log.Arming.{handle_auto_start_stop_keeps, handle_auto_start_stop-IsConsistent}
use mavlink_router.Ulog.{Ulog, End, LoggingData, logging_data_process}
use mavlink_router.Ulog.Valid.{IsValid, IsSafe, ulog_start-IsValid, ulog_stop-IsValid}
use mavlink_router.Ulog.Bounds.{logging_data_process-IsSafe}
use mavlink_router.Ulog.Write.{
  ulog_backend, Constants, Content, command_ack, logging_data_acked, logging_data, uninteresting,
  take_ack, take_data, take_content, write_msg,
}
use mavlink_router.Ulog.Timers.{
  ulog_backend-IsBackend, IsSound, with_log-IsValid, AreTimers, logging_data_process_timers,
}

-- A message whose length field is a byte.
abbrev pub IsContent : Content → Type 0
IsContent (command_ack command result) = Unit
IsContent (logging_data_acked d) = d.length < 2 ^ 8
IsContent (logging_data d) = d.length < 2 ^ 8
IsContent uninteresting = Unit

abbrev pub EndsSound : Option (Ulog × List Ret) → Type 0
EndsSound none = ⊥
EndsSound (some (u, rs)) = IsSound u

take_ack-IsConsistent :
    (k : Constants) (command result : ℕ) (added : Bool) (n : ℕ) (e : LogEndpoint)
    → IsConsistent e
    → IsConsistent (take_ack k command result added n e)
unfolding take_ack
take_ack-IsConsistent k command result added n e i =
    elim (Bool-cases (not e.logging_start || not (command == k.cmd_logging_start))) [
      | inl f ↦ rw f i
      | inr f ↦
          let running : e.logging_start ≡ true = ground (arith, f) in
          rw f (
            count_write-IsConsistent n _ (elim (Bool-cases (result == k.result_accepted)) [
              | inl g ↦ rw g (logging_started-IsConsistent added e running i)
              | inr g ↦ rw g i
            ]))
    ]

take_data-EndsSound :
    (o : Opening) (d : LoggingData) (n : ℕ) (u : Ulog) (rs : List Ret)
    → d.length < 2 ^ 8
    → IsSound u
    → EndsSound (take_data o d n (u, rs))
unfolding take_data
take_data-EndsSound o d n u rs small i =
    counted (logging_data_process o d rs u) (logging_data_process-IsSafe o d rs u small i.buffers)
      (logging_data_process_timers o d rs u i.timers)
  where
    counted :
        (out : Option (End × Ulog × List Ret))
        → IsSafe out
        → AreTimers out
        → EndsSound (elim out [
          | none ↦ none
          | some (end, v, more) ↦ some (record v { log = count_write n v.log }, more)
        ])
    counted none s t = s
    counted (some (end, v, more)) s t = record {
      buffers = with_log-IsValid (count_write n v.log) v s;
      timers = count_write-IsConsistent n v.log t;
    }

take_content-EndsSound :
    (k : Constants) (o : Opening) (added : Bool) (n : ℕ) (content : Content) (u : Ulog)
    (rs : List Ret)
    → IsContent content
    → IsSound u
    → EndsSound (take_content k o added n content (u, rs))
unfolding take_content
take_content-EndsSound k o added n (command_ack command result) u rs c i = record {
  buffers = with_log-IsValid (take_ack k command result added n u.log) u i.buffers;
  timers = take_ack-IsConsistent k command result added n u.log i.timers;
}
take_content-EndsSound k o added n (logging_data_acked d) u rs c i =
    take_data-EndsSound o d n u rs c i
take_content-EndsSound k o added n (logging_data d) u rs c i = take_data-EndsSound o d n u rs c i
take_content-EndsSound k o added n uninteresting u rs c i = i

-- `ULog::write_msg` keeps a log well formed, for any message, any way that files and timers open and
-- anything that `write` returns: it writes to no place behind its buffers, the valid bytes lie inside them,
-- and the timers are those that an open or a closed log has.
pub write_msg-EndsSound :
    (k : Constants) (o again : Opening) (armed added : Bool) (content : Content) (m : Msg)
    (u : Ulog) (rs : List Ret)
    → IsContent content
    → IsSound u
    → EndsSound (write_msg k o again armed added content m (u, rs))
unfolding write_msg
write_msg-EndsSound k o again armed added content m u rs c i =
    let v = record u { log = set_target k.heartbeat k.autopilot m u.log } in
    let j : IsSound v = record {
      buffers = with_log-IsValid (set_target k.heartbeat k.autopilot m u.log) u i.buffers;
      timers = set_target-IsConsistent k.heartbeat k.autopilot m u.log i.timers;
    } in
    let b = ulog_backend o in
    let (w, more) = handle_auto_start_stop b k.heartbeat k.autopilot m armed (v, rs) in
    let valid : IsValid w =
      handle_auto_start_stop_keeps b (λ (x, ys). IsValid x) (λ (x, ys) h. ulog_start-IsValid o x h)
        (λ (x, ys) h. ulog_stop-IsValid ys x h)
        (λ (x, ys) h. with_log-IsValid (record x.log { log_mode = disabled }) x h) k.heartbeat
        k.autopilot m armed (v, rs) j.buffers in
    let timers : IsConsistent w.log =
      handle_auto_start_stop-IsConsistent o b (ulog_backend-IsBackend o) k.heartbeat k.autopilot m
        armed (v, rs) j.timers in
    take_content-EndsSound k again added (length m.bytes) content w more c
      (record { buffers = valid; timers = timers })
