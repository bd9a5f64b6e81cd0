-- ===== src/Autolog.antt =====
-- src/autolog.cpp: the log that waits for a heartbeat to tell which kind of log the vehicle needs; and
-- src/tlog.cpp, which writes each message with its time.
use mavlink_router.Prelude.{
  ℕ, zero, suc, ◌/◌, ◌%◌, ◌^◌, ◌≡◌, ap, inl, inr, Bool, true, false, ◌||◌, not, Option, none, some,
  [], ◌∷◌, ◌++◌, ◌==◌, arith, if◌then◌else◌, Bool-cases, is_some,
}
use mavlink_router.Text.{Bytes}
use mavlink_router.Message.{Msg}
use mavlink_router.Log.{
  LogEndpoint, Opening, Backend, start, stop, set_target, handle_auto_start_stop,
}

-- The kinds of log that `_logger` can be.
pub data Kind : Type 0 where
  ulog binlog : Kind

-- What the MAVLink library calls the message, the component and the two autopilots.
pub record Autopilots : Type 0 where
  pub heartbeat : ℕ
  pub autopilot1 : ℕ
  pub px4 : ℕ
  pub ardupilotmega : ℕ

-- `AutoLog`: its target, and its logger, which stands in the state `S` of its kind.
pub record Autolog (S : Type 0) : Type 0 where
  pub log : LogEndpoint
  pub logger : Option S

-- The kind of log for an autopilot.
unfoldable pub kind_of : Autopilots → ℕ → Option Kind
kind_of k autopilot =
    if autopilot == k.px4
    then some ulog
    else if autopilot == k.ardupilotmega
    then some binlog
    else none

-- Whether a message comes from the system.
abbrev is_from : Option ℕ → ℕ → Bool
is_from none sysid = false
is_from (some target) sysid = sysid == target

-- `AutoLog::write_msg` before there is a logger; `create` is the constructor of a kind of log, and `autopilot` is
-- that of a heartbeat.
unfoldable pub choose_logger :
    {S : Type 0} → Autopilots → (Kind → S) → ℕ → Msg → LogEndpoint → Autolog S
unfolding kind_of
choose_logger {S = S} k create autopilot m log =
    let e = set_target k.heartbeat k.autopilot1 m log in
    let logger : Option S = elim (kind_of k autopilot) [
      | none ↦ none
      | some kind ↦ some (create kind)
    ] in
    if not (m.msg_id == k.heartbeat) || not (is_from e.target_system_id m.src_sysid)
    then record { log = e; logger = none }
    else record { log = e; logger = logger }

-- `AutoLog::write_msg`, where `write_to` is that of the logger.
unfoldable pub autolog_write_msg :
    {S : Type 0} → Autopilots → (Kind → S) → (Msg → S → S) → ℕ → Msg → Autolog S → Autolog S
autolog_write_msg k create write_to autopilot m a = elim a.logger [
  | none ↦ choose_logger k create autopilot m a.log
  | some s ↦ record a { logger = some (write_to m s) }
]

-- `AutoLog::stop`
unfoldable pub autolog_stop : {S : Type 0} → (S → S) → Autolog S → Autolog S
autolog_stop stop_log a = elim a.logger [
  | none ↦ a
  | some s ↦ record a { logger = some (stop_log s) }
]

-- `htobe64`, as bytes, the highest first; the first number is how many there are.
unfoldable pub be_bytes : ℕ → ℕ → Bytes
be_bytes zero n = []
be_bytes (suc k) n = (n / 256 ^ k % 256) ∷ be_bytes k n

-- `TLog`: what has been written to the file.
pub record Tlog : Type 0 where
  pub log : LogEndpoint
  pub written : Bytes

unfoldable pub tlog_start : Opening → Tlog → Bool × Tlog
tlog_start o t =
    let (started, log) = start o t.log in
    (started, record { log = log; written = if started then [] else t.written })

unfoldable pub tlog_stop : Tlog → Tlog
tlog_stop t = if is_some t.log.file then record t { log = stop t.log } else t

abbrev pub tlog_backend : Opening → Backend Tlog
tlog_backend o = record {
  log = λ t. t.log;
  with_log = λ e t. record t { log = e };
  start_log = λ t. tlog_start o t;
  stop_log = λ t. tlog_stop t;
}

-- `TLog::write_msg`, at a time in microseconds, when the file takes all that is written to it.
unfoldable pub tlog_write_msg : ℕ → ℕ → Opening → Bool → ℕ → Msg → Tlog → Tlog
tlog_write_msg heartbeat autopilot o armed now m t =
    let u =
      handle_auto_start_stop (tlog_backend o) heartbeat autopilot m armed
        (record t { log = set_target heartbeat autopilot m t.log }) in
    if is_some u.log.file
    then record u { written = u.written ++ (be_bytes 8 now ++ m.bytes) }
    else u

-- A logger is only chosen at a heartbeat of the system that is to be logged.
choose_logger_lem :
    {S : Type 0} (k : Autopilots) (create : Kind → S) (autopilot : ℕ) (m : Msg) (log : LogEndpoint)
    → is_some (choose_logger k create autopilot m log).logger ≡ true
    → (m.msg_id ≡ k.heartbeat)
      × ((choose_logger k create autopilot m log).log.target_system_id ≡ some m.src_sysid)
unfolding choose_logger
choose_logger_lem k create autopilot m log h =
    let e = set_target k.heartbeat k.autopilot1 m log in
    elim (Bool-cases
      (not (m.msg_id == k.heartbeat) || not (is_from e.target_system_id m.src_sysid))) [
        | inl f ↦ let none_chosen : false ≡ true = rw (choose_logger, f) at h in cc
        | inr f ↦
            rw (choose_logger, f) (ground (arith, f), from e.target_system_id (ground (arith, f)))
      ]
  where
    from : (t : Option ℕ) → is_from t m.src_sysid ≡ true → t ≡ some m.src_sysid
    from none g = cc
    from (some t) g = ap some (ground (arith, g))
