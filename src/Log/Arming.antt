-- ===== src/Log/Arming.antt =====
-- src/logendpoint.cpp, `_handle_auto_start_stop` and `_alive_timeout`, for any kind of log that starts and stops
-- the way `LogEndpoint` does.
use mavlink_router.Prelude.{
  ℕ, ◌≡◌, refl, sym, ap, ◌∙◌, ◌⊎◌, inl, inr, Bool, true, false, ◌&&◌, not, some, arith, ◌==◌,
  Bool-cases, Option-cases, is_some,
}
use mavlink_router.Message.{Msg}
use mavlink_router.Log.{
  LogMode, always, while_armed, disabled, LogEndpoint, Opening, Backend, start, stop, try_start,
  follow_arming, follow_mode, handle_auto_start_stop, alive_timeout,
}
use mavlink_router.Log.Invariant.{
  IsConsistent, IsConsistent-same, start-IsConsistent, stop-IsConsistent, start_opens,
}

-- What `start` and `stop` of a kind of log promise: what they do to the part that all logs share is what
-- `LogEndpoint` does.
pub record IsBackend {S : Type 0} (o : Opening) (b : Backend S) : Type 0 where
  pub log-with_log : (e : LogEndpoint) (s : S) → b.log (b.with_log e s) ≡ e
  pub start_result : (s : S) → (b.start_log s).0 ≡ (start o (b.log s)).0
  pub start_state : (s : S) → b.log (b.start_log s).1 ≡ (start o (b.log s)).1
  pub stop_open : (s : S) → is_some (b.log s).file ≡ true → b.log (b.stop_log s) ≡ stop (b.log s)
  pub stop_closed : (s : S) → is_some (b.log s).file ≡ false → b.log (b.stop_log s) ≡ b.log s

-- A property of a log that starting, stopping and disabling it keep is kept by what a message or a timer does.
module _ {S : Type 0} (b : Backend S) (P : S → Type 0)
    (on_start : (s : S) → P s → P (b.start_log s).1) (on_stop : (s : S) → P s → P (b.stop_log s))
    (on_disable : (s : S) → P s → P (b.with_log (record (b.log s) { log_mode = disabled }) s)) where
  try_start_keeps : (s : S) → P s → P (try_start b s)
  unfolding try_start
  try_start_keeps s i = elim (Bool-cases (b.start_log s).0) [
    | inl e ↦ rw e (on_start s i)
    | inr n ↦ rw n (on_disable (b.start_log s).1 (on_start s i))
  ]

  follow_arming_keeps : (armed : Bool) (s : S) → P s → P (follow_arming b armed s)
  unfolding follow_arming
  follow_arming_keeps armed s i = elim (Bool-cases (not (is_some (b.log s).file) && armed)) [
    | inl e ↦ rw e (try_start_keeps s i)
    | inr n ↦ rw n (elim (Bool-cases (is_some (b.log s).file && not armed)) [
      | inl e ↦ rw e (on_stop s i)
      | inr k ↦ rw k i
    ])
  ]

  follow_mode_keeps :
      (beats armed : Bool) (mode : LogMode) (s : S) → P s → P (follow_mode b beats armed mode s)
  unfolding follow_mode
  follow_mode_keeps beats armed always s i = elim (Bool-cases (is_some (b.log s).file)) [
    | inl e ↦ rw e i
    | inr n ↦ rw n (try_start_keeps s i)
  ]
  follow_mode_keeps true armed while_armed s i = follow_arming_keeps armed s i
  follow_mode_keeps false armed while_armed s i = i
  follow_mode_keeps beats armed disabled s i = i

  pub handle_auto_start_stop_keeps :
      (heartbeat autopilot : ℕ) (m : Msg) (armed : Bool) (s : S)
      → P s
      → P (handle_auto_start_stop b heartbeat autopilot m armed s)
  unfolding handle_auto_start_stop
  handle_auto_start_stop_keeps heartbeat autopilot m armed s i =
      elim (Option-cases (b.log s).target_system_id) [
        | inl e ↦ rw (handle_auto_start_stop, e) i
        | inr (t, e) ↦
            rw (handle_auto_start_stop, e)
              (follow_mode_keeps
                (m.msg_id == heartbeat && m.src_sysid == t && m.src_compid == autopilot) armed
                (b.log s).log_mode s i)
      ]

module _ {S : Type 0} (o : Opening) (b : Backend S) (law : IsBackend o b) where
  pub log_start-IsConsistent :
      (s : S) → IsConsistent (b.log s) → IsConsistent (b.log (b.start_log s).1)
  log_start-IsConsistent s i = rw (law.start_state s) (start-IsConsistent o (b.log s) i)

  pub log_stop-IsConsistent : (s : S) → IsConsistent (b.log s) → IsConsistent (b.log (b.stop_log s))
  log_stop-IsConsistent s i = elim (Bool-cases (is_some (b.log s).file)) [
    | inl e ↦ rw (law.stop_open s e) (stop-IsConsistent (b.log s))
    | inr n ↦ rw (law.stop_closed s n) i
  ]

  with_log-IsConsistent :
      (e : LogEndpoint) (s : S) → IsConsistent e → IsConsistent (b.log (b.with_log e s))
  with_log-IsConsistent e s i = rw (law.log-with_log e s) i

  pub handle_auto_start_stop-IsConsistent :
      (heartbeat autopilot : ℕ) (m : Msg) (armed : Bool) (s : S)
      → IsConsistent (b.log s)
      → IsConsistent (b.log (handle_auto_start_stop b heartbeat autopilot m armed s))
  handle_auto_start_stop-IsConsistent =
      handle_auto_start_stop_keeps b (λ s. IsConsistent (b.log s)) log_start-IsConsistent
        log_stop-IsConsistent
        (λ s i.
          with_log-IsConsistent (record (b.log s) { log_mode = disabled }) s
            (IsConsistent-same (b.log s) _ _ _ _ _ i))

  pub alive_timeout-IsConsistent :
      (s : S) → IsConsistent (b.log s) → IsConsistent (b.log (alive_timeout b s))
  unfolding alive_timeout
  alive_timeout-IsConsistent s i =
      elim (Bool-cases ((b.log s).timeout_write_total == (b.log s).write_total)) [
        | inl e ↦
            rw (alive_timeout, e)
              (counted (b.start_log (b.stop_log s)).1
                (log_start-IsConsistent _ (log_stop-IsConsistent s i)))
        | inr n ↦ rw (alive_timeout, n) (counted s i)
      ]
    where
      counted :
          (t : S)
          → IsConsistent (b.log t)
          → IsConsistent (
              b.log
                (b.with_log (record (b.log t) { timeout_write_total = (b.log t).write_total }) t))
      counted t j =
          with_log-IsConsistent (record (b.log t) { timeout_write_total = (b.log t).write_total }) t
            (IsConsistent-same (b.log t) _ _ _ _ _ j)

  try_start_lem :
      (s : S)
      → is_some (b.log s).file ≡ false
      → (is_some (b.log (try_start b s)).file ≡ true)
        ⊎ ((is_some (b.log (try_start b s)).file ≡ false)
            × ((b.log (try_start b s)).log_mode ≡ disabled))
  unfolding try_start
  try_start_lem s closed =
      let opens =
        ap (λ e. is_some e.file) (law.start_state s)
        ∙ start_opens o (b.log s) closed
        ∙ sym (law.start_result s) in
      elim (Bool-cases (b.start_log s).0) [
        | inl e ↦ inl (rw (try_start, e) (opens ∙ e))
        | inr n ↦
            let failed =
              law.log-with_log (record (b.log (b.start_log s).1) { log_mode = disabled })
                (b.start_log s).1 in
            inr (rw (try_start, n, failed) (opens ∙ n, refl))
      ]

  follow_arming_lem :
      (armed : Bool) (s : S)
      → let t = b.log (follow_arming b armed s) in
        (is_some t.file ≡ armed)
        ⊎ ((armed ≡ true) × (is_some t.file ≡ false) × (t.log_mode ≡ disabled))
  unfolding follow_arming stop
  follow_arming_lem true s = elim (Bool-cases (is_some (b.log s).file)) [
    | inl e ↦ inl (rw (follow_arming, e) e)
    | inr n ↦
        rw (follow_arming, n)
          (elim (try_start_lem s n) [
            | inl opened ↦ inl opened
            | inr (closed, mode) ↦ inr (refl, closed, mode)
          ])
  ]
  follow_arming_lem false s = elim (Bool-cases (is_some (b.log s).file)) [
    | inl e ↦ inl (rw (follow_arming, e) (ap (λ t. is_some t.file) (law.stop_open s e)))
    | inr n ↦ inl (rw (follow_arming, n) n)
  ]

  -- `_handle_auto_start_stop`, in the mode `while_armed`, of a heartbeat from the autopilot of the system
  -- that is logged: after it the log is open just when the vehicle is armed, or the log could not be
  -- started, and then it is closed and its mode is `disabled`.
  pub handle_auto_start_stop_armed :
      (heartbeat autopilot target : ℕ) (m : Msg) (armed : Bool) (s : S)
      → (b.log s).target_system_id ≡ some target
      → (b.log s).log_mode ≡ while_armed
      → m.msg_id ≡ heartbeat
      → m.src_sysid ≡ target
      → m.src_compid ≡ autopilot
      → let t = b.log (handle_auto_start_stop b heartbeat autopilot m armed s) in
        (is_some t.file ≡ armed)
        ⊎ ((armed ≡ true) × (is_some t.file ≡ false) × (t.log_mode ≡ disabled))
  unfolding handle_auto_start_stop follow_mode
  handle_auto_start_stop_armed heartbeat autopilot target m armed s t w h y c =
      let beats : (m.msg_id == heartbeat && m.src_sysid == target && m.src_compid == autopilot)
          ≡ true =
        ground (arith, h, y, c) in
      rw (handle_auto_start_stop, t, w, beats) (follow_arming_lem armed s)
