-- ===== src/Log/Invariant.antt =====
-- src/logendpoint.cpp: when a log is open, and when it has timers.
use mavlink_router.Prelude.{
  ℕ, ◌≡◌, refl, ap, ◌∙◌, inl, inr, Bool, true, false, ◌&&◌, Option, arith, ◌==◌, Bool-cases,
  Option-cases, is_some,
}
use mavlink_router.Message.{Msg}
use mavlink_router.Log.{
  LogMode, LogEndpoint, Opening, add_timers, start, stop, logging_started, set_target, count_write,
}

-- The timer of `fsync` is there just when the file is open, and the other two only then, and never both.
pub record IsConsistent (e : LogEndpoint) : Type 0 where
  pub fsync_open : e.fsync ≡ is_some e.file
  pub logging_start_open : is_some e.file ≡ false → e.logging_start ≡ false
  pub alive_open : is_some e.file ≡ false → e.alive ≡ false
  pub one_of : (e.logging_start && e.alive) ≡ false

-- The consistency of a log only depends on its file and its timers.
pub IsConsistent-same :
    (e : LogEndpoint) (mode : LogMode) (target : Option ℕ) (a b c : ℕ)
    → IsConsistent e
    → IsConsistent (record e {
      log_mode = mode;
      target_system_id = target;
      timeout_write_total = a;
      write_total = b;
      write_bytes = c;
    })
IsConsistent-same e mode target a b c i = record {
  fsync_open = i.fsync_open;
  logging_start_open = i.logging_start_open;
  alive_open = i.alive_open;
  one_of = i.one_of;
}

add_timers-IsConsistent :
    (o : Opening) (fd : ℕ) (e : LogEndpoint)
    → e.alive ≡ false
    → e.fsync ≡ false
    → IsConsistent (add_timers o fd e).1
unfolding add_timers
add_timers-IsConsistent o fd e alive fsync = elim (Bool-cases o.logging_start) [
  | inr n ↦ simp n (record {
    fsync_open = fsync;
    logging_start_open = λ h. refl;
    alive_open = λ h. alive;
    one_of = refl;
  })
  | inl l ↦ simp l (elim (Bool-cases o.fsync) [
    | inr n ↦ simp n (record {
      fsync_open = refl;
      logging_start_open = λ h. refl;
      alive_open = λ h. alive;
      one_of = refl;
    })
    | inl f ↦ simp f (record {
      fsync_open = refl;
      logging_start_open = λ h. cc;
      alive_open = λ h. alive;
      one_of = alive;
    })
  ])
]

pub start-IsConsistent :
    (o : Opening) (e : LogEndpoint) → IsConsistent e → IsConsistent (start o e).1
unfolding start
start-IsConsistent o e c = elim (Option-cases e.file) [
  | inr (fd, f) ↦ simp (start, f) c
  | inl f ↦
      let closed : is_some e.file ≡ false = ap is_some f in
      let alive : e.alive ≡ false = c.alive_open closed in
      let fsync : e.fsync ≡ false = c.fsync_open ∙ closed in
      elim (Option-cases o.file) [
        | inl g ↦
            simp (start, f, g)
              (record {
                fsync_open = fsync;
                logging_start_open = λ h. c.logging_start_open closed;
                alive_open = λ h. alive;
                one_of = c.one_of;
              })
        | inr (fd, g) ↦ simp (start, f, g) (add_timers-IsConsistent o fd e alive fsync)
      ]
]

pub stop-IsConsistent : (e : LogEndpoint) → IsConsistent (stop e)
unfolding stop
stop-IsConsistent e = record {
  fsync_open = refl;
  logging_start_open = λ h. refl;
  alive_open = λ h. refl;
  one_of = refl;
}

pub logging_started-IsConsistent :
    (added : Bool) (e : LogEndpoint)
    → e.logging_start ≡ true
    → IsConsistent e
    → IsConsistent (logging_started added e)
unfolding logging_started
logging_started-IsConsistent added e running i = record {
  fsync_open = i.fsync_open;
  logging_start_open = λ h. refl;
  alive_open = λ h. let stopped = i.logging_start_open h in cc;
  one_of = refl;
}

pub set_target-IsConsistent :
    (heartbeat autopilot : ℕ) (m : Msg) (e : LogEndpoint)
    → IsConsistent e
    → IsConsistent (set_target heartbeat autopilot m e)
unfolding set_target
set_target-IsConsistent heartbeat autopilot m e i = elim (Option-cases e.target_system_id) [
  | inr (t, f) ↦ simp (set_target, f) i
  | inl f ↦
      simp (set_target, f)
        (elim (Bool-cases (m.msg_id == heartbeat && m.src_compid == autopilot)) [
          | inl h ↦ rw h (IsConsistent-same e _ _ _ _ _ i)
          | inr h ↦ rw h i
        ])
]

pub count_write-IsConsistent :
    (n : ℕ) (e : LogEndpoint) → IsConsistent e → IsConsistent (count_write n e)
unfolding count_write
count_write-IsConsistent n e i = IsConsistent-same e _ _ _ _ _ i

pub start_opens :
    (o : Opening) (e : LogEndpoint)
    → is_some e.file ≡ false
    → is_some (start o e).1.file ≡ (start o e).0
unfolding start add_timers
start_opens o e h = ground (arith, h)
