-- ===== src/Timers.antt =====
-- src/mainloop.cpp and src/timeout.cpp: the list of timers of the main loop.
pub mod Removal
mod Tests
use mavlink_router.Prelude.{
  ℕ, ◌+◌, ◌*◌, ◌/◌, ◌%◌, Bool, true, false, ◌&&◌, ◌||◌, not, Option, none, some, List, [], ◌∷◌,
  ◌==◌, if◌then◌else◌,
}
use mavlink_router.Os.{Ret, is_positive}

-- `struct timespec`
pub record TimeSpec : Type 0 where
  pub sec : ℕ
  pub nsec : ℕ

-- A `Timeout`: `interval` and `value` are what its timerfd was last set to; its callback is a parameter
-- of `timeout_read`. The list `_timeouts` is a list of these.
pub record Timeout : Type 0 where
  pub fd : ℕ
  pub interval : TimeSpec
  pub value : TimeSpec
  pub remove_me : Bool

-- The period of `mod_timeout`, in whole seconds and the nanoseconds that remain.
pub timespec_of : ℕ → TimeSpec
timespec_of timeout_msec = record {
  sec = timeout_msec / 1000;
  nsec = timeout_msec % 1000 * 1000000;
}

pub mod_timeout : ℕ → Timeout → Timeout
mod_timeout timeout_msec t = record t {
  interval = timespec_of timeout_msec;
  value = timespec_of timeout_msec;
}

-- `add_timeout`: what `timerfd_create` returns, and whether `add_fd` succeeds, are inputs.
pub add_timeout : ℕ → Option ℕ → Bool → List Timeout → Option Timeout × List Timeout
add_timeout timeout_msec none added ts = (none, ts)
add_timeout timeout_msec (some fd) added ts =
    let t =
      mod_timeout timeout_msec
        (record { fd = fd; interval = timespec_of 0; value = timespec_of 0; remove_me = false }) in
    if added then (some t, t ∷ ts) else (none, ts)

-- `Timeout::handle_read`: what `read` returns, the number of expirations that it reads, and what the
-- callback answers.
pub timeout_read : Ret → ℕ → Bool → Timeout → Timeout
timeout_read system val answer t =
    if not (is_positive system) || val == 0 || t.remove_me
    then t
    else if not answer
    then record t { remove_me = true }
    else t

-- The list after `_del_timeouts`, and the descriptors that it has removed from the poll set, in order.
pub record Deleted : Type 0 where
  pub kept : List Timeout
  pub removed : List ℕ

-- The second loop of `_del_timeouts`, behind a timer `prev` that stays.
pub del_behind : Timeout → List Timeout → Deleted
del_behind prev [] = record { kept = prev ∷ []; removed = [] }
del_behind prev (current ∷ next) = elim current.remove_me [
  | true ↦
      let unlinked = del_behind prev next in
      record { kept = unlinked.kept; removed = current.fd ∷ unlinked.removed }
  | false ↦
      let stepped = del_behind current next in
      record { kept = prev ∷ stepped.kept; removed = stepped.removed }
]

-- `_del_timeouts`: the first loop, and then the second.
pub del_timeouts : List Timeout → Deleted
del_timeouts [] = record { kept = []; removed = [] }
del_timeouts (t ∷ ts) =
    let rest = del_timeouts ts in
    if t.remove_me
    then record { kept = rest.kept; removed = t.fd ∷ rest.removed }
    else del_behind t ts
