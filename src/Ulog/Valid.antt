-- ===== src/Ulog/Valid.antt =====
-- src/ulog.cpp: the bounds of the buffers, and that a flush, a start and a stop keep them.
use mavlink_router.Prelude.{
  ℕ, zero, suc, ◌+◌, ◌^◌, ◌≤◌, ◌<◌, ◌≡◌, refl, sym, ◌∙◌, inl, inr, Bool, true, false, Option, none,
  some, List, [], arith, ◌==◌, Bool-cases, is_some, length,
}
use mavlink_router.Os.{Ret}
use mavlink_router.Log.{Opening, start}
use mavlink_router.Ulog.{
  Ulog, End, logging_flush, stop_loop, ulog_stop, ulog_start, drop_lost, partial_max,
  buffer_len_max, succeeded,
}
use mavlink_router.Ulog.Flush.{Flushed, logging_flush-Flushed}

-- The bytes in the buffers are inside them; and while a log waits for the offset of a first message, its
-- buffer is empty, and empty near its start.
pub record IsValid (u : Ulog) : Type 0 where
  pub extent : u.buffer_index + length u.buffer ≤ buffer_len_max
  pub partial_fits : length u.partial ≤ partial_max
  pub waits : u.waiting_first_msg_offset ≡ true → (length u.buffer ≡ 0) × (u.buffer_index < 2 ^ 8)

-- It ends without a write behind the buffer, in a state that is valid.
abbrev pub IsSafe : Option (End × Ulog × List Ret) → Type 0
IsSafe none = ⊥
IsSafe (some (end, u, rs)) = IsValid u

Flushed-IsValid : (u v : Ulog) (end : End) → Flushed u end v → IsValid u → IsValid v
Flushed-IsValid u v end f i = record {
  extent = omega (arith, f.extent, i.extent);
  partial_fits = f.partial_fits i.partial_fits;
  waits = λ w.
      let (empty, near) = i.waits (sym f.flag ∙ w) in
      (omega (arith, empty, f.shrinks), omega (arith, near, f.extent, empty));
}

pub logging_flush-IsValid : (rs : List Ret) (u : Ulog) → IsValid u → IsValid (logging_flush rs u).1
logging_flush-IsValid rs u i = Flushed-IsValid u _ _ (logging_flush-Flushed rs u) i

stop_loop-IsValid :
    (fuel : ℕ) (rs : List Ret) (u : Ulog) → IsValid u → IsValid (stop_loop fuel rs u).0
unfolding stop_loop
stop_loop-IsValid zero rs u i = i
stop_loop-IsValid (suc fuel) rs u i =
    let (end, v, more) = logging_flush rs u in
    let j = logging_flush-IsValid rs u i in
    elim (Bool-cases (length u.partial == 0)) [
      | inl e ↦ rw e i
      | inr n ↦ rw n (elim (Bool-cases (succeeded end)) [
        | inl s ↦ rw s (stop_loop-IsValid fuel more v j)
        | inr s ↦ rw s j
      ])
    ]

emptied-IsValid : (u : Ulog) → IsValid u → IsValid (record u { buffer = [] })
emptied-IsValid u i = record {
  extent = omega (arith, i.extent);
  partial_fits = i.partial_fits;
  waits = λ w. (refl, (i.waits w).1);
}

pub ulog_stop-IsValid : (rs : List Ret) (u : Ulog) → IsValid u → IsValid (ulog_stop rs u).0
unfolding ulog_stop
ulog_stop-IsValid rs u i =
    let j =
      stop_loop-IsValid (suc (length rs)) rs (record u { buffer = [] }) (emptied-IsValid u i) in
    elim (Bool-cases (is_some u.log.file)) [
      | inl e ↦ rw e (record { extent = j.extent; partial_fits = j.partial_fits; waits = j.waits })
      | inr n ↦ rw n i
    ]

pub ulog_start-IsValid : (o : Opening) (u : Ulog) → IsValid u → IsValid (ulog_start o u).1
unfolding ulog_start
ulog_start-IsValid o u i = elim (Bool-cases (start o u.log).0) [
  | inl e ↦ rw e (record { extent = omega arith; partial_fits = omega arith; waits = λ w. cc })
  | inr n ↦ rw n (record { extent = i.extent; partial_fits = i.partial_fits; waits = i.waits })
]

pub drop_lost-IsValid :
    (drops : Bool) (rs : List Ret) (u : Ulog) → IsValid u → IsValid (drop_lost drops rs u).0
unfolding drop_lost
drop_lost-IsValid true rs u i = record {
  extent = omega arith;
  partial_fits = (logging_flush-IsValid rs u i).partial_fits;
  waits = λ w. (refl, omega arith);
}
drop_lost-IsValid false rs u i = i
