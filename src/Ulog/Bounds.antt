-- ===== src/Ulog/Bounds.antt =====
-- src/ulog.cpp, `ULog::_logging_data_process`: the bounds of the buffers.
use mavlink_router.Prelude.{
  ℕ, ◌+◌, ◌-◌, ◌%◌, ◌^◌, ◌≤◌, ◌<◌, ◌≡◌, refl, inl, inr, Bool, false, Option, none, some, List, ◌++◌,
  arith, ltb, ◌==◌, Bool-cases, length, length-append, take, drop,
}
use mavlink_router.Os.{Ret}
use mavlink_router.Log.{Opening}
use mavlink_router.Ulog.{
  Ulog, done, LoggingData, ulog_stop, ulog_start, take_header, same_bytes, ulog_magic, drop_lost,
  make_room, store, find_begin, logging_seq, logging_data_process, buffer_len_max, ulog_header_size,
  no_first_msg_offset,
}
use mavlink_router.Ulog.Flush.{length-take_le}
use mavlink_router.Ulog.Valid.{
  IsValid, IsSafe, logging_flush-IsValid, ulog_stop-IsValid, ulog_start-IsValid, drop_lost-IsValid,
}

-- There is room for so many bytes.
abbrev HasRoom : ℕ → Ulog → Type 0
HasRoom n u = u.buffer_index + length u.buffer + n ≤ buffer_len_max

make_room-HasRoom :
    (n : ℕ) (u : Ulog) → n < 2 ^ 8 → IsValid u → IsValid (make_room n u) × HasRoom n (make_room n u)
unfolding make_room
make_room-HasRoom n u small i = elim (Bool-cases (ltb buffer_len_max (length u.buffer + n))) [
  | inl full ↦
      let first : ltb buffer_len_max (u.buffer_index + 0 + n) ≡ false =
        ground (arith, full, i.extent, small) in
      rw (full, first)
        (
          record {
            extent = omega (arith, i.extent);
            partial_fits = i.partial_fits;
            waits = λ w. (refl, ground (arith, full, i.extent, small));
          },
          ground (arith, first),
        )
  | inr fits ↦
      rw fits (elim (Bool-cases (ltb buffer_len_max (u.buffer_index + length u.buffer + n))) [
        | inl far ↦ rw far (
          record {
            extent = ground (arith, fits);
            partial_fits = i.partial_fits;
            waits = λ w. ((i.waits w).0, omega arith);
          },
          ground (arith, fits),
        )
        | inr near ↦ rw near (i, ground (arith, near))
      ])
]

store-IsSafe :
    (begin : ℕ) (msg : LoggingData) (rs : List Ret) (u : Ulog)
    → IsValid u
    → u.waiting_first_msg_offset ≡ false
    → HasRoom ((msg.length + 2 ^ 8 - begin) % 2 ^ 8) u
    → IsSafe (store begin msg rs u)
unfolding store
store-IsSafe begin msg rs u i idle room =
    let n = (msg.length + 2 ^ 8 - begin) % 2 ^ 8 in
    let fits : ltb buffer_len_max (u.buffer_index + length u.buffer + n) ≡ false =
      ground (arith, room) in
    elim (Bool-cases (msg.length == 0)) [
      | inl e ↦ rw e i
      | inr m ↦
          rw (m, fits)
            (logging_flush-IsValid rs
              (record u { buffer = u.buffer ++ take n (drop begin msg.bytes) })
              (record {
                extent = omega (
                  arith,
                  room,
                  length-append u.buffer (take n (drop begin msg.bytes)),
                  length-take_le n (drop begin msg.bytes),
                );
                partial_fits = i.partial_fits;
                waits = λ w. cc;
              }))
    ]

find_begin-IsSafe :
    (msg : LoggingData) (rs : List Ret) (u : Ulog)
    → msg.length < 2 ^ 8
    → IsValid u
    → HasRoom msg.length u
    → IsSafe (find_begin msg rs u)
unfolding find_begin
find_begin-IsSafe msg rs u small i room = elim (Bool-cases u.waiting_first_msg_offset) [
  | inr idle ↦
      let all : (msg.length + 2 ^ 8 - 0) % 2 ^ 8 ≡ msg.length = omega (arith, small) in
      simp idle (store-IsSafe 0 msg rs u i idle (rw all room))
  | inl w ↦ simp w (elim (Bool-cases (msg.first_message_offset == no_first_msg_offset)) [
    | inl e ↦ rw e i
    | inr n ↦
        let (empty, near) = i.waits w in
        let v = record u { waiting_first_msg_offset = false } in
        rw n (
          store-IsSafe msg.first_message_offset msg rs v
            (record { extent = i.extent; partial_fits = i.partial_fits; waits = λ f. cc }) refl
            (omega (arith, empty, near)))
  ])
]

abbrev IsReady : Option (LoggingData × Ulog) → Type 0
IsReady none = Unit
IsReady (some (msg, u)) = (msg.length < 2 ^ 8) × IsValid u

take_header-IsReady :
    (msg : LoggingData) (u : Ulog) → msg.length < 2 ^ 8 → IsValid u → IsReady (take_header msg u)
unfolding take_header
take_header-IsReady msg u small i = elim (Bool-cases u.waiting_header) [
  | inr n ↦ simp n (small, i)
  | inl w ↦ simp w (elim (Bool-cases (ltb msg.length ulog_header_size)) [
    | inl e ↦ rw e tt
    | inr n ↦ rw n (elim (Bool-cases (same_bytes (take 7 msg.bytes) ulog_magic)) [
      | inr e ↦ rw e tt
      | inl m ↦ rw m (
        omega (arith, small),
        record {
          extent = i.extent;
          partial_fits = omega (arith, length-take_le ulog_header_size msg.bytes);
          waits = i.waits;
        },
      )
    ])
  ])
]

handled-IsSafe :
    (o : Opening) (msg : LoggingData) (rs : List Ret) (u : Ulog) (drops : Bool)
    → msg.length < 2 ^ 8
    → IsValid u
    → IsSafe (elim (take_header msg u) [
      | none ↦ let (w, more) = ulog_stop rs u in some (done, (ulog_start o w).1, more)
      | some (msg', w) ↦
          let (x, more) = drop_lost drops rs w in find_begin msg' more (make_room msg'.length x)
    ])
handled-IsSafe o msg rs u drops small i = go (take_header msg u) (take_header-IsReady msg u small i)
  where
    go :
        (h : Option (LoggingData × Ulog))
        → IsReady h
        → IsSafe (elim h [
          | none ↦ let (w, more) = ulog_stop rs u in some (done, (ulog_start o w).1, more)
          | some (msg', w) ↦
              let (x, more) = drop_lost drops rs w in find_begin msg' more (make_room msg'.length x)
        ])
    go none r = ulog_start-IsValid o _ (ulog_stop-IsValid rs u i)
    go (some (msg', w)) (short, j) =
        let (x, more) = drop_lost drops rs w in
        let (k, room) = make_room-HasRoom msg'.length x short (drop_lost-IsValid drops rs w j) in
        find_begin-IsSafe msg' more (make_room msg'.length x) short k room

-- `_logging_data_process`, for any message and whatever the calls of `write` return, never writes behind
-- the end of `_buffer`, and afterwards the valid bytes lie inside `_buffer` and `_buffer_partial`; and
-- while the log waits for the offset of a first message, its buffer is empty and begins below 256.
pub logging_data_process-IsSafe :
    (o : Opening) (msg : LoggingData) (rs : List Ret) (u : Ulog)
    → msg.length < 2 ^ 8
    → IsValid u
    → IsSafe (logging_data_process o msg rs u)
unfolding logging_data_process
logging_data_process-IsSafe o msg rs u small i = go (logging_seq msg.sequence u.expected_seq).0
  where
    v : Ulog
    v = record u { expected_seq = (logging_seq msg.sequence u.expected_seq).1 }

    go :
        (h : Option Bool)
        → IsSafe (elim h [
          | none ↦ some (done, v, rs)
          | some drops ↦ elim (take_header msg v) [
            | none ↦ let (w, more) = ulog_stop rs v in some (done, (ulog_start o w).1, more)
            | some (msg', w) ↦
                let (x, more) = drop_lost drops rs w in
                find_begin msg' more (make_room msg'.length x)
          ]
        ])
    go none = record { extent = i.extent; partial_fits = i.partial_fits; waits = i.waits }
    go (some drops) =
        handled-IsSafe o msg rs v drops small
          (record { extent = i.extent; partial_fits = i.partial_fits; waits = i.waits })
