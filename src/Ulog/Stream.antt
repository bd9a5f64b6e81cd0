-- ===== src/Ulog/Stream.antt =====
-- src/ulog.cpp, `ULog::_logging_seq` and `ULog::_logging_data_process`: which messages are taken, and what
-- becomes of their bytes.
use mavlink_router.Prelude.{
  ℕ, zero, suc, ◌+◌, ◌-◌, ◌%◌, ◌^◌, ◌≤◌, ◌<◌, ◌≡◌, ◌≢◌, refl, sym, ap, ◌∙◌, inl, inr, true, false,
  Option, none, some, List, [], ◌++◌, append-nil, append_assoc, arith, ltb, leb, ◌==◌,
  if◌then◌else◌, Bool-cases, length, take, le→ltb,
}
use mavlink_router.Os.{Ret}
use mavlink_router.Text.{Bytes}
use mavlink_router.Log.{Opening}
use mavlink_router.Ulog.{
  Ulog, End, corrupt, LoggingData, take_header, drop_lost, make_room, store, find_begin,
  logging_seq, logging_data_process, buffer_len_max,
}
use mavlink_router.Ulog.Flush.{logging_flush-Flushed, all_bytes}

-- How far a number is ahead of the one expected, modulo 2 ^ 16.
abbrev pub ahead : ℕ → ℕ → ℕ
ahead seq expected = (seq + 2 ^ 16 - expected) % 2 ^ 16

-- `_logging_seq`, by how far the number of a message is ahead of the one expected: the message expected is
-- taken; one at most 32767 ahead is taken as the first after a loss; and one further ahead is a repetition,
-- which is not taken and changes nothing. At 32768 and 32769 it depends on whether the numbers wrapped round.
logging_seq_lem :
    (seq expected : ℕ)
    → seq < 2 ^ 16
    → expected < 2 ^ 16
    → ahead seq expected ≢ 2 ^ 15
    → ahead seq expected ≢ 2 ^ 15 + 1
    → logging_seq seq expected ≡ (
        if ahead seq expected == 0
        then (some false, (seq + 1) % 2 ^ 16)
        else if leb (ahead seq expected) (2 ^ 15 - 1)
        then (some true, (seq + 1) % 2 ^ 16)
        else (none, expected))
unfolding logging_seq
logging_seq_lem seq expected s e h k = elim (Bool-cases (expected == seq)) [
  | inl same ↦
      let d : ahead seq expected ≡ 0 = ground (arith, same) in
      let f : expected ≡ seq = ground (arith, same) in rw (d, f) (ground arith)
  | inr n ↦ elim (Bool-cases (ltb expected seq)) [
    | inl less ↦
        let d : ahead seq expected ≡ seq - expected = ground (arith, less, s, e) in
        ground (arith, d, less, n)
    | inr more ↦
        let d : ahead seq expected ≡ 2 ^ 16 - (expected - seq) = ground (arith, more, n, s, e) in
        ground (arith, d, more, n, s, e, h, k)
  ]
]

logging_seq_next :
    (seq expected : ℕ)
    → expected ≡ seq
    → logging_seq seq expected ≡ (some false, (expected + 1) % 2 ^ 16)
unfolding logging_seq
logging_seq_next seq expected e = ground (arith, e)

-- The message ends up in what waits or is written.
abbrev pub Appends : Ulog → Bytes → Option (End × Ulog × List Ret) → Type 0
Appends u new none = ⊥
Appends u new (some (end, v, rs)) = end ≢ corrupt → all_bytes v ≡ all_bytes u ++ new

all_bytes-make_room :
    (n : ℕ) (u : Ulog)
    → length u.buffer + n ≤ buffer_len_max
    → (all_bytes (make_room n u) ≡ all_bytes u)
      × ((make_room n u).waiting_first_msg_offset ≡ u.waiting_first_msg_offset)
      × ((make_room n u).buffer_index + length (make_room n u).buffer + n ≤ buffer_len_max)
unfolding make_room all_bytes
all_bytes-make_room n u fits =
    rw (le→ltb buffer_len_max (length u.buffer + n) fits)
      (elim (Bool-cases (ltb buffer_len_max (u.buffer_index + length u.buffer + n))) [
        | inl far ↦ rw far (refl, refl, omega (arith, fits))
        | inr near ↦ rw near (refl, refl, ground (arith, near))
      ])

append_buffer :
    (u : Ulog) (new : Bytes)
    → all_bytes (record u { buffer = u.buffer ++ new }) ≡ all_bytes u ++ new
unfolding all_bytes
append_buffer u new =
    ap (λ x. u.written ++ x) (sym (append_assoc u.partial u.buffer new))
    ∙ sym (append_assoc u.written (u.partial ++ u.buffer) new)

empty_take : (n : ℕ) (s : Bytes) → (n == 0) ≡ true → take n s ≡ []
empty_take zero s h = refl
empty_take (suc n) s h = absurd (ground (arith, h))

store-Appends :
    (msg : LoggingData) (rs : List Ret) (u : Ulog)
    → msg.length < 2 ^ 8
    → u.buffer_index + length u.buffer + msg.length ≤ buffer_len_max
    → Appends u (take msg.length msg.bytes) (store 0 msg rs u)
unfolding store
store-Appends msg rs u small room =
    let n = msg.length in
    let all : (n + 2 ^ 8 - 0) % 2 ^ 8 ≡ n = omega (arith, small) in
    let v = record u { buffer = u.buffer ++ take n msg.bytes } in
    elim (Bool-cases (n == 0)) [
      | inl e ↦ rw e (λ _. rw (empty_take n msg.bytes e) (sym (append-nil (all_bytes u))))
      | inr m ↦
          rw (m, all, le→ltb buffer_len_max (u.buffer_index + length u.buffer + n) room)
            (λ c. (logging_flush-Flushed rs v).bytes c ∙ append_buffer u (take n msg.bytes))
    ]

take_header_later :
    (msg : LoggingData) (u : Ulog) → u.waiting_header ≡ false → take_header msg u ≡ some (msg, u)
unfolding take_header
take_header_later msg u h = simp h refl

find_begin_later :
    (msg : LoggingData) (rs : List Ret) (u : Ulog)
    → u.waiting_first_msg_offset ≡ false
    → find_begin msg rs u ≡ store 0 msg rs u
unfolding find_begin
find_begin_later msg rs u h = simp h refl

Appends-same :
    (a b : Ulog) (new : Bytes) (o : Option (End × Ulog × List Ret))
    → all_bytes a ≡ all_bytes b
    → Appends a new o
    → Appends b new o
Appends-same a b new none e p = p
Appends-same a b new (some (end, v, rs)) e p = λ c. p c ∙ ap (λ x. x ++ new) e

-- `_logging_data_process` of the message that is expected next, when the log waits neither for the header nor
-- for the offset of a first message and the buffer has room: unless a message is cut off by a short
-- write, exactly the bytes of this message are added, at the end, to what has been written or waits.
pub logging_data_process-Appends :
    (o : Opening) (msg : LoggingData) (rs : List Ret) (u : Ulog)
    → msg.length < 2 ^ 8
    → msg.sequence ≡ u.expected_seq
    → u.waiting_header ≡ false
    → u.waiting_first_msg_offset ≡ false
    → length u.buffer + msg.length ≤ buffer_len_max
    → Appends u (take msg.length msg.bytes) (logging_data_process o msg rs u)
unfolding logging_data_process drop_lost all_bytes
logging_data_process-Appends o msg rs u small next h w fits =
    let v = record u { expected_seq = (logging_seq msg.sequence u.expected_seq).1 } in
    let (same, flag, room) = all_bytes-make_room msg.length v fits in
    rw (logging_data_process, logging_seq_next msg.sequence u.expected_seq (sym next))
      (rw (take_header_later msg v h) (
        rw (find_begin_later msg rs (make_room msg.length v) (flag ∙ w)) (
          Appends-same (make_room msg.length v) u (take msg.length msg.bytes) _ same
            (store-Appends msg rs (make_room msg.length v) small room))))
