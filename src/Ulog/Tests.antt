-- ===== src/Ulog/Tests.antt =====
-- Logs at concrete inputs.
use mavlink_router.Prelude.{
  ℕ, inl, inr, ◌+◌, ◌^◌, ◌≡◌, ◌≢◌, ◌⊎◌, refl, true, false, none, some, is_some, List, [], ◌∷◌,
  arith,
}
use mavlink_router.Os.{Ret, count, failed, eagain}
use mavlink_router.Message.{Msg}
use mavlink_router.Log.{LogEndpoint, while_armed, disabled, Opening, handle_auto_start_stop}
use mavlink_router.Log.Arming.{handle_auto_start_stop_armed}
use mavlink_router.Ulog.{
  Ulog, LoggingData, logging_flush, logging_data_process, full_msg_size, holds_message, unanswered,
}
use mavlink_router.Ulog.Flush.{Flushed, logging_flush-Flushed}
use mavlink_router.Ulog.Halts.{
  NeverZero, Begins, first, behind, logging_flush_halts, zeros, logging_flush_hangs,
}
use mavlink_router.Ulog.Stream.{ahead, Appends, logging_data_process-Appends}
use mavlink_router.Ulog.Write.{Constants, logging_data, ulog_backend, write_msg}
use mavlink_router.Ulog.Sound.{EndsSound, write_msg-EndsSound}
use mavlink_router.Ulog.Timers.{IsSound, ulog_backend-IsBackend}

abbrev running : LogEndpoint
running = record {
  log_mode = while_armed;
  target_system_id = some 1;
  file = some 3;
  logging_start = true;
  fsync = true;
  alive = false;
  timeout_write_total = 0;
  write_total = 0;
  write_bytes = 0;
}

-- A message of one byte in the buffer, behind a byte that waits.
abbrev log_of : List ℕ → List ℕ → Ulog
log_of buffer partial = record {
  log = running;
  expected_seq = 5;
  waiting_header = false;
  waiting_first_msg_offset = false;
  buffer = buffer;
  buffer_index = 0;
  partial = partial;
  written = [];
}

abbrev one_message : List ℕ
one_message = 1 ∷ 0 ∷ 65 ∷ 7 ∷ []

abbrev answers : List Ret
answers = count 1 ∷ count 2 ∷ failed eagain ∷ count 1 ∷ count 1 ∷ []

logging_flush-Flushed_example :
    Flushed
      (log_of one_message (9 ∷ []))
      (logging_flush answers (log_of one_message (9 ∷ []))).0
      (logging_flush answers (log_of one_message (9 ∷ []))).1
logging_flush-Flushed_example = logging_flush-Flushed answers (log_of one_message (9 ∷ []))

-- A message whose payload has the bytes of a size of 65533.
abbrev harmless : List ℕ
harmless = 3 ∷ 0 ∷ 65 ∷ 0xFD ∷ 0xFF ∷ 1 ∷ []

harmless_begins : (n : ℕ) → Begins harmless n → (n ≡ 0) ⊎ (n ≡ 6)
unfolding full_msg_size holds_message
harmless_begins _ first = inl refl
harmless_begins _ (behind n s more) = elim (harmless_begins n s) [
  | inl e ↦ inr (rw e refl)
  | inr e ↦ let never : false ≡ true = rw e at more in cc
]

never_zero : NeverZero harmless
unfolding full_msg_size holds_message
never_zero n s more e = elim (harmless_begins n s) [
  | inl z ↦ let never : 6 ≡ 0 = rw z at e in omega (arith, never)
  | inr z ↦ let never : false ≡ true = rw z at more in cc
]

logging_flush_halts_example :
    (logging_flush (count 1 ∷ count 6 ∷ answers) (log_of harmless (9 ∷ []))).0 ≢ unanswered
logging_flush_halts_example =
    logging_flush_halts (count 1 ∷ count 6 ∷ answers) (log_of harmless (9 ∷ [])) never_zero
      (omega arith)

abbrev endless : List ℕ
endless = 0xFD ∷ 0xFF ∷ 65 ∷ []

size_wraps : full_msg_size endless ≡ 0
unfolding full_msg_size
size_wraps = refl

is_whole : holds_message endless ≡ true
unfolding holds_message full_msg_size
is_whole = refl

logging_flush_hangs_example : (logging_flush (zeros 3) (log_of endless [])).0 ≡ unanswered
logging_flush_hangs_example = logging_flush_hangs 3 (log_of endless []) refl size_wraps is_whole

not_half : ahead 7 5 ≢ 2 ^ 15
not_half e = omega (arith, e)

not_half_more : ahead 7 5 ≢ 2 ^ 15 + 1
not_half_more e = omega (arith, e)

abbrev content : LoggingData
content = record {
  sequence = 5;
  length = 3;
  first_message_offset = 255;
  bytes = 1 ∷ 0 ∷ 65 ∷ 0 ∷ 0 ∷ [];
}

abbrev opening : Opening
opening = record { file = some 4; logging_start = true; fsync = true }

logging_data_process-Appends_example :
    Appends
      (log_of [] [])
      (1 ∷ 0 ∷ 65 ∷ [])
      (logging_data_process opening content answers (log_of [] []))
logging_data_process-Appends_example =
    logging_data_process-Appends opening content answers (log_of [] []) (omega arith) refl refl refl
      (omega arith)

sound : IsSound (log_of one_message [])
sound = record {
  buffers = record { extent = omega arith; partial_fits = omega arith; waits = λ h. cc };
  timers = record {
    fsync_open = refl;
    logging_start_open = λ h. cc;
    alive_open = λ h. refl;
    one_of = refl;
  };
}

abbrev constants : Constants
constants = record { heartbeat = 0; autopilot = 1; cmd_logging_start = 2510; result_accepted = 0 }

abbrev packet : Msg
packet = record {
  bytes = 1 ∷ 2 ∷ 3 ∷ [];
  msg_id = 0;
  target_sysid = none;
  target_compid = none;
  src_sysid = 1;
  src_compid = 1;
  payload_len = 0;
  payload_ofs = 0;
}

write_msg-EndsSound_example : EndsSound (
    write_msg constants opening opening true true
      (logging_data content)
      packet
      (log_of one_message [], answers))
write_msg-EndsSound_example =
    write_msg-EndsSound constants opening opening true true (logging_data content) packet
      (log_of one_message []) answers (omega arith) sound

handle_auto_start_stop_armed_example :
    (is_some
        ((ulog_backend opening).log (
          handle_auto_start_stop
            (ulog_backend opening)
            0
            1
            packet
            false
            (log_of [] [], answers))).file
      ≡ false)
    ⊎ ((false ≡ true)
        × (is_some
              ((ulog_backend opening).log (
                handle_auto_start_stop
                  (ulog_backend opening)
                  0
                  1
                  packet
                  false
                  (log_of [] [], answers))).file
            ≡ false)
        × (((ulog_backend opening).log (
              handle_auto_start_stop
                (ulog_backend opening)
                0
                1
                packet
                false
                (log_of [] [], answers))).log_mode
            ≡ disabled))
handle_auto_start_stop_armed_example =
    handle_auto_start_stop_armed opening (ulog_backend opening) (ulog_backend-IsBackend opening) 0 1
      1 packet false (log_of [] [], answers) refl refl refl refl refl
