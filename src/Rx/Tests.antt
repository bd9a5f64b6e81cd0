-- ===== src/Rx/Tests.antt =====
-- The receiving side at concrete inputs.
use mavlink_router.Prelude.{
  ℕ, suc, ◌+◌, ◌%◌, ◌≡◌, refl, true, false, none, some, List, [], ◌∷◌, ◌++◌, arith, ◌==◌,
  if◌then◌else◌, take, drop,
}
use mavlink_router.Message.{Mavlink, MsgEntry}
use mavlink_router.Rx.{
  Rx, ReadStat, bytes, nothing, read_msg, read_loop, rx_buf_max_size, count_drops,
}
use mavlink_router.Rx.Bounds.{IsValid, read_msg-IsValid}
use mavlink_router.Rx.Frames.{Frame, encode, IsWellFormed}
use mavlink_router.Rx.Chunks.{stream, messages}
use mavlink_router.Rx.Session.{handle_reads, handle_reads_lem}
use mavlink_router.Rx.Halts.{Ends, read_loop_halts}
use mavlink_router.Rx.Sequence.{count_drops_lem}

abbrev sum : List ℕ → ℕ
sum [] = 0
sum (x ∷ xs) = x + sum xs

-- A heartbeat without a target, and a command whose target is in the first two bytes.
abbrev heartbeat : MsgEntry
heartbeat = record {
  msgid = 0;
  crc_extra = 50;
  max_msg_len = 9;
  have_target_system = false;
  have_target_component = false;
  target_system_ofs = 0;
  target_component_ofs = 0;
}

abbrev command : MsgEntry
command = record {
  msgid = 76;
  crc_extra = 152;
  max_msg_len = 33;
  have_target_system = true;
  have_target_component = true;
  target_system_ofs = 0;
  target_component_ofs = 1;
}

abbrev lib : Mavlink
lib = record {
  stx = 253;
  stx_mavlink1 = 254;
  iflag_signed = 1;
  signature_block_len = 13;
  max_packet_len = 280;
  get_msg_entry = λ id. if id == 0 then some heartbeat else if id == 76 then some command else none;
  crc_calculate = λ bs. sum bs % 65536;
  crc_accumulate = λ b crc. (b + crc) % 65536;
}

-- Version 1, sum of the covered bytes 3 + 7 + 1 + 1 + 0 + 5 + 6 + 7, and 50.
abbrev first : Frame
first = record {
  mavlink2 = false;
  incompat_flags = 0;
  compat_flags = 0;
  seq = 7;
  sysid = 1;
  compid = 1;
  msgid = 0;
  payload = 5 ∷ 6 ∷ 7 ∷ [];
  crc_lo = 80;
  crc_hi = 0;
  signature = [];
}

-- Version 2, of a message that the library does not know.
abbrev second : Frame
second = record {
  mavlink2 = true;
  incompat_flags = 0;
  compat_flags = 0;
  seq = 8;
  sysid = 1;
  compid = 2;
  msgid = 70000;
  payload = 9 ∷ [];
  crc_lo = 1;
  crc_hi = 2;
  signature = [];
}

abbrev fresh_stat : ReadStat
fresh_stat = record {
  crc_error_bytes = 0;
  handled_bytes = 0;
  total = 0;
  crc_error = 0;
  handled = 0;
  drop_seq_total = 0;
  expected_seq = 0;
}

abbrev fresh : Rx
fresh = record { fd = some 4; held = []; stale = 0; last_packet_len = 0; stat = fresh_stat }

-- The two packets, cut inside the header of the second.
abbrev chunks : List (List ℕ)
chunks = take 15 all ∷ drop 15 all ∷ []
  where
    all : List ℕ
    all = encode lib first ++ encode lib second

some_inj : {a b : MsgEntry} → some a ≡ some b → a ≡ b
some_inj e = cc

first-IsWellFormed : IsWellFormed lib first
first-IsWellFormed = record { signed = refl; checksum = λ entry e. rw (← some_inj e) }

second-IsWellFormed : IsWellFormed lib second
second-IsWellFormed = record { signed = refl; checksum = λ entry e. cc }

handle_reads_lem_example :
    (final : Rx) × (handle_reads lib 3 nothing chunks fresh
      ≡ some (messages lib (first ∷ second ∷ []), final))
    × (final.held ≡ [])
unfolding stream
handle_reads_lem_example =
    handle_reads_lem lib (omega arith) nothing 4 chunks (first ∷ second ∷ []) fresh
      (first-IsWellFormed, (second-IsWellFormed, tt)) refl refl refl refl

fresh-IsValid : IsValid lib fresh
fresh-IsValid = record {
  octets = tt;
  within = omega arith;
  last_in = omega arith;
  incomplete = λ _. omega arith;
}

read_msg-IsValid_example : IsValid lib (read_msg lib (bytes (253 ∷ 1 ∷ 2 ∷ [])) fresh).1
read_msg-IsValid_example =
    read_msg-IsValid lib (omega arith) (bytes (253 ∷ 1 ∷ 2 ∷ [])) fresh fresh-IsValid (omega arith)

read_loop_halts_example :
    Ends lib (read_loop lib (suc (rx_buf_max_size lib)) (bytes (7 ∷ 253 ∷ [])) nothing fresh)
read_loop_halts_example =
    read_loop_halts lib (bytes (7 ∷ 253 ∷ [])) nothing fresh fresh-IsValid (omega arith)

-- After number 250 comes number 1: six messages are missing, and five are counted.
count_drops_lem_example :
    let s = record fresh_stat { total = 9; expected_seq = 251 } in
    let s' = count_drops 1 s in (s'.expected_seq ≡ 2) × (s'.drop_seq_total ≡ 5) × (s'.total ≡ 14)
count_drops_lem_example =
    count_drops_lem 1 (record fresh_stat { total = 9; expected_seq = 251 }) (omega arith)
      (omega arith) (omega arith) (omega arith) (omega arith)
