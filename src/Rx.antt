-- ===== src/Rx.antt =====
-- src/endpoint.cpp: `Endpoint::read_msg` and `Endpoint::_check_crc`, which cut the bytes of a link
-- into messages, and the loop of `Endpoint::handle_read` around them.
pub mod Bounds
pub mod Frames
pub mod Deliver
pub mod Stream
pub mod Chunks
pub mod Session
pub mod Halts
pub mod Sequence
mod Tests
use Prim.Native.Nat.{bit_and}
use mavlink_router.Prelude.{
  ℕ, zero, suc, ◌+◌, ◌-◌, ◌*◌, ◌%◌, ◌^◌, Bool, true, false, ◌||◌, Option, none, some, List, [], ◌∷◌,
  ◌++◌, ltb, ◌==◌, if◌then◌else◌, length, get_or, take, drop,
}
use mavlink_router.Os.{Errno, einval}
use mavlink_router.Message.{Msg, MsgEntry, Mavlink, byte}

-- `_stat.read`
pub record ReadStat : Type 0 where
  pub crc_error_bytes : ℕ
  pub handled_bytes : ℕ
  pub total : ℕ
  pub crc_error : ℕ
  pub handled : ℕ
  pub drop_seq_total : ℕ
  pub expected_seq : ℕ

-- The receiving side of an `Endpoint`. `held` is `rx_buf.data[0 .. rx_buf.len)`. The code looks at
-- `data[0]` also when `rx_buf.len` is 0: `stale` is the byte that it then finds, what stood there
-- before the buffer was emptied.
pub record Rx : Type 0 where
  pub fd : Option ℕ
  pub held : List ℕ
  pub stale : ℕ
  pub last_packet_len : ℕ
  pub stat : ReadStat

-- What `_read_msg` returns: bytes (never none), 0, or an error.
pub data Input : Type 0 where
  bytes : List ℕ → Input
  nothing : Input
  error : Errno → Input

-- What `read_msg` returns: `ReadOk` or `ReadUnkownMsg` with the message, 0, or an error.
pub data Outcome : Type 0 where
  read_ok : Msg → Outcome
  read_unknown_msg : Msg → Outcome
  idle : Outcome
  broken : Errno → Outcome

-- The fields that `read_msg` takes from either header.
pub record Header : Type 0 where
  pub size : ℕ
  pub payload_len : ℕ
  pub seq : ℕ
  pub sysid : ℕ
  pub compid : ℕ
  pub msgid : ℕ
  pub expected_size : ℕ

-- `sizeof(mavlink_router_mavlink2_header)` and `sizeof(mavlink_router_mavlink1_header)`
abbrev pub header_size : Bool → ℕ
header_size true = 10
header_size false = 6

module _ (lib : Mavlink) where
  open lib use {stx, stx_mavlink1, iflag_signed, signature_block_len, max_packet_len}

  pub rx_buf_max_size : ℕ
  rx_buf_max_size = max_packet_len * 4

  abbrev pub is_magic : ℕ → Bool
  is_magic b = b == stx || b == stx_mavlink1

  -- The search for a start byte, from index 1 on.
  pub find_stx : List ℕ → Option (List ℕ)
  find_stx [] = none
  find_stx (b ∷ bs) = if is_magic b then some (b ∷ bs) else find_stx bs

  -- The buffer moved to its start byte, or `none` where there is no start byte.
  pub align : ℕ → List ℕ → Option (List ℕ)
  align stale [] = if is_magic stale then some [] else none
  align stale (b ∷ bs) = if is_magic b then some (b ∷ bs) else find_stx bs

  pub header : Bool → List ℕ → Header
  header true d = record {
    size = 10;
    payload_len = byte d 1;
    seq = byte d 4;
    sysid = byte d 5;
    compid = byte d 6;
    msgid = byte d 7 + 256 * byte d 8 + 65536 * byte d 9;
    expected_size =
        10
        + byte d 1
        + 2
        + (if bit_and (byte d 2) iflag_signed == 0 then 0 else signature_block_len);
  }
  header false d = record {
    size = 6;
    payload_len = byte d 1;
    seq = byte d 2;
    sysid = byte d 3;
    compid = byte d 4;
    msgid = byte d 5;
    expected_size = 6 + byte d 1 + 2;
  }

  -- `_check_crc`
  pub check_crc : MsgEntry → Header → List ℕ → Bool
  check_crc entry h d =
      let crc_msg = byte d (h.size + h.payload_len) + 256 * byte d (h.size + h.payload_len + 1) in
      let crc_calc = lib.crc_calculate (take (h.size + h.payload_len - 1) (drop 1 d)) in
      lib.crc_accumulate entry.crc_extra crc_calc == crc_msg

  -- A target address: absent, trimmed off the payload, or a byte of the payload.
  pub target : Bool → ℕ → Header → List ℕ → Option ℕ
  target present ofs h d =
      if present then some (if ltb ofs h.payload_len then byte d (h.size + ofs) else 0) else none

  -- `pbuf->curr`, `pbuf->data` and `pbuf->len`
  pub message : Option MsgEntry → Header → List ℕ → Msg
  message none h d = record {
    bytes = take h.expected_size d;
    msg_id = h.msgid;
    target_sysid = none;
    target_compid = none;
    src_sysid = h.sysid;
    src_compid = h.compid;
    payload_len = h.payload_len;
    payload_ofs = h.size;
  }
  message (some entry) h d = record {
    bytes = take h.expected_size d;
    msg_id = entry.msgid;
    target_sysid = target entry.have_target_system entry.target_system_ofs h d;
    target_compid = target entry.have_target_component entry.target_component_ofs h d;
    src_sysid = h.sysid;
    src_compid = h.compid;
    payload_len = h.payload_len;
    payload_ofs = h.size;
  }

-- How many messages were lost before `seq`, as the code counts them in a `uint8_t`.
pub seq_diff : ℕ → ℕ → ℕ
seq_diff expected seq = if ltb expected seq then seq - expected else (255 - expected + seq) % 256

-- The check for sequence drops.
pub count_drops : ℕ → ReadStat → ReadStat
count_drops seq s =
    if s.expected_seq == seq
    then record s { expected_seq = (s.expected_seq + 1) % 256 }
    else let diff = if ltb 1 s.total then seq_diff s.expected_seq seq else 0 in
      record s {
        drop_seq_total = (s.drop_seq_total + diff) % 2 ^ 32;
        total = (s.total + diff) % 2 ^ 32;
        expected_seq = (seq + 1) % 256;
      }

abbrev pub count_total : ReadStat → ReadStat
count_total s = record s { total = (s.total + 1) % 2 ^ 32 }

abbrev pub count_crc_error : ℕ → ReadStat → ReadStat
count_crc_error size s = record s {
  crc_error = (s.crc_error + 1) % 2 ^ 32;
  crc_error_bytes = (s.crc_error_bytes + size) % 2 ^ 64;
}

abbrev pub count_handled : ℕ → ReadStat → ReadStat
count_handled size s = record s {
  handled = (s.handled + 1) % 2 ^ 32;
  handled_bytes = (s.handled_bytes + size) % 2 ^ 64;
}

module _ (lib : Mavlink) where
  -- From the CRC check on, for a complete packet at the start of the buffer.
  pub deliver : Option MsgEntry → Header → Rx → Outcome × Rx
  deliver none h rx = (
    read_unknown_msg (message lib none h rx.held),
    record rx { stat = count_drops h.seq (count_handled h.expected_size rx.stat) },
  )
  deliver (some entry) h rx =
      if check_crc lib entry h rx.held
      then (
        read_ok (message lib (some entry) h rx.held),
        record rx { stat = count_drops h.seq (count_handled h.expected_size rx.stat) },
      )
      else (idle, record rx { stat = count_crc_error h.expected_size rx.stat })

  -- From the header on, with the start byte of a packet at the start of the buffer.
  pub parse : Bool → Rx → Outcome × Rx
  unfolding deliver
  parse mavlink2 rx =
      let h = header lib mavlink2 rx.held in
      if ltb (length rx.held) (header_size mavlink2)
      then (idle, rx)
      else if ltb (length rx.held) h.expected_size
      then (idle, rx)
      else deliver (lib.get_msg_entry h.msgid) h
          (record rx { last_packet_len = h.expected_size; stat = count_total rx.stat })

  -- From the search for the start byte on.
  pub scan : Rx → Outcome × Rx
  scan rx = elim (align lib rx.stale rx.held) [
    | none ↦ (idle, record rx { held = []; stale = get_or rx.held 0 rx.stale })
    | some held ↦ parse (get_or held 0 rx.stale == lib.stx) (record rx { held = held })
  ]

  -- Whether this call of `read_msg` calls `_read_msg`.
  pub reads_more : Rx → Bool
  reads_more rx = rx.last_packet_len == 0

  -- The call of `_read_msg`, which is handed the room left in the buffer.
  pub fill : Input → Rx → Outcome × Rx
  fill nothing rx = (idle, rx)
  fill (error e) rx = (broken e, rx)
  fill (bytes bs) rx = scan (record rx { held = rx.held ++ bs })

  -- `read_msg` on an open descriptor. The packet that the last call left is dropped first.
  pub read_open : Input → Rx → Outcome × Rx
  read_open input rx =
      if reads_more rx
      then fill input rx
      else scan (record rx {
        held = drop rx.last_packet_len rx.held;
        stale = get_or rx.held 0 rx.stale;
        last_packet_len = 0;
      })

  pub read_msg : Input → Rx → Outcome × Rx
  read_msg input rx = elim rx.fd [ none ↦ (broken einval, rx) | some fd ↦ read_open input rx ]

-- The body of the loop of `handle_read`, as far as it reads: `break`, or one message more for those
-- that the later rounds hand on.
pub take_turn : Outcome → Rx → Option (List Msg × Outcome × Rx) → Option (List Msg × Outcome × Rx)
take_turn idle rx rest = some ([], idle, rx)
take_turn (broken e) rx rest = some ([], broken e, rx)
take_turn (read_ok m) rx none = none
take_turn (read_ok m) rx (some (ms, end, last)) = some (m ∷ ms, end, last)
take_turn (read_unknown_msg m) rx none = none
take_turn (read_unknown_msg m) rx (some (ms, end, last)) = some (m ∷ ms, end, last)

-- The loop of `handle_read`: the messages that it hands on, and the result that ends it. `input` is
-- what `_read_msg` returns in the first round, `later` in the rounds after it. `none`: out of fuel.
pub read_loop : Mavlink → ℕ → Input → Input → Rx → Option (List Msg × Outcome × Rx)
unfolding take_turn
read_loop lib zero input later rx = none
read_loop lib (suc fuel) input later rx =
    let (outcome, rx') = read_msg lib input rx in
    let rest = read_loop lib fuel later later rx' in take_turn outcome rx' rest
