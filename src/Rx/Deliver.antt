-- ===== src/Rx/Deliver.antt =====
-- src/endpoint.cpp, `Endpoint::read_msg` from the CRC check on: which message a packet becomes.
use mavlink_router.Prelude.{
  ℕ, ◌+◌, ◌-◌, ◌*◌, ◌≤◌, ◌≡◌, refl, sym, ap, ◌∙◌, inl, inr, Bool, true, false, Option, none, some,
  List, ◌++◌, arith, ltb, if◌then◌else◌, Bool-cases, length, get_or, take, drop, append_assoc,
  take-length-append, get_or-append_left, get_or-append_right, get_or_beyond, le→ltb, ==_refl,
  length-append,
}
use mavlink_router.Message.{Mavlink, byte, MsgEntry, Msg}
use mavlink_router.Rx.{
  Rx, Outcome, read_ok, read_unknown_msg, header_size, header, check_crc, target, message, deliver,
  parse, count_drops, count_handled, count_total,
}
use mavlink_router.Rx.Frames.{
  Frame, covered_header, laid_out, encode, encode-append, IsWellFormed, length-laid_out,
  length-encode, frame_header, header-laid_out, byte-laid_out,
}

module _ (lib : Mavlink) where
  -- The target address in a payload: 0 where the sender has trimmed it off.
  abbrev pub address : Bool → ℕ → Frame → Option ℕ
  address present ofs f = if present then some (get_or f.payload ofs 0) else none

  -- The message that a packet carries, read off the packet itself.
  pub carried : Option MsgEntry → Frame → Msg
  carried none f = record {
    bytes = encode lib f;
    msg_id = f.msgid;
    target_sysid = none;
    target_compid = none;
    src_sysid = f.sysid;
    src_compid = f.compid;
    payload_len = length f.payload;
    payload_ofs = header_size f.mavlink2;
  }
  carried (some entry) f = record {
    bytes = encode lib f;
    msg_id = entry.msgid;
    target_sysid = address entry.have_target_system entry.target_system_ofs f;
    target_compid = address entry.have_target_component entry.target_component_ofs f;
    src_sysid = f.sysid;
    src_compid = f.compid;
    payload_len = length f.payload;
    payload_ofs = header_size f.mavlink2;
  }

  abbrev pub arrival : Option MsgEntry → Frame → Outcome
  arrival none f = read_unknown_msg (carried none f)
  arrival (some entry) f = read_ok (carried (some entry) f)

  target-address :
      (present : Bool) (ofs : ℕ) (b : Bool) (f : Frame) (rest : List ℕ)
      → target lib present ofs (frame_header lib b f) (laid_out lib b f rest)
        ≡ address present ofs f
  unfolding target
  target-address false ofs b f rest = refl
  target-address true ofs b f rest = elim (Bool-cases (ltb ofs (length f.payload))) [
    | inl e ↦ rw e (
        ap some
          (byte-laid_out lib b f rest ofs ∙ get_or-append_left f.payload _ ofs 0 (ground arith)))
    | inr e ↦ rw e (ap some (sym (get_or_beyond f.payload ofs 0 (ground arith))))
  ]

  -- The two bytes of the checksum, and what it covers.
  crc_lo-laid_out :
      (b : Bool) (f : Frame) (rest : List ℕ)
      → byte (laid_out lib b f rest) (header_size b + length f.payload) ≡ f.crc_lo
  crc_lo-laid_out b f rest =
      byte-laid_out lib b f rest (length f.payload)
      ∙ get_or-append_right f.payload _ 0 (length f.payload) 0 (omega arith)

  crc_hi-laid_out :
      (b : Bool) (f : Frame) (rest : List ℕ)
      → byte (laid_out lib b f rest) (header_size b + length f.payload + 1) ≡ f.crc_hi
  crc_hi-laid_out b f rest =
      ap (byte (laid_out lib b f rest)) (omega arith)
      ∙ byte-laid_out lib b f rest (length f.payload + 1)
      ∙ get_or-append_right f.payload _ 1 (length f.payload + 1) 0 refl

  pub length-covered_header :
      (b : Bool) (f : Frame) → length (covered_header lib b f) + 1 ≡ header_size b
  length-covered_header true f = refl
  length-covered_header false f = refl

  covered-laid_out :
      (b : Bool) (f : Frame) (rest : List ℕ)
      → take (header_size b + length f.payload - 1) (drop 1 (laid_out lib b f rest))
        ≡ covered_header lib b f ++ f.payload
  covered-laid_out b f rest =
      let size : header_size b + length f.payload - 1
          ≡ length (covered_header lib b f ++ f.payload) =
        omega
          (arith, length-append (covered_header lib b f) f.payload, length-covered_header b f) in
      rw (size, ← append_assoc) (take-length-append (covered_header lib b f ++ f.payload) _)

  check_crc-laid_out :
      (entry : MsgEntry) (b : Bool) (f : Frame) (rest : List ℕ)
      → lib.crc_accumulate entry.crc_extra (lib.crc_calculate (covered_header lib b f ++ f.payload))
        ≡ f.crc_lo + 256 * f.crc_hi
      → check_crc lib entry (frame_header lib b f) (laid_out lib b f rest) ≡ true
  unfolding check_crc
  check_crc-laid_out entry b f rest e =
      rw (crc_lo-laid_out b f rest, crc_hi-laid_out b f rest, covered-laid_out b f rest, e)
        (==_refl (f.crc_lo + 256 * f.crc_hi))

  pub expected_size-frame :
      (f : Frame)
      → IsWellFormed lib f
      → (frame_header lib f.mavlink2 f).expected_size ≡ length (encode lib f)
  expected_size-frame f w = omega (arith, length-encode lib f, w.signed)

  take-laid_out :
      (f : Frame) (rest : List ℕ)
      → IsWellFormed lib f
      → take (frame_header lib f.mavlink2 f).expected_size (laid_out lib f.mavlink2 f rest)
        ≡ encode lib f
  take-laid_out f rest w =
      ap (λ n. take n (laid_out lib f.mavlink2 f rest)) (expected_size-frame f w)
      ∙ ap (take (length (encode lib f))) (sym (encode-append lib f rest))
      ∙ take-length-append (encode lib f) rest

  message-laid_out :
      (entry : Option MsgEntry) (f : Frame) (rest : List ℕ)
      → IsWellFormed lib f
      → message lib entry (frame_header lib f.mavlink2 f) (laid_out lib f.mavlink2 f rest)
        ≡ carried entry f
  unfolding message carried
  message-laid_out none f rest w = rw (take-laid_out f rest w)
  message-laid_out (some entry) f rest w = rw (
    take-laid_out f rest w,
    target-address entry.have_target_system entry.target_system_ofs f.mavlink2 f rest,
    target-address entry.have_target_component entry.target_component_ofs f.mavlink2 f rest,
  )

  deliver-laid_out :
      (entry : Option MsgEntry) (f : Frame) (rest : List ℕ) (rx : Rx)
      → IsWellFormed lib f
      → lib.get_msg_entry f.msgid ≡ entry
      → rx.held ≡ laid_out lib f.mavlink2 f rest
      → deliver lib entry (frame_header lib f.mavlink2 f) rx ≡ (
        arrival entry f,
        record rx {
          stat =
              count_drops f.seq
                (count_handled (frame_header lib f.mavlink2 f).expected_size rx.stat);
        },
      )
  unfolding deliver
  deliver-laid_out none f rest rx w known e = rw (e, message-laid_out none f rest w)
  deliver-laid_out (some entry) f rest rx w known e = rw (
    e,
    check_crc-laid_out entry f.mavlink2 f rest (w.checksum entry known),
    message-laid_out (some entry) f rest w,
  )

  -- The receiving side after a packet of this size.
  abbrev pub delivered : ℕ → Frame → Rx → Rx
  delivered size f rx = record rx {
    last_packet_len = size;
    stat = count_drops f.seq (count_handled size (count_total rx.stat));
  }

  parse-frame_header :
      (f : Frame) (rest : List ℕ) (rx : Rx)
      → IsWellFormed lib f
      → rx.held ≡ laid_out lib f.mavlink2 f rest
      → parse lib f.mavlink2 rx ≡ (
        arrival (lib.get_msg_entry f.msgid) f,
        delivered (frame_header lib f.mavlink2 f).expected_size f rx,
      )
  unfolding parse
  parse-frame_header f rest rx w e =
      let head : header lib f.mavlink2 rx.held ≡ frame_header lib f.mavlink2 f =
        ap (header lib f.mavlink2) e ∙ header-laid_out lib f.mavlink2 f rest in
      let size = length-laid_out lib f.mavlink2 f rest in
      let whole : (frame_header lib f.mavlink2 f).expected_size ≤ length rx.held =
        omega (arith, ap length e, size, w.signed) in
      rw (le→ltb (length rx.held) (header_size f.mavlink2) (omega (arith, whole))) (
        rw (head, le→ltb (length rx.held) _ whole)
          (deliver-laid_out (lib.get_msg_entry f.msgid) f rest _ w refl e))

  -- A well-formed packet at the start of the buffer is delivered as the message that it carries, and
  -- it is counted, whatever stands behind it.
  pub parse-laid_out :
      (f : Frame) (rest : List ℕ) (rx : Rx)
      → IsWellFormed lib f
      → rx.held ≡ laid_out lib f.mavlink2 f rest
      → parse lib f.mavlink2 rx
        ≡ (arrival (lib.get_msg_entry f.msgid) f, delivered (length (encode lib f)) f rx)
  parse-laid_out f rest rx w e =
      parse-frame_header f rest rx w e
      ∙ ap (λ size. (arrival (lib.get_msg_entry f.msgid) f, delivered size f rx))
          (expected_size-frame f w)
