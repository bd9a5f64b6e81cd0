-- ===== src/Rx/Stream.antt =====
-- src/endpoint.cpp, `Endpoint::handle_read` over `Endpoint::read_msg`: a stream of packets, cut into
-- reads at any places.
use mavlink_router.Prelude.{
  ℕ, ◌<◌, ◌≡◌, refl, sym, ap, ◌∙◌, ◌≢◌, inl, inr, Bool, true, false, none, some, List, [], ◌∷◌,
  ◌++◌, arith, ltb, ◌==◌, Bool-cases, length, get_or, lt→ltb, append-split, cons-head,
}
use mavlink_router.Message.{Mavlink}
use mavlink_router.Rx.{Rx, Outcome, idle, is_magic, align, header_size, header, parse, scan}
use mavlink_router.Rx.Frames.{
  Frame, covered_header, start_byte, laid_out, encode, encode-append, IsWellFormed, frame_header,
  header-start_byte,
}
use mavlink_router.Rx.Deliver.{
  arrival, delivered, parse-laid_out, expected_size-frame, length-covered_header,
}

-- The two start bytes differ.
abbrev pub StartsDiffer : Mavlink → Type 0
StartsDiffer lib = lib.stx ≢ lib.stx_mavlink1

module _ (lib : Mavlink) (differ : StartsDiffer lib) where
  align-start_byte :
      (b : Bool) (stale : ℕ) (bs : List ℕ)
      → align lib stale (start_byte lib b ∷ bs) ≡ some (start_byte lib b ∷ bs)
  unfolding align
  align-start_byte true stale bs = ground arith
  align-start_byte false stale bs = ground arith

  start_byte-eq-stx : (b : Bool) → (start_byte lib b == lib.stx) ≡ b
  start_byte-eq-stx true = ground arith
  start_byte-eq-stx false = ground arith

  -- A buffer that starts with a start byte is parsed as it stands.
  scan-start_byte :
      (b : Bool) (bs : List ℕ) (rx : Rx)
      → rx.held ≡ start_byte lib b ∷ bs
      → scan lib rx ≡ parse lib b rx
  unfolding scan
  scan-start_byte b bs rx e =
      let found : align lib rx.stale rx.held ≡ some rx.held =
        ap (align lib rx.stale) e ∙ align-start_byte b rx.stale bs ∙ ap some (sym e) in
      let version : (get_or rx.held 0 rx.stale == lib.stx) ≡ b =
        ap (λ held. get_or held 0 rx.stale == lib.stx) e ∙ start_byte-eq-stx b in
      rw (found, scan) (rw version)

  -- A packet of which a part is still to come is left in the buffer.
  pub record Waits (rx : Rx) (after : Outcome × Rx) : Type 0 where
    pub result : after.0 ≡ idle
    pub same : after.1.held ≡ rx.held
    pub none_left : after.1.last_packet_len ≡ rx.last_packet_len
    pub open_still : after.1.fd ≡ rx.fd

  parse_nil :
      (b : Bool) (rx : Rx) → parse lib b (record rx { held = [] }) ≡ (idle, record rx { held = [] })
  unfolding parse
  parse_nil true rx = refl
  parse_nil false rx = refl

  pub scan_empty : (rx : Rx) → rx.held ≡ [] → Waits rx (scan lib rx)
  unfolding scan align
  scan_empty rx e = elim (Bool-cases (is_magic lib rx.stale)) [
    | inl m ↦
        let found : align lib rx.stale rx.held ≡ some [] = ap (align lib rx.stale) e ∙ rw m in
        rw (found, scan)
          (rw (parse_nil (get_or [] 0 rx.stale == lib.stx) rx)
            (record { result = refl; same = sym e; none_left = refl; open_still = refl }))
    | inr m ↦
        let found : align lib rx.stale rx.held ≡ none = ap (align lib rx.stale) e ∙ rw m in
        rw (found, scan)
          (record { result = refl; same = sym e; none_left = refl; open_still = refl })
  ]

  parse_partial :
      (f : Frame) (rx : Rx) (bs future more : List ℕ)
      → IsWellFormed lib f
      → rx.held ≡ start_byte lib f.mavlink2 ∷ bs
      → rx.held ++ future ≡ laid_out lib f.mavlink2 f more
      → length rx.held < length (encode lib f)
      → parse lib f.mavlink2 rx ≡ (idle, rx)
  unfolding parse
  parse_partial f rx bs future more w start e short =
      elim (Bool-cases (ltb (length rx.held) (header_size f.mavlink2))) [
        | inl part ↦ rw part
        | inr whole ↦
            let (tail, q, _) =
              append-split (start_byte lib f.mavlink2 ∷ covered_header lib f.mavlink2 f) _ rx.held
                future e (ground (arith, length-covered_header lib f.mavlink2 f)) in
            let head : header lib f.mavlink2 rx.held ≡ frame_header lib f.mavlink2 f =
              ap (header lib f.mavlink2) q ∙ header-start_byte lib f.mavlink2 f tail in
            rw whole (
              rw head (
                rw (
                  lt→ltb (length rx.held) (frame_header lib f.mavlink2 f).expected_size
                    (omega (arith, expected_size-frame lib f w)))))
      ]

  pub scan_partial :
      (f : Frame) (rx : Rx) (held future more : List ℕ)
      → IsWellFormed lib f
      → rx.held ≡ held
      → held ++ future ≡ laid_out lib f.mavlink2 f more
      → length held < length (encode lib f)
      → Waits rx (scan lib rx)
  scan_partial f rx [] future more w e stream short = scan_empty rx e
  scan_partial f rx (b ∷ bs) future more w e stream short =
      let start : rx.held ≡ start_byte lib f.mavlink2 ∷ bs =
        e ∙ ap (λ x. x ∷ bs) (cons-head stream) in
      let left =
        parse_partial f rx bs future more w start (ap (λ h. h ++ future) e ∙ stream) (rw e short) in
      rw (scan-start_byte f.mavlink2 bs rx start ∙ left)
        (record { result = refl; same = refl; none_left = refl; open_still = refl })

  -- A packet that is there as a whole.
  pub scan_whole :
      (f : Frame) (rx : Rx) (rest : List ℕ)
      → IsWellFormed lib f
      → rx.held ≡ encode lib f ++ rest
      → scan lib rx
        ≡ (arrival lib (lib.get_msg_entry f.msgid) f, delivered lib (length (encode lib f)) f rx)
  scan_whole f rx rest w e =
      scan-start_byte f.mavlink2 _ rx (e ∙ encode-append lib f rest)
      ∙ parse-laid_out lib f rest rx w (e ∙ encode-append lib f rest)
