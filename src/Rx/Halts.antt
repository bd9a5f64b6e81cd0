-- ===== src/Rx/Halts.antt =====
-- src/endpoint.cpp: the rounds of the loop of `Endpoint::handle_read`.
use mavlink_router.Prelude.{
  ℕ, zero, suc, ◌-◌, ◌*◌, ◌≤◌, ◌<◌, ◌≡◌, refl, inl, inr, Bool, true, false, Option, some, List, [],
  ◌∷◌, ◌++◌, arith, ◌==◌, Bool-cases, Option-cases, length, drop, get_or, length-append,
  length-drop,
}
use mavlink_router.Message.{Mavlink, Msg}
use mavlink_router.Rx.{
  Rx, Input, bytes, nothing, error, Outcome, read_ok, read_unknown_msg, idle, broken,
  rx_buf_max_size, header, align, find_stx, deliver, parse, scan, fill, reads_more, read_open,
  read_msg, read_loop, take_turn,
}
use mavlink_router.Rx.Bounds.{InRoom, IsValid}

-- The loop of `handle_read` goes on.
abbrev goes_on : Outcome → Bool
goes_on (read_ok m) = true
goes_on (read_unknown_msg m) = true
goes_on idle = false
goes_on (broken e) = false

module _ (lib : Mavlink) where
  -- What a delivery leaves behind: a packet length above 0, within a buffer that has not grown.
  abbrev Progress : ℕ → Outcome × Rx → Type 0
  Progress bound (o, rx) =
      goes_on o ≡ true
      → (0 < rx.last_packet_len) × (rx.last_packet_len ≤ length rx.held) × (length rx.held ≤ bound)

  parse-Progress : (mavlink2 : Bool) (rx : Rx) → Progress (length rx.held) (parse lib mavlink2 rx)
  unfolding parse deliver header
  parse-Progress true rx h = ground arith
  parse-Progress false rx h = ground arith

  find_stx-le : (bs held : List ℕ) → find_stx lib bs ≡ some held → length held ≤ length bs
  unfolding find_stx
  find_stx-le [] held e = cc
  find_stx-le (b ∷ bs) held e = ground (arith, find_stx-le bs held)

  align-le :
      (stale : ℕ) (bs held : List ℕ) → align lib stale bs ≡ some held → length held ≤ length bs
  unfolding align
  align-le stale [] held e = ground arith
  align-le stale (b ∷ bs) held e = ground (arith, find_stx-le bs held)

  scan-Progress : (rx : Rx) → Progress (length rx.held) (scan lib rx)
  unfolding scan
  scan-Progress rx = elim (Option-cases (align lib rx.stale rx.held)) [
    | inl e ↦ rw (e, scan) (λ h. cc)
    | inr (held, e) ↦
        rw (e, scan)
          λ h.
            let p = parse-Progress _ (record rx { held = held }) h in
            (p.0, p.1, omega (arith, p, align-le rx.stale rx.held held e))
  ]

  -- A round that does not read: what it looks at is shorter than what the last one left.
  read_msg-Progress :
      (input : Input) (rx : Rx)
      → 0 < rx.last_packet_len
      → Progress (length rx.held - rx.last_packet_len) (read_msg lib input rx)
  unfolding read_msg read_open reads_more
  read_msg-Progress input rx left = elim (Option-cases rx.fd) [
    | inl e ↦ rw (e, read_msg) (λ h. cc)
    | inr (fd, e) ↦
        let kept : (rx.last_packet_len == 0) ≡ false = ground arith in
        rw (e, read_msg)
          (rw kept λ h.
            let p =
              scan-Progress
                (record rx {
                  held = drop rx.last_packet_len rx.held;
                  stale = get_or rx.held 0 rx.stale;
                  last_packet_len = 0;
                })
                h in
            (p.0, p.1, omega (arith, p, length-drop rx.last_packet_len rx.held)))
  ]

  abbrev pub Ends : Option (List Msg × Outcome × Rx) → Type 0
  Ends r = (result : List Msg × Outcome × Rx) × (r ≡ some result)

  take_turn-Ends :
      (o : Outcome) (rx : Rx) (rest : Option (List Msg × Outcome × Rx))
      → (goes_on o ≡ true → Ends rest)
      → Ends (take_turn o rx rest)
  unfolding take_turn
  take_turn-Ends idle rx rest h = (([], idle, rx), refl)
  take_turn-Ends (broken e) rx rest h = (([], broken e, rx), refl)
  take_turn-Ends (read_ok m) rx rest h =
      let ((ms, end, last), e) = h refl in ((m ∷ ms, end, last), rw e)
  take_turn-Ends (read_unknown_msg m) rx rest h =
      let ((ms, end, last), e) = h refl in ((m ∷ ms, end, last), rw e)

  later_rounds-Ends :
      (fuel : ℕ) (later : Input) (rx : Rx)
      → 0 < rx.last_packet_len
      → length rx.held - rx.last_packet_len < fuel
      → Ends (read_loop lib fuel later later rx)
  unfolding read_loop
  later_rounds-Ends zero later rx left enough = absurd (omega arith)
  later_rounds-Ends (suc fuel) later rx left enough =
      take_turn-Ends (read_msg lib later rx).0 (read_msg lib later rx).1 _ λ h.
        let p = read_msg-Progress later rx left h in
        later_rounds-Ends fuel later (read_msg lib later rx).1 p.0 (omega (arith, p))

  fill-Progress :
      (input : Input) (rx : Rx)
      → InRoom lib input rx
      → Progress (lib.max_packet_len * 4) (fill lib input rx)
  unfolding fill
  fill-Progress nothing rx room h = cc
  fill-Progress (error e) rx room h = cc
  fill-Progress (bytes bs) rx room h =
      let p = scan-Progress (record rx { held = rx.held ++ bs }) h in
      (p.0, p.1, omega (arith, p, length-append rx.held bs))

  first_round-Progress :
      (input : Input) (rx : Rx)
      → IsValid lib rx
      → InRoom lib input rx
      → Progress (lib.max_packet_len * 4) (read_msg lib input rx)
  unfolding read_msg read_open reads_more
  first_round-Progress input rx v room = elim (Bool-cases (rx.last_packet_len == 0)) [
    | inr left ↦ λ h.
        let p = read_msg-Progress input rx (ground arith) h in
        (p.0, p.1, omega (arith, p, v.within))
    | inl fresh ↦ elim (Option-cases rx.fd) [
      | inl e ↦ rw (e, read_msg) (λ h. cc)
      | inr (fd, e) ↦ rw (e, read_msg) (rw fresh (fill-Progress input rx room))
    ]
  ]

  -- The loop of `handle_read` ends after at most as many rounds as the receive buffer has bytes, and
  -- one: from a valid state, whatever `_read_msg` returns within the room that it is offered.
  pub read_loop_halts :
      (input later : Input) (rx : Rx)
      → IsValid lib rx
      → InRoom lib input rx
      → Ends (read_loop lib (suc (rx_buf_max_size lib)) input later rx)
  unfolding read_loop rx_buf_max_size
  read_loop_halts input later rx v room =
      take_turn-Ends (read_msg lib input rx).0 (read_msg lib input rx).1 _ λ h.
        let p = first_round-Progress input rx v room h in
        later_rounds-Ends (lib.max_packet_len * 4) later (read_msg lib input rx).1 p.0
          (omega (arith, p))
