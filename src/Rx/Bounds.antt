-- ===== src/Rx/Bounds.antt =====
-- src/endpoint.cpp, `Endpoint::read_msg`: the bounds of the receive buffer.
use mavlink_router.Prelude.{
  ℕ, zero, suc, ◌+◌, ◌*◌, ◌≤◌, ◌<◌, ◌≡◌, refl, inl, inr, Bool, true, false, Option, none, some,
  List, [], ◌∷◌, ◌++◌, arith, ltb, ◌==◌, Bool-cases, Option-cases, length, drop, All, length-append,
  length-drop,
}
use mavlink_router.Message.{Mavlink, byte, MsgEntry}
use mavlink_router.Rx.{
  Rx, Header, Input, bytes, nothing, error, header_size, find_stx, align, header, deliver, parse,
  scan, fill, reads_more, read_open, read_msg,
}

abbrev pub AreBytes : List ℕ → Type 0
AreBytes = All (λ b. b < 256)

pub byte-lt : (bs : List ℕ) (i : ℕ) → AreBytes bs → byte bs i < 256
byte-lt [] i h = omega arith
byte-lt (b ∷ bs) zero h = h.0
byte-lt (b ∷ bs) (suc i) h = byte-lt bs i h.1

pub AreBytes-drop : (n : ℕ) (bs : List ℕ) → AreBytes bs → AreBytes (drop n bs)
AreBytes-drop zero bs h = h
AreBytes-drop (suc n) [] h = tt
AreBytes-drop (suc n) (b ∷ bs) h = AreBytes-drop n bs h.1

pub AreBytes-append : (xs ys : List ℕ) → AreBytes xs → AreBytes ys → AreBytes (xs ++ ys)
AreBytes-append [] ys h k = k
AreBytes-append (x ∷ xs) ys h k = (h.0, AreBytes-append xs ys h.1 k)

-- What the library's constants have to satisfy: the longest packet is within `MAVLINK_MAX_PACKET_LEN`.
abbrev pub PacketFits : Mavlink → Type 0
PacketFits lib = 10 + 255 + 2 + lib.signature_block_len ≤ lib.max_packet_len

module _ (lib : Mavlink) where
  -- `_read_msg` writes bytes, and no more of them than it was offered room for.
  abbrev pub InRoom : Input → Rx → Type 0
  InRoom (bytes bs) rx = AreBytes bs × (length rx.held + length bs ≤ lib.max_packet_len * 4)
  InRoom nothing rx = Unit
  InRoom (error e) rx = Unit

  pub record IsValid (rx : Rx) : Type 0 where
    pub octets : AreBytes rx.held
    pub within : length rx.held ≤ lib.max_packet_len * 4
    pub last_in : rx.last_packet_len ≤ length rx.held
    pub incomplete : rx.last_packet_len ≡ 0 → length rx.held < lib.max_packet_len

  module _ (fits : PacketFits lib) where
    header-expected_size :
        (mavlink2 : Bool) (d : List ℕ)
        → AreBytes d
        → ((header lib mavlink2 d).expected_size ≤ lib.max_packet_len)
          × (0 < (header lib mavlink2 d).expected_size)
    unfolding header
    header-expected_size true d h = ground (arith, byte-lt d 1 h)
    header-expected_size false d h = omega (arith, byte-lt d 1 h)

    deliver-same :
        (entry : Option MsgEntry) (h : Header) (rx : Rx)
        → ((deliver lib entry h rx).1.held ≡ rx.held)
          × ((deliver lib entry h rx).1.last_packet_len ≡ rx.last_packet_len)
    unfolding deliver
    deliver-same none h rx = (refl, refl)
    deliver-same (some entry) h rx = ground arith

    header_size-le : (mavlink2 : Bool) → header_size mavlink2 ≤ 10
    header_size-le true = omega arith
    header_size-le false = omega arith

    -- The state that `parse` hands to `deliver`.
    complete-IsValid :
        (mavlink2 : Bool) (rx rx' : Rx)
        → AreBytes rx.held
        → length rx.held ≤ lib.max_packet_len * 4
        → ltb (length rx.held) (header lib mavlink2 rx.held).expected_size ≡ false
        → rx'.held ≡ rx.held
        → rx'.last_packet_len ≡ (header lib mavlink2 rx.held).expected_size
        → IsValid rx'
    complete-IsValid mavlink2 rx rx' octets within whole same size = record {
      octets = rw same octets;
      within = rw same within;
      last_in = rw (same, size) (ground arith);
      incomplete = λ z. absurd (omega (arith, header-expected_size mavlink2 rx.held octets));
    }

    parse-IsValid :
        (mavlink2 : Bool) (rx : Rx)
        → AreBytes rx.held
        → length rx.held ≤ lib.max_packet_len * 4
        → rx.last_packet_len ≡ 0
        → IsValid (parse lib mavlink2 rx).1
    unfolding parse
    parse-IsValid mavlink2 rx octets within fresh =
        let bound = header-expected_size mavlink2 rx.held octets in
        elim (Bool-cases (ltb (length rx.held) (header_size mavlink2))) [
          | inl short ↦ rw short (record {
            octets = octets;
            within = within;
            last_in = omega arith;
            incomplete = λ _. ground (arith, header_size-le mavlink2);
          })
          | inr long ↦
              rw long
                (elim (Bool-cases
                  (ltb (length rx.held) (header lib mavlink2 rx.held).expected_size)) [
                    | inl part ↦ rw part (record {
                      octets = octets;
                      within = within;
                      last_in = omega arith;
                      incomplete = λ _. ground arith;
                    })
                    | inr whole ↦ rw whole (
                        complete-IsValid mavlink2 rx _ octets within whole (deliver-same _ _ _).0
                          (deliver-same _ _ _).1)
                  ])
        ]

    find_stx-AreBytes :
        (bs held : List ℕ)
        → AreBytes bs
        → find_stx lib bs ≡ some held
        → AreBytes held × (length held ≤ length bs)
    unfolding find_stx
    find_stx-AreBytes [] held h e = cc
    find_stx-AreBytes (b ∷ bs) held h e = ground (arith, find_stx-AreBytes bs held h.1)

    align-AreBytes :
        (stale : ℕ) (bs held : List ℕ)
        → AreBytes bs
        → align lib stale bs ≡ some held
        → AreBytes held × (length held ≤ length bs)
    unfolding align
    align-AreBytes stale [] held h e = ground arith
    align-AreBytes stale (b ∷ bs) held h e = ground (arith, find_stx-AreBytes bs held h.1)

    scan-IsValid :
        (rx : Rx)
        → AreBytes rx.held
        → length rx.held ≤ lib.max_packet_len * 4
        → rx.last_packet_len ≡ 0
        → IsValid (scan lib rx).1
    unfolding scan
    scan-IsValid rx octets within fresh = elim (Option-cases (align lib rx.stale rx.held)) [
      | inl e ↦
          rw (e, scan)
            (record {
              octets = tt;
              within = omega arith;
              last_in = omega arith;
              incomplete = λ _. omega arith;
            })
      | inr (held, e) ↦
          let (octets', shorter) = align-AreBytes rx.stale rx.held held octets e in
          rw (e, scan) (parse-IsValid _ (record rx { held = held }) octets' (omega arith) fresh)
    ]

    fill-IsValid :
        (input : Input) (rx : Rx)
        → IsValid rx
        → rx.last_packet_len ≡ 0
        → InRoom input rx
        → IsValid (fill lib input rx).1
    unfolding fill
    fill-IsValid nothing rx v fresh room = v
    fill-IsValid (error e) rx v fresh room = v
    fill-IsValid (bytes bs) rx v fresh room =
        scan-IsValid (record rx { held = rx.held ++ bs })
          (AreBytes-append rx.held bs v.octets room.0) (omega (arith, length-append rx.held bs))
          fresh

    -- `read_msg` keeps the invariant of the receive buffer, on every path: it holds at most
    -- `RX_BUF_MAX_SIZE` bytes, and the packet length that the last call left is a part of them, so
    -- that `rx_buf.len -= _last_packet_len` does not wrap. Also less than a longest packet is left
    -- whenever the next call is going to read. A packet of any length field is within the longest one
    -- that the MAVLink library allows, and the system writes no more than it was offered room for.
    pub read_msg-IsValid :
        (input : Input) (rx : Rx) → IsValid rx → InRoom input rx → IsValid (read_msg lib input rx).1
    unfolding read_msg read_open reads_more
    read_msg-IsValid input rx v room = elim (Option-cases rx.fd) [
      | inl e ↦ rw (e, read_msg) v
      | inr (fd, e) ↦
          rw (e, read_msg)
            (elim (Bool-cases (rx.last_packet_len == 0)) [
              | inl fresh ↦ rw fresh (fill-IsValid input rx v (ground arith) room)
              | inr left ↦ rw left (
                  scan-IsValid _ (AreBytes-drop rx.last_packet_len rx.held v.octets)
                    (omega (arith, length-drop rx.last_packet_len rx.held)) refl)
            ])
    ]
