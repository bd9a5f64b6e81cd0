-- ===== src/Tx/Network.antt =====
-- src/endpoint.cpp, `write_msg` and `flush_pending_msgs` of the UDP and TCP endpoints: what becomes of
-- the bytes that are handed to them.
use mavlink_router.Prelude.{
  ◌≤◌, ◌≡◌, refl, sym, ap, ◌∙◌, ◌⊎◌, inl, inr, Bool, true, not, ◌&&◌, ◌||◌, [], ◌++◌, arith, ltb,
  ◌==◌, if◌then◌else◌, Bool-cases, contains, length, length-append, length-drop, take-append-drop,
  append_assoc,
}
use mavlink_router.Os.{enobufs, Ret, count, failed, is_eagain}
use mavlink_router.Message.{Msg}
use mavlink_router.Throttle.{is_empty}
use mavlink_router.Tx.{
  tx_buf_max_size, Wrote, append, overflows, Sock, udp_flush, tcp_flush, coalesce_msg,
  udp_write_msg, tcp_write_msg,
}
use mavlink_router.Tx.Serial.{IsWithin}

-- The system reports no error but that the socket is busy.
abbrev pub IsHealthy : Ret → Type 0
IsHealthy (count n) = Unit
IsHealthy (failed e) = is_eagain (failed e) ≡ true

-- What the proofs need of a flush: it never grows the buffer, and on a healthy socket it sends a first
-- part of what is pending and keeps the rest.
record IsFlush (flush : Ret → Sock → Wrote Sock) : Type 0 where
  shrinks : (r : Ret) (s : Sock) → length (flush r s).after.tx.pending ≤ length s.tx.pending
  keeps :
      (r : Ret) (s : Sock)
      → IsHealthy r
      → s.has_peer ≡ true
      → (flush r s).sent ++ (flush r s).after.tx.pending ≡ s.tx.pending
  peer : (r : Ret) (s : Sock) → (flush r s).after.has_peer ≡ s.has_peer

-- The endpoint has room for the message, once what was pending has been flushed.
pub record Keeps (m : Msg) (s : Sock) (w : Wrote Sock) : Type 0 where
  pub kept :
      ((w.result ≡ failed enobufs) × (w.sent ++ w.after.tx.pending ≡ s.tx.pending))
      ⊎ (w.sent ++ w.after.tx.pending ≡ s.tx.pending ++ m.bytes)

tcp_flush-shrinks :
    (r : Ret) (s : Sock) → length (tcp_flush r s).after.tx.pending ≤ length s.tx.pending
unfolding tcp_flush
tcp_flush-shrinks (count n) s = ground (arith, length-drop n s.tx.pending)
tcp_flush-shrinks (failed e) s = ground arith

tcp_flush-keeps :
    (r : Ret) (s : Sock)
    → IsHealthy r
    → (tcp_flush r s).sent ++ (tcp_flush r s).after.tx.pending ≡ s.tx.pending
unfolding tcp_flush
tcp_flush-keeps (count n) s h = ground (arith, take-append-drop n s.tx.pending)
tcp_flush-keeps (failed e) s h = rw h (ground arith)

tcp_flush-peer : (r : Ret) (s : Sock) → (tcp_flush r s).after.has_peer ≡ s.has_peer
unfolding tcp_flush
tcp_flush-peer (count n) s = ground arith
tcp_flush-peer (failed e) s = ground arith

udp_flush-shrinks :
    (r : Ret) (s : Sock) → length (udp_flush r s).after.tx.pending ≤ length s.tx.pending
unfolding udp_flush
udp_flush-shrinks (count n) s = ground (arith, length-drop n s.tx.pending)
udp_flush-shrinks (failed e) s = ground arith

udp_flush-keeps :
    (r : Ret) (s : Sock)
    → IsHealthy r
    → s.has_peer ≡ true
    → (udp_flush r s).sent ++ (udp_flush r s).after.tx.pending ≡ s.tx.pending
unfolding udp_flush
udp_flush-keeps (count n) s h peer = rw peer (ground (arith, take-append-drop n s.tx.pending))
udp_flush-keeps (failed e) s h peer = rw (peer, h) (ground arith)

udp_flush-peer : (r : Ret) (s : Sock) → (udp_flush r s).after.has_peer ≡ s.has_peer
unfolding udp_flush
udp_flush-peer (count n) s = ground arith
udp_flush-peer (failed e) s = ground arith

tcp_flush-IsFlush : IsFlush tcp_flush
tcp_flush-IsFlush = record {
  shrinks = tcp_flush-shrinks;
  keeps = λ r s h peer. tcp_flush-keeps r s h;
  peer = tcp_flush-peer;
}

udp_flush-IsFlush : IsFlush udp_flush
udp_flush-IsFlush = record {
  shrinks = udp_flush-shrinks;
  keeps = udp_flush-keeps;
  peer = udp_flush-peer;
}

module _ (flush : Ret → Sock → Wrote Sock) (flushes : IsFlush flush) where
  -- What the flush before the message leaves.
  abbrev flush_first : Ret → Msg → Sock → Wrote Sock
  flush_first r m s =
      if not (is_empty s.tx.pending) && overflows s.coalesce_bytes m s.tx
      then flush r s
      else record { result = count 0; sent = []; after = s }

  flush_first-keeps :
      (r : Ret) (m : Msg) (s : Sock)
      → IsHealthy r
      → s.has_peer ≡ true
      → ((flush_first r m s).sent ++ (flush_first r m s).after.tx.pending ≡ s.tx.pending)
        × ((flush_first r m s).after.has_peer ≡ true)
  flush_first-keeps r m s h peer =
      elim (Bool-cases (not (is_empty s.tx.pending) && overflows s.coalesce_bytes m s.tx)) [
        | inl e ↦ rw e (flushes.keeps r s h peer, flushes.peer r s ∙ peer)
        | inr e ↦ rw e (refl, peer)
      ]

  flush_first-shrinks :
      (r : Ret) (m : Msg) (s : Sock)
      → length (flush_first r m s).after.tx.pending ≤ length s.tx.pending
  flush_first-shrinks r m s =
      elim (Bool-cases (not (is_empty s.tx.pending) && overflows s.coalesce_bytes m s.tx)) [
        | inl e ↦ rw e (flushes.shrinks r s)
        | inr e ↦ rw e (omega arith)
      ]

  coalesce_msg-IsWithin :
      (r₁ r₂ : Ret) (m : Msg) (s : Sock)
      → IsWithin s.tx
      → IsWithin (coalesce_msg flush r₁ r₂ m s).after.tx
  unfolding coalesce_msg
  coalesce_msg-IsWithin r₁ r₂ m s h =
      let s' = (flush_first r₁ m s).after in
      let appended = record s' { tx = append m s'.tx } in
      ground (
        arith,
        flush_first-shrinks r₁ m s,
        flushes.shrinks r₂ appended,
        length-append s'.tx.pending m.bytes,
      )

  coalesce_msg-Keeps :
      (r₁ r₂ : Ret) (m : Msg) (s : Sock)
      → IsHealthy r₁
      → IsHealthy r₂
      → s.has_peer ≡ true
      → Keeps m s (coalesce_msg flush r₁ r₂ m s)
  unfolding coalesce_msg
  coalesce_msg-Keeps r₁ r₂ m s h₁ h₂ peer =
      let f = flush_first r₁ m s in
      let (kept₁, peer₁) = flush_first-keeps r₁ m s h₁ peer in
      let appended = record f.after { tx = append m f.after.tx } in
      let second = flush r₂ appended in
      let all : f.sent ++ (f.after.tx.pending ++ m.bytes) ≡ s.tx.pending ++ m.bytes =
        sym (append_assoc f.sent f.after.tx.pending m.bytes) ∙ ap (λ xs. xs ++ m.bytes) kept₁ in
      let now : Bool =
        f.after.coalesce_bytes == 0
        || f.after.coalesce_ms == 0
        || contains m.msg_id f.after.coalesce_nodelay
        || ltb f.after.coalesce_bytes (length m.bytes) in
      elim (Bool-cases (overflows tx_buf_max_size m f.after.tx)) [
        | inl full ↦ rw full (record { kept = inl (refl, kept₁) })
        | inr room ↦ rw room (elim (Bool-cases now) [
          | inl e ↦ rw e (record {
            kept = inr (
                append_assoc f.sent second.sent second.after.tx.pending
                ∙ ap (λ xs. f.sent ++ xs) (flushes.keeps r₂ appended h₂ peer₁)
                ∙ all);
          })
          | inr e ↦ rw e (record { kept = inr (ground arith) })
        ])
      ]

-- A message that is handed to a UDP endpoint that knows its peer or to a TCP endpoint, where the system
-- reports nothing but a busy socket: the bytes sent and those pending after, in this order, are those
-- pending before and behind them those of the message, or, where the result is -ENOBUFS, only those
-- pending before.
pub write_msg-Keeps :
    (system₁ system₂ : Ret) (m : Msg) (s : Sock)
    → IsHealthy system₁
    → IsHealthy system₂
    → s.has_peer ≡ true
    → Keeps m s (udp_write_msg system₁ system₂ m s) × Keeps m s (tcp_write_msg system₁ system₂ m s)
unfolding udp_write_msg tcp_write_msg
write_msg-Keeps r₁ r₂ m s h₁ h₂ peer = (
  simp peer (coalesce_msg-Keeps udp_flush udp_flush-IsFlush r₁ r₂ m s h₁ h₂ peer),
  coalesce_msg-Keeps tcp_flush tcp_flush-IsFlush r₁ r₂ m s h₁ h₂ peer,
)

-- Whatever the system reports, a buffer of a UDP or TCP endpoint that is within `TX_BUF_MAX_SIZE` is so
-- after a message has been handed to the endpoint.
pub write_msg-IsWithin :
    (system₁ system₂ : Ret) (m : Msg) (s : Sock)
    → IsWithin s.tx
    → IsWithin (udp_write_msg system₁ system₂ m s).after.tx
      × IsWithin (tcp_write_msg system₁ system₂ m s).after.tx
unfolding udp_write_msg tcp_write_msg
write_msg-IsWithin r₁ r₂ m s h = (
  elim (Bool-cases s.has_peer) [
    | inl e ↦ simp e (coalesce_msg-IsWithin udp_flush udp_flush-IsFlush r₁ r₂ m s h)
    | inr e ↦ simp e h
  ],
  coalesce_msg-IsWithin tcp_flush tcp_flush-IsFlush r₁ r₂ m s h,
)
