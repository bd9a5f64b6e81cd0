-- ===== src/Tx/Serial.antt =====
-- src/endpoint.cpp, `UartEndpoint::write_msg` and `flush_pending_msgs`: what becomes of
-- the bytes that are handed to it.
use mavlink_router.Prelude.{
  ℕ, zero, suc, ◌+◌, ◌≤◌, ◌<◌, ◌≡◌, ◌≢◌, refl, ap, ◌⊎◌, inl, inr, true, false, not, ◌&&◌, Option,
  none, some, List, [], ◌∷◌, ◌++◌, arith, if◌then◌else◌, Bool-cases, length, take, length-append,
  take-append-drop, is_some,
}
use mavlink_router.Os.{Errno, eagain, enobufs, einval, Ret, count, failed, is_eagain, is_positive}
use mavlink_router.Message.{Msg}
use mavlink_router.Throttle.{is_empty}
use mavlink_router.Tx.{
  tx_buf_max_size, TxBuf, Wrote, append, count_write, overflows, Uart, uart_flush, uart_write_msg,
  consume, discard,
}

-- The buffer of an endpoint is within `TX_BUF_MAX_SIZE`.
abbrev pub IsWithin : TxBuf → Type 0
IsWithin t = length t.pending ≤ tx_buf_max_size

-- What becomes of the bytes of a write to an open device, where `before` were pending.
data Flushes (system : Ret) (before : List ℕ) (w : Wrote Uart) : Type 0 where
  -- The device took a first part of them. Where a part is pending still, the result shows it.
  written :
      w.sent ++ w.after.tx.pending ≡ before
      → (w.after.tx.pending ≡ []) ⊎ ((is_positive w.result ≡ true) ⊎ (w.result ≡ failed eagain))
      → Flushes system before w
  -- The device failed for good: all are gone.
  broken :
      (e : Errno)
      → system ≡ failed e
      → is_eagain (failed e) ≡ false
      → w.result ≡ failed e
      → w.after.tx.pending ≡ []
      → w.sent ≡ []
      → Flushes system before w

pub empty-eq-nil {ℓ} : {A : Type ℓ} (xs : List A) → is_empty xs ≡ true → xs ≡ []
empty-eq-nil [] h = refl
empty-eq-nil (x ∷ xs) h = cc

eagain_of : (e : Errno) → is_eagain (failed e) ≡ true → failed e ≡ failed eagain
eagain_of e h = ground arith

uart_flush-Flushes :
    (system : Ret) (u : Uart)
    → is_some u.fd ≡ true
    → system ≢ count 0
    → Flushes system u.tx.pending (uart_flush system u)
unfolding uart_flush
uart_flush-Flushes system u opened progress = elim (Bool-cases (is_empty u.tx.pending)) [
  | inl e ↦ rw e (written refl (inl (empty-eq-nil u.tx.pending e)))
  | inr e ↦ rw e (rw opened (by_system system progress))
]
  where
    by_system :
        (r : Ret)
        → r ≢ count 0
        → Flushes r u.tx.pending (elim r [
          | count n ↦ record {
            result = count n;
            sent = take n u.tx.pending;
            after = record u { tx = consume n u.tx };
          }
          | failed e ↦ record {
            result = failed e;
            sent = [];
            after = if is_eagain (failed e) then u else record u { tx = discard u.tx };
          }
        ])
    by_system (count zero) progress = absurd (progress refl)
    by_system (count (suc n)) progress =
        written (take-append-drop (suc n) u.tx.pending) (inr (inl refl))
    by_system (failed e) progress = elim (Bool-cases (is_eagain (failed e))) [
      | inl again ↦ rw again (written refl (inr (inr (eagain_of e again))))
      | inr other ↦ rw other (broken e refl other refl refl refl)
    ]

-- What becomes of a message that is handed to `write_msg`.
pub data Fate (system : Ret) (m : Msg) (u : Uart) (w : Wrote Uart) : Type 0 where
  -- It was not taken, and nothing has changed: no device, or no room for it.
  refused :
      (u.fd ≡ none) × (w.result ≡ failed einval) → w.sent ≡ [] → w.after ≡ u → Fate system m u w
  no_room :
      tx_buf_max_size < length u.tx.pending + length m.bytes
      → w.result ≡ failed enobufs
      → w.sent ≡ []
      → w.after ≡ u
      → Fate system m u w
  -- It stands behind what was pending, of which the device took a first part. If a part is pending
  -- still, the result asks to be told when the device can be written.
  taken :
      w.sent ++ w.after.tx.pending ≡ u.tx.pending ++ m.bytes
      → (w.after.tx.pending ≡ []) ⊎ (w.result ≡ failed eagain)
      → IsWithin w.after.tx
      → Fate system m u w
  lost :
      (e : Errno)
      → system ≡ failed e
      → is_eagain (failed e) ≡ false
      → w.result ≡ failed e
      → w.after.tx.pending ≡ []
      → w.sent ≡ []
      → Fate system m u w

shut-none : (fd : Option ℕ) → is_some fd ≡ false → fd ≡ none
shut-none none h = refl
shut-none (some n) h = cc

uart_write-flushed :
    (system : Ret) (m : Msg) (u : Uart) (f : Wrote Uart)
    → Flushes system (u.tx.pending ++ m.bytes) f
    → length u.tx.pending + length m.bytes ≤ tx_buf_max_size
    → Fate system m u (
        if is_positive f.result && not (is_empty f.after.tx.pending)
        then record f { result = failed eagain }
        else f)
uart_write-flushed system m u f (written e left) room =
    let within : IsWithin f.after.tx = omega (
      arith,
      ap length e,
      length-append f.sent f.after.tx.pending,
      length-append u.tx.pending m.bytes,
    ) in
    elim (Bool-cases (is_positive f.result && not (is_empty f.after.tx.pending))) [
      | inl part ↦ rw part (taken e (inr refl) within)
      | inr whole ↦ rw whole (taken e (waits left whole) within)
    ]
  where
    waits :
        (f.after.tx.pending ≡ []) ⊎ ((is_positive f.result ≡ true) ⊎ (f.result ≡ failed eagain))
        → (is_positive f.result && not (is_empty f.after.tx.pending)) ≡ false
        → (f.after.tx.pending ≡ []) ⊎ (f.result ≡ failed eagain)
    waits (inl gone) whole = inl gone
    waits (inr (inl positive)) whole = inl (empty-eq-nil f.after.tx.pending (ground arith))
    waits (inr (inr again)) whole = inr again
uart_write-flushed system m u f (broken e by other result gone none_sent) room =
    rw (ap (λ r. is_positive r && not (is_empty f.after.tx.pending)) result)
      (lost e by other result gone none_sent)

-- A message that is handed to `UartEndpoint::write_msg` is refused with no change, where there is no
-- device or no room for it; or it is appended to the pending bytes, of which the device takes a first
-- part, in order, and none is lost or doubled; or the device reports an error that is not -EAGAIN, and
-- all pending bytes are dropped. The buffer keeps its bound, and where bytes stay pending the result
-- is -EAGAIN, on which the main loop waits for the device. A write to the device that is not refused
-- is taken to write something.
pub uart_write_msg-Fate :
    (system : Ret) (m : Msg) (u : Uart)
    → system ≢ count 0
    → Fate system m u (uart_write_msg system m u)
unfolding uart_write_msg
uart_write_msg-Fate system m u progress = elim (Bool-cases (is_some u.fd)) [
  | inr shut ↦ rw shut (refused (shut-none u.fd shut, refl) refl refl)
  | inl opened ↦ rw opened (elim (Bool-cases (overflows tx_buf_max_size m u.tx)) [
    | inl full ↦ rw full (no_room (ground arith) refl refl refl)
    | inr room ↦ rw room (
        uart_write-flushed system m u _
          (uart_flush-Flushes system (record u { tx = count_write (append m u.tx) }) opened
            progress)
          (ground arith))
  ])
]
