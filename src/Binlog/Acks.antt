-- ===== src/Binlog/Acks.antt =====
-- src/binlog.cpp: which blocks are acknowledged, and what is said of blocks that are missing.
use mavlink_router.Prelude.{
  ℕ, zero, suc, ◌+◌, ◌-◌, ◌%◌, ◌^◌, ◌≤◌, ◌<◌, ◌≡◌, refl, ap, ◌∙◌, inl, inr, Bool, true, false, ◌&&◌,
  List, [], ◌∷◌, ◌++◌, append-nil, append_assoc, arith, ltb, ◌==◌, if◌then◌else◌, Bool-cases,
  le→ltb, lt→ltb, keep, is_some, ◌*◌,
}
use mavlink_router.Os.{Ret, count, failed, is_eagain}
use mavlink_router.Text.{Bytes}
use mavlink_router.Log.{Opening, start}
use mavlink_router.Binlog.{
  Binlog, Status, ack, nack, stop_logging, send, send_nacks, send_ack, restart, binlog_start,
  binlog_stop, logging_data_process, block_len,
}

pub repeated : ℕ → Status → List Status
repeated zero m = []
repeated (suc n) m = m ∷ repeated n m

send_nacks_lem :
    (fuel k i seqno : ℕ) (b : Binlog)
    → seqno ≡ i + k
    → seqno < 2 ^ 32
    → k ≤ fuel
    → send_nacks fuel i seqno b ≡ record b { sent = b.sent ++ repeated k (nack seqno) }
unfolding send_nacks repeated
send_nacks_lem zero zero i seqno b h s f = rw (append-nil b.sent) refl
send_nacks_lem zero (suc k) i seqno b h s f = absurd (omega (arith, f))
send_nacks_lem (suc fuel) zero i seqno b h s f =
    rw (le→ltb i seqno (omega (arith, h)), append-nil b.sent) refl
send_nacks_lem (suc fuel) (suc k) i seqno b h s f =
    let next : (i + 1) % 2 ^ 32 ≡ i + 1 = omega (arith, h, s) in
    rw (lt→ltb i seqno (omega (arith, h)), next)
      (send_nacks_lem fuel k (i + 1) seqno (send (nack seqno) b) (omega (arith, h)) s
          (omega (arith, f))
        ∙ ap (λ l. record b { sent = l })
            (append_assoc b.sent (nack seqno ∷ []) (repeated k (nack seqno))))

-- `_send_ack`, for a block that is not older than the last one acknowledged: it sends a refusal for each number
-- between the two, and every one of them carries the number of the block that has come, and then
-- acknowledges that block.
pub send_ack_lem :
    (seqno : ℕ) (b : Binlog)
    → b.last_acked_seqno < seqno
    → seqno < 2 ^ 32
    → send_ack seqno b ≡ record b {
      sent = b.sent ++ (repeated (seqno - b.last_acked_seqno - 1) (nack seqno) ++ (ack seqno ∷ []));
      last_acked_seqno = seqno;
    }
unfolding send_ack
send_ack_lem seqno b h s =
    let n = seqno - b.last_acked_seqno - 1 in
    let first : (b.last_acked_seqno + 1) % 2 ^ 32 ≡ b.last_acked_seqno + 1 = omega (arith, h, s) in
    let nacks =
      send_nacks_lem seqno n (b.last_acked_seqno + 1) seqno b (omega (arith, h)) s (omega arith) in
    rw (le→ltb seqno b.last_acked_seqno (omega (arith, h)), first, nacks)
      (ap (λ l. record b { sent = l; last_acked_seqno = seqno })
        (append_assoc b.sent (repeated n (nack seqno)) (ack seqno ∷ [])))

abbrev pub is_ack : Status → Bool
is_ack (ack n) = true
is_ack (nack n) = false
is_ack stop_logging = false

keep-append : (l m : List Status) → keep is_ack (l ++ m) ≡ keep is_ack l ++ keep is_ack m
keep-append [] m = refl
keep-append (x ∷ l) m = ground (arith, keep-append l m)

send_acks :
    (m : Status) (b : Binlog) → is_ack m ≡ false → keep is_ack (send m b).sent ≡ keep is_ack b.sent
send_acks m b h = keep-append b.sent (m ∷ []) ∙ rw h (append-nil (keep is_ack b.sent))

send_nacks_acks :
    (fuel i seqno : ℕ) (b : Binlog)
    → keep is_ack (send_nacks fuel i seqno b).sent ≡ keep is_ack b.sent
unfolding send_nacks
send_nacks_acks zero i seqno b = refl
send_nacks_acks (suc fuel) i seqno b = elim (Bool-cases (ltb i seqno)) [
  | inl e ↦ rw e (
      send_nacks_acks fuel ((i + 1) % 2 ^ 32) seqno (send (nack seqno) b)
      ∙ send_acks (nack seqno) b refl)
  | inr n ↦ rw n refl
]

send_ack_acks :
    (seqno : ℕ) (b : Binlog)
    → keep is_ack (send_ack seqno b).sent ≡ keep is_ack b.sent ++ (ack seqno ∷ [])
unfolding send_ack
send_ack_acks seqno b = elim (Bool-cases (ltb seqno b.last_acked_seqno)) [
  | inl e ↦ rw e (keep-append b.sent (ack seqno ∷ []))
  | inr n ↦
      let c = send_nacks seqno ((b.last_acked_seqno + 1) % 2 ^ 32) seqno b in
      rw n (
        keep-append c.sent (ack seqno ∷ [])
        ∙ ap (λ l. l ++ (ack seqno ∷ []))
            (send_nacks_acks seqno ((b.last_acked_seqno + 1) % 2 ^ 32) seqno b))
]

restart_acks : (o : Opening) (b : Binlog) → keep is_ack (restart o b).sent ≡ keep is_ack b.sent
unfolding restart binlog_stop binlog_start
restart_acks o b = started (binlog_stop b) ∙ stopped
  where
    stopped : keep is_ack (binlog_stop b).sent ≡ keep is_ack b.sent
    stopped = elim (Bool-cases (is_some b.log.file)) [
      | inl e ↦ rw e (send_acks stop_logging b refl)
      | inr n ↦ rw n refl
    ]

    started : (c : Binlog) → keep is_ack (binlog_start o c).1.sent ≡ keep is_ack c.sent
    started c = elim (Bool-cases (start o c.log).0) [ inl e ↦ rw e refl | inr n ↦ rw n refl ]

abbrev pub is_whole : Ret → Bool
is_whole (count n) = n == block_len
is_whole (failed e) = false

-- `_logging_data_process` acknowledges the block that it is given if the seek succeeds and the write takes
-- all 200 bytes, and otherwise nothing: not after a short write, not when the file takes no more,
-- and not when an error makes it restart the log.
pub logging_data_process_acks :
    (o : Opening) (sought : Bool) (r : Ret) (seqno : ℕ) (bytes : Bytes) (b : Binlog)
    → keep is_ack (logging_data_process o sought r seqno bytes b).sent ≡ (
        if sought && is_whole r then keep is_ack b.sent ++ (ack seqno ∷ []) else keep is_ack b.sent)
unfolding logging_data_process
logging_data_process_acks o false r seqno bytes b = restart_acks o b
logging_data_process_acks o true (failed e) seqno bytes b =
    elim (Bool-cases (is_eagain (failed e))) [ inl f ↦ rw f refl | inr f ↦ rw f (restart_acks o b) ]
logging_data_process_acks o true (count n) seqno bytes b = elim (Bool-cases (n == block_len)) [
  | inl f ↦ rw f (
      send_ack_acks seqno
        (record b { blocks = b.blocks ++ ((seqno * block_len % 2 ^ 32, bytes) ∷ []) }))
  | inr f ↦ rw f refl
]
