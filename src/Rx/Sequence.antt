-- ===== src/Rx/Sequence.antt =====
-- src/endpoint.cpp, `Endpoint::read_msg`: the check for sequence drops.
use mavlink_router.Prelude.{ℕ, ◌+◌, ◌-◌, ◌%◌, ◌^◌, ◌<◌, ◌≡◌, arith, ltb, if◌then◌else◌}
use mavlink_router.Rx.{ReadStat, seq_diff, count_drops}

-- How many of the numbers from `expected` on, counted modulo 256, come before `seq`.
abbrev pub lost : ℕ → ℕ → ℕ
lost expected seq = (seq + 256 - expected) % 256

-- The sequence check expects the number after `seq` next. From the second message on it adds the
-- messages that are missing to both counters, modulo 2^32, if the numbers have not wrapped round; if
-- they have, it adds one less than are missing. For a number that was expected it adds nothing.
pub count_drops_lem :
    (seq : ℕ) (s : ReadStat)
    → seq < 256
    → s.expected_seq < 256
    → s.total < 2 ^ 32
    → s.drop_seq_total < 2 ^ 32
    → 1 < s.total
    → let s' = count_drops seq s in
      let wrapped : ℕ = if ltb seq s.expected_seq then 1 else 0 in
      let missed = lost s.expected_seq seq - wrapped in
      (s'.expected_seq ≡ (seq + 1) % 256)
      × (s'.drop_seq_total ≡ (s.drop_seq_total + missed) % 2 ^ 32)
      × (s'.total ≡ (s.total + missed) % 2 ^ 32)
unfolding count_drops seq_diff
count_drops_lem seq s a b c d started = ground arith
