-- ===== src/Ulog/Halts.antt =====
-- src/ulog.cpp, `ULog::_logging_flush`: that it ends, and when it does not.
use mavlink_router.Prelude.{
  ℕ, zero, suc, ◌+◌, ◌-◌, ◌≤◌, ◌<◌, ◌≡◌, ◌≢◌, refl, sym, ap, subst, ◌∙◌, inl, inr, true, false,
  ◌||◌, List, [], ◌∷◌, ◌++◌, arith, ltb, ◌==◌, Bool-cases, length, take, drop, length-drop,
}
use mavlink_router.Os.{Ret, count, failed, is_zero, is_eagain, is_failure}
use mavlink_router.Text.{Bytes}
use mavlink_router.Ulog.{
  Ulog, done, unanswered, flush_partial, full_msg_size, holds_message, is_count, taken,
  keep_partial, flush_messages, logging_flush, partial_max,
}

drop_nil : (n : ℕ) → drop {A = ℕ} n [] ≡ []
drop_nil zero = refl
drop_nil (suc n) = refl

drop-drop : (m n : ℕ) (b : Bytes) → drop n (drop m b) ≡ drop (m + n) b
drop-drop zero n b = let e : n ≡ 0 + n = omega arith in ap (λ k. drop k b) e
drop-drop (suc m) n [] = drop_nil n ∙ sym (drop_nil (suc m + n))
drop-drop (suc m) n (x ∷ b) =
    let e : suc (m + n) ≡ suc m + n = omega arith in drop-drop m n b ∙ ap (λ k. drop k (x ∷ b)) e

-- Where the messages in a buffer begin: at its start, and behind each whole message.
pub data Begins (b : Bytes) : ℕ → Type 0 where
  first : Begins b 0
  behind :
      (n : ℕ)
      → Begins b n
      → holds_message (drop n b) ≡ true
      → Begins b (n + full_msg_size (drop n b))

-- No whole message that begins in the buffer has a size that wraps round to 0.
abbrev pub NeverZero : Bytes → Type 0
NeverZero b = (n : ℕ) → Begins b n → holds_message (drop n b) ≡ true → full_msg_size (drop n b) ≢ 0

-- The messages of the rest of a buffer are those of the buffer.
Begins-drop :
    (b : Bytes) (n : ℕ)
    → holds_message b ≡ true
    → Begins (drop (full_msg_size b) b) n
    → Begins b (full_msg_size b + n)
Begins-drop b _ h first =
    let e : 0 + full_msg_size b ≡ full_msg_size b + 0 = omega arith in
    subst (Begins b) e (behind 0 first h)
Begins-drop b _ h (behind n s more) =
    let full = full_msg_size b in
    let same = drop-drop full n b in
    let e : full + n + full_msg_size (drop (full + n) b)
        ≡ full + (n + full_msg_size (drop n (drop full b))) =
      omega (arith, ap full_msg_size same) in
    subst (Begins b) e (behind (full + n) (Begins-drop b n h s) (rw⁻¹ same more))

NeverZero-drop :
    (b : Bytes) → holds_message b ≡ true → NeverZero b → NeverZero (drop (full_msg_size b) b)
NeverZero-drop b h z n s more =
    let same = drop-drop (full_msg_size b) n b in
    rw same (z (full_msg_size b + n) (Begins-drop b n h s) (rw⁻¹ same more))

taken_some : (r : Ret) → (is_zero r || is_eagain r) ≡ false → is_failure r ≡ false → 0 < taken r
taken_some (count zero) z f = let h : true ≡ false = z in cc
taken_some (count (suc k)) z f = omega arith
taken_some (failed e) z f = let h : true ≡ false = f in cc

flush_partial_answered :
    (rs : List Ret) (u : Ulog)
    → length u.partial + length u.buffer ≤ length rs
    → let out = flush_partial rs u in
      (out.0 ≢ unanswered)
      × ((length out.1.partial == 0) ≡ true → length out.1.buffer ≤ length out.2)
unfolding flush_partial
flush_partial_answered [] u h =
    let none_left : ltb 0 (length u.partial) ≡ false = ground (arith, h) in
    rw none_left (λ e. cc, λ p. omega (arith, h))
flush_partial_answered (r ∷ rs) u h = elim (Bool-cases (length u.partial == 0)) [
  | inl e ↦ rw e (λ x. cc, λ p. omega (arith, h))
  | inr n ↦ rw n (elim (Bool-cases (is_zero r || is_eagain r)) [
    | inl e ↦ rw e (λ x. cc, λ p. cc)
    | inr m ↦ rw m (elim (Bool-cases (is_failure r)) [
      | inl e ↦ rw e (λ x. cc, λ p. cc)
      | inr k ↦
          let v = record u {
            partial = drop (taken r) u.partial;
            written = u.written ++ take (taken r) u.partial;
          } in
          rw k (
            flush_partial_answered rs v
              (ground (arith, h, n, taken_some r m k, length-drop (taken r) u.partial)))
    ])
  ])
]

keep_partial_answered : (full r : ℕ) (u : Ulog) → (keep_partial full r u).0 ≢ unanswered
unfolding keep_partial
keep_partial_answered full r u = elim (Bool-cases (ltb partial_max (full - r))) [
  | inl e ↦ rw e (λ x. cc)
  | inr n ↦ rw n (λ x. cc)
]

flush_messages_answered :
    (rs : List Ret) (u : Ulog)
    → NeverZero u.buffer
    → length u.buffer ≤ length rs
    → (flush_messages rs u).0 ≢ unanswered
unfolding flush_messages holds_message
flush_messages_answered [] u z h =
    let nothing : holds_message u.buffer ≡ false = ground (arith, h) in rw nothing (λ e. cc)
flush_messages_answered (r ∷ rs) u z h =
    let full = full_msg_size u.buffer in
    elim (Bool-cases (holds_message u.buffer)) [
      | inr n ↦ rw n (λ e. cc)
      | inl l ↦ rw l (elim (Bool-cases (is_count full r)) [
        | inl c ↦
            let v = record u {
              written = u.written ++ take full u.buffer;
              buffer = drop full u.buffer;
              buffer_index = u.buffer_index + full;
            } in
            rw c (
              flush_messages_answered rs v (NeverZero-drop u.buffer l z)
                (ground (arith, l, h, z 0 first l, length-drop full u.buffer)))
        | inr c ↦ rw c (elim (Bool-cases (is_zero r || is_eagain r)) [
          | inl b ↦ rw b (λ e. cc)
          | inr b ↦ rw b (elim (Bool-cases (is_failure r)) [
            | inl f ↦ rw f (λ e. cc)
            | inr f ↦ rw f (keep_partial_answered full (taken r) u)
          ])
        ])
      ])
    ]

flush_partial_buffer : (rs : List Ret) (u : Ulog) → (flush_partial rs u).1.buffer ≡ u.buffer
unfolding flush_partial
flush_partial_buffer [] u = refl
flush_partial_buffer (r ∷ rs) u = ground (
  arith,
  flush_partial_buffer rs (record u {
    partial = drop (taken r) u.partial;
    written = u.written ++ take (taken r) u.partial;
  }),
)

-- `_logging_flush` ends if no message that it finds in the buffer, at its start or behind another whole one,
-- has a size field of 65533: it needs at most one call of `write` for each byte that waits, whatever these
-- calls return. Bytes within a message may be any.
pub logging_flush_halts :
    (rs : List Ret) (u : Ulog)
    → NeverZero u.buffer
    → length u.partial + length u.buffer ≤ length rs
    → (logging_flush rs u).0 ≢ unanswered
unfolding logging_flush
logging_flush_halts rs u z h =
    let (end, v, more) = flush_partial rs u in
    let (answered, enough) = flush_partial_answered rs u h in
    elim (Bool-cases (length v.partial == 0)) [
      | inl e ↦ rw e (flush_messages_answered more v (rw (flush_partial_buffer rs u) z) (enough e))
      | inr n ↦ rw n answered
    ]

pub zeros : ℕ → List Ret
zeros zero = []
zeros (suc n) = count 0 ∷ zeros n

flush_messages_hangs :
    (n : ℕ) (u : Ulog)
    → full_msg_size u.buffer ≡ 0
    → holds_message u.buffer ≡ true
    → (flush_messages (zeros n) u).0 ≡ unanswered
unfolding flush_messages zeros
flush_messages_hangs zero u z h = rw h refl
flush_messages_hangs (suc n) u z h =
    let v = record u {
      written = u.written ++ take (full_msg_size u.buffer) u.buffer;
      buffer = drop (full_msg_size u.buffer) u.buffer;
      buffer_index = u.buffer_index + full_msg_size u.buffer;
    } in
    let same : v.buffer ≡ u.buffer = rw z refl in
    let takes : is_count (full_msg_size u.buffer) (count 0) ≡ true = rw z refl in
    rw (h, takes) (flush_messages_hangs n v (rw (same, z) refl) (rw (same, h) refl))

flush_partial_empty :
    (rs : List Ret) (u : Ulog) → u.partial ≡ [] → flush_partial rs u ≡ (done, u, rs)
unfolding flush_partial
flush_partial_empty [] u e = simp e refl
flush_partial_empty (r ∷ rs) u e = simp e refl

-- `_logging_flush` does not end if the message at the start of the buffer has a size field of 65533 and
-- nothing of an earlier message waits: its size with the header wraps round to 0, `write` is asked for
-- 0 bytes and returns 0, and the loop takes this for a message that has been written, as often as it calls.
pub logging_flush_hangs :
    (n : ℕ) (u : Ulog)
    → u.partial ≡ []
    → full_msg_size u.buffer ≡ 0
    → holds_message u.buffer ≡ true
    → (logging_flush (zeros n) u).0 ≡ unanswered
unfolding logging_flush
logging_flush_hangs n u p z h =
    rw (flush_partial_empty (zeros n) u p) (simp p (flush_messages_hangs n u z h))
