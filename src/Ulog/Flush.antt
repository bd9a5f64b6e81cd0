-- ===== src/Ulog/Flush.antt =====
-- src/ulog.cpp, `ULog::_logging_flush`: what it writes.
use mavlink_router.Prelude.{
  ℕ, zero, suc, ◌+◌, ◌-◌, ◌≤◌, ◌≡◌, ◌≢◌, refl, sym, ap, ◌∙◌, inl, inr, true, ◌||◌, List, [], ◌∷◌,
  ◌++◌, append_assoc, arith, ltb, ◌==◌, Bool-cases, length, take, drop, length-drop,
  take-append-drop,
}
use mavlink_router.Os.{Ret, is_zero, is_eagain, is_failure}
use mavlink_router.Text.{Bytes}
use mavlink_router.Ulog.{
  Ulog, End, done, blocked, broken, corrupt, flush_partial, full_msg_size, holds_message, is_count,
  taken, keep_partial, flush_messages, logging_flush, partial_max,
}

-- All that the file has taken, and then what is still to be written to it.
unfoldable pub all_bytes : Ulog → Bytes
all_bytes u = u.written ++ (u.partial ++ u.buffer)

moved : (n : ℕ) (w s t : Bytes) → (w ++ take n s) ++ (drop n s ++ t) ≡ w ++ (s ++ t)
moved n w s t =
    append_assoc w (take n s) (drop n s ++ t)
    ∙ ap (λ x. w ++ x)
        (sym (append_assoc (take n s) (drop n s) t) ∙ ap (λ x. x ++ t) (take-append-drop n s))

-- What a flush keeps.
pub record Flushed (u : Ulog) (end : End) (v : Ulog) : Type 0 where
  pub bytes : end ≢ corrupt → all_bytes v ≡ all_bytes u
  pub extent : v.buffer_index + length v.buffer ≡ u.buffer_index + length u.buffer
  pub partial_fits : length u.partial ≤ partial_max → length v.partial ≤ partial_max
  pub shrinks : length v.buffer ≤ length u.buffer
  pub flag : v.waiting_first_msg_offset ≡ u.waiting_first_msg_offset
  pub log : v.log ≡ u.log

Flushed-same : (end : End) (u : Ulog) → Flushed u end u
Flushed-same end u = record {
  bytes = λ h. refl;
  extent = refl;
  partial_fits = λ h. h;
  shrinks = omega arith;
  flag = refl;
  log = refl;
}

Flushed-then : (u v w : Ulog) (end : End) → Flushed u done v → Flushed v end w → Flushed u end w
Flushed-then u v w end f g = record {
  bytes = λ h. g.bytes h ∙ f.bytes (λ e. cc);
  extent = g.extent ∙ f.extent;
  partial_fits = λ h. g.partial_fits (f.partial_fits h);
  shrinks = omega (arith, f.shrinks, g.shrinks);
  flag = g.flag ∙ f.flag;
  log = g.log ∙ f.log;
}

partial_step :
    (n : ℕ) (u : Ulog)
    → Flushed u done
        (record u { partial = drop n u.partial; written = u.written ++ take n u.partial })
unfolding all_bytes
partial_step n u = record {
  bytes = λ h. moved n u.written u.partial u.buffer;
  extent = refl;
  partial_fits = λ h. omega (arith, h, length-drop n u.partial);
  shrinks = omega arith;
  flag = refl;
  log = refl;
}

flush_partial-Flushed : (rs : List Ret) (u : Ulog) → Flushed u done (flush_partial rs u).1
unfolding flush_partial
flush_partial-Flushed [] u = Flushed-same done u
flush_partial-Flushed (r ∷ rs) u = elim (Bool-cases (length u.partial == 0)) [
  | inl e ↦ rw e (Flushed-same done u)
  | inr n ↦ rw n (elim (Bool-cases (is_zero r || is_eagain r)) [
    | inl e ↦ rw e (Flushed-same done u)
    | inr m ↦ rw m (elim (Bool-cases (is_failure r)) [
      | inl e ↦ rw e (Flushed-same done u)
      | inr k ↦
          let v = record u {
            partial = drop (taken r) u.partial;
            written = u.written ++ take (taken r) u.partial;
          } in
          rw k (Flushed-then u v _ _ (partial_step (taken r) u) (flush_partial-Flushed rs v))
    ])
  ])
]

whole_step :
    (u : Ulog)
    → u.partial ≡ []
    → holds_message u.buffer ≡ true
    → Flushed u done (record u {
      written = u.written ++ take (full_msg_size u.buffer) u.buffer;
      buffer = drop (full_msg_size u.buffer) u.buffer;
      buffer_index = u.buffer_index + full_msg_size u.buffer;
    })
unfolding holds_message all_bytes
whole_step u e h =
    let n = full_msg_size u.buffer in
    record {
      bytes = λ _. rw e (
          append_assoc u.written (take n u.buffer) (drop n u.buffer)
          ∙ ap (λ x. u.written ++ x) (take-append-drop n u.buffer));
      extent = ground (arith, h, length-drop n u.buffer);
      partial_fits = λ p. p;
      shrinks = omega (arith, length-drop n u.buffer);
      flag = refl;
      log = refl;
    }

pub length-take_le : (n : ℕ) (s : Bytes) → length (take n s) ≤ n
length-take_le zero s = omega arith
length-take_le (suc n) [] = omega arith
length-take_le (suc n) (x ∷ s) = omega (arith, length-take_le n s)

keep_partial-Flushed :
    (r : ℕ) (u : Ulog)
    → u.partial ≡ []
    → holds_message u.buffer ≡ true
    → let out = keep_partial (full_msg_size u.buffer) r u in Flushed u out.0 out.1
unfolding keep_partial holds_message all_bytes
keep_partial-Flushed r u e h =
    let n = full_msg_size u.buffer in
    let msg = take n u.buffer in
    elim (Bool-cases (ltb partial_max (n - r))) [
      | inl big ↦ rw big (record {
        bytes = λ c. absurd (c refl);
        extent = refl;
        partial_fits = λ p. omega arith;
        shrinks = omega arith;
        flag = refl;
        log = refl;
      })
      | inr small ↦ rw small (record {
        bytes = λ _.
            moved r u.written msg (drop n u.buffer)
            ∙ ap (λ x. u.written ++ x)
                (take-append-drop n u.buffer ∙ ap (λ x. x ++ u.buffer) (sym e));
        extent = ground (arith, h, length-drop n u.buffer);
        partial_fits = λ p. ground (arith, small, length-drop r msg, length-take_le n u.buffer);
        shrinks = omega (arith, length-drop n u.buffer);
        flag = refl;
        log = refl;
      })
    ]

flush_messages-Flushed :
    (rs : List Ret) (u : Ulog)
    → u.partial ≡ []
    → let out = flush_messages rs u in Flushed u out.0 out.1
unfolding flush_messages
flush_messages-Flushed [] u e = Flushed-same _ u
flush_messages-Flushed (r ∷ rs) u e =
    let full = full_msg_size u.buffer in
    elim (Bool-cases (holds_message u.buffer)) [
      | inr n ↦ rw n (Flushed-same done u)
      | inl h ↦ rw h (elim (Bool-cases (is_count full r)) [
        | inl c ↦
            let v = record u {
              written = u.written ++ take full u.buffer;
              buffer = drop full u.buffer;
              buffer_index = u.buffer_index + full;
            } in
            rw c (Flushed-then u v _ _ (whole_step u e h) (flush_messages-Flushed rs v e))
        | inr c ↦ rw c (elim (Bool-cases (is_zero r || is_eagain r)) [
          | inl b ↦ rw b (Flushed-same blocked u)
          | inr b ↦ rw b (elim (Bool-cases (is_failure r)) [
            | inl f ↦ rw f (Flushed-same broken u)
            | inr f ↦ rw f (keep_partial-Flushed (taken r) u e h)
          ])
        ])
      ])
    ]

empty_partial : (s : Bytes) → (length s == 0) ≡ true → s ≡ []
empty_partial [] h = refl
empty_partial (x ∷ s) h = absurd (ground (arith, h))

-- `_logging_flush`, whatever the calls of `write` return. Unless it cuts a message off for good, the file
-- has then taken some more of the bytes that were waiting, in their order, and the others still wait:
-- what it has taken, then the rest of a message that it took a part of, then the buffer, is what it was
-- before. The valid part of the buffer does not grow to the right, and the partial message still fits.
pub logging_flush-Flushed :
    (rs : List Ret) (u : Ulog) → let out = logging_flush rs u in Flushed u out.0 out.1
unfolding logging_flush
logging_flush-Flushed rs u =
    let (end, v, more) = flush_partial rs u in
    elim (Bool-cases (length v.partial == 0)) [
      | inl e ↦ rw e (
          Flushed-then u v _ _ (flush_partial-Flushed rs u)
            (flush_messages-Flushed more v (empty_partial v.partial e)))
      | inr n ↦ rw n (Flushed-then u v v end (flush_partial-Flushed rs u) (Flushed-same end v))
    ]
