-- ===== src/Log/Deletion/Oldest.antt =====
-- src/logendpoint.cpp, `LogEndpoint::_delete_old_logs`: how many logs it deletes, and which.
use mavlink_router.Prelude.{
  ℕ, ◌+◌, ◌-◌, ◌%◌, ◌^◌, ◌≤◌, ◌<◌, ◌≡◌, refl, ap, ◌⊎◌, inl, inr, true, false, ◌&&◌, not, List, [],
  ◌∷◌, ◌++◌, arith, ltb, Bool-cases, length, All, cons-head, cons-tail,
}
use mavlink_router.Log.Deletion.{OldLog, is_positive64, delete_loop}

unfoldable pub total : List OldLog → ℕ
total [] = 0
total (l ∷ ls) = l.size + total ls

-- The logs that are gone are the first ones; they are enough, or all; and at each of them more was
-- needed. Of two demands, `freed` of `need` bytes and `n` of `over` logs have been met before.
pub record IsShortest (need freed over n : ℕ) (ls gone : List OldLog) : Type 0 where
  pub kept : List OldLog
  pub parts : ls ≡ gone ++ kept
  pub enough : (kept ≡ []) ⊎ ((need ≤ freed + total gone) × (over ≤ n + length gone))
  pub minimal :
      (before after : List OldLog) (l : OldLog)
      → gone ≡ before ++ l ∷ after
      → (freed + total before < need) ⊎ (n + length before < over)

abbrev pub AreRemovable : List OldLog → Type 0
AreRemovable ls = All (λ l. (l.fits_path && l.removable) ≡ true) ls

pub nothing-IsShortest :
    (need freed over n : ℕ) (ls : List OldLog)
    → (ls ≡ []) ⊎ ((need ≤ freed) × (over ≤ n))
    → IsShortest need freed over n ls []
unfolding total
nothing-IsShortest need freed over n ls h = record {
  kept = ls;
  parts = refl;
  enough = elim h [ inl e ↦ inl e | inr (a, b) ↦ inr (omega (arith, a), omega (arith, b)) ];
  minimal = λ before after l e. absurd (empty before after l e);
}
  where
    empty : (before after : List OldLog) (l : OldLog) → [] ≡ before ++ l ∷ after → ⊥
    empty [] after l e = cc
    empty (b ∷ before) after l e = cc

one_more :
    (need freed over n : ℕ) (l : OldLog) (ls gone : List OldLog)
    → (freed < need) ⊎ (n < over)
    → IsShortest need (freed + l.size) over (n + 1) ls gone
    → IsShortest need freed over n (l ∷ ls) (l ∷ gone)
unfolding total
one_more need freed over n l ls gone wanted s = record {
  kept = s.kept;
  parts = ap (λ t. l ∷ t) s.parts;
  enough = elim s.enough [ inl e ↦ inl e | inr (a, b) ↦ inr (omega (arith, a), omega (arith, b)) ];
  minimal = λ before after m e. earlier before after m e;
}
  where
    earlier :
        (before after : List OldLog) (m : OldLog)
        → l ∷ gone ≡ before ++ m ∷ after
        → (freed + total before < need) ⊎ (n + length before < over)
    earlier [] after m e = elim wanted [
      | inl a ↦ inl (omega (arith, a))
      | inr b ↦ inr (omega (arith, b))
    ]
    earlier (b ∷ before) after m e =
        let same : l.size ≡ b.size = ap (λ x. x.size) (cons-head e) in
        elim (s.minimal before after m (cons-tail e)) [
          | inl h ↦ inl (omega (arith, h, same))
          | inr h ↦ inr (omega (arith, h))
        ]

positive :
    (need freed : ℕ)
    → need < 2 ^ 63
    → freed < 2 ^ 63
    → is_positive64 ((need + 2 ^ 64 - freed) % 2 ^ 64) ≡ ltb freed need
unfolding is_positive64
positive need freed h k = ground (arith, h, k)

less :
    (need freed size : ℕ)
    → need < 2 ^ 63
    → freed + size < 2 ^ 63
    → ((need + 2 ^ 64 - freed) % 2 ^ 64 + 2 ^ 64 - size) % 2 ^ 64
      ≡ (need + 2 ^ 64 - (freed + size)) % 2 ^ 64
less need freed size h k = omega (arith, h, k)

wanted :
    (need freed over n : ℕ)
    → (not (ltb freed need) && not (ltb n over)) ≡ false
    → (freed < need) ⊎ (n < over)
wanted need freed over n e = elim (Bool-cases (ltb freed need)) [
  | inl a ↦ inl (ground (arith, a))
  | inr a ↦ inr (ground (arith, a, e))
]

pub delete_loop-IsShortest :
    (need freed over n : ℕ) (ls : List OldLog)
    → need < 2 ^ 63
    → over < 2 ^ 63
    → freed + total ls < 2 ^ 63
    → n + length ls < 2 ^ 63
    → AreRemovable ls
    → IsShortest need freed over n ls
        (delete_loop ((need + 2 ^ 64 - freed) % 2 ^ 64) ((over + 2 ^ 64 - n) % 2 ^ 64) ls).0
unfolding delete_loop total
delete_loop-IsShortest need freed over n [] p q r t v =
    nothing-IsShortest need freed over n [] (inl refl)
delete_loop-IsShortest need freed over n (l ∷ ls) p q r t v =
    let bytes = positive need freed p (omega (arith, r)) in
    let files = positive over n q (omega (arith, t)) in
    rw (bytes, files)
      (elim (Bool-cases (not (ltb freed need) && not (ltb n over))) [
        | inl e ↦ rw e (
            nothing-IsShortest need freed over n (l ∷ ls)
              (inr (ground (arith, e), ground (arith, e))))
        | inr e ↦
            rw
              (
                e,
                v.0,
                less need freed l.size p (omega (arith, r)),
                less over n 1 q (omega (arith, t)),
              )
              (one_more need freed over n l ls _ (wanted need freed over n e) (
                delete_loop-IsShortest need (freed + l.size) over (n + 1) ls p q (omega (arith, r))
                  (omega (arith, t)) v.1))
      ])
