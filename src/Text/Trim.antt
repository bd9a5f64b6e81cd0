-- ===== src/Text/Trim.antt =====
-- src/common/conf_file.cpp, `ConfFile::_trim`: what it leaves.
use mavlink_router.Prelude.{
  ℕ, ◌≡◌, refl, ◌∙◌, inl, inr, true, false, not, some, [], ◌∷◌, ◌++◌, arith, get_or, any,
  Option-cases,
}
use mavlink_router.Throttle.{is_empty}
use mavlink_router.Text.{Bytes, last_or, is_space, split_at, trim_front, trim_end, trim}

-- A text that is not empty, and neither begins nor ends with white space.
pub record IsTrimmed (s : Bytes) : Type 0 where
  pub filled : is_empty s ≡ false
  pub front : is_space (get_or s 0 0) ≡ false
  pub back : is_space (last_or s 0) ≡ false

-- Some byte of the text is not white space.
abbrev pub HasInk : Bytes → Type 0
HasInk s = any (λ c. not (is_space c)) s ≡ true

trim_front-ink :
    (s : Bytes) → any (λ c. not (is_space c)) (trim_front s) ≡ any (λ c. not (is_space c)) s
unfolding trim_front
trim_front-ink [] = refl
trim_front-ink (x ∷ xs) = ground (arith, trim_front-ink xs)

trim_end-ink :
    (s : Bytes) → any (λ c. not (is_space c)) (trim_end s) ≡ any (λ c. not (is_space c)) s
unfolding trim_end
trim_end-ink [] = refl
trim_end-ink (x ∷ xs) = go (trim_end xs) refl (trim_end-ink xs)
  where
    go :
        (t : Bytes)
        → trim_end xs ≡ t
        → any (λ c. not (is_space c)) (trim_end xs) ≡ any (λ c. not (is_space c)) xs
        → any (λ c. not (is_space c)) (trim_end (x ∷ xs)) ≡ any (λ c. not (is_space c)) (x ∷ xs)
    go [] e ih = ground arith
    go (y ∷ ys) e ih = ground arith

trim_front_first :
    (s : Bytes) → is_empty (trim_front s) ≡ false → is_space (get_or (trim_front s) 0 0) ≡ false
unfolding trim_front
trim_front_first [] h = cc
trim_front_first (x ∷ xs) h = ground (arith, trim_front_first xs)

-- The first byte stays, where something stays.
trim_end_first :
    (s : Bytes) → is_empty (trim_end s) ≡ false → get_or (trim_end s) 0 0 ≡ get_or s 0 0
unfolding trim_end
trim_end_first [] h = cc
trim_end_first (x ∷ xs) h = ground arith

trim_end_last :
    (s : Bytes) (d : ℕ) → is_empty (trim_end s) ≡ false → is_space (last_or (trim_end s) d) ≡ false
unfolding trim_end
trim_end_last [] d h = cc
trim_end_last (x ∷ xs) d h = go (trim_end xs) refl (trim_end_last xs x)
  where
    go :
        (t : Bytes)
        → trim_end xs ≡ t
        → (is_empty (trim_end xs) ≡ false → is_space (last_or (trim_end xs) x) ≡ false)
        → is_space (last_or (trim_end (x ∷ xs)) d) ≡ false
    go [] e ih = ground arith
    go (y ∷ ys) e ih = ground arith

ink_filled : (t : Bytes) → HasInk t → is_empty t ≡ false
ink_filled [] h = cc
ink_filled (x ∷ xs) h = refl

trim_filled : (s : Bytes) → HasInk s → is_empty (trim s) ≡ false
unfolding trim
trim_filled s ink =
    ink_filled (trim_end (trim_front s)) (trim_end-ink (trim_front s) ∙ trim_front-ink s ∙ ink)

trim_end_filled : (s : Bytes) → is_empty (trim_end s) ≡ false → is_empty s ≡ false
unfolding trim_end
trim_end_filled [] h = h
trim_end_filled (x ∷ xs) h = refl

-- `_trim` leaves nothing, or a trimmed text.
pub trim-IsTrimmed : (s : Bytes) → is_empty (trim s) ≡ false → IsTrimmed (trim s)
unfolding trim
trim-IsTrimmed s filled = record {
  filled = filled;
  front =
      rw (trim_end_first (trim_front s) filled)
        (trim_front_first s (trim_end_filled (trim_front s) filled));
  back = trim_end_last (trim_front s) 0 filled;
}

first_ink : (s : Bytes) → is_empty s ≡ false → is_space (get_or s 0 0) ≡ false → HasInk s
first_ink [] h k = cc
first_ink (x ∷ xs) h k = ground arith

last_ink : (s : Bytes) (d : ℕ) → is_empty s ≡ false → is_space (last_or s d) ≡ false → HasInk s
last_ink [] d h k = cc
last_ink (x ∷ []) d h k = ground arith
last_ink (x ∷ y ∷ ys) d h k = ground (arith, last_ink (y ∷ ys) x)

-- The parts of a trimmed text at a byte have ink, if they are not empty.
split_at-parts :
    (c : ℕ) (s before behind : Bytes)
    → split_at c s ≡ some (before, behind)
    → s ≡ before ++ (c ∷ behind)
unfolding split_at
split_at-parts c [] before behind h = cc
split_at-parts c (x ∷ xs) before behind h = elim (Option-cases (split_at c xs)) [
  | inl e ↦ ground (arith, e)
  | inr ((b, f), e) ↦ ground (arith, e, split_at-parts c xs b f e)
]

get_or-front :
    (before rest : Bytes)
    → is_empty before ≡ false
    → get_or (before ++ rest) 0 0 ≡ get_or before 0 0
get_or-front [] rest h = cc
get_or-front (x ∷ xs) rest h = refl

last_or-back :
    (before rest : Bytes) (d e : ℕ)
    → is_empty rest ≡ false
    → last_or (before ++ rest) d ≡ last_or rest e
last_or-back [] [] d e h = cc
last_or-back [] (y ∷ ys) d e h = refl
last_or-back (x ∷ xs) rest d e h = last_or-back xs rest x e h

-- The two parts of a trimmed text at its first byte `c` are not empty when they are trimmed, if they are
-- not before.
pub split_at-IsTrimmed :
    (c : ℕ) (s before behind : Bytes)
    → IsTrimmed s
    → split_at c s ≡ some (before, behind)
    → is_empty before ≡ false
    → is_empty behind ≡ false
    → IsTrimmed (trim before) × IsTrimmed (trim behind)
split_at-IsTrimmed c s before behind t h b₁ b₂ =
    let parts = split_at-parts c s before behind h in
    (
      trim-IsTrimmed before (
          trim_filled before
            (first_ink before b₁ (rw (← get_or-front before (c ∷ behind) b₁, ← parts) t.front))),
      trim-IsTrimmed behind (
          trim_filled behind (
            last_ink behind c b₂
              (rw (← last_or-back before (c ∷ behind) 0 0 refl, ← parts) t.back))),
    )
