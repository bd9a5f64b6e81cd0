-- ===== src/Text/Fold.antt =====
-- src/common/util.h, `memcaseeq`, by a normal form of texts.
use mavlink_router.Prelude.{
  ℕ, suc, ◌≡◌, refl, sym, ap, ◌∙◌, ◌↔◌, Bool, true, false, inl, inr, [], ◌∷◌, arith, ◌==◌,
  if◌then◌else◌, length, Bool-cases,
}
use mavlink_router.Text.{Bytes, lower, strncaseeq, memcaseeq}

-- As many zeros as bytes.
pub blank : Bytes → Bytes
blank [] = []
blank (x ∷ xs) = 0 ∷ blank xs

-- All bytes as lower case, and only zeros from the first zero on.
pub fold : Bytes → Bytes
unfolding blank
fold [] = []
fold (x ∷ xs) = if x == 0 then 0 ∷ blank xs else lower x ∷ fold xs

length-blank : (xs : Bytes) → length (blank xs) ≡ length xs
unfolding blank
length-blank [] = refl
length-blank (x ∷ xs) = ap suc (length-blank xs)

pub length-fold : (xs : Bytes) → length (fold xs) ≡ length xs
unfolding fold
length-fold [] = refl
length-fold (x ∷ xs) = ground (arith, length-blank xs, length-fold xs)

blank_of_length : (xs ys : Bytes) → length xs ≡ length ys → blank xs ≡ blank ys
unfolding blank
blank_of_length [] [] e = refl
blank_of_length [] (y ∷ ys) e = absurd (omega (arith, e))
blank_of_length (x ∷ xs) [] e = absurd (omega (arith, e))
blank_of_length (x ∷ xs) (y ∷ ys) e = ap (◌∷◌ 0) (blank_of_length xs ys (omega (arith, e)))

lower_zero : (x : ℕ) → (lower x == 0) ≡ (x == 0)
unfolding lower
lower_zero x = ground arith

strncaseeq→fold :
    (xs ys : Bytes) → length xs ≡ length ys → strncaseeq xs ys ≡ true → fold xs ≡ fold ys
unfolding strncaseeq fold
strncaseeq→fold [] [] e h = refl
strncaseeq→fold [] (y ∷ ys) e h = absurd (omega (arith, e))
strncaseeq→fold (x ∷ xs) [] e h = absurd (omega (arith, e))
strncaseeq→fold (x ∷ xs) (y ∷ ys) e h =
    ground (arith, lower_zero x, lower_zero y, blank_of_length xs ys, strncaseeq→fold xs ys)

fold→strncaseeq : (xs ys : Bytes) → fold xs ≡ fold ys → strncaseeq xs ys ≡ true
unfolding strncaseeq fold
fold→strncaseeq [] ys h = refl
fold→strncaseeq (x ∷ xs) [] h = ground arith
fold→strncaseeq (x ∷ xs) (y ∷ ys) h =
    ground (arith, lower_zero x, lower_zero y, fold→strncaseeq xs ys)

-- Two texts are equal for `memcaseeq` exactly if their normal forms are.
pub memcaseeq_iff : (a b : Bytes) → (memcaseeq a b ≡ true) ↔ (fold a ≡ fold b)
unfolding memcaseeq
memcaseeq_iff a b = (
  λ h. strncaseeq→fold a b (ground arith) (ground arith),
  λ h. ground (arith, fold→strncaseeq a b h, ap length h, length-fold a, length-fold b),
)

bool_of_iff : (a b : Bool) → (a ≡ true → b ≡ true) → (b ≡ true → a ≡ true) → a ≡ b
bool_of_iff true b f g = sym (f refl)
bool_of_iff false true f g = g refl
bool_of_iff false false f g = refl

-- Texts with one normal form are alike on either side of `memcaseeq`.
pub memcaseeq_right : (a b c : Bytes) → fold b ≡ fold c → memcaseeq a b ≡ memcaseeq a c
memcaseeq_right a b c e =
    bool_of_iff _ _ (λ h. (memcaseeq_iff a c).1 ((memcaseeq_iff a b).0 h ∙ e))
      (λ h. (memcaseeq_iff a b).1 ((memcaseeq_iff a c).0 h ∙ sym e))

pub memcaseeq_left : (a b c : Bytes) → fold a ≡ fold b → memcaseeq a c ≡ memcaseeq b c
memcaseeq_left a b c e =
    bool_of_iff _ _ (λ h. (memcaseeq_iff b c).1 (sym e ∙ (memcaseeq_iff a c).0 h))
      (λ h. (memcaseeq_iff a c).1 (e ∙ (memcaseeq_iff b c).0 h))

pub memcaseeq_refl : (a : Bytes) → memcaseeq a a ≡ true
memcaseeq_refl a = (memcaseeq_iff a a).1 refl

pub memcaseeq_alike : (a b : Bytes) → memcaseeq a b ≡ true → fold a ≡ fold b
memcaseeq_alike a b h = (memcaseeq_iff a b).0 h

-- A text that is like one of two that differ is not like the other.
pub memcaseeq_apart :
    (a b c : Bytes) → memcaseeq a c ≡ false → memcaseeq b c ≡ true → memcaseeq b a ≡ false
memcaseeq_apart a b c h k = elim (Bool-cases (memcaseeq b a)) [
  | inl e ↦ cc (memcaseeq_left a b c (sym (memcaseeq_alike b a e)))
  | inr n ↦ n
]
