-- ===== src/Commands/Names.antt =====
-- src/mainloop.cpp, `Mainloop::handle_command_pipe`: the names and numbers of the endpoints.
use mavlink_router.Prelude.{
  ℕ, ◌<◌, ◌≡◌, refl, sym, ap, ◌∙◌, inl, inr, true, false, List, [], ◌∷◌, map, arith, ◌==◌, ==_iff,
  All, any, Bool-cases,
}
use mavlink_router.Text.{Bytes}
use mavlink_router.Groups.Link.{Peer, same_text}
use mavlink_router.Commands.{Entry}

pub same_text_refl : (a : Bytes) → same_text a a ≡ true
unfolding same_text
same_text_refl [] = refl
same_text_refl (x ∷ xs) = ground (arith, same_text_refl xs)

pub same_text_eq : (a b : Bytes) → same_text a b ≡ true → a ≡ b
unfolding same_text
same_text_eq [] [] h = refl
same_text_eq [] (y ∷ ys) h = cc
same_text_eq (x ∷ xs) [] h = cc
same_text_eq (x ∷ xs) (y ∷ ys) h = elim (Bool-cases (x == y)) [
  | inl e ↦
      let rest : same_text xs ys ≡ true = rw e at h in
      let head : x ≡ y = (==_iff x y).0 e in cc (same_text_eq xs ys rest, head)
  | inr n ↦ let never : false ≡ true = rw n at h in cc
]

pub same_text_sym : (a b : Bytes) → same_text a b ≡ same_text b a
same_text_sym a b = elim (Bool-cases (same_text a b)) [
  | inl e ↦
      ap (λ c. same_text a c) (sym (same_text_eq a b e))
      ∙ ap (λ c. same_text c a) (same_text_eq a b e)
  | inr n ↦ elim (Bool-cases (same_text b a)) [
    | inl e ↦
        ap (λ c. same_text a c) (same_text_eq b a e)
        ∙ ap (λ c. same_text c a) (sym (same_text_eq b a e))
    | inr m ↦ n ∙ sym m
  ]
]

module _ {Rate : Type 0} where
  unfoldable pub peers : List (Entry Rate) → List Peer
  peers es = map (λ e. e.peer) es

-- No two endpoints have the same name, and none has a number that is still to come.
unfoldable pub Distinct : List Peer → Type 0
Distinct [] = Unit
Distinct (p ∷ ps) = (any (λ q. same_text q.name p.name) ps ≡ false) × Distinct ps

unfoldable pub Fresh : ℕ → List Peer → Type 0
Fresh next ps = All (λ p. p.number < next) ps
