-- ===== src/Prelude/Maps.antt =====
-- Maps from numbers, as association lists; and membership of a list as a predicate.
use Prim.Native.Nat.{ℕ}
use mathlib.Core.Path.{◌≡◌, refl}
use mathlib.Core.Logic.{◌⊎◌, inl, inr}
use mathlib.Core.Bool.{Bool, true, false}
use mathlib.Core.List.{List, [], ◌∷◌}
use mathlib.Core.Option.{Option, none, some}
use native.Mathlib.Omega.{arith}
use mavlink_router.Prelude.Tests.{if◌then◌else◌, ◌==◌, ==_iff, Bool-cases}
use mavlink_router.Prelude.Lists.{contains}

-- The entries of a map whose keys are numbers.
abbrev pub Entries {ℓ} : Type ℓ → Type ℓ
Entries V = List (ℕ × V)

module _ {ℓ} {V : Type ℓ} where
  unfoldable pub lookup : ℕ → Entries V → Option V
  lookup key [] = none
  lookup key ((id, value) ∷ rest) = if id == key then some value else lookup key rest

  -- A key that is there keeps its place.
  unfoldable pub insert : ℕ → V → Entries V → Entries V
  insert key new [] = (key, new) ∷ []
  insert key new ((id, old) ∷ rest) =
      if id == key then (id, new) ∷ rest else (id, old) ∷ insert key new rest

  unfoldable pub erase : ℕ → Entries V → Entries V
  erase key [] = []
  erase key ((id, value) ∷ rest) =
      let others = erase key rest in if id == key then others else (id, value) ∷ others

  pub lookup-insert :
      (key other : ℕ) (new : V) (entries : Entries V)
      → lookup other (insert key new entries)
        ≡ (if key == other then some new else lookup other entries)
  unfolding lookup insert
  lookup-insert key other new [] = refl
  lookup-insert key other new ((id, old) ∷ rest) = ground (lookup-insert key other new rest, arith)

  pub lookup-erase :
      (key other : ℕ) (entries : Entries V)
      → lookup other (erase key entries) ≡ (if key == other then none else lookup other entries)
  unfolding lookup erase
  lookup-erase key other [] = ground arith
  lookup-erase key other ((id, value) ∷ rest) = ground (lookup-erase key other rest, arith)

abbrev pub is_some {ℓ} : {A : Type ℓ} → Option A → Bool
is_some none = false
is_some (some a) = true

-- `a` stands in the list.
abbrev pub In : ℕ → List ℕ → Type 0
In a [] = ⊥
In a (x ∷ xs) = (x ≡ a) ⊎ In a xs

pub contains→In : (a : ℕ) (xs : List ℕ) → contains a xs ≡ true → In a xs
contains→In a [] h = cc
contains→In a (x ∷ xs) h = elim (Bool-cases (x == a)) [
  | inl e ↦ inl ((==_iff x a).0 e)
  | inr e ↦ inr (contains→In a xs (rw e at h))
]

pub In→contains : (a : ℕ) (xs : List ℕ) → In a xs → contains a xs ≡ true
In→contains a [] h = absurd h
In→contains a (x ∷ xs) (inl e) = ground arith
In→contains a (x ∷ xs) (inr h) = ground (arith, In→contains a xs h)
