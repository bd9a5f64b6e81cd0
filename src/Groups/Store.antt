-- ===== src/Groups/Store.antt =====
-- src/endpoint.cpp, `_sys_comp_ids` of the endpoints: what a new address changes.
use mavlink_router.Prelude.{
  ℕ, zero, suc, ◌+◌, ◌≤◌, ◌<◌, ◌≡◌, refl, ap, false, ◌||◌, List, [], ◌∷◌, ◌++◌, arith, ◌==◌,
  if◌then◌else◌, length, contains,
}
use mavlink_router.Accept.{sys_comp_id}
use mavlink_router.Groups.{Table, ids_of, push_id}

module _ (sysid compid : ℕ) where
  abbrev pub key : ℕ
  key = sys_comp_id sysid compid

  -- How many endpoints do not know it.
  pub lacking : Table → ℕ
  lacking [] = 0
  lacking (ids ∷ t) = (if contains key ids then 0 else 1) + lacking t

  pub contains-append :
      (a b : ℕ) (xs : List ℕ) → contains a (xs ++ (b ∷ [])) ≡ (contains a xs || b == a)
  contains-append a b [] = ground arith
  contains-append a b (x ∷ xs) = ground (arith, contains-append a b xs)

  pub length-push_id : (i id : ℕ) (t : Table) → length (push_id i id t) ≡ length t
  unfolding push_id
  length-push_id i id [] = refl
  length-push_id zero id (ids ∷ t) = refl
  length-push_id (suc i) id (ids ∷ t) = ap suc (length-push_id i id t)

  pub ids_of-push_id :
      (i j id : ℕ) (t : Table)
      → i < length t
      → ids_of j (push_id i id t) ≡ (if j == i then ids_of j t ++ (id ∷ []) else ids_of j t)
  unfolding push_id
  ids_of-push_id i j id [] h = absurd (omega arith)
  ids_of-push_id zero zero id (ids ∷ t) h = refl
  ids_of-push_id zero (suc j) id (ids ∷ t) h = ground arith
  ids_of-push_id (suc i) zero id (ids ∷ t) h = ground arith
  ids_of-push_id (suc i) (suc j) id (ids ∷ t) h = ground (arith, ids_of-push_id i j id t)

  pub lacking-push_id :
      (i : ℕ) (t : Table)
      → i < length t
      → contains key (ids_of i t) ≡ false
      → lacking (push_id i key t) + 1 ≡ lacking t
  unfolding push_id lacking
  lacking-push_id i [] h lacks = absurd (omega arith)
  lacking-push_id zero (ids ∷ t) h lacks = ground (arith, contains-append key key ids)
  lacking-push_id (suc i) (ids ∷ t) h lacks = ground (arith, lacking-push_id i t)

  pub lacking_le : (t : Table) → lacking t ≤ length t
  unfolding lacking
  lacking_le [] = omega arith
  lacking_le (ids ∷ t) = ground (arith, lacking_le t)
