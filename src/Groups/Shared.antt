-- ===== src/Groups/Shared.antt =====
-- src/endpoint.cpp, `Endpoint::_add_sys_comp_id`: who knows an address after it.
use mavlink_router.Prelude.{
  ℕ, suc, ◌<◌, ◌≡◌, refl, ◌⊎◌, inl, inr, false, some, List, [], ◌∷◌, ◌++◌, arith, length, All,
}
use mavlink_router.Accept.{sys_comp_id, has_sys_comp_id}
use mavlink_router.Groups.{Table, ids_of, add_sys_comp_id}
use mavlink_router.Groups.Store.{lacking_le}
use mavlink_router.Groups.Closure.{
  Has, Grows, same, joined, All-Has-Grows, AreMembers, add_sys_comp_id-Adds,
}

module _ (members : ℕ → List ℕ) (sysid compid : ℕ) where
  -- Whoever knows the address, so do all members of its group.
  abbrev pub IsShared : Table → Type 0
  IsShared t =
      (j : ℕ)
      → (has_sys_comp_id sysid compid (ids_of j t) ≡ false)
        ⊎ All (Has members sysid compid t) (members j)

  -- With fuel for one call for each endpoint and one, `_add_sys_comp_id` ends, whatever the groups are,
  -- cyclic as they are too. After it the endpoint knows the address; every endpoint has the addresses that
  -- it had, or this one besides, which it did not have; and if before the address was shared in all groups,
  -- it is shared in all of them after. The endpoint and the members of the groups are those of the store.
  pub add_sys_comp_id_lem :
      (i : ℕ) (t : Table)
      → AreMembers members sysid compid (length t)
      → i < length t
      → IsShared t
      → (t' : Table) × (add_sys_comp_id members (suc (length t)) sysid compid i t ≡ some t')
        × Has members sysid compid t' i
        × IsShared t'
        × ((j : ℕ)
            → (ids_of j t' ≡ ids_of j t)
              ⊎ ((ids_of j t' ≡ ids_of j t ++ (sys_comp_id sysid compid ∷ []))
                  × (has_sys_comp_id sysid compid (ids_of j t) ≡ false)))
  add_sys_comp_id_lem i t valid lt shared =
      let a =
        add_sys_comp_id-Adds members sysid compid (suc (length t)) (length t) i t valid lt refl
          (omega (arith, lacking_le sysid compid t)) in
      (
        a.after,
        a.returns,
        a.has.0,
        λ j. stays a.after a.grows j (a.grows j) (shared j),
        λ j. only (a.grows j),
      )
    where
      stays :
          (after : Table)
          → ((j : ℕ) → Grows members sysid compid t after j)
          → (j : ℕ) → Grows members sysid compid t after j
          → (has_sys_comp_id sysid compid (ids_of j t) ≡ false)
            ⊎ All (Has members sysid compid t) (members j)
          → (has_sys_comp_id sysid compid (ids_of j after) ≡ false)
            ⊎ All (Has members sysid compid after) (members j)
      stays after g j (joined new lacks all) s = inr all
      stays after g j (same e) (inl lacks) = inl (rw e lacks)
      stays after g j (same e) (inr all) =
          inr (All-Has-Grows members sysid compid t after (members j) g all)

      only :
          {after : Table} {j : ℕ}
          → Grows members sysid compid t after j
          → (ids_of j after ≡ ids_of j t)
            ⊎ ((ids_of j after ≡ ids_of j t ++ (sys_comp_id sysid compid ∷ []))
                × (has_sys_comp_id sysid compid (ids_of j t) ≡ false))
      only (same e) = inl e
      only (joined new lacks all) = inr (new, lacks)
