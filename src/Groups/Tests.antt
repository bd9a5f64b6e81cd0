-- ===== src/Groups/Tests.antt =====
-- A group of three endpoints, each a member of the other two's lists, where the second knows the
-- address 5 of system 1 only.
use mavlink_router.Prelude.{
  zero, suc, ℕ, ◌≡◌, refl, ◌⊎◌, inl, false, some, List, [], ◌∷◌, ◌++◌, arith,
}
use mavlink_router.Accept.{sys_comp_id, has_sys_comp_id}
use mavlink_router.Groups.{Table, ids_of, add_sys_comp_id}
use mavlink_router.Groups.Closure.{Has, AreMembers}
use mavlink_router.Groups.Shared.{IsShared, add_sys_comp_id_lem}

abbrev members : ℕ → List ℕ
members zero = 1 ∷ 2 ∷ []
members (suc zero) = 0 ∷ 2 ∷ []
members (suc (suc zero)) = 0 ∷ 1 ∷ []
members j = []

abbrev table : Table
table = [] ∷ (261 ∷ []) ∷ [] ∷ []

members-AreMembers : AreMembers members 1 1 3
members-AreMembers zero = (omega arith, (omega arith, tt))
members-AreMembers (suc zero) = (omega arith, (omega arith, tt))
members-AreMembers (suc (suc zero)) = (omega arith, (omega arith, tt))
members-AreMembers (suc (suc (suc j))) = tt

table-IsShared : IsShared members 1 1 table
unfolding has_sys_comp_id sys_comp_id
table-IsShared zero = inl refl
table-IsShared (suc zero) = inl refl
table-IsShared (suc (suc zero)) = inl refl
table-IsShared (suc (suc (suc j))) = inl refl

add_sys_comp_id_lem_example :
    (t' : Table) × (add_sys_comp_id members 4 1 1 0 table ≡ some t')
    × Has members 1 1 t' 0
    × IsShared members 1 1 t'
    × ((j : ℕ)
        → (ids_of j t' ≡ ids_of j table)
          ⊎ ((ids_of j t' ≡ ids_of j table ++ (sys_comp_id 1 1 ∷ []))
              × (has_sys_comp_id 1 1 (ids_of j table) ≡ false)))
add_sys_comp_id_lem_example =
    add_sys_comp_id_lem members 1 1 0 table members-AreMembers (omega arith) table-IsShared
