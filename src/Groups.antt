-- ===== src/Groups.antt =====
-- src/endpoint.cpp: the addresses that the endpoints of a group share, `Endpoint::_add_sys_comp_id`.
pub mod Store
pub mod Closure
pub mod Shared
pub mod Link
mod Tests
use mavlink_router.Prelude.{
  ℕ, zero, suc, Bool, true, false, ◌&&◌, ◌||◌, not, Option, none, some, List, [], ◌∷◌, ◌++◌, ◌==◌,
  if◌then◌else◌, get_or, keep,
}
use mavlink_router.Accept.{sys_comp_id, has_sys_comp_id}

-- The endpoints stand in a store by number, and `_sys_comp_ids` of each in a list.
abbrev pub Table : Type 0
Table = List (List ℕ)

abbrev pub ids_of : ℕ → Table → List ℕ
ids_of i t = get_or t i []

-- `_sys_comp_ids.push_back`
pub push_id : ℕ → ℕ → Table → Table
push_id i id [] = []
push_id zero id (ids ∷ t) = (ids ++ (id ∷ [])) ∷ t
push_id (suc i) id (ids ∷ t) = ids ∷ push_id i id t

-- The loop over the group members, where `add` is the call for one of them.
pub add_each : (ℕ → Table → Option Table) → List ℕ → Table → Option Table
add_each add [] t = some t
add_each add (i ∷ is) t = elim (add i t) [ none ↦ none | some t' ↦ add_each add is t' ]

-- `_add_sys_comp_id` of the endpoint `i`, where `members` are the `_group_members` of each. The fuel
-- bounds the depth of the calls; `none` says that it was not enough.
pub add_sys_comp_id : (ℕ → List ℕ) → ℕ → ℕ → ℕ → ℕ → Table → Option Table
add_sys_comp_id members zero sysid compid i t = none
add_sys_comp_id members (suc fuel) sysid compid i t =
    let added =
      add_each (add_sys_comp_id members fuel sysid compid) (members i)
        (push_id i (sys_comp_id sysid compid) t) in
    if has_sys_comp_id sysid compid (ids_of i t) then some t else added
