-- ===== src/Timers/Removal.antt =====
-- src/mainloop.cpp, `Mainloop::_del_timeouts`: which timers are removed.
use mavlink_router.Prelude.{
  ◌≡◌, refl, inl, inr, false, not, List, [], ◌∷◌, map, arith, keep, Bool-cases,
}
use mavlink_router.Timers.{Timeout, Deleted, del_behind, del_timeouts}

-- What the walk along the links amounts to.
abbrev pub IsRemoval : List Timeout → Deleted → Type 0
IsRemoval ts d =
    (d.kept ≡ keep (λ t. not t.remove_me) ts)
    × (d.removed ≡ map (λ t. t.fd) (keep (λ t. t.remove_me) ts))

del_behind-IsRemoval :
    (prev : Timeout) (ts : List Timeout)
    → prev.remove_me ≡ false
    → IsRemoval (prev ∷ ts) (del_behind prev ts)
unfolding del_behind
del_behind-IsRemoval prev [] stays = rw stays (refl, refl)
del_behind-IsRemoval prev (t ∷ ts) stays = elim (Bool-cases t.remove_me) [
  | inl gone ↦
      let (p, q) = del_behind-IsRemoval prev ts stays in
      (ground (arith, p, gone, stays), ground (arith, q, gone, stays))
  | inr on ↦
      let (p, q) = del_behind-IsRemoval t ts on in
      (ground (arith, p, on, stays), ground (arith, q, on, stays))
]

-- `_del_timeouts` leaves the timers that are not marked for removal, in their order, and takes the
-- descriptor of each marked one out of the poll set, once and in order.
pub del_timeouts-IsRemoval : (ts : List Timeout) → IsRemoval ts (del_timeouts ts)
unfolding del_timeouts
del_timeouts-IsRemoval [] = (refl, refl)
del_timeouts-IsRemoval (t ∷ ts) = elim (Bool-cases t.remove_me) [
  | inl gone ↦
      let (p, q) = del_timeouts-IsRemoval ts in (ground (arith, p, gone), ground (arith, q, gone))
  | inr stays ↦
      let (p, q) = del_behind-IsRemoval t ts stays in
      (ground (arith, p, stays), ground (arith, q, stays))
]
