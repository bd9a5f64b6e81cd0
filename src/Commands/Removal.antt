-- ===== src/Commands/Removal.antt =====
-- src/mainloop.cpp, `Mainloop::handle_command_pipe`: the `remove` command.
use mavlink_router.Prelude.{
  ◌≡◌, refl, sym, ap, subst, ◌∙◌, inl, inr, false, not, List, [], ◌∷◌, map, All, All-map, any, keep,
  Bool-cases,
}
use mavlink_router.Text.{Bytes}
use mavlink_router.Throttle.{is_empty}
use mavlink_router.Groups.Link.{Peer, same_text, unlink_group_member, is_member}
use mavlink_router.Commands.{Entry, Store, named, erase_named, unlink, remove_endpoint}
use mavlink_router.Commands.Names.{same_text_eq, peers, Distinct, Fresh}
use mavlink_router.Commands.Links.{keep-keep, group_of, Linked}
use mavlink_router.Commands.Invariant.{IsConsistent, or_false, Distinct-keep, All-keep}

group_of-unlink :
    (name : Bytes) (ps : List Peer) (p : Peer)
    → unlink_group_member name (group_of ps p)
      ≡ group_of (keep (λ p. not (same_text p.name name)) ps) p
unfolding group_of unlink_group_member
group_of-unlink name ps p = elim (Bool-cases (is_empty p.group)) [
  | inl e ↦ rw e refl
  | inr n ↦ rw n (keep-keep (λ p. not (same_text p.name name)) (is_member p) ps)
]

-- A name that no endpoint has takes none away.
keep-absent :
    (name : Bytes) (ps : List Peer)
    → any (λ q. same_text q.name name) ps ≡ false
    → keep (λ p. not (same_text p.name name)) ps ≡ ps
keep-absent name [] h = refl
keep-absent name (p ∷ ps) h =
    let (first, rest) = or_false (same_text p.name name) _ h in
    rw (first, keep-absent name ps rest) refl

module _ {Rate : Type 0} where
  peers-unlink : (name : Bytes) (es : List (Entry Rate)) → peers (map (unlink name) es) ≡ peers es
  unfolding peers unlink
  peers-unlink name [] = refl
  peers-unlink name (e ∷ es) = ap (λ ps. e.peer ∷ ps) (peers-unlink name es)

  -- Removing the endpoint of a name.
  peers-erase_named :
      (name : Bytes) (es : List (Entry Rate))
      → Distinct (peers es)
      → peers (erase_named name (map (unlink name) es))
        ≡ keep (λ p. not (same_text p.name name)) (peers es)
  unfolding peers erase_named unlink named Distinct
  peers-erase_named name [] d = refl
  peers-erase_named name (e ∷ es) (u, d) = elim (Bool-cases (same_text e.peer.name name)) [
    | inl this ↦
        let absent : any (λ q. same_text q.name name) (peers es) ≡ false =
          subst (λ n. any (λ q. same_text q.name n) (peers es) ≡ false)
            (same_text_eq e.peer.name name this) u in
        rw this (peers-unlink name es ∙ sym (keep-absent name (peers es) absent))
    | inr other ↦ rw (other, peers-erase_named name es d) refl
  ]

  All-erase_named :
      (P : Entry Rate → Type 0) (name : Bytes) (es : List (Entry Rate))
      → All P es
      → All P (erase_named name es)
  unfolding erase_named
  All-erase_named P name [] a = tt
  All-erase_named P name (e ∷ es) (h, a) = elim (Bool-cases (named name e)) [
    | inl this ↦ rw this a
    | inr other ↦ rw other (h, All-erase_named P name es a)
  ]

  pub remove_endpoint-IsConsistent :
      (name : Bytes) (s : Store Rate) → IsConsistent s → IsConsistent (remove_endpoint name s)
  unfolding remove_endpoint Fresh Linked unlink
  remove_endpoint-IsConsistent name s c =
      let left = peers-erase_named name s.endpoints c.distinct in
      record {
        distinct = subst Distinct (sym left) (Distinct-keep _ _ c.distinct);
        fresh = subst (Fresh s.next) (sym left) (All-keep _ _ _ c.fresh);
        linked =
            subst (λ ps. Linked ps (erase_named name (map (unlink name) s.endpoints))) (sym left)
              (unlinked c.linked);
      }
    where
      unlinked :
          Linked (peers s.endpoints) s.endpoints
          → Linked
              (keep (λ p. not (same_text p.name name)) (peers s.endpoints))
              (erase_named name (map (unlink name) s.endpoints))
      unlinked a = All-erase_named _ name _ (
          All-map _ _ (unlink name)
            (λ e h.
              ap (unlink_group_member name) h ∙ group_of-unlink name (peers s.endpoints) e.peer)
            s.endpoints a)
