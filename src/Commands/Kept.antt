-- ===== src/Commands/Kept.antt =====
-- src/mainloop.cpp, `Mainloop::handle_command_pipe`: whatever is read, the endpoints stay consistent.
use mavlink_router.Prelude.{
  ◌==◌, ℕ, arith, ◌≡◌, refl, subst, sym, inl, inr, Bool, true, false, ◌&&◌, not, some, List, [],
  ◌∷◌, if◌then◌else◌, length, leb, All, any, Bool-cases,
}
use mavlink_router.Text.{Bytes}
use mavlink_router.Conf.Values.{c_string, strtok}
use mavlink_router.Throttle.{is_empty}
use mavlink_router.Groups.Link.{Peer, same_text}
use mavlink_router.Commands.{
  Entry, Store, lines_of, word, named, may_add, config_of, coalescing, filtering,
}
use mavlink_router.Commands.Pipe.{
  Outside, add_word, remove_word, throttle_word, throttle_first, command, command_lines,
  handle_command_pipe,
}
use mavlink_router.Commands.Names.{peers, Distinct, Fresh}
use mavlink_router.Commands.Links.{Linked}
use mavlink_router.Commands.Invariant.{IsConsistent, add_endpoint-IsConsistent}
use mavlink_router.Commands.Removal.{remove_endpoint-IsConsistent}

-- The name that an `add` command gives.
config_of-name : (atoi : Bytes → ℕ) (a : List Bytes) → (config_of atoi a).name ≡ word a 2
unfolding config_of coalescing filtering
config_of-name atoi a = elim (Bool-cases (leb 11 (length a))) [
  | inl h ↦ elim (Bool-cases (leb 8 (length a))) [ inl k ↦ rw (h, k) refl | inr k ↦ rw (h, k) refl ]
  | inr h ↦ elim (Bool-cases (leb 8 (length a))) [ inl k ↦ rw (h, k) refl | inr k ↦ rw (h, k) refl ]
]

and_cases : (a b : Bool) → a && b ≡ true → (a ≡ true) × (b ≡ true)
and_cases true b h = (refl, h)
and_cases false b h = cc

is_false : (a : Bool) → not a ≡ true → a ≡ false
is_false true h = cc
is_false false h = refl

module _ {Rate : Type 0} (o : Outside Rate) where
  may_add-unused :
      (a : List Bytes) (s : Store Rate)
      → may_add o.atoi o.setup a s ≡ true
      → any (named (word a 2)) s.endpoints ≡ false
  unfolding may_add
  may_add-unused a s h = ground (arith, h)

  throttle_first-peers :
      (a : List Bytes) (es : List (Entry Rate)) → peers (throttle_first o a es) ≡ peers es
  unfolding throttle_first peers
  throttle_first-peers a [] = refl
  throttle_first-peers a (e ∷ es) = elim (Bool-cases (named (word a 1) e)) [
    | inl this ↦ rw this refl
    | inr other ↦ rw (other, throttle_first-peers a es) refl
  ]

  throttle_first-Linked :
      (a : List Bytes) (ps : List Peer) (es : List (Entry Rate))
      → Linked ps es
      → Linked ps (throttle_first o a es)
  unfolding throttle_first Linked
  throttle_first-Linked a ps [] l = tt
  throttle_first-Linked a ps (e ∷ es) (h, l) = elim (Bool-cases (named (word a 1) e)) [
    | inl this ↦ rw this (h, l)
    | inr other ↦ rw other (h, throttle_first-Linked a ps es l)
  ]

  throttle-IsConsistent :
      (a : List Bytes) (s : Store Rate)
      → IsConsistent s
      → IsConsistent (record s { endpoints = throttle_first o a s.endpoints })
  throttle-IsConsistent a s c =
      let same = sym (throttle_first-peers a s.endpoints) in
      record {
        distinct = subst Distinct same c.distinct;
        fresh = subst (Fresh s.next) same c.fresh;
        linked =
            subst (λ ps. Linked ps (throttle_first o a s.endpoints)) same
              (throttle_first-Linked a (peers s.endpoints) s.endpoints c.linked);
      }

  either_IsConsistent :
      (b : Bool) (s s' : Store Rate)
      → (b ≡ true → IsConsistent s')
      → IsConsistent s
      → IsConsistent (if b then s' else s)
  either_IsConsistent true s s' h k = h refl
  either_IsConsistent false s s' h k = k

  choice_IsConsistent :
      (b : Bool) (s s' : Store Rate)
      → IsConsistent s'
      → IsConsistent s
      → IsConsistent (if b then s' else s)
  choice_IsConsistent b s s' h k = either_IsConsistent b s s' (λ _. h) k

  -- A command that has a word.
  command-IsConsistent :
      (a : List Bytes) (s : Store Rate)
      → is_empty a ≡ false
      → IsConsistent s
      → (s' : Store Rate) × (command o a s ≡ some s') × IsConsistent s'
  unfolding command
  command-IsConsistent [] s w c = cc
  command-IsConsistent (verb ∷ more) s w c = (
    _,
    refl,
    choice_IsConsistent (same_text verb add_word) _ _
        (either_IsConsistent (may_add o.atoi o.setup a s) s _
          (λ may.
            add_endpoint-IsConsistent (config_of o.atoi a) s
              (subst (λ n. any (named n) s.endpoints ≡ false) (sym (config_of-name o.atoi a))
                (may_add-unused a s may))
              c)
          c)
        (choice_IsConsistent (same_text verb remove_word) _ _
          (choice_IsConsistent (length a == 2) s _ (remove_endpoint-IsConsistent (word a 1) s c) c)
          (choice_IsConsistent (same_text verb throttle_word) s _
            (choice_IsConsistent (length a == 4) s _ (throttle-IsConsistent a s c) c) c)),
  )
    where
      a : List Bytes
      a = verb ∷ more

  command_lines-IsConsistent :
      (lines : List Bytes) (s : Store Rate)
      → All (λ line. is_empty (strtok b' ' line) ≡ false) lines
      → IsConsistent s
      → (s' : Store Rate) × (command_lines o lines s ≡ some s') × IsConsistent s'
  unfolding command_lines
  command_lines-IsConsistent [] s w c = (s, refl, c)
  command_lines-IsConsistent (line ∷ lines) s (w, more) c =
      let (next, e, held) = command-IsConsistent (strtok b' ' line) s w c in
      let (last, e', held') = command_lines-IsConsistent lines next more held in
      (last, rw (command_lines, e) e', held')

  -- Whatever is read from the pipe, its commands are all worked through and leave the endpoints
  -- consistent, if they were so before and no line is blank: no two endpoints have the same name, and the
  -- members of each are exactly the other endpoints of its group, each once and in their order, also
  -- for the endpoints that were just added, and less those that were removed.
  pub handle_command_pipe_lem :
      (bytes : Bytes) (s : Store Rate)
      → All (λ line. is_empty (strtok b' ' line) ≡ false) (lines_of (c_string bytes))
      → IsConsistent s
      → (s' : Store Rate) × (handle_command_pipe o bytes s ≡ some s') × IsConsistent s'
  unfolding handle_command_pipe
  handle_command_pipe_lem bytes s w c = command_lines-IsConsistent (lines_of (c_string bytes)) s w c
