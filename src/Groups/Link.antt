-- ===== src/Groups/Link.antt =====
-- src/endpoint.cpp, `Endpoint::link_group_member` and `unlink_group_member`, and the loop of src/mainloop.cpp
-- that makes the groups: which endpoints are members of the group of an endpoint.
use mavlink_router.Prelude.{
  ℕ, ◌≡◌, inl, inr, Bool, true, false, ◌||◌, ◌&&◌, not, List, [], ◌∷◌, ◌++◌, append-nil,
  append_assoc, sym, ◌∙◌, ◌==◌, if◌then◌else◌, Bool-cases, keep,
}
use mavlink_router.Text.{Bytes}
use mavlink_router.Throttle.{is_empty}

-- An endpoint: its number in the store, its name and the name of its group; names are texts.
pub record Peer : Type 0 where
  pub number : ℕ
  pub name : Bytes
  pub group : Bytes

-- `==` of two `std::string`.
unfoldable pub same_text : Bytes → Bytes → Bool
same_text [] [] = true
same_text [] (y ∷ ys) = false
same_text (x ∷ xs) [] = false
same_text (x ∷ xs) (y ∷ ys) = if x == y then same_text xs ys else false

-- `link_group_member`, on the `_group_members` of an endpoint.
unfoldable pub link_group_member : Peer → Peer → List Peer → List Peer
link_group_member this other members =
    if is_empty this.group || not (same_text other.group this.group)
    then members
    else members ++ (other ∷ [])

-- `unlink_group_member`
unfoldable pub unlink_group_member : Bytes → List Peer → List Peer
unlink_group_member name members = keep (λ p. not (same_text p.name name)) members

-- The inner loop that makes the groups, for one endpoint.
unfoldable pub link_others : Peer → List Peer → List Peer → List Peer
link_others this [] members = members
link_others this (other ∷ rest) members =
    let further = link_others this rest (link_group_member this other members) in
    let same = link_others this rest members in
    if not (this.number == other.number) && same_text other.group this.group then further else same

-- A turn of the outer loop.
unfoldable pub link_endpoint : Peer → List Peer → List Peer → List Peer
unfolding link_others
link_endpoint this others members =
    if is_empty this.group then members else link_others this others members

-- Whether an endpoint belongs to the members of another.
abbrev pub is_member : Peer → Peer → Bool
is_member this other = not (this.number == other.number) && same_text other.group this.group

link_others_lem :
    (this : Peer) (others members : List Peer)
    → is_empty this.group ≡ false
    → link_others this others members ≡ members ++ keep (is_member this) others
unfolding link_others link_group_member
link_others_lem this [] members h = sym (append-nil members)
link_others_lem this (other ∷ rest) members h = elim (Bool-cases (this.number == other.number)) [
  | inl e ↦ rw e (link_others_lem this rest members h)
  | inr n ↦ rw n (elim (Bool-cases (same_text other.group this.group)) [
    | inl e ↦
        rw (e, h)
          (link_others_lem this rest (members ++ (other ∷ [])) h
            ∙ append_assoc members (other ∷ []) (keep (is_member this) rest))
    | inr f ↦ rw f (link_others_lem this rest members h)
  ])
]

-- The loop links to an endpoint that has a group exactly the other endpoints of this group, each once
-- and in their order.
pub link_endpoint_lem :
    (this : Peer) (others members : List Peer)
    → is_empty this.group ≡ false
    → link_endpoint this others members ≡ members ++ keep (is_member this) others
unfolding link_endpoint
link_endpoint_lem this others members h = rw h (link_others_lem this others members h)
