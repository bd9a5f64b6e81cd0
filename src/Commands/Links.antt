-- ===== src/Commands/Links.antt =====
-- src/mainloop.cpp, `Mainloop::handle_command_pipe`: the groups of the endpoints.
use mavlink_router.Prelude.{
  ℕ, ◌≡◌, refl, sym, ap, ◌∙◌, inl, inr, Bool, true, false, List, [], ◌∷◌, ◌++◌, map, arith,
  append-nil, append_assoc, ◌==◌, if◌then◌else◌, All, All-mono, keep, Bool-cases,
}
use mavlink_router.Throttle.{is_empty}
use mavlink_router.Groups.Link.{Peer, same_text, link_group_member, is_member}
use mavlink_router.Commands.{Entry, link_back, link_new}
use mavlink_router.Commands.Names.{same_text_sym, peers, Fresh}

module _ {A : Type 0} where
  pub keep-append : (p : A → Bool) (xs ys : List A) → keep p (xs ++ ys) ≡ keep p xs ++ keep p ys
  keep-append p [] ys = refl
  keep-append p (x ∷ xs) ys = elim (Bool-cases (p x)) [
    | inl h ↦ rw (h, keep-append p xs ys) refl
    | inr h ↦ rw (h, keep-append p xs ys) refl
  ]

  pub keep-keep : (p q : A → Bool) (xs : List A) → keep p (keep q xs) ≡ keep q (keep p xs)
  keep-keep p q [] = refl
  keep-keep p q (x ∷ xs) = elim (Bool-cases (p x)) [
    | inl h ↦ elim (Bool-cases (q x)) [
      | inl k ↦ rw (k, h, k, keep-keep p q xs) refl
      | inr k ↦ rw (k, h, k, keep-keep p q xs) refl
    ]
    | inr h ↦ elim (Bool-cases (q x)) [
      | inl k ↦ rw (k, h, keep-keep p q xs) refl
      | inr k ↦ rw (k, h, keep-keep p q xs) refl
    ]
  ]

-- Whom the group of an endpoint is made of, among all of them.
unfoldable pub group_of : List Peer → Peer → List Peer
group_of ps p = if is_empty p.group then [] else keep (is_member p) ps

-- The members of each endpoint are the others of its group, each once and in their order.
unfoldable pub Linked : {Rate : Type 0} → List Peer → List (Entry Rate) → Type 0
Linked ps es = All (λ e. e.members ≡ group_of ps e.peer) es

-- What an endpoint's group becomes with a new endpoint.
pub group_of-append :
    (ps : List Peer) (p new : Peer)
    → p.number == new.number ≡ false
    → group_of (ps ++ (new ∷ [])) p ≡ link_group_member p new (group_of ps p)
unfolding group_of link_group_member
group_of-append ps p new h = elim (Bool-cases (is_empty p.group)) [
  | inl e ↦ rw e refl
  | inr n ↦ elim (Bool-cases (same_text new.group p.group)) [
    | inl same ↦ rw (n, keep-append (is_member p) ps (new ∷ []), h, same) refl
    | inr apart ↦ rw (n, keep-append (is_member p) ps (new ∷ []), h, apart) (append-nil _)
  ]
]

pub link_group_member_apart :
    (p new : Peer) (ms : List Peer)
    → same_text p.group new.group ≡ false
    → link_group_member p new ms ≡ ms
unfolding link_group_member
link_group_member_apart p new ms h =
    let back : same_text new.group p.group ≡ false = same_text_sym new.group p.group ∙ h in
    elim (Bool-cases (is_empty p.group)) [ inl e ↦ rw e refl | inr n ↦ rw (n, back) refl ]

module _ {Rate : Type 0} where
  pub peers-append : (xs ys : List (Entry Rate)) → peers (xs ++ ys) ≡ peers xs ++ peers ys
  unfolding peers
  peers-append [] ys = refl
  peers-append (x ∷ xs) ys = rw (peers-append xs ys) refl

  either_throttle :
      (b : Bool) (e e' : Entry Rate) → e'.peer ≡ e.peer → (if b then e' else e).peer ≡ e.peer
  either_throttle true e e' h = h
  either_throttle false e e' h = refl

  pub link_back-peer : (new : Peer) (e : Entry Rate) → (link_back new e).peer ≡ e.peer
  unfolding link_back
  link_back-peer new e = either_throttle _ e _ refl

  pub link_back_lem :
      (ps : List Peer) (new : Peer) (e : Entry Rate)
      → e.peer.number == new.number ≡ false
      → e.members ≡ group_of ps e.peer
      → (link_back new e).members ≡ group_of (ps ++ (new ∷ [])) e.peer
  unfolding link_back
  link_back_lem ps new e h k = elim (Bool-cases (same_text e.peer.group new.group)) [
    | inl same ↦
        simp same (ap (link_group_member e.peer new) k ∙ sym (group_of-append ps e.peer new h))
    | inr apart ↦ simp apart (
        k
        ∙ sym (link_group_member_apart e.peer new (group_of ps e.peer) apart)
        ∙ sym (group_of-append ps e.peer new h))
  ]

  -- The new endpoint gets the others of its group.
  pub link_new_lem :
      (new : Peer) (es : List (Entry Rate)) (ms : List Peer)
      → is_empty new.group ≡ false
      → All (λ p. new.number == p.number ≡ false) (peers es)
      → link_new new es ms ≡ ms ++ keep (is_member new) (peers es)
  unfolding link_new link_group_member peers
  link_new_lem new [] ms h f = sym (append-nil ms)
  link_new_lem new (e ∷ es) ms h (n, f) = elim (Bool-cases (same_text e.peer.group new.group)) [
    | inl same ↦
        rw (same, h, n)
          (link_new_lem new es (ms ++ (e.peer ∷ [])) h f
            ∙ append_assoc ms (e.peer ∷ []) (keep (is_member new) (peers es)))
    | inr apart ↦ rw (apart, n) (link_new_lem new es ms h f)
  ]

  pub peers-link_back :
      (new : Peer) (es : List (Entry Rate)) → peers (map (link_back new) es) ≡ peers es
  unfolding peers
  peers-link_back new [] = refl
  peers-link_back new (e ∷ es) = rw (link_back-peer new e, peers-link_back new es) refl

-- Numbers of endpoints differ from one that is still to come.
pub Fresh-differ :
    (next : ℕ) (ps : List Peer)
    → Fresh next ps
    → All (λ p. p.number == next ≡ false) ps × All (λ p. next == p.number ≡ false) ps
unfolding Fresh
Fresh-differ next ps f =
    (All-mono _ _ (λ p h. ground (arith, h)) ps f, All-mono _ _ (λ p h. ground (arith, h)) ps f)
