-- ===== src/Commands/Invariant.antt =====
-- src/mainloop.cpp, `Mainloop::handle_command_pipe`: names stay unique, and groups complete.
use mavlink_router.Prelude.{
  ℕ, ◌+◌, ◌≡◌, refl, sym, ap, subst, ◌∙◌, inl, inr, Bool, true, false, ◌||◌, List, [], ◌∷◌, ◌++◌,
  map, arith, append-nil, ◌==◌, All, All-mono, All-append, any, keep, Bool-cases,
}
use mavlink_router.Text.{Bytes}
use mavlink_router.Throttle.{is_empty}
use mavlink_router.Groups.Link.{Peer, same_text, link_group_member, is_member}
use mavlink_router.Commands.{Entry, Store, UdpConfig, named, link_back, link_new, add_endpoint}
use mavlink_router.Commands.Names.{same_text_sym, peers, Distinct, Fresh}
use mavlink_router.Commands.Links.{
  keep-append, group_of, Linked, peers-append, group_of-append, link_back-peer, link_back_lem,
  link_new_lem, peers-link_back, Fresh-differ,
}

-- The names of the endpoints differ, their numbers are used up, and each is linked with the others of
-- its group.
pub record IsConsistent {Rate : Type 0} (s : Store Rate) : Type 0 where
  pub distinct : Distinct (peers s.endpoints)
  pub fresh : Fresh s.next (peers s.endpoints)
  pub linked : Linked (peers s.endpoints) s.endpoints

pub or_false : (a b : Bool) → a || b ≡ false → (a ≡ false) × (b ≡ false)
or_false true b h = cc
or_false false b h = (refl, h)

pub any-append_false :
    (p : Peer → Bool) (xs ys : List Peer)
    → any p xs ≡ false
    → any p ys ≡ false
    → any p (xs ++ ys) ≡ false
any-append_false p [] ys h k = k
any-append_false p (x ∷ xs) ys h k =
    let (first, rest) = or_false (p x) (any p xs) h in
    rw (first, any-append_false p xs ys rest k) refl

Distinct-append :
    (ps : List Peer) (new : Peer)
    → Distinct ps
    → any (λ q. same_text q.name new.name) ps ≡ false
    → Distinct (ps ++ (new ∷ []))
unfolding Distinct
Distinct-append [] new d h = (refl, tt)
Distinct-append (p ∷ ps) new (u, d) h =
    let (apart, others) = or_false (same_text p.name new.name) _ h in
    let back : same_text new.name p.name ≡ false = same_text_sym new.name p.name ∙ apart in
    (
      any-append_false (λ q. same_text q.name p.name) ps (new ∷ []) u (rw back refl),
      Distinct-append ps new d others,
    )

pub keep_lacks : (p q : Peer → Bool) (ps : List Peer) → any p ps ≡ false → any p (keep q ps) ≡ false
keep_lacks p q [] h = refl
keep_lacks p q (x ∷ ps) h =
    let (first, rest) = or_false (p x) (any p ps) h in
    elim (Bool-cases (q x)) [
      | inl k ↦ rw (k, first, keep_lacks p q ps rest) refl
      | inr k ↦ rw (k, keep_lacks p q ps rest) refl
    ]

pub Distinct-keep : (q : Peer → Bool) (ps : List Peer) → Distinct ps → Distinct (keep q ps)
unfolding Distinct
Distinct-keep q [] d = tt
Distinct-keep q (p ∷ ps) (u, d) = elim (Bool-cases (q p)) [
  | inl k ↦ rw k (keep_lacks _ q ps u, Distinct-keep q ps d)
  | inr k ↦ rw k (Distinct-keep q ps d)
]

pub All-keep :
    {A : Type 0} (P : A → Type 0) (q : A → Bool) (xs : List A) → All P xs → All P (keep q xs)
All-keep P q [] a = tt
All-keep P q (x ∷ xs) (h, a) = elim (Bool-cases (q x)) [
  | inl k ↦ rw k (h, All-keep P q xs a)
  | inr k ↦ rw k (All-keep P q xs a)
]

empty_apart : (a b : Bytes) → is_empty a ≡ true → is_empty b ≡ false → same_text a b ≡ false
unfolding same_text
empty_apart [] [] h k = cc
empty_apart [] (y ∷ ys) h k = refl
empty_apart (x ∷ xs) b h k = cc

link_group_member_alone :
    (p new : Peer) (ms : List Peer) → is_empty new.group ≡ true → link_group_member p new ms ≡ ms
unfolding link_group_member
link_group_member_alone p new ms g = elim (Bool-cases (is_empty p.group)) [
  | inl e ↦ rw e refl
  | inr n ↦ rw (n, empty_apart new.group p.group g n) refl
]

group_of_alone : (ps : List Peer) (p : Peer) → is_empty p.group ≡ true → group_of ps p ≡ []
unfolding group_of
group_of_alone ps p g = rw g refl

group_of_grouped :
    (ps : List Peer) (p : Peer) → is_empty p.group ≡ false → group_of ps p ≡ keep (is_member p) ps
unfolding group_of
group_of_grouped ps p g = rw g refl

-- The last of all endpoints is linked with those before it.
group_of_last :
    (ps : List Peer) (p : Peer)
    → is_empty p.group ≡ false
    → group_of (ps ++ (p ∷ [])) p ≡ keep (is_member p) ps
group_of_last ps p g =
    let itself : p.number == p.number ≡ true = ground arith in
    group_of_grouped _ p g ∙ keep-append (is_member p) ps (p ∷ []) ∙ rw itself (append-nil _)

pub Fresh-append :
    (next : ℕ) (ps : List Peer) (p : Peer)
    → Fresh next ps
    → p.number ≡ next
    → Fresh (next + 1) (ps ++ (p ∷ []))
unfolding Fresh
Fresh-append next ps p f h =
    All-append _ ps (p ∷ []) (All-mono _ _ (λ q k. omega (arith, k)) ps f) (omega (arith, h), tt)

module _ {Rate : Type 0} where
  pub any-peers :
      (name : Bytes) (es : List (Entry Rate))
      → any (named name) es ≡ any (λ p. same_text p.name name) (peers es)
  unfolding named peers
  any-peers name [] = refl
  any-peers name (e ∷ es) = rw (any-peers name es) refl

  -- The others are linked with a new endpoint.
  Linked-back :
      (ps : List Peer) (new : Peer) (es : List (Entry Rate))
      → All (λ p. p.number == new.number ≡ false) (peers es)
      → Linked ps es
      → Linked (ps ++ (new ∷ [])) (map (link_back new) es)
  unfolding Linked peers
  Linked-back ps new [] f a = tt
  Linked-back ps new (e ∷ es) (h, f) (k, a) = (
    link_back_lem ps new e h k ∙ ap (group_of (ps ++ (new ∷ []))) (sym (link_back-peer new e)),
    Linked-back ps new es f a,
  )

  -- An endpoint of no group is none that others are linked with.
  Linked-alone :
      (ps : List Peer) (new : Peer) (es : List (Entry Rate))
      → is_empty new.group ≡ true
      → All (λ p. p.number == new.number ≡ false) (peers es)
      → Linked ps es
      → Linked (ps ++ (new ∷ [])) es
  unfolding Linked peers
  Linked-alone ps new [] g f a = tt
  Linked-alone ps new (e ∷ es) g (h, f) (k, a) = (
    k ∙ sym (group_of-append ps e.peer new h ∙ link_group_member_alone e.peer new _ g),
    Linked-alone ps new es g f a,
  )

  -- An endpoint joins the others.
  Linked-append :
      (ps : List Peer) (es : List (Entry Rate)) (e : Entry Rate)
      → Linked ps es
      → e.members ≡ group_of ps e.peer
      → Linked ps (es ++ (e ∷ []))
  unfolding Linked
  Linked-append ps es e a h = All-append _ es (e ∷ []) a (h, tt)

  pub peers-snoc :
      (es : List (Entry Rate)) (e : Entry Rate) → peers (es ++ (e ∷ [])) ≡ peers es ++ (e.peer ∷ [])
  unfolding peers
  peers-snoc es e = peers-append es (e ∷ [])

  -- Adding an endpoint with a new name.
  pub add_endpoint-IsConsistent :
      (conf : UdpConfig) (s : Store Rate)
      → any (named conf.name) s.endpoints ≡ false
      → IsConsistent s
      → IsConsistent (add_endpoint conf s)
  unfolding add_endpoint
  add_endpoint-IsConsistent conf s unused c = elim (Bool-cases (is_empty conf.group)) [
    | inl alone ↦ simp alone (
        consistent s.endpoints [] refl (Linked-alone ps new s.endpoints alone differ.0 c.linked)
          (sym (group_of_alone (ps ++ (new ∷ [])) new alone)))
    | inr grouped ↦ simp grouped (
        consistent (map (link_back new) s.endpoints) (link_new new s.endpoints [])
          (peers-link_back new s.endpoints) (Linked-back ps new s.endpoints differ.0 c.linked)
          (link_new_lem new s.endpoints [] grouped differ.1 ∙ sym (group_of_last ps new grouped)))
  ]
    where
      ps : List Peer
      ps = peers s.endpoints

      new : Peer
      new = record { number = s.next; name = conf.name; group = conf.group }

      differ : All (λ p. p.number == s.next ≡ false) ps × All (λ p. s.next == p.number ≡ false) ps
      differ = Fresh-differ s.next ps c.fresh

      entry : List Peer → Entry Rate
      entry ms = record { peer = new; members = ms; throttle = [] }

      consistent :
          (es : List (Entry Rate)) (ms : List Peer)
          → peers es ≡ ps
          → Linked (ps ++ (new ∷ [])) es
          → ms ≡ group_of (ps ++ (new ∷ [])) new
          → IsConsistent {Rate = Rate}
              (record { endpoints = es ++ (entry ms ∷ []); next = s.next + 1 })
      consistent es ms same linked group =
          let all : peers (es ++ (entry ms ∷ [])) ≡ ps ++ (new ∷ []) =
            peers-snoc es (entry ms) ∙ ap (λ ps. ps ++ (new ∷ [])) same in
          record {
            distinct = subst Distinct (sym all) (
                Distinct-append ps new c.distinct (sym (any-peers conf.name s.endpoints) ∙ unused));
            fresh = subst (Fresh (s.next + 1)) (sym all) (Fresh-append s.next ps new c.fresh refl);
            linked =
                subst (λ ps. Linked ps (es ++ (entry ms ∷ []))) (sym all)
                  (Linked-append (ps ++ (new ∷ [])) es (entry ms) linked group);
          }
