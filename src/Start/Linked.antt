-- ===== src/Start/Linked.antt =====
-- src/mainloop.cpp, `Mainloop::add_endpoints`: names, numbers and groups after the start.
use mavlink_router.Prelude.{
  ℕ, length, arith, ◌+◌, ◌≡◌, refl, sym, ap, subst, ◌∙◌, inl, inr, Bool, true, false, ◌&&◌, ◌||◌,
  Option, none, some, List, [], ◌∷◌, ◌++◌, map, append-nil, append_assoc, All, All-append, All-map,
  any, Bool-cases,
}
use mavlink_router.Text.{Bytes}
use mavlink_router.Throttle.{is_empty}
use mavlink_router.Groups.Link.{Peer, same_text, link_endpoint, link_endpoint_lem}
use mavlink_router.Commands.{Entry, Store}
use mavlink_router.Commands.Names.{peers, Distinct, Fresh}
use mavlink_router.Commands.Links.{group_of, Linked}
use mavlink_router.Commands.Invariant.{IsConsistent, Fresh-append, peers-snoc}
use mavlink_router.Start.{Configured, create_each, link_entry, link_all}

-- No two of the names are the same.
unfoldable pub AllDiffer : List Bytes → Type 0
AllDiffer [] = Unit
AllDiffer (n ∷ ns) = (any (λ m. same_text m n) ns ≡ false) × AllDiffer ns

abbrev pub names_of : {Rate : Type 0} → List (Configured Rate) → List Bytes
names_of cs = map (λ c. c.name) cs

link_endpoint-group_of : (ps : List Peer) (p : Peer) → link_endpoint p ps [] ≡ group_of ps p
unfolding group_of link_endpoint
link_endpoint-group_of ps p = elim (Bool-cases (is_empty p.group)) [
  | inl e ↦ rw e refl
  | inr n ↦ link_endpoint_lem p ps [] n ∙ sym (rw n refl)
]

-- The endpoints with the numbers that they get.
unfoldable pub numbered : {Rate : Type 0} → ℕ → List (Configured Rate) → List Peer
numbered n [] = []
numbered n (c ∷ cs) = record { number = n; name = c.name; group = c.group } ∷ numbered (n + 1) cs

pub any-numbered :
    {Rate : Type 0} (name : Bytes) (n : ℕ) (cs : List (Configured Rate))
    → any (λ q. same_text q.name name) (numbered n cs) ≡ any (λ m. same_text m name) (names_of cs)
unfolding numbered
any-numbered name n [] = refl
any-numbered name n (c ∷ cs) = ap (λ b. same_text c.name name || b) (any-numbered name (n + 1) cs)

pub numbered-Distinct :
    {Rate : Type 0} (n : ℕ) (cs : List (Configured Rate))
    → AllDiffer (names_of cs)
    → Distinct (numbered n cs)
unfolding numbered Distinct AllDiffer
numbered-Distinct n [] d = tt
numbered-Distinct n (c ∷ cs) (u, d) =
    (any-numbered c.name (n + 1) cs ∙ u, numbered-Distinct (n + 1) cs d)

pub numbered-append :
    {Rate : Type 0} (n : ℕ) (xs ys : List (Configured Rate))
    → numbered n (xs ++ ys) ≡ numbered n xs ++ numbered (n + length xs) ys
unfolding numbered
numbered-append n [] ys = let same : n ≡ n + 0 = omega arith in ap (λ k. numbered k ys) same
numbered-append n (x ∷ xs) ys =
    let same : n + 1 + length xs ≡ n + length (x ∷ xs) = omega arith in
    let first : Peer = record { number = n; name = x.name; group = x.group } in
    ap (λ ps. first ∷ ps)
      (numbered-append (n + 1) xs ys ∙ ap (λ k. numbered (n + 1) xs ++ numbered k ys) same)

-- `setup` of every endpoint returns true.
pub all_ready : {Rate : Type 0} → List (Configured Rate) → Bool
all_ready [] = true
all_ready (c ∷ cs) = c.ready && all_ready cs

module _ {Rate : Type 0} where
  -- Endpoints whose groups are not linked yet.
  pub record IsCreated (s : Store Rate) : Type 0 where
    pub distinct : Distinct (peers s.endpoints)
    pub fresh : Fresh s.next (peers s.endpoints)
    pub alone : All (λ e. e.members ≡ []) s.endpoints

  pub peers-link_entry :
      (ps : List Peer) (es : List (Entry Rate)) → peers (map (link_entry ps) es) ≡ peers es
  unfolding link_entry peers
  peers-link_entry ps [] = refl
  peers-link_entry ps (e ∷ es) = ap (λ qs. e.peer ∷ qs) (peers-link_entry ps es)

  link_entry-Linked :
      (ps : List Peer) (es : List (Entry Rate))
      → All (λ e. e.members ≡ []) es
      → Linked ps (map (link_entry ps) es)
  unfolding link_entry Linked
  link_entry-Linked ps es a =
      All-map _ _ (link_entry ps)
        (λ e h. ap (link_endpoint e.peer ps) h ∙ link_endpoint-group_of ps e.peer) es a

  pub link_all-IsConsistent : (s : Store Rate) → IsCreated s → IsConsistent (link_all s)
  unfolding link_all
  link_all-IsConsistent s c =
      let same = sym (peers-link_entry (peers s.endpoints) s.endpoints) in
      record {
        distinct = subst Distinct same c.distinct;
        fresh = subst (Fresh s.next) same c.fresh;
        linked =
            subst (λ ps. Linked ps (map (link_entry (peers s.endpoints)) s.endpoints)) same
              (link_entry-Linked (peers s.endpoints) s.endpoints c.alone);
      }

  -- What the loops create behind the endpoints that are there.
  pub record Created (s : Store Rate) (cs : List (Configured Rate)) (t : Store Rate) : Type 0 where
    pub peers_of : peers t.endpoints ≡ peers s.endpoints ++ numbered s.next cs
    pub next_of : t.next ≡ s.next + length cs
    pub fresh : Fresh s.next (peers s.endpoints) → Fresh t.next (peers t.endpoints)
    pub alone : All (λ e. e.members ≡ []) s.endpoints → All (λ e. e.members ≡ []) t.endpoints

  pub data Creates (s : Store Rate) (cs : List (Configured Rate))
      : Option (Store Rate) → Type 0 where
    stopped : all_ready cs ≡ false → Creates s cs none
    created : (t : Store Rate) → all_ready cs ≡ true → Created s cs t → Creates s cs (some t)

  push_entry : Configured Rate → Store Rate → Store Rate
  push_entry c s = record {
    endpoints =
        s.endpoints
        ++ (record {
          peer = record { number = s.next; name = c.name; group = c.group };
          members = [];
          throttle = c.throttle;
        }
            ∷ []);
    next = s.next + 1;
  }

  Created-cons :
      (c : Configured Rate) (cs : List (Configured Rate)) (s t : Store Rate)
      → Created (push_entry c s) cs t
      → Created s (c ∷ cs) t
  unfolding push_entry numbered
  Created-cons c cs s t d =
      let new : Peer = record { number = s.next; name = c.name; group = c.group } in
      let entry : Entry Rate = record { peer = new; members = []; throttle = c.throttle } in
      let all : peers (s.endpoints ++ (entry ∷ [])) ≡ peers s.endpoints ++ (new ∷ []) =
        peers-snoc s.endpoints entry in
      record {
        peers_of =
            d.peers_of
            ∙ ap (λ ps. ps ++ numbered (s.next + 1) cs) all
            ∙ append_assoc (peers s.endpoints) (new ∷ []) (numbered (s.next + 1) cs);
        next_of = d.next_of ∙ omega arith;
        fresh =
            λ f. d.fresh (subst (Fresh (s.next + 1)) (sym all) (Fresh-append s.next _ new f refl));
        alone = λ a. d.alone (All-append _ s.endpoints _ a (refl, tt));
      }

  Creates-cons :
      (c : Configured Rate) (cs : List (Configured Rate)) (s : Store Rate) (o : Option (Store Rate))
      → c.ready ≡ true
      → Creates (push_entry c s) cs o
      → Creates s (c ∷ cs) o
  unfolding all_ready
  Creates-cons c cs s _ h (stopped e) = stopped (rw h e)
  Creates-cons c cs s _ h (created t e d) = created t (rw h e) (Created-cons c cs s t d)

  pub create_each-Creates :
      (cs : List (Configured Rate)) (s : Store Rate) → Creates s cs (create_each cs s)
  unfolding create_each all_ready numbered push_entry
  create_each-Creates [] s = created s refl (record {
    peers_of = sym (append-nil _);
    next_of = omega arith;
    fresh = λ f. f;
    alone = λ a. a;
  })
  create_each-Creates (c ∷ cs) s = elim (Bool-cases c.ready) [
    | inl ready ↦ simp ready (Creates-cons c cs s _ ready (create_each-Creates cs (push_entry c s)))
    | inr broken ↦ simp broken (stopped (rw broken refl))
  ]
