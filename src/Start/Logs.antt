-- ===== src/Start/Logs.antt =====
-- src/mainloop.cpp, `Mainloop::add_endpoints`: the logs, and the endpoints that there are in the end.
use mavlink_router.Prelude.{
  ◌+◌, ◌≡◌, refl, sym, ap, subst, ◌∙◌, Bool, true, false, Option, none, some, List, [], ◌∷◌, ◌++◌,
  map, append-nil, append_assoc, All, All-mono, any,
}
use mavlink_router.Text.{Bytes}
use mavlink_router.Filter.{no_filters}
use mavlink_router.Groups.Link.{same_text}
use mavlink_router.Commands.{Entry, Store, client, named, add_endpoint}
use mavlink_router.Commands.Names.{same_text_sym, peers, Distinct, Fresh}
use mavlink_router.Commands.Invariant.{
  IsConsistent, add_endpoint-IsConsistent, or_false, peers-snoc,
}
use mavlink_router.Start.{Configured, create_each, link_all, append_log, append_logs, add_endpoints}
use mavlink_router.Commands.Invariant.{any-peers}
use mavlink_router.Start.Linked.{
  AllDiffer, names_of, numbered, any-numbered, numbered-append, numbered-Distinct, all_ready,
  peers-link_entry, link_all-IsConsistent, Created, Creates, stopped, created, create_each-Creates,
}

none_before : (ys : List Bytes) → All (λ y. any (λ x. same_text x y) [] ≡ false) ys
none_before [] = tt
none_before (y ∷ ys) = (refl, none_before ys)

any-append_apart :
    (p : Bytes → Bool) (xs ys : List Bytes)
    → any p (xs ++ ys) ≡ false
    → (any p xs ≡ false) × (any p ys ≡ false)
any-append_apart p [] ys h = (refl, h)
any-append_apart p (x ∷ xs) ys h =
    let (first, rest) = or_false (p x) _ h in
    let (before, behind) = any-append_apart p xs ys rest in (rw (first, before) refl, behind)

-- One more name that none of the others is.
one_more :
    (x : Bytes) (xs ys : List Bytes)
    → any (λ m. same_text m x) ys ≡ false
    → All (λ y. any (λ m. same_text m y) xs ≡ false) ys
    → All (λ y. any (λ m. same_text m y) (x ∷ xs) ≡ false) ys
one_more x xs [] u a = tt
one_more x xs (y ∷ ys) u (h, a) =
    let (first, rest) = or_false (same_text y x) _ u in
    let apart : same_text x y ≡ false = same_text_sym x y ∙ first in
    (rw (apart, h) refl, one_more x xs ys rest a)

AllDiffer-append :
    (xs ys : List Bytes)
    → AllDiffer (xs ++ ys)
    → AllDiffer xs × AllDiffer ys × All (λ y. any (λ x. same_text x y) xs ≡ false) ys
unfolding AllDiffer
AllDiffer-append [] ys d = (tt, d, none_before ys)
AllDiffer-append (x ∷ xs) ys (u, d) =
    let (apart, behind) = any-append_apart (λ m. same_text m x) xs ys u in
    let (first, second, crossed) = AllDiffer-append xs ys d in
    ((apart, first), second, one_more x xs ys behind crossed)

module _ {Rate : Type 0} where
  append_log-IsConsistent :
      (name : Bytes) (s : Store Rate)
      → any (named name) s.endpoints ≡ false
      → IsConsistent s
      → IsConsistent (append_log name s)
  unfolding append_log add_endpoint
  append_log-IsConsistent name s unused c =
      add_endpoint-IsConsistent
        (record {
          name = name;
          address = [];
          port = 0;
          mode = client;
          filters = no_filters;
          group = [];
          coalesce_bytes = 0;
          coalesce_ms = 0;
          coalesce_nodelay = [];
        })
        s unused c

  -- The names of logs that are none of an endpoint, nor of a log before.
  NamedApart : List Bytes → List (Entry Rate) → Type 0
  NamedApart names es = All (λ n. any (named n) es ≡ false) names

  any-append_entries :
      (n : Bytes) (es fs : List (Entry Rate))
      → any (named n) es ≡ false
      → any (named n) fs ≡ false
      → any (named n) (es ++ fs) ≡ false
  any-append_entries n [] fs h k = k
  any-append_entries n (e ∷ es) fs h k =
      let (first, rest) = or_false (named n e) _ h in
      rw (first, any-append_entries n es fs rest k) refl

  append_log-apart :
      (name : Bytes) (s : Store Rate) (names : List Bytes)
      → any (λ m. same_text m name) names ≡ false
      → NamedApart names s.endpoints
      → NamedApart names (append_log name s).endpoints
  unfolding append_log named NamedApart
  append_log-apart name s [] u a = tt
  append_log-apart name s (n ∷ names) u (h, a) =
      let (first, rest) = or_false (same_text n name) _ u in
      (
        any-append_entries n s.endpoints _ h (rw (same_text_sym name n, first) refl),
        append_log-apart name s names rest a,
      )

  append_logs-IsConsistent :
      (names : List Bytes) (s : Store Rate)
      → AllDiffer names
      → NamedApart names s.endpoints
      → IsConsistent s
      → IsConsistent (append_logs names s)
  unfolding append_logs AllDiffer NamedApart
  append_logs-IsConsistent [] s d a c = c
  append_logs-IsConsistent (name ∷ names) s (u, d) (h, a) c =
      append_logs-IsConsistent names (append_log name s) d (append_log-apart name s names u a)
        (append_log-IsConsistent name s h c)

  apart_of :
      (cs : List (Configured Rate)) (names : List Bytes) (t : Store Rate)
      → peers t.endpoints ≡ numbered 0 cs
      → All (λ y. any (λ x. same_text x y) (names_of cs) ≡ false) names
      → NamedApart names (link_all t).endpoints
  unfolding NamedApart link_all
  apart_of cs names t h a =
      All-mono _ _
        (λ y k.
          any-peers y _
          ∙ ap (any (λ p. same_text p.name y))
              (peers-link_entry (peers t.endpoints) t.endpoints ∙ h)
          ∙ any-numbered y 0 cs
          ∙ k)
        names a

  -- A log, as an endpoint without a group.
  abbrev pub as_log : Bytes → Configured Rate
  as_log name = record { name = name; group = []; ready = true; throttle = [] }

  peers-append_logs :
      (names : List Bytes) (s : Store Rate)
      → peers (append_logs names s).endpoints
        ≡ peers s.endpoints ++ numbered s.next (map as_log names)
  unfolding append_logs append_log numbered
  peers-append_logs [] s = sym (append-nil _)
  peers-append_logs (name ∷ names) s =
      let more = numbered (s.next + 1) (map as_log names) in
      peers-append_logs names (append_log name s)
      ∙ ap (λ ps. ps ++ more) (peers-snoc s.endpoints _)
      ∙ append_assoc (peers s.endpoints) _ more

  -- What the router has after `add_endpoints`.
  pub data Started (cs : List (Configured Rate)) (logs : List Bytes)
      : Option (Store Rate) → Type 0 where
    not_started : all_ready cs ≡ false → Started cs logs none
    started :
        (s : Store Rate)
        → all_ready cs ≡ true
        → peers s.endpoints ≡ numbered 0 (cs ++ map as_log logs)
        → IsConsistent s
        → Started cs logs (some s)

  abbrev pub nothing : Store Rate
  nothing = record { endpoints = []; next = 0 }

  started_lem :
      (cs : List (Configured Rate)) (logs : List Bytes) (t : Store Rate)
      → AllDiffer (names_of cs ++ logs)
      → all_ready cs ≡ true
      → Created nothing cs t
      → Started cs logs (some (append_logs logs (link_all t)))
  unfolding Fresh Distinct peers numbered link_all
  started_lem cs logs t d e k =
      let (first, second, crossed) = AllDiffer-append (names_of cs) logs d in
      let linked = link_all-IsConsistent t (record {
        distinct = subst Distinct (sym k.peers_of) (numbered-Distinct 0 cs first);
        fresh = k.fresh tt;
        alone = k.alone tt;
      }) in
      started _ e
        (peers-append_logs logs (link_all t)
          ∙ ap (λ ps. ps ++ numbered t.next (map as_log logs))
              (peers-link_entry (peers t.endpoints) t.endpoints ∙ k.peers_of)
          ∙ ap (λ n. numbered 0 cs ++ numbered n (map as_log logs)) k.next_of
          ∙ sym (numbered-append 0 cs (map as_log logs)))
        (append_logs-IsConsistent logs (link_all t) second (apart_of cs logs t k.peers_of crossed)
          linked)

  -- If no two names of endpoints and logs are the same then `add_endpoints` fails exactly if `setup` of some
  -- endpoint fails. Otherwise the router has all the endpoints and then the logs in their order, numbered
  -- from 0 on, each with the name and the group of its configuration, where a log has no group; each is
  -- linked with exactly the others of its group, and no two names are the same.
  pub add_endpoints_lem :
      (uarts udps tcps : List (Configured Rate)) (logs : List Bytes)
      → AllDiffer (names_of (uarts ++ (udps ++ tcps)) ++ logs)
      → Started (uarts ++ (udps ++ tcps)) logs (add_endpoints uarts udps tcps logs nothing)
  unfolding add_endpoints
  add_endpoints_lem uarts udps tcps logs d =
      go (create_each cs nothing) (create_each-Creates cs nothing)
    where
      cs : List (Configured Rate)
      cs = uarts ++ (udps ++ tcps)

      go :
          (o : Option (Store Rate))
          → Creates nothing cs o
          → Started cs logs (elim o as (λ _. Option (Store Rate)) [
            | none ↦ none
            | some made ↦ some (append_logs logs (link_all made))
          ])
      go none (stopped e) = not_started e
      go (some _) (created made e k) = started_lem cs logs made d e k
