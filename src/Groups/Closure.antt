-- ===== src/Groups/Closure.antt =====
-- src/endpoint.cpp, `Endpoint::_add_sys_comp_id`: how far an address spreads through the groups.
use mavlink_router.Prelude.{
  ==_iff, ℕ, zero, suc, ◌≤◌, ◌<◌, ◌≡◌, refl, ap, ◌∙◌, inl, inr, true, false, Option, some, List, [],
  ◌∷◌, ◌++◌, arith, ◌==◌, Bool-cases, length, All,
}
use mavlink_router.Accept.{has_sys_comp_id}
use mavlink_router.Groups.{Table, ids_of, push_id, add_each, add_sys_comp_id}
use mavlink_router.Groups.Store.{
  key, lacking, contains-append, length-push_id, ids_of-push_id, lacking-push_id,
}

module _ (members : ℕ → List ℕ) (sysid compid : ℕ) where
  -- The endpoint knows the address.
  abbrev pub Has : Table → ℕ → Type 0
  Has t i = has_sys_comp_id sysid compid (ids_of i t) ≡ true

  -- What becomes of one endpoint: its addresses stay, or the new one joins them and all members of its
  -- group know it too.
  pub data Grows (t t' : Table) (j : ℕ) : Type 0 where
    same : ids_of j t' ≡ ids_of j t → Grows t t' j
    joined :
        ids_of j t' ≡ ids_of j t ++ (key sysid compid ∷ [])
        → has_sys_comp_id sysid compid (ids_of j t) ≡ false
        → All (Has t') (members j)
        → Grows t t' j

  knows_after :
      (t t' : Table) (j : ℕ) → ids_of j t' ≡ ids_of j t ++ (key sysid compid ∷ []) → Has t' j
  unfolding has_sys_comp_id
  knows_after t t' j e = rw e (
      ground
        (arith, contains-append sysid compid (key sysid compid) (key sysid compid) (ids_of j t)))

  Has-Grows : (t t' : Table) (j : ℕ) → Grows t t' j → Has t j → Has t' j
  Has-Grows t t' j (same e) h = rw e h
  Has-Grows t t' j (joined new lacks all) h = knows_after t t' j new

  pub All-Has-Grows :
      (t t' : Table) (js : List ℕ) → ((j : ℕ) → Grows t t' j) → All (Has t) js → All (Has t') js
  All-Has-Grows t t' [] g h = tt
  All-Has-Grows t t' (j ∷ js) g (h, hs) = (Has-Grows t t' j (g j) h, All-Has-Grows t t' js g hs)

  Grows-trans :
      (t t' t'' : Table)
      → ((j : ℕ) → Grows t t' j)
      → ((j : ℕ) → Grows t' t'' j)
      → (j : ℕ) → Grows t t'' j
  Grows-trans t t' t'' g g' j = go (g j) (g' j)
    where
      go : Grows t t' j → Grows t' t'' j → Grows t t'' j
      go (same e) (same e') = same (e' ∙ e)
      go (same e) (joined new lacks all) =
          joined (new ∙ ap (λ xs. xs ++ (key sysid compid ∷ [])) e) (rw (← e) lacks) all
      go (joined new lacks all) (same e) =
          joined (e ∙ new) lacks (All-Has-Grows t' t'' (members j) g' all)
      go (joined new lacks all) (joined new' lacks' all') =
          let known : Has t' j = knows_after t t' j new in absurd (ground (arith, known, lacks'))

  -- What a call leaves.
  pub record Adds (t : Table) (added : List ℕ) (out : Option Table) : Type 0 where
    pub after : Table
    pub returns : out ≡ some after
    pub size : length after ≡ length t
    pub fewer : lacking sysid compid after ≤ lacking sysid compid t
    pub grows : (j : ℕ) → Grows t after j
    pub has : All (Has after) added

  -- The references of the members are valid.
  abbrev pub AreMembers : ℕ → Type 0
  AreMembers n = (j : ℕ) → All (λ k. k < n) (members j)

  add_each-Adds :
      (add : ℕ → Table → Option Table) (fuel n : ℕ) (js : List ℕ) (t : Table)
      → ((j : ℕ) (s : Table)
          → j < n
          → length s ≡ n
          → lacking sysid compid s < fuel
          → Adds s (j ∷ []) (add j s))
      → All (λ k. k < n) js
      → length t ≡ n
      → lacking sysid compid t < fuel
      → Adds t js (add_each add js t)
  unfolding add_each
  add_each-Adds add fuel n [] t one within size enough = record {
    after = t;
    returns = refl;
    size = refl;
    fewer = omega arith;
    grows = λ j. same refl;
    has = tt;
  }
  add_each-Adds add fuel n (j ∷ js) t one (lt, within) size enough =
      let a = one j t lt size enough in
      let b =
        add_each-Adds add fuel n js a.after one within (a.size ∙ size)
          (omega (arith, a.fewer, enough)) in
      record {
        after = b.after;
        returns = rw (add_each, a.returns) b.returns;
        size = b.size ∙ a.size;
        fewer = omega (arith, a.fewer, b.fewer);
        grows = Grows-trans t a.after b.after a.grows b.grows;
        has = (Has-Grows a.after b.after j (b.grows j) a.has.0, b.has);
      }

  ids_of-pushed :
      (i : ℕ) (t : Table)
      → i < length t
      → ids_of i (push_id i (key sysid compid) t) ≡ ids_of i t ++ (key sysid compid ∷ [])
  ids_of-pushed i t lt = ground (arith, ids_of-push_id sysid compid i i (key sysid compid) t lt)

  -- What grows after the address has been pushed, has grown since before.
  Grows-pushed :
      (i : ℕ) (t after : Table)
      → i < length t
      → has_sys_comp_id sysid compid (ids_of i t) ≡ false
      → All (Has after) (members i)
      → (j : ℕ) → Grows (push_id i (key sysid compid) t) after j
      → Grows t after j
  Grows-pushed i t after lt lacks all j g = elim (Bool-cases (j == i)) [
    | inl e ↦ rw ((==_iff j i).0 e) (itself (rw ((==_iff j i).0 e) at g))
    | inr e ↦ another (ids_of-push_id sysid compid i j (key sysid compid) t lt ∙ rw e refl) g
  ]
    where
      itself : Grows (push_id i (key sysid compid) t) after i → Grows t after i
      itself (same e) = joined (e ∙ ids_of-pushed i t lt) lacks all
      itself (joined new unknown hold) =
          let known : Has (push_id i (key sysid compid) t) i =
            knows_after t (push_id i (key sysid compid) t) i (ids_of-pushed i t lt) in
          absurd (ground (arith, known, unknown))

      another :
          ids_of j (push_id i (key sysid compid) t) ≡ ids_of j t
          → Grows (push_id i (key sysid compid) t) after j
          → Grows t after j
      another stays (same e) = same (e ∙ stays)
      another stays (joined new unknown hold) =
          joined (new ∙ ap (λ xs. xs ++ (key sysid compid ∷ [])) stays) (rw (← stays) unknown) hold

  pub add_sys_comp_id-Adds :
      (fuel n i : ℕ) (t : Table)
      → AreMembers n
      → i < n
      → length t ≡ n
      → lacking sysid compid t < fuel
      → Adds t (i ∷ []) (add_sys_comp_id members fuel sysid compid i t)
  unfolding add_sys_comp_id has_sys_comp_id
  add_sys_comp_id-Adds zero n i t valid lt size enough = absurd (omega arith)
  add_sys_comp_id-Adds (suc fuel) n i t valid lt size enough =
      elim (Bool-cases (has_sys_comp_id sysid compid (ids_of i t))) [
        | inl known ↦ rw known (record {
          after = t;
          returns = refl;
          size = refl;
          fewer = omega arith;
          grows = λ j. same refl;
          has = (known, tt);
        })
        | inr lacks ↦
            let fewer = lacking-push_id sysid compid i t (omega (arith, lt, size)) lacks in
            let a =
              add_each-Adds (add_sys_comp_id members fuel sysid compid) fuel n (members i)
                (push_id i (key sysid compid) t) (λ j s. add_sys_comp_id-Adds fuel n j s valid)
                (valid i) (length-push_id sysid compid i (key sysid compid) t ∙ size)
                (omega (arith, fewer, enough)) in
            rw lacks (record {
              after = a.after;
              returns = a.returns;
              size = a.size ∙ length-push_id sysid compid i (key sysid compid) t;
              fewer = omega (arith, fewer, a.fewer);
              grows =
                  λ j. Grows-pushed i t a.after (omega (arith, lt, size)) lacks a.has j (a.grows j);
              has = (
                Has-Grows (push_id i (key sysid compid) t) a.after i (a.grows i) (
                    knows_after t (push_id i (key sysid compid) t) i
                      (ids_of-pushed i t (omega (arith, lt, size)))),
                tt,
              );
            })
      ]
