-- ===== src/Accept/Target.antt =====
-- src/endpoint.cpp, `Endpoint::accept_msg`: the routing targets of a message.
use mavlink_router.Prelude.{
  ℕ, ◌+◌, ◌*◌, ◌/◌, ◌%◌, ◌<◌, ◌≡◌, ◌≢◌, refl, sym, ap, ◌∙◌, ◌⊎◌, inl, inr, ◌↔◌, Bool, true, ◌&&◌,
  ◌||◌, not, Option, none, some, List, [], ◌∷◌, arith, ◌==◌, All, In, contains→In, In→contains,
  Bool-cases, ==_iff,
}
use mavlink_router.Message.{Msg}
use mavlink_router.Accept.{
  sys_comp_id, has_sys_id, has_sys_comp_id, as_unsigned, is_broadcast, is_positive, is_target,
}

-- The endpoint has seen a message from this component of this system.
abbrev pub Knows : ℕ → ℕ → List ℕ → Type 0
Knows sysid compid ids = In (256 * sysid + compid) ids

-- It has seen a message from some component of this system.
abbrev pub KnowsSystem : ℕ → List ℕ → Type 0
KnowsSystem sysid ids = (compid : ℕ) × (compid < 256) × Knows sysid compid ids

-- Why an endpoint is a routing target. A message has no target system (`none`), or 0 for all; the
-- same goes for the component. Of the sniffer's id the low byte counts.
pub data IsTarget (sniffer : ℕ) (ids : List ℕ) (m : Msg) : Type 0 where
  to_nobody : m.target_sysid ≡ none → IsTarget sniffer ids m
  to_all : m.target_sysid ≡ some 0 → IsTarget sniffer ids m
  to_component :
      (sysid compid : ℕ)
      → m.target_sysid ≡ some sysid
      → m.target_compid ≡ some compid
      → Knows sysid compid ids
      → IsTarget sniffer ids m
  to_system :
      (sysid : ℕ)
      → m.target_sysid ≡ some sysid
      → (m.target_compid ≡ none) ⊎ (m.target_compid ≡ some 0)
      → KnowsSystem sysid ids
      → IsTarget sniffer ids m
  to_sniffer : sniffer ≢ 0 → KnowsSystem (sniffer % 256) ids → IsTarget sniffer ids m

-- The entries are of 16 bits, and the addresses in a message are bytes.
abbrev pub AreIds : List ℕ → Type 0
AreIds = All (λ id. id < 65536)

has_sys_id→KnowsSystem :
    (sysid : ℕ) (ids : List ℕ) → sysid < 256 → has_sys_id sysid ids ≡ true → KnowsSystem sysid ids
unfolding has_sys_id
has_sys_id→KnowsSystem sysid [] lt h = cc
has_sys_id→KnowsSystem sysid (id ∷ ids) lt h = elim (Bool-cases (id / 256 == sysid % 256)) [
  | inl e ↦ (id % 256, omega arith, inl (ground arith))
  | inr e ↦
      let (compid, small, i) = has_sys_id→KnowsSystem sysid ids lt (rw e at h) in
      (compid, small, inr i)
]

KnowsSystem→has_sys_id :
    (sysid compid : ℕ) (ids : List ℕ)
    → sysid < 256
    → compid < 256
    → Knows sysid compid ids
    → has_sys_id sysid ids ≡ true
unfolding has_sys_id
KnowsSystem→has_sys_id sysid compid [] lt small i = absurd i
KnowsSystem→has_sys_id sysid compid (id ∷ ids) lt small (inl e) = ground arith
KnowsSystem→has_sys_id sysid compid (id ∷ ids) lt small (inr i) =
    ground (arith, KnowsSystem→has_sys_id sysid compid ids lt small i)

pub has_sys_comp_id→Knows :
    (sysid compid : ℕ) (ids : List ℕ)
    → sysid < 256
    → compid < 256
    → has_sys_comp_id sysid compid ids ≡ true
    → Knows sysid compid ids
unfolding has_sys_comp_id sys_comp_id
has_sys_comp_id→Knows sysid compid ids lt small h =
    let same : sysid % 256 * 256 + compid % 256 ≡ 256 * sysid + compid = omega arith in
    rw same at (contains→In _ ids h)

pub Knows→has_sys_comp_id :
    (sysid compid : ℕ) (ids : List ℕ)
    → sysid < 256
    → compid < 256
    → Knows sysid compid ids
    → has_sys_comp_id sysid compid ids ≡ true
unfolding has_sys_comp_id sys_comp_id
Knows→has_sys_comp_id sysid compid ids lt small i =
    let same : sysid % 256 * 256 + compid % 256 ≡ 256 * sysid + compid = omega arith in
    rw same (In→contains _ ids i)

-- Where the target addresses of the message are bytes.
abbrev pub AreByte : Option ℕ → Type 0
AreByte none = Unit
AreByte (some n) = n < 256

-- The addresses of a message as they come from its packet.
pub record IsAddressed (m : Msg) : Type 0 where
  pub to_sysid : AreByte m.target_sysid
  pub to_compid : AreByte m.target_compid
  pub from_sysid : m.src_sysid < 256
  pub from_compid : m.src_compid < 256

-- The mask of `has_sys_id`.
has_sys_id_low : (sysid : ℕ) (ids : List ℕ) → has_sys_id sysid ids ≡ has_sys_id (sysid % 256) ids
unfolding has_sys_id
has_sys_id_low sysid [] = refl
has_sys_id_low sysid (id ∷ ids) =
    let low : sysid % 256 % 256 ≡ sysid % 256 = omega arith in
    rw (low, has_sys_id_low sysid ids) refl

or_true :
    (a b c d : Bool)
    → (a || b || c || d) ≡ true
    → (a ≡ true) ⊎ ((b ≡ true) ⊎ ((c ≡ true) ⊎ (d ≡ true)))
or_true a b c d h = ground arith

module _ (sniffer : ℕ) (ids : List ℕ) (m : Msg) where
  sniffs : (not (sniffer == 0) && has_sys_id sniffer ids) ≡ true → IsTarget sniffer ids m
  sniffs h =
      let sees : has_sys_id sniffer ids ≡ true = ground arith in
      to_sniffer (ground arith) (
        has_sys_id→KnowsSystem (sniffer % 256) ids (omega arith)
          (sym (has_sys_id_low sniffer ids) ∙ sees))

  -- The second and the third disjunct of the code.
  by_component :
      (sysid : ℕ) (compid : Option ℕ)
      → m.target_sysid ≡ some sysid
      → m.target_compid ≡ compid
      → sysid < 256
      → AreByte compid
      → (is_positive compid && has_sys_comp_id sysid (as_unsigned compid) ids) ≡ true
      → IsTarget sniffer ids m
  by_component sysid none s c lt small h = cc
  by_component sysid (some compid) s c lt small h =
      to_component sysid compid s c (has_sys_comp_id→Knows sysid compid ids lt small (ground arith))

  by_system :
      (sysid : ℕ) (compid : Option ℕ)
      → m.target_sysid ≡ some sysid
      → m.target_compid ≡ compid
      → sysid < 256
      → (is_broadcast compid && has_sys_id sysid ids) ≡ true
      → IsTarget sniffer ids m
  by_system sysid none s c lt h = to_system sysid s (inl c) (has_sys_id→KnowsSystem sysid ids lt h)
  by_system sysid (some compid) s c lt h =
      to_system sysid s (inr (c ∙ ap some (ground arith)))
        (has_sys_id→KnowsSystem sysid ids lt (ground arith))

  is_target→IsTarget :
      (sysid compid : Option ℕ)
      → m.target_sysid ≡ sysid
      → m.target_compid ≡ compid
      → IsAddressed m
      → is_target sniffer ids m ≡ true
      → IsTarget sniffer ids m
  unfolding is_target
  is_target→IsTarget none compid s c a h = to_nobody s
  is_target→IsTarget (some sysid) compid s c a h =
      elim (or_true (sysid == 0)
        (is_positive compid && has_sys_comp_id sysid (as_unsigned compid) ids)
        (is_broadcast compid && has_sys_id sysid ids) (not (sniffer == 0) && has_sys_id sniffer ids)
        (rw (s, c) at h)) [
          | inl e ↦ to_all (s ∙ ap some ((==_iff sysid 0).0 e))
          | inr (inl e) ↦ by_component sysid compid s c (rw s at a.to_sysid) (rw c at a.to_compid) e
          | inr (inr (inl e)) ↦ by_system sysid compid s c (rw s at a.to_sysid) e
          | inr (inr (inr e)) ↦ sniffs e
        ]

  IsTarget→is_target : IsAddressed m → IsTarget sniffer ids m → is_target sniffer ids m ≡ true
  unfolding is_target
  IsTarget→is_target a (to_nobody s) = ground arith
  IsTarget→is_target a (to_all s) = ground arith
  IsTarget→is_target a (to_component sysid compid s c k) =
      let lt : sysid < 256 = rw s at a.to_sysid in
      let small : compid < 256 = rw c at a.to_compid in
      ground (
        arith,
        Knows→has_sys_comp_id sysid compid ids lt small k,
        KnowsSystem→has_sys_id sysid compid ids lt small k,
      )
  IsTarget→is_target a (to_system sysid s c (compid, small, k)) =
      let lt : sysid < 256 = rw s at a.to_sysid in
      ground (arith, KnowsSystem→has_sys_id sysid compid ids lt small k)
  IsTarget→is_target a (to_sniffer on (compid, small, k)) =
      let sees : has_sys_id sniffer ids ≡ true =
        has_sys_id_low sniffer ids
        ∙ KnowsSystem→has_sys_id (sniffer % 256) compid ids (omega arith) small k in
      ground (arith, sees)

  -- An endpoint is a routing target of a message exactly for one of five reasons: the message has no
  -- target system, its target is all systems, the endpoint has seen the target component, it has seen
  -- some component of the target system and the message is for all of its components or none, or it
  -- has seen the system that the low byte of the sniffer's id says, if this id is not 0. The addresses
  -- are bytes.
  pub is_target_iff : IsAddressed m → (is_target sniffer ids m ≡ true) ↔ IsTarget sniffer ids m
  is_target_iff a =
      (is_target→IsTarget m.target_sysid m.target_compid refl refl a, IsTarget→is_target a)
