-- ===== src/Filter/Spec.antt =====
-- src/endpoint.cpp: what the filters of an endpoint let through.
use mavlink_router.Prelude.{
  ℕ, ◌≡◌, refl, ◌⊎◌, inl, inr, ◌↔◌, Bool, true, false, ◌&&◌, ◌||◌, not, List, [], ◌∷◌, arith, ◌==◌,
  contains, In, contains→In, In→contains, Bool-cases, ==_iff,
}
use mavlink_router.Message.{Msg}
use mavlink_router.Throttle.{uint32_max, is_empty}
use mavlink_router.Filter.{Filters, filtered_out, allowed_by_incoming_filters}

-- A pair of lists lets a value pass: the first names it or is empty, and the second does not name it.
abbrev pub Passes : ℕ → List ℕ → List ℕ → Type 0
Passes x allowed blocked = ((allowed ≡ []) ⊎ In x allowed) × ¬ In x blocked

-- The message passes the filters for outgoing messages: it has the id that stands for none, or its
-- id, component and system each pass.
abbrev pub PassesOutgoing : Filters → Msg → Type 0
PassesOutgoing f m =
    (m.msg_id ≡ uint32_max)
    ⊎ (Passes m.msg_id f.allowed_outgoing_msg_ids f.blocked_outgoing_msg_ids
        × Passes m.src_compid f.allowed_outgoing_src_comps f.blocked_outgoing_src_comps
        × Passes m.src_sysid f.allowed_outgoing_src_systems f.blocked_outgoing_src_systems)

-- The same for incoming messages, where the id that stands for none exempts from the id lists alone.
abbrev PassesIncoming : Filters → Msg → Type 0
PassesIncoming f m =
    ((m.msg_id ≡ uint32_max)
      ⊎ Passes m.msg_id f.allowed_incoming_msg_ids f.blocked_incoming_msg_ids)
    × Passes m.src_compid f.allowed_incoming_src_comps f.blocked_incoming_src_comps
    × Passes m.src_sysid f.allowed_incoming_src_systems f.blocked_incoming_src_systems

-- The two tests of a pair of lists.
abbrev pub passes : ℕ → List ℕ → List ℕ → Bool
passes x allowed blocked =
    not (not (is_empty allowed) && not (contains x allowed))
    && not (not (is_empty blocked) && contains x blocked)

passes→Passes :
    (x : ℕ) (allowed blocked : List ℕ) → passes x allowed blocked ≡ true → Passes x allowed blocked
passes→Passes x [] [] h = (inl refl, λ i. i)
passes→Passes x [] (b ∷ bs) h = (inl refl, λ i. ground (arith, In→contains x (b ∷ bs) i))
passes→Passes x (a ∷ rest) [] h = (inr (contains→In x (a ∷ rest) (ground arith)), λ i. i)
passes→Passes x (a ∷ rest) (b ∷ bs) h =
    (inr (contains→In x (a ∷ rest) (ground arith)), λ i. ground (arith, In→contains x (b ∷ bs) i))

unblocked :
    (x : ℕ) (blocked : List ℕ)
    → ¬ In x blocked
    → not (not (is_empty blocked) && contains x blocked) ≡ true
unblocked x [] free = refl
unblocked x (b ∷ bs) free = elim (Bool-cases (contains x (b ∷ bs))) [
  | inl e ↦ absurd (free (contains→In x (b ∷ bs) e))
  | inr e ↦ rw e
]

Passes→passes :
    (x : ℕ) (allowed blocked : List ℕ) → Passes x allowed blocked → passes x allowed blocked ≡ true
Passes→passes x allowed blocked (inl none_allowed, free) =
    rw none_allowed (unblocked x blocked free)
Passes→passes x allowed blocked (inr i, free) =
    rw (In→contains x allowed i) (ground (arith, unblocked x blocked free))

filtered_out-passes :
    (f : Filters) (m : Msg)
    → filtered_out f m
      ≡ not (
          m.msg_id == uint32_max
          || (passes m.msg_id f.allowed_outgoing_msg_ids f.blocked_outgoing_msg_ids
              && passes m.src_compid f.allowed_outgoing_src_comps f.blocked_outgoing_src_comps
              && passes m.src_sysid f.allowed_outgoing_src_systems f.blocked_outgoing_src_systems))
unfolding filtered_out
filtered_out-passes f m = ground arith

allowed-passes :
    (f : Filters) (m : Msg)
    → allowed_by_incoming_filters f m ≡ (
        (m.msg_id == uint32_max
          || passes m.msg_id f.allowed_incoming_msg_ids f.blocked_incoming_msg_ids)
        && passes m.src_compid f.allowed_incoming_src_comps f.blocked_incoming_src_comps
        && passes m.src_sysid f.allowed_incoming_src_systems f.blocked_incoming_src_systems)
unfolding allowed_by_incoming_filters
allowed-passes f m = ground arith

and_true : (a b c : Bool) → (a && b && c) ≡ true → (a ≡ true) × (b ≡ true) × (c ≡ true)
and_true a b c h = ground arith

-- An endpoint's outgoing filters let a message through exactly if its id stands for none, or its id,
-- source component and source system are each named by the allowing list, where that is not empty,
-- and not named by the blocking list.
pub filtered_out_iff : (f : Filters) (m : Msg) → (filtered_out f m ≡ false) ↔ PassesOutgoing f m
filtered_out_iff f m = (sound, complete)
  where
    sound : filtered_out f m ≡ false → PassesOutgoing f m
    sound h = elim (Bool-cases (m.msg_id == uint32_max)) [
      | inl e ↦ inl ((==_iff m.msg_id uint32_max).0 e)
      | inr e ↦
          let (p, q, r) = and_true _ _ _ (ground (arith, filtered_out-passes f m)) in
          inr (passes→Passes _ _ _ p, passes→Passes _ _ _ q, passes→Passes _ _ _ r)
    ]

    complete : PassesOutgoing f m → filtered_out f m ≡ false
    complete (inl e) = ground (arith, filtered_out-passes f m)
    complete (inr (p, q, r)) =
        rw
          (
            filtered_out-passes f m,
            Passes→passes _ _ _ p,
            Passes→passes _ _ _ q,
            Passes→passes _ _ _ r,
          )
          (ground arith)

-- The incoming filters let a message through exactly if its source component and system pass, and its
-- id passes or stands for none.
allowed_iff :
    (f : Filters) (m : Msg) → (allowed_by_incoming_filters f m ≡ true) ↔ PassesIncoming f m
allowed_iff f m = (sound, complete)
  where
    sound : allowed_by_incoming_filters f m ≡ true → PassesIncoming f m
    sound h =
        let (p, q, r) =
          and_true
            (m.msg_id == uint32_max
              || passes m.msg_id f.allowed_incoming_msg_ids f.blocked_incoming_msg_ids)
            (passes m.src_compid f.allowed_incoming_src_comps f.blocked_incoming_src_comps)
            (passes m.src_sysid f.allowed_incoming_src_systems f.blocked_incoming_src_systems)
            (rw (allowed-passes f m) at h) in
        (
          elim (Bool-cases (m.msg_id == uint32_max)) [
            | inl e ↦ inl ((==_iff m.msg_id uint32_max).0 e)
            | inr e ↦ inr (passes→Passes _ _ _ (rw e at p))
          ],
          passes→Passes _ _ _ q,
          passes→Passes _ _ _ r,
        )

    complete : PassesIncoming f m → allowed_by_incoming_filters f m ≡ true
    complete (inl e, q, r) =
        rw (allowed-passes f m, Passes→passes _ _ _ q, Passes→passes _ _ _ r) (ground arith)
    complete (inr p, q, r) =
        rw (allowed-passes f m, Passes→passes _ _ _ p, Passes→passes _ _ _ q, Passes→passes _ _ _ r)
          (ground arith)
