-- ===== src/Events/Hangups.antt =====
-- src/mainloop.cpp, `Mainloop::process_tcp_hangups`: what becomes of the timers of the endpoints it removes.
use mavlink_router.Prelude.{
  ℕ, ◌≡◌, refl, sym, subst, append-nil, Bool, true, false, ◌&&◌, not, Option, none, some, List, [],
  ◌∷◌, ◌++◌, inl, inr, ◌⊎◌, Bool-cases, ◌==◌, All, keep, any, arith, any-append_left,
  any-append_right, All-map, All-mono,
}
use mavlink_router.Events.{
  Pollable, Timer, Poller, destroyed, destroy_each, stays, process_tcp_hangups, finish_batch,
}
use mavlink_router.Events.Owners.{holds, owned, Timers, Owned}

module _ {A : Type 0} (p : A → Bool) where
  any-or : (xs ys : List A) → any p (xs ++ ys) ≡ true → (any p xs ≡ true) ⊎ (any p ys ≡ true)
  any-or [] ys h = inr h
  any-or (x ∷ xs) ys h = elim (Bool-cases (p x)) [
    | inl found ↦ inl (rw found refl)
    | inr skipped ↦
        let rest : any p (xs ++ ys) ≡ true = cc in
        elim (any-or xs ys rest) [ inl l ↦ inl (rw skipped l) | inr r ↦ inr r ]
  ]

  any-and : (xs ys : List A) → (any p xs ≡ true) ⊎ (any p ys ≡ true) → any p (xs ++ ys) ≡ true
  any-and xs ys (inl h) = any-append_left p xs ys h
  any-and xs ys (inr h) = any-append_right p xs ys h

  any-keep :
      (s : A → Bool) (xs : List A)
      → any p xs ≡ true
      → (any p (keep s xs) ≡ true) ⊎ (any p (keep (λ x. not (s x)) xs) ≡ true)
  any-keep s [] h = cc
  any-keep s (x ∷ xs) h = elim (Bool-cases (s x)) [
    | inl stay ↦ rw stay (elim (Bool-cases (p x)) [
      | inl found ↦ inl (rw found refl)
      | inr skipped ↦
          let rest : any p xs ≡ true = cc in
          elim (any-keep s xs rest) [ inl l ↦ inl (rw skipped l) | inr r ↦ inr r ]
    ])
    | inr go ↦ rw go (elim (Bool-cases (p x)) [
      | inl found ↦ inr (rw found refl)
      | inr skipped ↦
          let rest : any p xs ≡ true = cc in
          elim (any-keep s xs rest) [ inl l ↦ inl l | inr r ↦ inr (rw skipped r) ]
    ])
  ]

-- An endpoint that the loop removes holds no lasting timer.
holds-gone :
    (o : ℕ) (lasting : Bool) (e : Pollable)
    → not (stays e) ≡ true
    → holds o lasting e ≡ true
    → not lasting && (o == e.number) ≡ true
unfolding holds stays
holds-gone o lasting e g h = ground (arith, g, h)

abbrev timer_of : ℕ → Option ℕ → Bool → Bool → Timer
timer_of number owner lasting remove_me = record {
  number = number;
  owner = owner;
  lasting = lasting;
  remove_me = remove_me;
}

still_held :
    (o : ℕ) (lasting : Bool) (es gone : List Pollable) (e : Pollable)
    → not (stays e) ≡ true
    → any (holds o lasting) (es ++ (e ∷ gone)) ≡ true
    → (any (holds o lasting) (es ++ gone) ≡ true) ⊎ (not lasting && (o == e.number) ≡ true)
still_held o lasting es gone e g h = elim (any-or (holds o lasting) es (e ∷ gone) h) [
  | inl before ↦ inl (any-append_left (holds o lasting) es gone before)
  | inr behind ↦ elim (Bool-cases (holds o lasting e)) [
    | inl its ↦ inr (holds-gone o lasting e g its)
    | inr not_its ↦
        let rest : any (holds o lasting) gone ≡ true = cc in
        inl (any-append_right (holds o lasting) es gone rest)
  ]
]

-- The destructor of `e` deletes the timers that only `e` could own.
owned-without :
    (es gone : List Pollable) (e : Pollable) (t : Timer)
    → not (stays e) ≡ true
    → owned (es ++ (e ∷ gone)) t ≡ true
    → owned (es ++ gone) (destroyed e.number t) ≡ true
unfolding owned destroyed
owned-without es gone e t g h = go t.owner t.lasting t.remove_me h
  where
    go :
        (owner : Option ℕ) (lasting remove_me : Bool)
        → owned (es ++ (e ∷ gone)) (timer_of t.number owner lasting remove_me) ≡ true
        → owned (es ++ gone) (destroyed e.number (timer_of t.number owner lasting remove_me)) ≡ true
    go none true true h = refl
    go none true false h = refl
    go none false true h = refl
    go none false false h = refl
    go (some o) true true h = refl
    go (some o) true false h = elim (still_held o true es gone e g h) [
      | inl held ↦ held
      | inr none_left ↦ cc
    ]
    go (some o) false true h = elim (Bool-cases (o == e.number)) [
      | inl its ↦ rw its refl
      | inr other ↦ rw other refl
    ]
    go (some o) false false h = elim (Bool-cases (o == e.number)) [
      | inl its ↦ rw its refl
      | inr other ↦
          let t' = timer_of t.number (some o) false false in
          let same : destroyed e.number t' ≡ t' = simp other refl in
          subst (λ u. owned (es ++ gone) u ≡ true) (sym same)
            (elim (still_held o false es gone e g h) [ inl held ↦ held | inr its ↦ cc ])
    ]

destroy_each-Timers :
    (es gone : List Pollable) (ts : List Timer)
    → All (λ e. not (stays e) ≡ true) gone
    → Timers (es ++ gone) ts
    → Timers es (destroy_each gone ts)
unfolding destroy_each Timers
destroy_each-Timers es [] ts g a = subst (λ es. Timers es ts) (append-nil es) a
destroy_each-Timers es (e ∷ gone) ts (g, more) a =
    destroy_each-Timers es gone _ more
      (All-map _ _ (destroyed e.number) (λ t h. owned-without es gone e t g h) ts a)

All-keep : (p : Pollable → Bool) (es : List Pollable) → All (λ e. p e ≡ true) (keep p es)
All-keep p [] = tt
All-keep p (e ∷ es) = elim (Bool-cases (p e)) [
  | inl h ↦ rw h (h, All-keep p es)
  | inr h ↦ rw h (All-keep p es)
]

owned-keep :
    (es : List Pollable) (t : Timer)
    → owned es t ≡ true
    → owned (keep stays es ++ keep (λ e. not (stays e)) es) t ≡ true
unfolding owned
owned-keep es t h = go t.owner t.remove_me h
  where
    go :
        (owner : Option ℕ) (remove_me : Bool)
        → owned es (timer_of t.number owner t.lasting remove_me) ≡ true
        → owned
            (keep stays es ++ keep (λ e. not (stays e)) es)
            (timer_of t.number owner t.lasting remove_me)
          ≡ true
    go owner true h = refl
    go none false h = refl
    go (some o) false h = any-and (holds o t.lasting) _ _ (any-keep (holds o t.lasting) stays es h)

pub process_tcp_hangups-Owned : (l : Poller) → Owned l → Owned (process_tcp_hangups l)
unfolding process_tcp_hangups Owned Timers
process_tcp_hangups-Owned l a =
    destroy_each-Timers (keep stays l.endpoints) (keep (λ e. not (stays e)) l.endpoints) l.timers
      (All-keep _ l.endpoints) (All-mono _ _ (owned-keep l.endpoints) l.timers a)

All-kept : (P : Timer → Type 0) (p : Timer → Bool) (ts : List Timer) → All P ts → All P (keep p ts)
All-kept P p [] a = tt
All-kept P p (t ∷ ts) (h, a) = elim (Bool-cases (p t)) [
  | inl k ↦ rw k (h, All-kept P p ts a)
  | inr k ↦ rw k (All-kept P p ts a)
]

pub finish_batch-Owned : (l : Poller) → Owned l → Owned (finish_batch l)
unfolding finish_batch Owned Timers process_tcp_hangups
finish_batch-Owned l a = elim (Bool-cases l.hangups) [
  | inl h ↦ simp h (All-kept _ _ _ (process_tcp_hangups-Owned l a))
  | inr h ↦ simp h (All-kept _ _ _ a)
]
