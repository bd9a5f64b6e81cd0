-- ===== src/Dedup/Window.antt =====
-- src/dedup.cpp against a filter that remembers every packet that it let through.
use mathlib.Core.List.{map-append}
use mavlink_router.Prelude.{
  ℕ, ◌+◌, ◌^◌, ◌≤◌, ◌<◌, ◌≡◌, refl, ap, ◌∙◌, inl, inr, Bool, true, false, ◌&&◌, some, List, [], ◌∷◌,
  ◌++◌, map, arith, leb, ◌==◌, if◌then◌else◌, Bool-cases, contains, keep, any,
}
use mavlink_router.Dedup.{DedupImpl, erase_found, expire, remember}

-- The entry still counts at the time `now`.
abbrev pub alive : ℕ → ℕ → ℕ × ℕ → Bool
alive now period e = leb now (e.0 + period)

abbrev pub hash_of : ℕ × ℕ → ℕ
hash_of e = e.1

-- Times from `lo` on, in order, up to `hi`.
abbrev pub Ascends {ℓ} : {A : Type ℓ} → ℕ → ℕ → List (ℕ × A) → Type 0
Ascends lo hi [] = lo ≤ hi
Ascends lo hi ((t, h) ∷ es) = (lo ≤ t) × Ascends t hi es

-- The reference: the packets let through so far, oldest first. It forgets none.
abbrev pub History : Type 0
History = List (ℕ × ℕ)

pub seen : ℕ → ℕ → ℕ → History → Bool
seen now period hash past = any (λ e. alive now period e && (e.1 == hash)) past

pub reference : ℕ → ℕ → ℕ → History → Bool × History
reference now period hash past =
    if seen now period hash past then (false, past) else (true, past ++ ((now, hash) ∷ []))

pub Ascends-le {ℓ} : {A : Type ℓ} (lo hi : ℕ) (es : List (ℕ × A)) → Ascends lo hi es → lo ≤ hi
Ascends-le lo hi [] a = a
Ascends-le lo hi ((t, x) ∷ es) a = omega (arith, Ascends-le t hi es a.1)

Ascends-widen {ℓ} :
    {A : Type ℓ} (lo hi hi' : ℕ) (es : List (ℕ × A))
    → hi ≤ hi'
    → Ascends lo hi es
    → Ascends lo hi' es
Ascends-widen lo hi hi' [] h a = omega arith
Ascends-widen lo hi hi' ((t, x) ∷ es) h a = (a.0, Ascends-widen t hi hi' es h a.1)

Ascends-lower {ℓ} :
    {A : Type ℓ} (lo lo' hi : ℕ) (es : List (ℕ × A))
    → lo ≤ lo'
    → Ascends lo' hi es
    → Ascends lo hi es
Ascends-lower lo lo' hi [] h a = omega arith
Ascends-lower lo lo' hi ((t, x) ∷ es) h a = (omega arith, a.1)

Ascends-snoc {ℓ} :
    {A : Type ℓ} (lo hi : ℕ) (x : A) (es : List (ℕ × A))
    → Ascends lo hi es
    → Ascends lo hi (es ++ ((hi, x) ∷ []))
Ascends-snoc lo hi x [] a = (a, omega arith)
Ascends-snoc lo hi x ((t, y) ∷ es) a = (a.0, Ascends-snoc t hi x es a.1)

-- A part of an ascending list ascends.
Ascends-keep {ℓ} :
    {A : Type ℓ} (p : ℕ × A → Bool) (lo hi : ℕ) (es : List (ℕ × A))
    → Ascends lo hi es
    → Ascends lo hi (keep p es)
Ascends-keep p lo hi [] a = a
Ascends-keep p lo hi ((t, x) ∷ es) a = elim (Bool-cases (p (t, x))) [
  | inl e ↦ rw e (a.0, Ascends-keep p t hi es a.1)
  | inr e ↦ rw e (Ascends-lower lo t hi (keep p es) a.0 (Ascends-keep p t hi es a.1))
]

keep-alive_all :
    (now period lo hi : ℕ) (es : History)
    → Ascends lo hi es
    → now ≤ lo + period
    → keep (alive now period) es ≡ es
keep-alive_all now period lo hi [] a h = refl
keep-alive_all now period lo hi ((t, x) ∷ es) a h =
    ground (arith, keep-alive_all now period t hi es a.1)

-- Popping from the front removes exactly the entries that have run out, and never erases a hash
-- that is not there.
expire_lem :
    (now period lo hi : ℕ) (es : History)
    → Ascends lo hi es
    → hi + period < 2 ^ 64
    → expire now period es (map hash_of es)
      ≡ some (record {
        queue = keep (alive now period) es;
        hashes = map hash_of (keep (alive now period) es);
      })
unfolding expire erase_found
expire_lem now period lo hi [] a b = refl
expire_lem now period lo hi ((t, x) ∷ es) a b = ground (
  arith,
  Ascends-le t hi es a.1,
  keep-alive_all now period t hi es a.1,
  expire_lem now period t hi es a.1 b,
)

keep-keep :
    (before now period : ℕ) (es : History)
    → before ≤ now
    → keep (alive now period) (keep (alive before period) es) ≡ keep (alive now period) es
keep-keep before now period [] h = refl
keep-keep before now period ((t, x) ∷ es) h = ground (arith, keep-keep before now period es h)

keep-append {ℓ} :
    {A : Type ℓ} (p : A → Bool) (xs ys : List A) → keep p (xs ++ ys) ≡ keep p xs ++ keep p ys
keep-append p [] ys = refl
keep-append p (x ∷ xs) ys = ground (arith, keep-append p xs ys)

contains-map-keep :
    (now period hash : ℕ) (es : History)
    → contains hash (map hash_of (keep (alive now period) es)) ≡ seen now period hash es
unfolding seen
contains-map-keep now period hash [] = refl
contains-map-keep now period hash ((t, x) ∷ es) =
    ground (arith, contains-map-keep now period hash es)

-- What the filter stores at the time `now`: the part of the history that still counts.
pub record IsView (now period : ℕ) (past : History) (d : DedupImpl) : Type 0 where
  pub ordered : Ascends 0 now past
  pub queued : d.queue ≡ keep (alive now period) past
  pub in_step : d.hashes ≡ map hash_of d.queue

pub expire-IsView :
    {before now period : ℕ} {past : History} (d : DedupImpl)
    → IsView before period past d
    → before ≤ now
    → now + period < 2 ^ 64
    → (e : DedupImpl) × (expire now period d.queue d.hashes ≡ some e) × IsView now period past e
expire-IsView {before} {now} {period} {past} d v later fits = (
  record {
    queue = keep (alive now period) past;
    hashes = map hash_of (keep (alive now period) past);
  },
  rw (v.in_step, v.queued)
      (expire_lem now period 0 before (keep (alive before period) past)
          (Ascends-keep (alive before period) 0 before past v.ordered) (omega arith)
        ∙ ap (λ es. some (record { queue = es; hashes = map hash_of es }))
            (keep-keep before now period past later)),
  record {
    ordered = Ascends-widen 0 before now past later v.ordered;
    queued = refl;
    in_step = refl;
  },
)

pub remember-IsView :
    {now period : ℕ} {past : History} (hash : ℕ) (d : DedupImpl)
    → IsView now period past d
    → let (fresh, past') = reference now period hash past in
      ((remember now hash d).0 ≡ fresh) × IsView now period past' (remember now hash d).1
unfolding remember reference
remember-IsView {now} {period} {past} hash d v =
    let found : contains hash d.hashes ≡ seen now period hash past =
      rw (v.in_step, v.queued) (contains-map-keep now period hash past) in
    elim (Bool-cases (seen now period hash past)) [
      | inl e ↦ rw (found, e) (refl, v)
      | inr e ↦
          rw (found, e)
            (
              refl,
              record {
                ordered = Ascends-snoc 0 now hash past v.ordered;
                queued =
                    rw (keep-append (alive now period) past ((now, hash) ∷ []), ← v.queued)
                      (ground arith);
                in_step = rw (map-append hash_of d.queue ((now, hash) ∷ []), ← v.in_step);
              },
            )
    ]
