-- ===== src/Setup/Baud.antt =====
-- src/endpoint.cpp, `UartEndpoint::add_speeds`, `set_speed`, `_change_baud_cb` and `read_msg`: the search for the baud rate.
use mavlink_router.Prelude.{
  ℕ, zero, suc, not, inl, inr, Bool-cases, ◌+◌, ◌%◌, ◌<◌, ◌≡◌, refl, sym, ap, ◌∙◌, Bool, true,
  false, Option, none, some, List, [], ◌∷◌, arith, if◌then◌else◌, length,
}
use mavlink_router.Os.{Ret, count, failed, other}
use native.Mathlib.Nat.{mod-lt, mod-eq_of_lt, mod-add-mod}

-- `_baudrates`, `_current_baud_idx`, whether `_change_baud_timeout` is set, and the rate at which the
-- device works.
pub record BaudSearch : Type 0 where
  pub baudrates : List ℕ
  pub current_baud_idx : ℕ
  pub searching : Bool
  pub line_speed : ℕ

-- What `set_speed` meets: whether the device is open, and which of its calls of `ioctl` succeed.
pub record Ioctls : Type 0 where
  pub is_open : Bool
  pub gets : Bool
  pub sets : Bool
  pub flushes : Bool

-- `set_speed`, which returns 0 or -1, with the rate at which the device works afterwards: its second call
-- sets the rate.
unfoldable pub set_speed : Ioctls → ℕ → ℕ → Ret × ℕ
set_speed calls baudrate speed =
    if not calls.is_open
    then (failed (other 1), speed)
    else if not calls.gets
    then (failed (other 1), speed)
    else if not calls.sets
    then (failed (other 1), speed)
    else if not calls.flushes
    then (failed (other 1), baudrate)
    else (count 0, baudrate)

-- `_baudrates[i]`, for an index within the vector.
unfoldable pub baud_at : List ℕ → ℕ → ℕ
baud_at [] i = 0
baud_at (b ∷ bs) zero = b
baud_at (b ∷ bs) (suc i) = baud_at bs i

-- `add_speeds` of a device that works at some rate: `none` for -EINVAL. The timer can be made. The result
-- of `set_speed` is ignored.
unfoldable pub add_speeds : Ioctls → ℕ → List ℕ → Option BaudSearch
add_speeds calls speed [] = none
add_speeds calls speed (b ∷ bs) = some (record {
  baudrates = b ∷ bs;
  current_baud_idx = 0;
  searching = true;
  line_speed = (set_speed calls (baud_at (b ∷ bs) 0) speed).1;
})

-- `_change_baud_cb`, which is called while the timer is there.
pub change_baud : Ioctls → BaudSearch → BaudSearch
change_baud calls s =
    let next = (s.current_baud_idx + 1) % length s.baudrates in
    if s.searching
    then record s {
      current_baud_idx = next;
      line_speed = (set_speed calls (baud_at s.baudrates next) s.line_speed).1;
    }
    else s

-- `read_msg`, by whether the read of `Endpoint` returned `ReadOk`.
pub baud_read : Bool → BaudSearch → BaudSearch
baud_read ok s = if ok then record s { searching = false } else s

-- What happens: the timer expires, or a message is read, or a read gives none.
pub data Happening : Type 0 where
  expires : Ioctls → Happening
  reads : Bool → Happening

pub baud_run : List Happening → BaudSearch → BaudSearch
baud_run [] s = s
baud_run (expires calls ∷ hs) s = baud_run hs (change_baud calls s)
baud_run (reads ok ∷ hs) s = baud_run hs (baud_read ok s)

-- The device is open, and takes the rate.
unfoldable pub Works : Ioctls → Type 0
Works calls = (calls.is_open ≡ true) × (calls.gets ≡ true) × (calls.sets ≡ true)

-- It does so each time that the timer expires.
unfoldable pub AllWork : List Happening → Type 0
AllWork [] = Unit
AllWork (expires calls ∷ hs) = Works calls × AllWork hs
AllWork (reads ok ∷ hs) = AllWork hs

set_speed-Works : (calls : Ioctls) (b speed : ℕ) → Works calls → (set_speed calls b speed).1 ≡ b
unfolding set_speed Works
set_speed-Works calls b speed (o, g, s) = elim (Bool-cases calls.flushes) [
  | inl f ↦ rw (o, g, s, f) refl
  | inr f ↦ rw (o, g, s, f) refl
]

-- The device works at the current rate.
in_step :
    (hs : List Happening) (s : BaudSearch)
    → AllWork hs
    → s.line_speed ≡ baud_at s.baudrates s.current_baud_idx
    → (baud_run hs s).line_speed ≡ baud_at s.baudrates (baud_run hs s).current_baud_idx
unfolding baud_run baud_read change_baud AllWork
in_step [] s w h = h
in_step (expires calls ∷ hs) s (w, ws) h = elim (Bool-cases s.searching) [
  | inl on ↦ simp on (in_step hs _ ws (set_speed-Works calls _ _ w))
  | inr off ↦ simp off (in_step hs s ws h)
]
in_step (reads true ∷ hs) s w h = in_step hs _ w h
in_step (reads false ∷ hs) s w h = in_step hs s w h

-- How often the timer expires before a message is read.
unfoldable pub expirations : List Happening → ℕ
expirations [] = 0
expirations (expires calls ∷ hs) = expirations hs + 1
expirations (reads true ∷ hs) = 0
expirations (reads false ∷ hs) = expirations hs

stopped_lem :
    (hs : List Happening) (s : BaudSearch)
    → s.searching ≡ false
    → (baud_run hs s).current_baud_idx ≡ s.current_baud_idx
unfolding baud_run change_baud baud_read
stopped_lem [] s h = refl
stopped_lem (expires calls ∷ hs) s h = simp h (stopped_lem hs s h)
stopped_lem (reads true ∷ hs) s h = stopped_lem hs _ refl
stopped_lem (reads false ∷ hs) s h = stopped_lem hs s h

within : (i n : ℕ) → i < n → i ≡ (i + 0) % n
within i n p =
    let same : i + 0 ≡ i = omega arith in sym (mod-eq_of_lt p) ∙ ap (λ k. k % n) (sym same)

searching_lem :
    (hs : List Happening) (s : BaudSearch)
    → s.searching ≡ true
    → s.current_baud_idx < length s.baudrates
    → (baud_run hs s).current_baud_idx ≡ (s.current_baud_idx + expirations hs) % length s.baudrates
unfolding baud_run change_baud baud_read expirations
searching_lem [] s h p = within s.current_baud_idx _ p
searching_lem (expires calls ∷ hs) s h p =
    let n = length s.baudrates in
    let i = (s.current_baud_idx + 1) % n in
    let less : i < n = mod-lt (s.current_baud_idx + 1) (omega (arith, p)) in
    let onward : s.current_baud_idx + 1 + expirations hs
        ≡ s.current_baud_idx + (expirations hs + 1) =
      omega arith in
    let moved : BaudSearch = record {
      baudrates = s.baudrates;
      current_baud_idx = i;
      searching = true;
      line_speed = (set_speed calls (baud_at s.baudrates i) s.line_speed).1;
    } in
    simp h (
      searching_lem hs moved refl less
      ∙ mod-add-mod (s.current_baud_idx + 1) n (expirations hs)
      ∙ ap (λ k. k % n) onward)
searching_lem (reads true ∷ hs) s h p = stopped_lem hs _ refl ∙ within s.current_baud_idx _ p
searching_lem (reads false ∷ hs) s h p = searching_lem hs s h p

-- A UART endpoint with several baud rates makes its device work at the first. It goes on to the next one,
-- and after the last to the first again, each time that the timer expires, until a message is read: then it
-- keeps the rate. So if no message comes it gets to every rate. The device is open, and takes each rate that
-- `set_speed` asks for.
pub add_speeds_lem :
    (calls : Ioctls) (speed : ℕ) (bauds : List ℕ) (hs : List Happening) (s : BaudSearch)
    → add_speeds calls speed bauds ≡ some s
    → Works calls
    → AllWork hs
    → ((baud_run hs s).current_baud_idx ≡ expirations hs % length bauds)
      × ((baud_run hs s).line_speed ≡ baud_at bauds (expirations hs % length bauds))
unfolding add_speeds baud_at
add_speeds_lem calls speed [] hs s e w ws = cc
add_speeds_lem calls speed (b ∷ bs) hs s e w ws =
    let first : BaudSearch = record {
      baudrates = b ∷ bs;
      current_baud_idx = 0;
      searching = true;
      line_speed = (set_speed calls b speed).1;
    } in
    let started : s ≡ first = cc in
    let same : 0 + expirations hs ≡ expirations hs = omega arith in
    let index : (baud_run hs first).current_baud_idx ≡ expirations hs % length (b ∷ bs) =
      searching_lem hs first refl (omega arith) ∙ ap (λ k. k % length (b ∷ bs)) same in
    rw started
      (index, in_step hs first ws (set_speed-Works calls b speed w) ∙ ap (baud_at (b ∷ bs)) index)
