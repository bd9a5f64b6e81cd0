-- ===== src/Rx/Session.antt =====
-- src/endpoint.cpp, `Endpoint::handle_read` called again and again while the packets come in.
use mathlib.Core.List.{map-append}
use mavlink_router.Prelude.{
  ℕ, suc, ◌≤◌, ◌≡◌, refl, sym, ap, ◌∙◌, Option, none, some, List, [], ◌∷◌, ◌++◌, arith, length,
  length-append, append-nil, All,
}
use mavlink_router.Message.{Mavlink, Msg}
use mavlink_router.Rx.{Rx, Input, bytes, read_loop}
use mavlink_router.Rx.Frames.{Frame, encode, IsWellFormed, length-encode}
use mavlink_router.Rx.Stream.{StartsDiffer}
use mavlink_router.Rx.Chunks.{stream, messages, IsShort, handle_read-Reads}

abbrev pub joined : List (List ℕ) → List ℕ
joined [] = []
joined (bs ∷ chunks) = bs ++ joined chunks

-- One call of `handle_read` for each chunk of bytes: all messages handed on, in order.
pub handle_reads : Mavlink → ℕ → Input → List (List ℕ) → Rx → Option (List Msg × Rx)
handle_reads lib fuel later [] rx = some ([], rx)
handle_reads lib fuel later (bs ∷ chunks) rx = elim (read_loop lib fuel (bytes bs) later rx) [
  | none ↦ none
  | some (ms, end, last) ↦ elim (handle_reads lib fuel later chunks last) [
    | none ↦ none
    | some (ms', final) ↦ some (ms ++ ms', final)
  ]
]

All-split {ℓ} : {A : Type 0} (P : A → Type ℓ) (xs ys : List A) → All P (xs ++ ys) → All P ys
All-split P [] ys h = h
All-split P (x ∷ xs) ys h = All-split P xs ys h.1

module _ (lib : Mavlink) (differ : StartsDiffer lib) (later : Input) (fd : ℕ) where
  -- No packet is left once all bytes are read.
  none_todo :
      (fs : List Frame) (held : List ℕ) → held ≡ stream lib fs → IsShort lib fs held → fs ≡ []
  unfolding stream
  none_todo [] held e short = refl
  none_todo (f ∷ fs) held e short =
      absurd (omega (arith, ap length e, length-append (encode lib f) (stream lib fs)))

  handle_reads-stream :
      (fuel : ℕ) (chunks : List (List ℕ)) (fs : List Frame) (rx : Rx)
      → length fs ≤ fuel
      → All (IsWellFormed lib) fs
      → rx.last_packet_len ≡ 0
      → rx.fd ≡ some fd
      → rx.held ++ joined chunks ≡ stream lib fs
      → IsShort lib fs rx.held
      → (final : Rx) × (handle_reads lib (suc fuel) later chunks rx ≡ some (messages lib fs, final))
        × (final.held ≡ [])
  unfolding handle_reads stream
  handle_reads-stream fuel [] fs rx enough wf fresh opened left short =
      let held : rx.held ≡ stream lib fs = sym (append-nil rx.held) ∙ left in
      let none_left : fs ≡ [] = none_todo fs rx.held held short in
      (rx, ap (λ gs. some (messages lib gs, rx)) (sym none_left), held ∙ ap (stream lib) none_left)
  handle_reads-stream fuel (bs ∷ chunks) fs rx enough wf fresh opened left short =
      let r =
        handle_read-Reads lib differ later fd fuel fs bs rx (joined chunks) enough wf fresh opened
          left in
      let (final, rest, drained) =
        handle_reads-stream fuel chunks r.todo r.last
          (omega (arith, ap length r.split, length-append r.done r.todo))
          (All-split (IsWellFormed lib) r.done r.todo (rw r.split at wf)) r.ready r.open_still
          r.left r.short in
      let all : messages lib r.done ++ messages lib r.todo ≡ messages lib fs =
        sym (map-append _ r.done r.todo) ∙ ap (messages lib) (sym r.split) in
      (
        final,
        rw (r.returns, handle_reads) (rw (rest, handle_reads) (ap (λ ms. some (ms, final)) all)),
        drained,
      )

  -- Well-formed packets that come in reads of any sizes, cut at any places, are handed on by
  -- `handle_read` as the messages that they carry: all of them, each once and in order, and no byte
  -- is left in the buffer. This holds for a link that is open and has nothing in its buffer, if the
  -- start bytes of the two protocol versions differ; one round takes no more turns than there are
  -- packets, and one.
  pub handle_reads_lem :
      (chunks : List (List ℕ)) (fs : List Frame) (rx : Rx)
      → All (IsWellFormed lib) fs
      → rx.held ≡ []
      → rx.last_packet_len ≡ 0
      → rx.fd ≡ some fd
      → joined chunks ≡ stream lib fs
      → (final : Rx) × (handle_reads lib (suc (length fs)) later chunks rx
          ≡ some (messages lib fs, final))
        × (final.held ≡ [])
  handle_reads_lem chunks fs rx wf nothing_held fresh opened e =
      handle_reads-stream (length fs) chunks fs rx (omega arith) wf fresh opened
        (ap (λ held. held ++ joined chunks) nothing_held ∙ e) (short fs)
    where
      short : (gs : List Frame) → IsShort lib gs rx.held
      short [] = tt
      short (f ∷ gs) = omega (arith, ap length nothing_held, length-encode lib f)
