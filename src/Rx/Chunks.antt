-- ===== src/Rx/Chunks.antt =====
-- src/endpoint.cpp, `Endpoint::handle_read` over `Endpoint::read_msg`: a stream of packets that comes
-- in reads of any sizes.
use mavlink_router.Prelude.{
  ℕ, zero, suc, ◌≤◌, ◌<◌, ◌≡◌, refl, ap, ◌∙◌, inl, inr, true, false, Option, none, some, List, [],
  ◌∷◌, ◌++◌, map, arith, ltb, ◌==◌, Bool-cases, length, get_or, drop, append_assoc,
  drop-length-append, append-split, append-eq-nil, All,
}
use mavlink_router.Message.{Mavlink, MsgEntry, Msg}
use mavlink_router.Rx.{
  Rx, Input, bytes, Outcome, idle, scan, fill, reads_more, read_open, read_msg, read_loop,
  take_turn,
}
use mavlink_router.Rx.Frames.{Frame, encode, encode-append, IsWellFormed}
use mavlink_router.Rx.Deliver.{carried, arrival, delivered}
use mavlink_router.Rx.Stream.{StartsDiffer, Waits, scan_empty, scan_partial, scan_whole}

-- The bytes of a row of packets.
unfoldable pub stream : Mavlink → List Frame → List ℕ
stream lib [] = []
stream lib (f ∷ fs) = encode lib f ++ stream lib fs

-- The messages that the packets carry.
abbrev pub messages : Mavlink → List Frame → List Msg
messages lib = map (λ f. carried lib (lib.get_msg_entry f.msgid) f)

-- Fewer bytes than the next packet has.
abbrev pub IsShort : Mavlink → List Frame → List ℕ → Type 0
IsShort lib [] held = Unit
IsShort lib (f ∷ fs) held = length held < length (encode lib f)

module _ (lib : Mavlink) where
  loop-idle :
      (fuel : ℕ) (input later : Input) (rx rx' : Rx)
      → read_msg lib input rx ≡ (idle, rx')
      → read_loop lib (suc fuel) input later rx ≡ some ([], idle, rx')
  unfolding read_loop
  loop-idle fuel input later rx rx' e = rw e

  loop-arrival :
      (fuel : ℕ) (input later : Input) (rx rx' last : Rx) (f : Frame) (entry : Option MsgEntry)
      (ms : List Msg)
      → read_msg lib input rx ≡ (arrival lib entry f, rx')
      → read_loop lib fuel later later rx' ≡ some (ms, idle, last)
      → read_loop lib (suc fuel) input later rx ≡ some (carried lib entry f ∷ ms, idle, last)
  unfolding read_loop
  loop-arrival fuel input later rx rx' last f none ms e rest =
      rw e (ap (take_turn (arrival lib none f) rx') rest)
  loop-arrival fuel input later rx rx' last f (some entry) ms e rest =
      rw e (ap (take_turn (arrival lib (some entry) f) rx') rest)

  read_msg-open :
      (input : Input) (rx : Rx) (fd : ℕ)
      → rx.fd ≡ some fd
      → read_msg lib input rx ≡ read_open lib input rx
  unfolding read_msg
  read_msg-open input rx fd e = ground arith

  -- What the next call looks at, once it has dropped the packet that the last one left.
  abbrev pub dropped : Rx → Rx
  dropped rx = record rx {
    held = drop rx.last_packet_len rx.held;
    stale = get_or rx.held 0 rx.stale;
    last_packet_len = 0;
  }

  -- After a delivery the next call does not read.
  read_msg_after :
      (later : Input) (rx : Rx) (fd size : ℕ)
      → rx.fd ≡ some fd
      → rx.last_packet_len ≡ suc size
      → read_msg lib later rx ≡ scan lib (dropped rx)
  unfolding read_open reads_more
  read_msg_after later rx fd size e left =
      let kept : (rx.last_packet_len == 0) ≡ false = ground arith in
      read_msg-open later rx fd e ∙ rw kept

-- What one round of `handle_read` does with the packets of which `future` is not read yet.
pub record Reads (lib : Mavlink) (fs : List Frame) (future : List ℕ) (fd : Option ℕ)
    (result : Option (List Msg × Outcome × Rx)) : Type 0 where
  pub done : List Frame
  pub todo : List Frame
  pub last : Rx
  pub split : fs ≡ done ++ todo
  pub returns : result ≡ some (messages lib done, idle, last)
  pub left : last.held ++ future ≡ stream lib todo
  pub short : IsShort lib todo last.held
  pub ready : last.last_packet_len ≡ 0
  pub open_still : last.fd ≡ fd

module _ (lib : Mavlink) (differ : StartsDiffer lib) (later : Input) (fd : ℕ) where
  abbrev Round : ℕ → Input → Rx → List Frame → List ℕ → Type 0
  Round fuel input rx fs future =
      Reads lib fs future (some fd) (read_loop lib (suc fuel) input later rx)

  same-IsShort :
      (fs : List Frame) (held held' : List ℕ)
      → held' ≡ held
      → IsShort lib fs held
      → IsShort lib fs held'
  same-IsShort [] held held' e s = tt
  same-IsShort (f ∷ fs) held held' e s = rw e s

  -- A round that begins with a delivery.
  Round-arrival :
      (fuel : ℕ) (f : Frame) (fs : List Frame) (input : Input) (rx rx' : Rx) (future : List ℕ)
      → read_msg lib input rx ≡ (arrival lib (lib.get_msg_entry f.msgid) f, rx')
      → Round fuel later rx' fs future
      → Round (suc fuel) input rx (f ∷ fs) future
  Round-arrival fuel f fs input rx rx' future e r = record {
    done = f ∷ r.done;
    todo = r.todo;
    last = r.last;
    split = ap (◌∷◌ f) r.split;
    returns =
        loop-arrival lib (suc fuel) input later rx rx' r.last f (lib.get_msg_entry f.msgid)
          (messages lib r.done) e r.returns;
    left = r.left;
    short = r.short;
    ready = r.ready;
    open_still = r.open_still;
  }

  Round-Waits :
      (fuel : ℕ) (input : Input) (rx at : Rx) (fs : List Frame) (future : List ℕ)
      → read_msg lib input rx ≡ scan lib at
      → Waits lib differ at (scan lib at)
      → at.last_packet_len ≡ 0
      → at.fd ≡ some fd
      → at.held ++ future ≡ stream lib fs
      → IsShort lib fs at.held
      → Round fuel input rx fs future
  Round-Waits fuel input rx at fs future e w fresh opened left short = record {
    done = [];
    todo = fs;
    last = (scan lib at).1;
    split = refl;
    returns = loop-idle lib fuel input later rx (scan lib at).1 (e ∙ ground arith);
    left = rw w.same left;
    short = same-IsShort fs at.held (scan lib at).1.held w.same short;
    ready = w.none_left ∙ fresh;
    open_still = w.open_still ∙ opened;
  }

  -- One round of reading: it hands on the packets that are there as a whole, and keeps the rest.
  Round-Reads :
      (fuel : ℕ) (fs : List Frame) (input : Input) (rx at : Rx) (future : List ℕ)
      → length fs ≤ fuel
      → All (IsWellFormed lib) fs
      → read_msg lib input rx ≡ scan lib at
      → at.last_packet_len ≡ 0
      → at.fd ≡ some fd
      → at.held ++ future ≡ stream lib fs
      → Round fuel input rx fs future
  unfolding stream
  Round-Reads fuel [] input rx at future enough wf e fresh opened left =
      Round-Waits fuel input rx at [] future e
        (scan_empty lib differ at (append-eq-nil at.held future left)) fresh opened left tt
  Round-Reads zero (f ∷ fs) input rx at future enough wf e fresh opened left = absurd (omega arith)
  Round-Reads (suc fuel) (f ∷ fs) input rx at future enough wf e fresh opened left =
      elim (Bool-cases (ltb (length at.held) (length (encode lib f)))) [
        | inl part ↦
            Round-Waits (suc fuel) input rx at (f ∷ fs) future e
              (scan_partial lib differ f at at.held future (stream lib fs) wf.0 refl
                (left ∙ encode-append lib f (stream lib fs)) (ground arith))
              fresh opened left (ground arith)
        | inr whole ↦
            let (ws, p, q) =
              append-split (encode lib f) (stream lib fs) at.held future left (ground arith) in
            let at' = delivered lib (length (encode lib f)) f at in
            let kept : (dropped lib at').held ≡ ws =
              ap (drop (length (encode lib f))) p ∙ drop-length-append (encode lib f) ws in
            Round-arrival fuel f fs input rx at' future (e ∙ scan_whole lib differ f at ws wf.0 p) (
              Round-Reads fuel fs later at' (dropped lib at') future (omega arith) wf.1
                (read_msg_after lib later at' fd _ opened refl) refl opened
                (ap (λ held. held ++ future) kept ∙ q))
      ]

  -- A call of `handle_read` that reads `bs`.
  pub handle_read-Reads :
      (fuel : ℕ) (fs : List Frame) (bs : List ℕ) (rx : Rx) (future : List ℕ)
      → length fs ≤ fuel
      → All (IsWellFormed lib) fs
      → rx.last_packet_len ≡ 0
      → rx.fd ≡ some fd
      → rx.held ++ (bs ++ future) ≡ stream lib fs
      → Round fuel (bytes bs) rx fs future
  unfolding read_open reads_more fill
  handle_read-Reads fuel fs bs rx future enough wf fresh opened left =
      let reads : (rx.last_packet_len == 0) ≡ true = ground arith in
      Round-Reads fuel fs (bytes bs) rx (record rx { held = rx.held ++ bs }) future enough wf
        (read_msg-open lib (bytes bs) rx fd opened ∙ rw reads) fresh opened
        (append_assoc rx.held bs future ∙ left)
