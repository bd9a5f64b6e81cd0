-- ===== src/Rx/Frames.antt =====
-- src/endpoint.cpp, `Endpoint::read_msg`, on a packet that a sender has laid out in the MAVLink 1 or 2
-- wire format of src/endpoint.h.
use Prim.Native.Nat.{bit_and}
use mavlink_router.Prelude.{
  ℕ, ◌+◌, ◌*◌, ◌/◌, ◌%◌, ◌≡◌, refl, Bool, true, false, some, List, [], ◌∷◌, ◌++◌, arith, ◌==◌,
  if◌then◌else◌, length, length-append, append_assoc, get_or-append_right,
}
use mavlink_router.Message.{Mavlink, byte, MsgEntry}
use mavlink_router.Rx.{Header, header_size, header}

-- A packet before it is laid out.
pub record Frame : Type 0 where
  pub mavlink2 : Bool
  pub incompat_flags : ℕ
  pub compat_flags : ℕ
  pub seq : ℕ
  pub sysid : ℕ
  pub compid : ℕ
  pub msgid : ℕ
  pub payload : List ℕ
  pub crc_lo : ℕ
  pub crc_hi : ℕ
  pub signature : List ℕ

module _ (lib : Mavlink) where
  -- The header without its start byte, which the checksum covers.
  abbrev pub covered_header : Bool → Frame → List ℕ
  covered_header true f =
      length f.payload
      ∷ f.incompat_flags
      ∷ f.compat_flags
      ∷ f.seq
      ∷ f.sysid
      ∷ f.compid
      ∷ (f.msgid % 256)
      ∷ (f.msgid / 256 % 256)
      ∷ (f.msgid / 65536)
      ∷ []
  covered_header false f = length f.payload ∷ f.seq ∷ f.sysid ∷ f.compid ∷ f.msgid ∷ []

  abbrev pub start_byte : Bool → ℕ
  start_byte true = lib.stx
  start_byte false = lib.stx_mavlink1

  -- The packet, with `rest` behind it.
  abbrev pub laid_out : Bool → Frame → List ℕ → List ℕ
  laid_out mavlink2 f rest =
      start_byte mavlink2
      ∷ (covered_header mavlink2 f ++ (f.payload ++ (f.crc_lo ∷ f.crc_hi ∷ (f.signature ++ rest))))

  abbrev pub encode : Frame → List ℕ
  encode f = laid_out f.mavlink2 f []

  laid_out-append :
      (b : Bool) (f : Frame) (xs ys : List ℕ) → laid_out b f xs ++ ys ≡ laid_out b f (xs ++ ys)
  laid_out-append true f xs ys = simp append_assoc
  laid_out-append false f xs ys = simp append_assoc

  pub encode-append : (f : Frame) (rest : List ℕ) → encode f ++ rest ≡ laid_out f.mavlink2 f rest
  encode-append f rest = laid_out-append f.mavlink2 f [] rest

  abbrev pub signature_size : Bool → Frame → ℕ
  signature_size true f =
      if bit_and f.incompat_flags lib.iflag_signed == 0 then 0 else lib.signature_block_len
  signature_size false f = 0

  -- The packet is signed as its flags say, and its checksum is the library's, where the library
  -- knows the message.
  pub record IsWellFormed (f : Frame) : Type 0 where
    pub signed : length f.signature ≡ signature_size f.mavlink2 f
    pub checksum :
        (entry : MsgEntry)
        → lib.get_msg_entry f.msgid ≡ some entry
        → lib.crc_accumulate entry.crc_extra
            (lib.crc_calculate (covered_header f.mavlink2 f ++ f.payload))
          ≡ f.crc_lo + 256 * f.crc_hi

  pub length-laid_out :
      (b : Bool) (f : Frame) (rest : List ℕ)
      → length (laid_out b f rest)
        ≡ header_size b + length f.payload + 2 + length f.signature + length rest
  length-laid_out true f rest = omega (
    arith,
    length-append f.payload (f.crc_lo ∷ f.crc_hi ∷ (f.signature ++ rest)),
    length-append f.signature rest,
  )
  length-laid_out false f rest = omega (
    arith,
    length-append f.payload (f.crc_lo ∷ f.crc_hi ∷ (f.signature ++ rest)),
    length-append f.signature rest,
  )

  pub length-encode :
      (f : Frame)
      → length (encode f) ≡ header_size f.mavlink2 + length f.payload + 2 + length f.signature
  length-encode f = omega (arith, length-laid_out f.mavlink2 f [])

  -- What the header of a laid-out packet says.
  abbrev pub frame_header : Bool → Frame → Header
  frame_header b f = record {
    size = header_size b;
    payload_len = length f.payload;
    seq = f.seq;
    sysid = f.sysid;
    compid = f.compid;
    msgid = f.msgid;
    expected_size = header_size b + length f.payload + 2 + signature_size b f;
  }

  -- The header is read off the first bytes, whatever stands behind them.
  pub header-start_byte :
      (b : Bool) (f : Frame) (tail : List ℕ)
      → header lib b (start_byte b ∷ (covered_header b f ++ tail)) ≡ frame_header b f
  unfolding header
  header-start_byte true f tail = ground arith
  header-start_byte false f tail = ground arith

  pub header-laid_out :
      (b : Bool) (f : Frame) (rest : List ℕ) → header lib b (laid_out b f rest) ≡ frame_header b f
  header-laid_out b f rest = header-start_byte b f _

  -- The payload of a laid-out packet.
  pub byte-laid_out :
      (b : Bool) (f : Frame) (rest : List ℕ) (i : ℕ)
      → byte (laid_out b f rest) (header_size b + i)
        ≡ byte (f.payload ++ (f.crc_lo ∷ f.crc_hi ∷ (f.signature ++ rest))) i
  byte-laid_out true f rest i =
      get_or-append_right (lib.stx ∷ covered_header true f) _ i (10 + i) 0 refl
  byte-laid_out false f rest i =
      get_or-append_right (lib.stx_mavlink1 ∷ covered_header false f) _ i (6 + i) 0 refl
