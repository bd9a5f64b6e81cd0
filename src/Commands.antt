-- ===== src/Commands.antt =====
-- src/mainloop.cpp, `Mainloop::handle_command_pipe` and `parse_into_vector`: the commands that add and remove
-- endpoints and set the rate of a message. What the C library makes of a number is a parameter: `atoi`
-- and `atol` give the 32 low bits of the result.
pub mod Pipe
pub mod Names
pub mod Links
pub mod Invariant
pub mod Removal
pub mod Kept
mod Tests
use mavlink_router.Prelude.{
  ℕ, ◌+◌, ◌-◌, ◌%◌, ◌^◌, Bool, ◌&&◌, ◌||◌, not, List, [], ◌∷◌, ◌++◌, map, leb, ◌==◌, if◌then◌else◌,
  length, get_or, any,
}
use mavlink_router.Text.{Bytes}
use mavlink_router.Throttle.{ThrottleMap, is_empty}
use mavlink_router.Filter.{Filters, no_filters}
use mavlink_router.Groups.Link.{Peer, same_text, link_group_member, unlink_group_member}

-- `UdpEndpointConfig::Mode`
pub data Mode : Type 0 where
  undefined server client receiver : Mode

-- The fields of `UdpEndpointConfig` that a command sets.
pub record UdpConfig : Type 0 where
  pub name : Bytes
  pub address : Bytes
  pub port : ℕ
  pub mode : Mode
  pub filters : Filters
  pub group : Bytes
  pub coalesce_bytes : ℕ
  pub coalesce_ms : ℕ
  pub coalesce_nodelay : List ℕ

-- An endpoint, with `_group_members`.
pub record Entry (Rate : Type 0) : Type 0 where
  pub peer : Peer
  pub members : List Peer
  pub throttle : ThrottleMap Rate

-- `g_endpoints`, and a number that no endpoint has had.
pub record Store (Rate : Type 0) : Type 0 where
  pub endpoints : List (Entry Rate)
  pub next : ℕ

-- The lines of a text that end in a newline; what follows the last newline is lost.
pub lines_of : Bytes → List Bytes
lines_of [] = []
lines_of (c ∷ cs) = elim (lines_of cs) [
  | [] ↦ if c == 10 then [] ∷ [] else []
  | line ∷ lines ↦ if c == 10 then [] ∷ line ∷ lines else (c ∷ line) ∷ lines
]

-- `std::getline` up to a comma, for all of a text: no token follows a comma at the end.
pub comma_tokens : Bytes → List Bytes
comma_tokens [] = []
comma_tokens (c ∷ cs) = elim (comma_tokens cs) [
  | [] ↦ if c == b',' then [] ∷ [] else (c ∷ []) ∷ []
  | token ∷ tokens ↦ if c == b',' then [] ∷ token ∷ tokens else (c ∷ token) ∷ tokens
]

-- `a[i]`, for an index inside the vector.
abbrev pub word : List Bytes → ℕ → Bytes
word a i = get_or a i []

-- `(unsigned long)i` of an `int`.
pub widen : ℕ → ℕ
widen i = if leb (2 ^ 31) i then i + (2 ^ 64 - 2 ^ 32) else i

-- `port <= 0`
abbrev pub is_not_positive : ℕ → Bool
is_not_positive i = i == 0 || leb (2 ^ 31) i

abbrev pub null_word : Bytes
null_word = b'N' ∷ b'U' ∷ b'L' ∷ b'L' ∷ []

-- The mode of an `add` command; any other word stands for the mode `Client`.
pub mode_of : Bytes → Mode
mode_of w =
    if any (same_text w) (
      (b's' ∷ b'e' ∷ b'r' ∷ b'v' ∷ b'e' ∷ b'r' ∷ [])
      ∷ (b'S' ∷ b'e' ∷ b'r' ∷ b'v' ∷ b'e' ∷ b'r' ∷ [])
      ∷ (b'e' ∷ b'a' ∷ b'v' ∷ b'e' ∷ b's' ∷ b'd' ∷ b'r' ∷ b'o' ∷ b'p' ∷ b'p' ∷ b'i' ∷ b'n' ∷ b'g'
          ∷ [])
      ∷ (b'E' ∷ b'a' ∷ b'v' ∷ b'e' ∷ b's' ∷ b'd' ∷ b'r' ∷ b'o' ∷ b'p' ∷ b'p' ∷ b'i' ∷ b'n' ∷ b'g'
          ∷ [])
      ∷ [])
    then server
    else if any (same_text w) (
        (b'r' ∷ b'e' ∷ b'c' ∷ b'e' ∷ b'i' ∷ b'v' ∷ b'e' ∷ b'r' ∷ [])
        ∷ (b'R' ∷ b'e' ∷ b'c' ∷ b'e' ∷ b'i' ∷ b'v' ∷ b'e' ∷ b'r' ∷ [])
        ∷ [])
    then receiver
    else client

-- `find_if` by name
unfoldable pub named : {Rate : Type 0} → Bytes → Entry Rate → Bool
named name e = same_text e.peer.name name

-- `g_endpoints.erase` of the first endpoint with a name.
pub erase_named : {Rate : Type 0} → Bytes → List (Entry Rate) → List (Entry Rate)
erase_named name [] = []
erase_named name (e ∷ es) = let rest = erase_named name es in if named name e then es else e ∷ rest

pub unlink : {Rate : Type 0} → Bytes → Entry Rate → Entry Rate
unlink name e = record e { members = unlink_group_member name e.members }

-- The loop that links a new endpoint and the others of its group, for the endpoints in front of it.
pub link_back : {Rate : Type 0} → Peer → Entry Rate → Entry Rate
link_back new e =
    if same_text e.peer.group new.group
    then record e { members = link_group_member e.peer new e.members }
    else e

pub link_new : {Rate : Type 0} → Peer → List (Entry Rate) → List Peer → List Peer
link_new new [] members = members
link_new new (e ∷ es) members =
    let linked = link_new new es (link_group_member new e.peer members) in
    let same = link_new new es members in if same_text e.peer.group new.group then linked else same

-- The end of the `add` command.
unfoldable pub add_endpoint : {Rate : Type 0} → UdpConfig → Store Rate → Store Rate
add_endpoint conf s =
    let new : Peer = record { number = s.next; name = conf.name; group = conf.group } in
    record {
      endpoints =
          if is_empty conf.group
          then s.endpoints ++ (record { peer = new; members = []; throttle = [] } ∷ [])
          else map (link_back new) s.endpoints
            ++ (record { peer = new; members = link_new new s.endpoints []; throttle = [] } ∷ []);
      next = s.next + 1;
    }

-- The `remove` command
pub remove_endpoint : {Rate : Type 0} → Bytes → Store Rate → Store Rate
remove_endpoint name s = record s { endpoints = erase_named name (map (unlink name) s.endpoints) }

module _ (atoi : Bytes → ℕ) where
  -- `parse_into_vector`, into a vector of words of so many bits that is empty.
  pub parse_into_vector : ℕ → Bytes → List ℕ
  parse_into_vector bits command =
      if same_text command null_word
      then []
      else map (λ token. atoi token % 2 ^ bits) (comma_tokens command)

  pub coalescing : List Bytes → UdpConfig → UdpConfig
  coalescing a conf =
      if leb 8 (length a)
      then record conf {
        coalesce_bytes = if same_text (word a 7) null_word then 0 else widen (atoi (word a 7));
        coalesce_ms = if same_text (word a 8) null_word then 0 else widen (atoi (word a 8));
        coalesce_nodelay = parse_into_vector 32 (word a 9);
      }
      else conf

  -- Both lists that read `a[14]` do so in the source.
  pub filtering : List Bytes → UdpConfig → UdpConfig
  filtering a conf =
      if leb 11 (length a)
      then record conf {
        filters = record {
          allowed_outgoing_msg_ids = parse_into_vector 32 (word a 10);
          blocked_outgoing_msg_ids = parse_into_vector 32 (word a 11);
          allowed_outgoing_src_comps = parse_into_vector 8 (word a 12);
          blocked_outgoing_src_comps = parse_into_vector 8 (word a 14);
          allowed_outgoing_src_systems = parse_into_vector 8 (word a 14);
          blocked_outgoing_src_systems = parse_into_vector 8 (word a 15);
          allowed_incoming_msg_ids = parse_into_vector 32 (word a 16);
          blocked_incoming_msg_ids = parse_into_vector 32 (word a 17);
          allowed_incoming_src_comps = parse_into_vector 8 (word a 18);
          blocked_incoming_src_comps = parse_into_vector 8 (word a 19);
          allowed_incoming_src_systems = parse_into_vector 8 (word a 20);
          blocked_incoming_src_systems = parse_into_vector 8 (word a 21);
        };
      }
      else conf

  -- The configuration that an `add` command stands for.
  pub config_of : List Bytes → UdpConfig
  config_of a =
      let group =
        if leb 7 (length a) && not (same_text (word a 6) null_word) then word a 6 else [] in
      filtering a (
        coalescing a (record {
          name = word a 2;
          address = word a 3;
          port = atoi (word a 4);
          mode = mode_of (word a 5);
          filters = no_filters;
          group = group;
          coalesce_bytes = 0;
          coalesce_ms = 0;
          coalesce_nodelay = [];
        }))

  -- The checks of the `add` command. What `UdpEndpoint::setup` returns is `setup`.
  pub may_add : {Rate : Type 0} → (UdpConfig → Bool) → List Bytes → Store Rate → Bool
  may_add setup a s =
      let n = length a in
      (n == 6 || n == 7 || n == 10 || n == 22)
      && same_text (word a 1) (b'u' ∷ b'd' ∷ b'p' ∷ [])
      && not (is_not_positive (atoi (word a 4)))
      && not (any (named (word a 2)) s.endpoints)
      && setup (config_of a)
