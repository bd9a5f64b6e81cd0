-- ===== src/Commands/Pipe.antt =====
-- src/mainloop.cpp, `Mainloop::handle_command_pipe`: the commands of one read, each in turn.
use mavlink_router.Prelude.{
  ℕ, ◌%◌, ◌^◌, Bool, Option, none, some, List, [], ◌∷◌, ◌==◌, if◌then◌else◌, length,
}
use mavlink_router.Text.{Bytes}
use mavlink_router.Conf.Values.{c_string, strtok}
use mavlink_router.Throttle.{RateOps, set_message_throttling}
use mavlink_router.Groups.Link.{same_text}
use mavlink_router.Commands.{
  UdpConfig, Entry, Store, lines_of, word, named, add_endpoint, remove_endpoint, config_of, may_add,
}

-- What the commands need: `atoi` and `atol`, with the low 32 bits; `atof`; what `setup` of the endpoint
-- returns; the clock; and the arithmetic of rates.
pub record Outside (Rate : Type 0) : Type 0 where
  pub atoi : Bytes → ℕ
  pub atof : Bytes → Rate
  pub setup : UdpConfig → Bool
  pub now : ℕ
  pub rates : RateOps Rate

abbrev pub add_word : Bytes
add_word = b'a' ∷ b'd' ∷ b'd' ∷ []

abbrev pub remove_word : Bytes
remove_word = b'r' ∷ b'e' ∷ b'm' ∷ b'o' ∷ b'v' ∷ b'e' ∷ []

abbrev pub throttle_word : Bytes
throttle_word = b't' ∷ b'h' ∷ b'r' ∷ b'o' ∷ b't' ∷ b't' ∷ b'l' ∷ b'e' ∷ []

module _ {Rate : Type 0} (o : Outside Rate) where
  -- The `throttle` command, for the first endpoint with the name.
  unfoldable pub throttle_first : List Bytes → List (Entry Rate) → List (Entry Rate)
  throttle_first a [] = []
  throttle_first a (e ∷ es) =
      let rest = throttle_first a es in
      if named (word a 1) e
      then record e {
        throttle =
            set_message_throttling o.rates o.now (o.atoi (word a 2) % 2 ^ 32) (o.atof (word a 3))
              e.throttle;
      }
        ∷ es
      else e ∷ rest

  -- A command, by its words; a line without a word reads `a[0]` of an empty vector, for which `none`
  -- stands.
  unfoldable pub command : List Bytes → Store Rate → Option (Store Rate)
  command [] s = none
  command (verb ∷ more) s =
      let a = verb ∷ more in
      some (
        if same_text verb add_word
        then (if may_add o.atoi o.setup a s then add_endpoint (config_of o.atoi a) s else s)
        else if same_text verb remove_word
        then (if length a == 2 then remove_endpoint (word a 1) s else s)
        else if same_text verb throttle_word
        then (if length a == 4 then record s { endpoints = throttle_first a s.endpoints } else s)
        else s)

  unfoldable pub command_lines : List Bytes → Store Rate → Option (Store Rate)
  command_lines [] s = some s
  command_lines (line ∷ lines) s = elim (command (strtok b' ' line) s) [
    | none ↦ none
    | some s' ↦ command_lines lines s'
  ]

  -- What was read is a C string.
  unfoldable pub handle_command_pipe : Bytes → Store Rate → Option (Store Rate)
  handle_command_pipe bytes s = command_lines (lines_of (c_string bytes)) s
