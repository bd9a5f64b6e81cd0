-- ===== src/Commands/Tests.antt =====
-- src/mainloop.cpp, `Mainloop::handle_command_pipe`: runs on two endpoints of one group, and a witness.
use mavlink_router.Prelude.{
  ℕ, ◌+◌, ◌*◌, ◌-◌, ◌/◌, ◌≡◌, refl, true, Option, none, some, List, [], ◌∷◌, map, arith, ltb, ◌==◌,
}
use mavlink_router.Text.{Bytes}
use mavlink_router.Conf.Values.{c_string, strtok}
use mavlink_router.Throttle.{RateOps}
use mavlink_router.Groups.Link.{Peer, same_text, link_group_member, unlink_group_member}
use mavlink_router.Commands.{
  Store, lines_of, add_endpoint, remove_endpoint, may_add, config_of, coalescing, filtering, named,
  erase_named, unlink, link_back, link_new, mode_of,
}
use mavlink_router.Commands.Pipe.{
  Outside, throttle_first, command, command_lines, handle_command_pipe,
}
use mavlink_router.Commands.Names.{peers, Distinct, Fresh}
use mavlink_router.Commands.Links.{Linked, group_of}
use mavlink_router.Commands.Invariant.{IsConsistent}
use mavlink_router.Commands.Kept.{handle_command_pipe_lem}

decimal : ℕ → Bytes → ℕ
decimal n [] = n
decimal n (c ∷ cs) = decimal (n * 10 + (c - b'0')) cs

abbrev whole_rates : RateOps ℕ
whole_rates = record {
  above_epsilon = λ r. ltb 0 r;
  below_epsilon = λ r. r == 0;
  period_usec = λ r. 1000000 / r;
}

abbrev outside : Outside ℕ
outside = record {
  atoi = decimal 0;
  atof = decimal 0;
  setup = λ conf. true;
  now = 0;
  rates = whole_rates;
}

abbrev peer : ℕ → ℕ → Peer
peer number name = record { number = number; name = name ∷ []; group = b'g' ∷ [] }

abbrev two_grouped : Store ℕ
two_grouped = record {
  endpoints =
      record { peer = peer 0 b'a'; members = peer 1 b'b' ∷ []; throttle = [] }
      ∷ record { peer = peer 1 b'b'; members = peer 0 b'a' ∷ []; throttle = [] }
      ∷ [];
  next = 2;
}

two_grouped-IsConsistent : IsConsistent two_grouped
unfolding Distinct Fresh Linked group_of peers same_text
two_grouped-IsConsistent = record {
  distinct = (refl, (refl, tt));
  fresh = (omega arith, (omega arith, tt));
  linked = (refl, (refl, tt));
}

-- `add udp c h 9 s g` and `remove a`, each on a line.
abbrev commands : Bytes
commands =
    b'a' ∷ b'd' ∷ b'd' ∷ b' ' ∷ b'u' ∷ b'd' ∷ b'p' ∷ b' ' ∷ b'c' ∷ b' ' ∷ b'h' ∷ b' ' ∷ b'9' ∷ b' '
    ∷ b's' ∷ b' ' ∷ b'g' ∷ 10 ∷ b'r' ∷ b'e' ∷ b'm' ∷ b'o' ∷ b'v' ∷ b'e' ∷ b' ' ∷ b'a' ∷ 10 ∷ []

handle_command_pipe_lem_example :
    (s : Store ℕ) × (handle_command_pipe outside commands two_grouped ≡ some s) × IsConsistent s
unfolding lines_of c_string strtok
handle_command_pipe_lem_example =
    handle_command_pipe_lem outside commands two_grouped (refl, (refl, tt)) two_grouped-IsConsistent

-- Whom each endpoint is linked with afterwards.
abbrev numbers : Option (Store ℕ) → List (ℕ × List ℕ)
numbers none = []
numbers (some s) = map (λ e. (e.peer.number, map (λ p. p.number) e.members)) s.endpoints

commands_run :
    numbers (handle_command_pipe outside commands two_grouped) ≡ (1, 2 ∷ []) ∷ (2, 1 ∷ []) ∷ []
unfolding handle_command_pipe command_lines command throttle_first lines_of c_string strtok decimal
    same_text add_endpoint remove_endpoint may_add config_of coalescing filtering named erase_named
    unlink link_back link_new link_group_member unlink_group_member mode_of
commands_run = refl

-- A command without its newline is lost.
half_a_command :
    handle_command_pipe outside
      (b'r' ∷ b'e' ∷ b'm' ∷ b'o' ∷ b'v' ∷ b'e' ∷ b' ' ∷ b'a' ∷ [])
      two_grouped
    ≡ some two_grouped
unfolding handle_command_pipe command_lines lines_of c_string
half_a_command = refl

-- A blank line has no word.
blank_line : handle_command_pipe outside (10 ∷ []) two_grouped ≡ none
unfolding handle_command_pipe command_lines command lines_of c_string strtok
blank_line = refl
