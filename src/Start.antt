-- ===== src/Start.antt =====
-- src/mainloop.cpp, `Mainloop::add_endpoints`: the endpoints that the router starts with.
pub mod Linked
pub mod Logs
mod Tests
use mavlink_router.Prelude.{
  ℕ, ◌+◌, Bool, Option, none, some, List, [], ◌∷◌, ◌++◌, map, if◌then◌else◌,
}
use mavlink_router.Text.{Bytes}
use mavlink_router.Throttle.{ThrottleMap}
use mavlink_router.Groups.Link.{Peer, link_endpoint}
use mavlink_router.Commands.{Entry, Store}
use mavlink_router.Commands.Names.{peers}

-- A configuration of an endpoint: its name and its group, what `setup` returns for it, and the rates
-- that it then has.
pub record Configured (Rate : Type 0) : Type 0 where
  pub name : Bytes
  pub group : Bytes
  pub ready : Bool
  pub throttle : ThrottleMap Rate

module _ {Rate : Type 0} where
  -- The three loops that create the endpoints: `none` if `setup` fails.
  pub create_each : List (Configured Rate) → Store Rate → Option (Store Rate)
  create_each [] s = some s
  create_each (c ∷ cs) s =
      let new : Entry Rate = record {
        peer = record { number = s.next; name = c.name; group = c.group };
        members = [];
        throttle = c.throttle;
      } in
      let rest =
        create_each cs (record { endpoints = s.endpoints ++ (new ∷ []); next = s.next + 1 }) in
      if c.ready then rest else none

  -- The loops that link the endpoints of a group.
  pub link_entry : List Peer → Entry Rate → Entry Rate
  link_entry ps e = record e { members = link_endpoint e.peer ps e.members }

  pub link_all : Store Rate → Store Rate
  link_all s = record s { endpoints = map (link_entry (peers s.endpoints)) s.endpoints }

  -- A log is an endpoint without a group.
  pub append_log : Bytes → Store Rate → Store Rate
  append_log name s = record {
    endpoints =
        s.endpoints
        ++ (record {
          peer = record { number = s.next; name = name; group = [] };
          members = [];
          throttle = [];
        }
            ∷ []);
    next = s.next + 1;
  }

  pub append_logs : List Bytes → Store Rate → Store Rate
  append_logs [] s = s
  append_logs (name ∷ names) s = append_logs names (append_log name s)

  -- `add_endpoints`, for the configurations of the serial, UDP and TCP endpoints and the names of the logs.
  pub add_endpoints :
      List (Configured Rate)
      → List (Configured Rate)
      → List (Configured Rate)
      → List Bytes
      → Store Rate
      → Option (Store Rate)
  add_endpoints uarts udps tcps logs s = elim (create_each (uarts ++ (udps ++ tcps)) s) [
    | none ↦ none
    | some created ↦ some (append_logs logs (link_all created))
  ]
