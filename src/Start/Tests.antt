-- ===== src/Start/Tests.antt =====
-- src/mainloop.cpp, `Mainloop::add_endpoints`: runs and witnesses.
use mavlink_router.Prelude.{ℕ, refl, true, [], ◌∷◌}
use mavlink_router.Groups.Link.{same_text}
use mavlink_router.Start.{Configured, add_endpoints}
use mavlink_router.Start.Linked.{AllDiffer}
use mavlink_router.Start.Logs.{Started, nothing, add_endpoints_lem}

abbrev line : Configured ℕ
line = record { name = b'u' ∷ []; group = b'g' ∷ []; ready = true; throttle = [] }

abbrev socket : Configured ℕ
socket = record { name = b's' ∷ []; group = b'g' ∷ []; ready = true; throttle = [] }

add_endpoints_lem_example :
    Started
      (line ∷ socket ∷ [])
      ((b'l' ∷ []) ∷ [])
      (add_endpoints (line ∷ []) (socket ∷ []) [] ((b'l' ∷ []) ∷ []) nothing)
unfolding AllDiffer same_text
add_endpoints_lem_example =
    add_endpoints_lem (line ∷ []) (socket ∷ []) [] ((b'l' ∷ []) ∷ []) (refl, (refl, (refl, tt)))
