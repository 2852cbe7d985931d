-- ===== src/Server/Tests.antt =====
-- A client whose browser answers no request for terrain, and the theorems at it.
use hitl_daemon.Base.{ℕ, Bool, true, ◌≡◌, some, List, [], ◌∷◌}
use hitl_daemon.Terrain.Geo.{TileCoord}
use hitl_daemon.Server.Feed.{
  received, closed, nsh_responses, Event, need_tick, state_update, broadcast, ping_tick, Feed, run,
  terrain_need_idle_interval,
}
use hitl_daemon.Server.Ends.{ends_within, has_ended, run-ends_within}

abbrev tile : ℕ → TileCoord
tile x = record { x = x; y = 0; z = 14 }

abbrev lacking : ℕ → Event ℕ × Bool
lacking x = (need_tick (some (tile x ∷ [])), true)

-- The ticks of a stuck browser, a closed source, a ping in time and one that is too late.
abbrev events : List (Event ℕ × Bool)
events =
    lacking 1
    ∷ lacking 1
    ∷ lacking 1
    ∷ (broadcast nsh_responses closed, true)
    ∷ (state_update (received 9), true)
    ∷ (ping_tick 20 6, true)
    ∷ lacking 2
    ∷ (ping_tick 21 6, true)
    ∷ []

abbrev idle : Feed
idle = record {
  unanswered = 7;
  last_need = tile 1 ∷ [];
  interval = terrain_need_idle_interval;
  open_source = λ source. true;
}

run-ends_within_example :
    has_ended ℕ (run ℕ events ([], some idle)).1 ≡ ends_within ℕ idle.open_source events
run-ends_within_example = run-ends_within ℕ events [] idle
