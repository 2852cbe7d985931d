-- ===== src/Server/FeedLaws.antt =====
-- The cadence of the terrain requests.
use hitl_daemon.Base.{
  ◌-◌, ◌<◌, Bool, true, false, leb, ◌≡◌, ◌⊎◌, inl, inr, refl, if◌then◌else◌, Option, none, some,
  List, [], ◌∷◌, arith, Bool-cases,
}
use hitl_daemon.Terrain.Geo.{TileCoord}
use hitl_daemon.Server.Feed.{
  terrain_need_interval, terrain_need_idle_interval, terrain_need_backoff_after, pong_timeout,
  Source, Recv, received, lagged, closed, Event, need_tick, state_update, response, broadcast,
  ping_tick, aborted, Frame, same_coords, Feed, start, Turn, quiet, sends, ends, repeated, need,
  close_source, on_broadcast, turn, after, run,
}

-- At the full rate fewer than six requests in a row went unanswered.
abbrev pub Paced : Feed → Type 0
Paced f =
    ((f.interval ≡ terrain_need_interval) × (f.unanswered < terrain_need_backoff_after))
    ⊎ (f.interval ≡ terrain_need_idle_interval)

repeated-Paced : (f : Feed) → Paced f → Paced (repeated f)
unfolding repeated
repeated-Paced f (inl (a, b)) = ground (arith, a, b)
repeated-Paced f (inr a) = ground (arith, a)

need-Paced : (coords : List TileCoord) (f : Feed) → Paced f → Paced (need coords f)
unfolding need
need-Paced coords f k = elim (Bool-cases (same_coords coords f.last_need)) [
  | inl p ↦ rw p (repeated-Paced f k)
  | inr p ↦ rw p (elim k [ inl (a, b) ↦ inl (a, omega arith) | inr a ↦ inr a ])
]

module _ (M : Type 0) where
  -- A predicate of the state that every turn keeps is kept by the loop.
  module _ (P : Feed → Type 0) where
    abbrev OnTurn : Turn M → Type 0
    OnTurn (quiet f) = P f
    OnTurn (sends frame f) = P f
    OnTurn ends = Unit {0}

    abbrev pub OnState : Option Feed → Type 0
    OnState none = Unit {0}
    OnState (some f) = P f

    after-OnState :
        (t : Turn M) (accepts : Bool) (sent : List (Frame M))
        → OnTurn t
        → OnState (after M t accepts sent).1
    after-OnState (quiet f) accepts sent k = k
    after-OnState (sends frame f) true sent k = k
    after-OnState (sends frame f) false sent k = tt
    after-OnState ends accepts sent k = tt

    run-OnState :
        ((event : Event M) (f : Feed) → P f → OnTurn (turn M event f))
        → (events : List (Event M × Bool)) (sent : List (Frame M)) (o : Option Feed) → OnState o
        → OnState (run M events (sent, o)).1
    unfolding run
    run-OnState keeps [] sent o k = k
    run-OnState keeps (event ∷ events) sent none k = run-OnState keeps events sent none k
    run-OnState keeps ((event, accepts) ∷ events) sent (some f) k =
        let t = after M (turn M event f) accepts sent in
        run-OnState keeps events t.0 t.1
          (after-OnState (turn M event f) accepts sent (keeps event f k))

  on_broadcast-OnTurn :
      (P : Feed → Type 0) (source : Source) (r : Recv M) (f : Feed)
      → P f
      → P (close_source source f)
      → OnTurn P (on_broadcast M source r f)
  on_broadcast-OnTurn P source (received m) f a b = a
  on_broadcast-OnTurn P source lagged f a b = a
  on_broadcast-OnTurn P source closed f a b = b

  OnTurn-if :
      (P : Feed → Type 0) (t : Bool) (x y : Turn M)
      → OnTurn P x
      → OnTurn P y
      → OnTurn P (if t then x else y)
  OnTurn-if P true x y a b = a
  OnTurn-if P false x y a b = b

  turn-Paced : (event : Event M) (f : Feed) → Paced f → OnTurn Paced (turn M event f)
  unfolding turn
  turn-Paced (need_tick none) f k = k
  turn-Paced (need_tick (some [])) f k = inl (refl, omega arith)
  turn-Paced (need_tick (some (coord ∷ coords))) f k = need-Paced (coord ∷ coords) f k
  turn-Paced (state_update (received m)) f k = k
  turn-Paced (state_update lagged) f k = k
  turn-Paced (state_update closed) f k = tt
  turn-Paced (response m) f k = k
  turn-Paced (broadcast source r) f k =
      OnTurn-if Paced (f.open_source source) (on_broadcast M source r f) (quiet f)
        (on_broadcast-OnTurn Paced source r f k k) k
  turn-Paced (ping_tick now last) f k =
      OnTurn-if Paced (leb pong_timeout (now - last)) ends (sends Frame.ping f) tt k
  turn-Paced aborted f k = tt

  pub run-Paced :
      (available : Source → Bool) (events : List (Event M × Bool))
      → OnState Paced (run M events ([], some (start available))).1
  unfolding start
  run-Paced available events =
      run-OnState Paced turn-Paced events [] (some (start available)) (inl (refl, omega arith))
