-- ===== src/Server/Ends.antt =====
-- When the task that sends to a client ends.
use hitl_daemon.Base.{
  ℕ, ◌+◌, ◌-◌, Bool, true, false, not, ◌&&◌, ◌||◌, leb, ◌≡◌, refl, ap, ◌∙◌, if◌then◌else◌, Option,
  none, some, List, [], ◌∷◌, arith, Bool-cases, inl, inr,
}
use hitl_daemon.Terrain.Geo.{TileCoord}
use hitl_daemon.Server.Feed.{
  pong_timeout, Source, is_same, Recv, received, lagged, closed, Event, need_tick, state_update,
  response, broadcast, ping_tick, aborted, Frame, Feed, quiet, sends, ends, same_coords, repeated,
  need, on_broadcast, turn, Sent, after, run,
}

need-open_source :
    (coords : List TileCoord) (f : Feed) → (need coords f).open_source ≡ f.open_source
unfolding need repeated
need-open_source coords f = elim (Bool-cases (same_coords coords f.last_need)) [
  | inl p ↦ rw p refl
  | inr p ↦ rw p refl
]

module _ (M : Type 0) where
  -- The event has a frame for the client, given the broadcasts that are open.
  abbrev offers : (Source → Bool) → Event M → Bool
  offers open_source (need_tick (some (coord ∷ coords))) = true
  offers open_source (state_update (received m)) = true
  offers open_source (response m) = true
  offers open_source (broadcast source (received m)) = open_source source
  offers open_source (ping_tick now last) = true
  offers open_source event = false

  abbrev is_last : (Source → Bool) → Event M → Bool → Bool
  is_last open_source (state_update closed) accepts = true
  is_last open_source aborted accepts = true
  is_last open_source (ping_tick now last) accepts = leb (last + pong_timeout) now || not accepts
  is_last open_source event accepts = offers open_source event && not accepts

  abbrev open_after : (Source → Bool) → Event M → Source → Bool
  open_after open_source (broadcast source closed) =
      if open_source source
      then (λ other. if is_same source other then false else open_source other)
      else open_source
  open_after open_source event = open_source

  -- One of the events ends the task; each comes with whether the socket takes a frame.
  abbrev pub ends_within : (Source → Bool) → List (Event M × Bool) → Bool
  ends_within open_source [] = false
  ends_within open_source ((event, accepts) ∷ events) =
      is_last open_source event accepts || ends_within (open_after open_source event) events

  abbrev pub has_ended : Option Feed → Bool
  has_ended none = true
  has_ended (some f) = false

  abbrev OneTurn : Event M → Bool → Feed → Option Feed → Type 0
  OneTurn event accepts f none = is_last f.open_source event accepts ≡ true
  OneTurn event accepts f (some g) =
      (is_last f.open_source event accepts ≡ false)
      × (g.open_source ≡ open_after f.open_source event)

  broadcast-OneTurn :
      (source : Source) (r : Recv M) (accepts : Bool) (f : Feed) (t : Bool) (sent : List (Frame M))
      → f.open_source source ≡ t
      → OneTurn
          (broadcast source r)
          accepts
          f
          (after M (if t then on_broadcast M source r f else quiet f) accepts sent).1
  broadcast-OneTurn source (received m) true f true sent q = (rw q refl, refl)
  broadcast-OneTurn source (received m) false f true sent q = rw q refl
  broadcast-OneTurn source lagged accepts f true sent q = (refl, refl)
  broadcast-OneTurn source closed accepts f true sent q = (refl, rw q refl)
  broadcast-OneTurn source (received m) accepts f false sent q = (rw q refl, refl)
  broadcast-OneTurn source lagged accepts f false sent q = (refl, refl)
  broadcast-OneTurn source closed accepts f false sent q = (refl, rw q refl)

  ping-OneTurn :
      (now last : ℕ) (accepts : Bool) (f : Feed) (t : Bool) (sent : List (Frame M))
      → leb pong_timeout (now - last) ≡ t
      → OneTurn
          (ping_tick now last)
          accepts
          f
          (after M (if t then ends else sends Frame.ping f) accepts sent).1
  ping-OneTurn now last accepts f true sent q = ground (arith, q)
  ping-OneTurn now last true f false sent q = (ground (arith, q), refl)
  ping-OneTurn now last false f false sent q = ground arith

  turn-OneTurn :
      (event : Event M) (accepts : Bool) (f : Feed) (sent : List (Frame M))
      → OneTurn event accepts f (after M (turn M event f) accepts sent).1
  unfolding turn
  turn-OneTurn (need_tick none) accepts f sent = (refl, refl)
  turn-OneTurn (need_tick (some [])) accepts f sent = (refl, refl)
  turn-OneTurn (need_tick (some (coord ∷ coords))) true f sent =
      (refl, need-open_source (coord ∷ coords) f)
  turn-OneTurn (need_tick (some (coord ∷ coords))) false f sent = refl
  turn-OneTurn (state_update (received m)) true f sent = (refl, refl)
  turn-OneTurn (state_update (received m)) false f sent = refl
  turn-OneTurn (state_update lagged) accepts f sent = (refl, refl)
  turn-OneTurn (state_update closed) accepts f sent = refl
  turn-OneTurn (response m) true f sent = (refl, refl)
  turn-OneTurn (response m) false f sent = refl
  turn-OneTurn (broadcast source r) accepts f sent =
      broadcast-OneTurn source r accepts f (f.open_source source) sent refl
  turn-OneTurn (ping_tick now last) accepts f sent = ping-OneTurn now last accepts f _ sent refl
  turn-OneTurn aborted accepts f sent = refl

  ended_stays :
      (events : List (Event M × Bool)) (sent : List (Frame M))
      → (run M events (sent, none)).1 ≡ none
  unfolding run
  ended_stays [] sent = refl
  ended_stays (event ∷ events) sent = ended_stays events sent

  after-ends_within :
      (event : Event M) (accepts : Bool) (f : Feed) (events : List (Event M × Bool)) (t : Sent M)
      → OneTurn event accepts f t.1
      → ((sent : List (Frame M)) (g : Feed)
          → has_ended (run M events (sent, some g)).1 ≡ ends_within g.open_source events)
      → has_ended (run M events t).1 ≡ ends_within f.open_source ((event, accepts) ∷ events)
  after-ends_within event accepts f events (sent, none) k ih =
      rw k (ap has_ended (ended_stays events sent))
  after-ends_within event accepts f events (sent, some g) (k, q) ih =
      rw k (ih sent g ∙ ap (λ o. ends_within o events) q)

  -- The task that sends to a client has ended exactly if among its events is the end of the state
  -- updates, the abort when the client's frames end, a ping that finds the client silent for 15 s
  -- or more, or a frame that the socket refuses: a request for terrain that lacks something, a
  -- state update, a response, a message of a broadcast that is still open, or a ping.
  pub run-ends_within :
      (events : List (Event M × Bool)) (sent : List (Frame M)) (f : Feed)
      → has_ended (run M events (sent, some f)).1 ≡ ends_within f.open_source events
  unfolding run
  run-ends_within [] sent f = refl
  run-ends_within ((event, accepts) ∷ events) sent f =
      after-ends_within event accepts f events (after M (turn M event f) accepts sent)
        (turn-OneTurn event accepts f sent) (run-ends_within events)
