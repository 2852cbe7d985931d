-- ===== src/Server/Feed.antt =====
-- crates/websocket/src/server.rs: the task that sends to one client. Each turn of its `select!` is an
-- event, with whether the socket took the frame. `M` are the encoded messages.
use hitl_daemon.Base.{
  ℕ, ◌-◌, Bool, true, false, ◌&&◌, ◌==◌, leb, if◌then◌else◌, Option, none, some, List, [], ◌∷◌,
  ◌++◌, saturating_add_u32,
}
use hitl_daemon.Terrain.Geo.{TileCoord, same_coord}

-- The intervals in milliseconds, the timeout in seconds.
abbrev pub terrain_need_interval : ℕ
terrain_need_interval = 500

abbrev pub terrain_need_idle_interval : ℕ
terrain_need_idle_interval = 5000

abbrev pub terrain_need_backoff_after : ℕ
terrain_need_backoff_after = 6

abbrev pub pong_timeout : ℕ
pong_timeout = 15

-- The broadcasts that the task goes on without once they close.
pub data Source : Type 0 where
  nsh_responses conn_status vehicle_messages terrain_origins provisioning system_config : Source

abbrev pub is_same : Source → Source → Bool
is_same nsh_responses nsh_responses = true
is_same conn_status conn_status = true
is_same vehicle_messages vehicle_messages = true
is_same terrain_origins terrain_origins = true
is_same provisioning provisioning = true
is_same system_config system_config = true
is_same a b = false

pub data Recv (M : Type 0) : Type 0 where
  received : M → Recv M
  lagged closed : Recv M

-- `need_tick` has what the cache lacks, `none` without a cache; `ping_tick` has the clock and the time
-- of the client's last frame, in seconds; `aborted` is the end of the loop that receives, at which
-- `handle_socket` aborts the task.
pub data Event (M : Type 0) : Type 0 where
  need_tick : Option (List TileCoord) → Event M
  state_update : Recv M → Event M
  response : M → Event M
  broadcast : Source → Recv M → Event M
  ping_tick : ℕ → ℕ → Event M
  aborted : Event M

pub data Frame (M : Type 0) : Type 0 where
  message : M → Frame M
  terrain_need : List TileCoord → Frame M
  ping : Frame M

-- `==` of two lists of coordinates.
unfoldable pub same_coords : List TileCoord → List TileCoord → Bool
same_coords [] [] = true
same_coords [] (b ∷ bs) = false
same_coords (a ∷ as_) [] = false
same_coords (a ∷ as_) (b ∷ bs) = same_coord a b && same_coords as_ bs

-- The state of the task; `interval` is the period of the terrain ticker.
pub record Feed : Type 0 where
  pub unanswered : ℕ
  pub last_need : List TileCoord
  pub interval : ℕ
  pub open_source : Source → Bool

unfoldable pub start : (Source → Bool) → Feed
start available = record {
  unanswered = 0;
  last_need = [];
  interval = terrain_need_interval;
  open_source = available;
}

-- The state after a turn, and the frame it puts on the socket.
pub data Turn (M : Type 0) : Type 0 where
  -- Nothing to send.
  quiet : Feed → Turn M
  -- A frame; when the socket refuses it, the task ends.
  sends : Frame M → Feed → Turn M
  -- The task ends.
  ends : Turn M

-- The same set again, once more unanswered.
unfoldable pub repeated : Feed → Feed
repeated f =
    let unanswered = saturating_add_u32 f.unanswered 1 in
    record f {
      unanswered = unanswered;
      interval =
          if unanswered == terrain_need_backoff_after
          then terrain_need_idle_interval
          else f.interval;
    }

unfoldable pub need : List TileCoord → Feed → Feed
need coords f =
    if same_coords coords f.last_need
    then repeated f
    else record f { unanswered = 0; last_need = coords }

abbrev pub settled : Feed → Feed
settled f = record f { unanswered = 0; last_need = []; interval = terrain_need_interval }

abbrev pub close_source : Source → Feed → Feed
close_source source f = record f {
  open_source = λ other. if is_same source other then false else f.open_source other;
}

module _ (M : Type 0) where
  abbrev pub on_broadcast : Source → Recv M → Feed → Turn M
  on_broadcast source (received m) f = sends (message m) f
  on_broadcast source lagged f = quiet f
  on_broadcast source closed f = quiet (close_source source f)

  -- What `handle_socket` does to the task once the client's frames end.
  abbrev on_abort : Turn M
  on_abort = ends

  -- A closed source has no events.
  unfoldable pub turn : Event M → Feed → Turn M
  turn (need_tick none) f = quiet f
  turn (need_tick (some [])) f = quiet (settled f)
  turn (need_tick (some (coord ∷ coords))) f =
      sends (terrain_need (coord ∷ coords)) (need (coord ∷ coords) f)
  turn (state_update (received m)) f = sends (message m) f
  turn (state_update lagged) f = quiet f
  turn (state_update closed) f = ends
  turn (response m) f = sends (message m) f
  turn (broadcast source r) f = if f.open_source source then on_broadcast source r f else quiet f
  turn (ping_tick now last) f = if leb pong_timeout (now - last) then ends else sends ping f
  turn aborted f = on_abort

  -- What was sent, and the state, or none when the task has ended.
  abbrev pub Sent : Type 0
  Sent = List (Frame M) × Option Feed

  abbrev pub after : Turn M → Bool → List (Frame M) → Sent
  after (quiet f) accepts sent = (sent, some f)
  after (sends frame f) true sent = (sent ++ frame ∷ [], some f)
  after (sends frame f) false sent = (sent, none)
  after ends accepts sent = (sent, none)

  abbrev pub step : Event M × Bool → Sent → Sent
  step event (sent, none) = (sent, none)
  step (event, accepts) (sent, some f) = after (turn event f) accepts sent

  -- The loop over the events, each with whether the socket takes a frame.
  unfoldable pub run : List (Event M × Bool) → Sent → Sent
  run [] s = s
  run (event ∷ events) s = run events (step event s)
