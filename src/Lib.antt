-- ===== src/Lib.antt =====
-- A model of hitl-daemon, the process between a PX4 flight controller, a simulation loop and a
-- browser, and the theorems about it.
--
-- The simulation loop (crates/simulation) reads the wall clock, lets a planner decide how many
-- physics steps to run, and grades every statistics window. The verdicts reach the log through a
-- reporter, the pilot through an annunciator (src/timebase_cli.rs), and the arming gate through the
-- published statistics (crates/protocol). The MAVLink side (crates/mavlink-io) makes messages of
-- the bytes of a serial port. The WebSocket side (crates/websocket) decodes the browser's frames,
-- asks the gate before it forwards a command that begins a flight, hands terrain to the cache of
-- crates/terrain, and provisions the flight controller: it reads and hands off a restore point,
-- writes parameters, saves, reboots and verifies. A build that the browser chose is pushed to the
-- flight controller, to the origin and to the simulation loop; it and a reset of the vehicle share
-- the session with the flight controller, restart its estimator and wait until it can arm.
--
-- - Timebase: `Timebase` of crates/simulation/src/timebase.rs. `decide`, `apply` and `plan` are the
--   methods of these names; `run` calls `plan` for a list of wall readings. u64 and u32 saturate as
--   written; the signed drift is left out.
-- - Health, Verdict: `Health`, `timebase_health` and `WindowSample::verdict` of the same file, the
--   floating-point operations a parameter (Base.Floats).
-- - Stats, Gate, Session: `SimulationStats` of crates/protocol/src/lib.rs,
--   `stats_after_reconfigure` and `roll_up_timebase_window` of
--   crates/simulation/src/loop_runner.rs, `timebase_arming_gate` of
--   crates/websocket/src/preflight.rs and `annunciation` of src/timebase_cli.rs. A session is a
--   list of events: an iteration, the end of a window, a reconfiguration. The message counters that
--   an iteration also moves are those of Emission.
-- - Emission: `sample_and_send_sensors`, `ground_override` and `impact_active` of loop_runner.rs. The
--   fresh readings, the outcome of each `try_send` and the clock are inputs of an iteration, and a
--   message holds the readings it is built of.
-- - Cadence, Reporter, Annunciator, Wake: the tick rates, the log throttle, the overlay policy and
--   the lateness figures of loop_runner.rs and timebase_cli.rs. Time is an argument.
-- - Vehicle: crates/simulation/src/state.rs with one constructor for each access that writes, and
--   `process_actuator_commands`; physics, battery and sensors, whose crates stand outside the
--   repository, are a parameter.
-- - Realtime: crates/simulation/src/realtime.rs and the check of loop_runner.rs that calls it; what
--   the platform reads of the contract is an input.
-- - Provision: the part of preflight.rs that writes to the board, with param_io.rs and snapshot.rs.
--   An operation extends a history of effects (messages tried, sleeps, broadcasts, the hand-off,
--   the reboot). What the queues, the board, the browser and the clock answer is any function of
--   the history (`Env`). The broadcast of a final result, which nothing waits for, is left out.
--   Check is `check`, Cycle holds the writes and the save-reboot-verify cycle, Reads the parameter
--   reads, Handler `apply`, Restore `restore`; Answers, Written and Rebooted tie what a read, a
--   write and a reboot return to the histories of the queues.
-- - Link: `HeartbeatManager` of crates/mavlink-io/src/heartbeat.rs, which no other code of the
--   repository calls; the instant is an argument.
--   Link.Reader is the reader task of async_io.rs from a read on: `on_read` takes the bytes of one
--   read, `read_all` those of a list of reads. The parser of the mavlink crate is a parameter; a
--   receiver that hangs up, which ends the task, is left out. Link.Drain holds the simpler loop that it
--   is compared with.
-- - Protocol: the frames of crates/websocket/src/protocol.rs in both directions, over lists of
--   bytes: State the state update, Commands, Nsh, Messages (the small frames to the browser), Tiles
--   the terrain frame, Outgoing and Incoming the two dispatches. A text is its UTF-8 bytes, a float
--   its bit pattern; the bodies in JSON are a parameter (`Decoders`, `to_vec`).
-- - Handler: `ConnectionHandler` of crates/websocket/src/handler.rs. Rate is its rate limit, Command
--   and Shell its two handlers of commands, Ingress its case for terrain frames. The queues keep
--   what was sent; the comparison of `f32` and the trimming of texts are parameters.
-- - Terrain: `TerrainCache` of crates/terrain/src/lib.rs, with its map as a list of keys and values
--   without repetition. The operations of `f64` are a parameter without laws (`Real`), so that what
--   is proved does not rest on them. Geo is its geography, Cache what changes it, Reads what it
--   reports, Keyed and Ranked the map and the sort that it uses. The distances of an eviction wrap
--   around as `i64` does in a release build, where a debug build panics. A batch that read the origin
--   before another call moved it is an operation of its own.
-- - Board: the session with the flight controller. Monitor is crates/simulation/src/px4_health.rs;
--   Nsh, Ready, Session and Reset are nsh_await.rs, px4_ready.rs, fc_session.rs and vehicle_reset.rs
--   of crates/websocket/src. A flow extends a history of what it sent; the shell's queue, its
--   replies, the clock and the monitor are functions of it (`Env`). The readiness wait is a list of
--   turns, each with the monitor and the clock, and has no answer while the list has none.
-- - Build: `BuildConfigHandler` of crates/websocket/src/build_config.rs. Push is
--   `push_pids_and_verify` over the histories of Provision, Location the location of a request and
--   `anchor_origin`, Handler `handle` with `apply`, Repush `repush_if_configured`. What a request
--   computes to is an input of the flow, since the catalogue is on the network and the physics in a
--   library; Catalogue holds what the figures of a build come from and which are disclosed as
--   estimates.
-- - Serial: crates/mavlink-io/src/serial.rs. Ports classifies the listed ports, Probe searches a
--   stream for the header of a heartbeat, Detect is `detect_flight_controller` with the ports it
--   opens; Candidates is about the ports that may be opened.
-- - Server: the task of crates/websocket/src/server.rs that sends to one client. Feed has one event
--   for each branch of its `select!` and one for the abort by `handle_socket`; a missing broadcast
--   is a closed one. FeedLaws is about the terrain requests, Ends about what ends the task.
-- - Update: src/update.rs. Versions is the order of versions and the hash check, Install the swap of
--   the binaries over three files, with the outcome of each call of the system given.
--
-- Loops are recursions on what the source counts: attempts, pending messages, a receiver's
-- deliveries up to its timeout. Only the wait for a reconnect runs on fuel: 241 polls of 250 ms, the
-- first and the last of 60 s: 240 sleeps, each at least as long as asked, pass the deadline.
-- The reader runs on as many messages as the buffer has bytes, and the cut of a frame into tiles on
-- its length: each takes a byte at least.
--
-- Not modelled: the listener and the receive task of the WebSocket server, the opening of serial
-- ports, the writer task, the downloads of the updater and of the terrain packer, the terminal
-- interface and the calls of the operating system's schedulers, which are I/O; the encoding of
-- MAVLink and of JSON, which is the work of libraries; the sampling of terrain heights, the physics
-- sub-steps and the rest of the assembly of a build, which are floating-point arithmetic and an
-- outside library's. Texts are constructors with the whole numbers they quote; log lines are left
-- out, but for those about dropped messages.
pub mod Base
pub mod Timebase
pub mod Health
pub mod Stats
pub mod Gate
pub mod Session
pub mod Emission
pub mod Cadence
pub mod Reporter
pub mod Annunciator
pub mod Verdict
pub mod Wake
pub mod Vehicle
pub mod Realtime
pub mod Protocol
pub mod Terrain
pub mod Handler
pub mod Update
pub mod Board
pub mod Build
pub mod Provision
pub mod Link
pub mod Serial
pub mod Server
