-- ===== src/Link/Tests.antt =====
-- A link that goes quiet, and the theorem at it.
use hitl_daemon.Base.{
  ℕ, ◌+◌, ◌<◌, ◌≡◌, ◌⊎◌, refl, ap, true, false, ltb, ◌==◌, if◌then◌else◌, Option, none, some, List,
  [], ◌∷◌, ◌++◌, length, length-append, arith,
}
use hitl_daemon.Link.{
  disconnected, armed, new, on_heartbeat_received, check_timeout, is_disconnected, Event, heartbeat,
  check, step, run,
}
use hitl_daemon.Link.Reader.{SerialControl, Reader, on_read, read_all}
use hitl_daemon.Link.Chunking.{IsFrame, read_all-messages}
use hitl_daemon.Link.Drain.{read_drained, on_read-drained}
use hitl_daemon.Link.Liveness.{IsLive, run-IsLive}

abbrev beats : List Event
beats = heartbeat 1 1 false 1000000000 ∷ check 2000000000 ∷ heartbeat 1 1 true 3000000000 ∷ []

-- Armed while the heartbeats come, and disconnected once they are more than 5 s old.
quiet :
    ((check_timeout (run new beats) 8000000000).0.state ≡ armed)
    × ((check_timeout (run new beats) 8000000001).0.state ≡ disconnected)
unfolding check_timeout run step on_heartbeat_received new is_disconnected
quiet = (refl, refl)

run-IsLive_example :
    ((check_timeout (run new beats) 4000000000).0.state ≡ disconnected)
    ⊎ IsLive (check_timeout (run new beats) 4000000000).0 4000000000
run-IsLive_example = run-IsLive beats 4000000000

-- The first byte.
abbrev byte_of : List ℕ → ℕ
byte_of [] = 0
byte_of (b ∷ bytes) = b

-- A parser of frames of eight bytes, whose message is the second one.
abbrev read_eight : List ℕ → Option (ℕ × ℕ)
read_eight [] = none
read_eight (b ∷ buffer) =
    if ltb (length buffer) 7 then none else if b == 253 then some (byte_of buffer, 8) else none

abbrev no_serial : ℕ → Option SerialControl
no_serial m = none

abbrev frame_of : ℕ → List ℕ
frame_of m = 253 ∷ m ∷ 0 ∷ 0 ∷ 0 ∷ 0 ∷ 0 ∷ 0 ∷ []

read_eight-waits : (m : ℕ) (p q : List ℕ) → frame_of m ≡ p ++ q → 0 < length q → read_eight p ≡ none
read_eight-waits m [] q e more = refl
read_eight-waits m (b ∷ p) q e more =
    let len : length p + length q ≡ 7 = omega (arith, ap length e, length-append p q) in
    ground (arith, len)

frame_of-IsFrame : (m : ℕ) → IsFrame read_eight no_serial (frame_of m) m
frame_of-IsFrame m = record {
  starts = refl;
  long = omega arith;
  short = omega arith;
  parses = λ rest. ground arith;
  waits = read_eight-waits m;
}

abbrev fresh : Reader ℕ
fresh = record {
  parse_buffer = [];
  packets_received = 0;
  parse_successes = 0;
  parse_failures = 0;
  nsh = [];
  messages = [];
}

-- Two frames that come in three reads.
abbrev chunks : List (List ℕ)
chunks = (253 ∷ 7 ∷ 0 ∷ []) ∷ (0 ∷ 0 ∷ 0 ∷ 0 ∷ 0 ∷ 253 ∷ []) ∷ (8 ∷ 0 ∷ 0 ∷ 0 ∷ 0 ∷ 0 ∷ 0 ∷ []) ∷ []

read_all-messages_example :
    ((read_all read_eight no_serial fresh chunks).messages ≡ 7 ∷ 8 ∷ [])
    × ((read_all read_eight no_serial fresh chunks).parse_buffer ≡ [])
read_all-messages_example =
    read_all-messages read_eight no_serial fresh chunks ((frame_of 7, 7) ∷ (frame_of 8, 8) ∷ [])
      refl (frame_of-IsFrame 7, (frame_of-IsFrame 8, tt))
      (omega arith, (omega arith, (omega arith, tt))) refl

on_read-drained_example :
    on_read read_eight no_serial fresh (frame_of 7 ++ frame_of 8)
    ≡ read_drained read_eight no_serial fresh (frame_of 7 ++ frame_of 8)
on_read-drained_example = on_read-drained read_eight no_serial fresh (frame_of 7 ++ frame_of 8)

-- A parser that refuses everything.
abbrev refuses_all : List ℕ → Option (ℕ × ℕ)
refuses_all buffer = none
