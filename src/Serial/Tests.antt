-- ===== src/Serial/Tests.antt =====
-- A heartbeat cut by two reads, a desk with a booting board and a console, and the theorems at them.
use hitl_daemon.Base.{true, ◌≡◌, refl, none, some, List, [], ◌∷◌}
use hitl_daemon.Serial.Probe.{
  Read, bytes, timed_out, scan_window, scan_for_heartbeat, contains_heartbeat, header_at, drained,
}
use hitl_daemon.Serial.ProbeLaws.{stream, scan_for_heartbeat-stream}
use hitl_daemon.Serial.Ports.{Listed, usb_port, other_port}
use hitl_daemon.Serial.Detect.{World, detect_flight_controller}
use hitl_daemon.Serial.Outcome.{Outcome, detect_flight_controller-Outcome}

-- The header of version 1 in two halves, with a time-out between them.
abbrev halves : List Read
halves = bytes (7 ∷ 254 ∷ 9 ∷ []) ∷ timed_out ∷ bytes (1 ∷ 1 ∷ 1 ∷ 0 ∷ 42 ∷ []) ∷ []

scan_for_heartbeat-stream_example : scan_for_heartbeat halves ≡ contains_heartbeat (stream halves)
scan_for_heartbeat-stream_example = scan_for_heartbeat-stream halves

heard : scan_for_heartbeat halves ≡ true
unfolding scan_for_heartbeat scan_window contains_heartbeat header_at drained
heard = refl

-- "px4 bl" on "a", an unknown vendor on "b", and "SOC".
abbrev desk : List Listed
desk =
    usb_port
      (record { name = 97 ∷ []; vid = 1; product = some (112 ∷ 120 ∷ 52 ∷ 32 ∷ 98 ∷ 108 ∷ []) })
    ∷ other_port (99 ∷ [])
    ∷ usb_port (record { name = 83 ∷ 79 ∷ 67 ∷ []; vid = 1; product = none })
    ∷ usb_port (record { name = 98 ∷ []; vid = 1; product = none })
    ∷ []

abbrev world : World
world = record {
  on_macos = true;
  exists = λ path. true;
  listed = some desk;
  listed_again = some desk;
  probed = λ port. some halves;
}

detect_flight_controller-Outcome_example : Outcome world (detect_flight_controller world)
detect_flight_controller-Outcome_example = detect_flight_controller-Outcome world
