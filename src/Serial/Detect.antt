-- ===== src/Serial/Detect.antt =====
-- crates/mavlink-io/src/serial.rs: the search for a flight controller. The system lists the ports twice.
-- `opened` are the ports that the search opened, in order.
use hitl_daemon.Base.{ℕ, Bool, true, false, if◌then◌else◌, Option, none, some, List, [], ◌∷◌, ◌++◌}
use hitl_daemon.Serial.Probe.{Read, scan_for_heartbeat}
use hitl_daemon.Serial.Ports.{Listed, find_pixhawk_ports, candidate_probe_ports}

pub record DetectionOutcome : Type 0 where
  pub found : List (List ℕ)
  pub examined : List (List ℕ)
  pub adopted_by_probe : Bool
  pub bootloader : List (List ℕ)

-- `probed` is what a port that opens then reads until the deadline; `none` when it does not open.
pub record World : Type 0 where
  pub on_macos : Bool
  pub exists : List ℕ → Bool
  pub listed : Option (List Listed)
  pub listed_again : Option (List Listed)
  pub probed : List ℕ → Option (List Read)

abbrev pub is_heard : Option (List Read) → Bool
is_heard none = false
is_heard (some reads) = scan_for_heartbeat reads

module _ (w : World) where
  abbrev pub Detected : Type 0
  Detected = List (List ℕ) × DetectionOutcome

  -- The loop over the candidates.
  unfoldable pub probe_ports : List (List ℕ) → List (List ℕ) → List (List ℕ) → Detected
  probe_ports opened examined [] = (
    opened,
    record { found = []; examined = examined; adopted_by_probe = false; bootloader = [] },
  )
  probe_ports opened examined (port ∷ candidates) =
      let rest = probe_ports (opened ++ port ∷ []) (examined ++ port ∷ []) candidates in
      if is_heard (w.probed port)
      then (
        opened ++ port ∷ [],
        record {
          found = port ∷ [];
          examined = examined ++ port ∷ [];
          adopted_by_probe = true;
          bootloader = [];
        },
      )
      else rest

  -- What follows the scan by vendor, by the ports that are ready and those in their bootloader.
  abbrev pub after_scan : List (List ℕ) → List (List ℕ) → Detected
  after_scan (port ∷ ready) bootloader = (
    [],
    record {
      found = port ∷ ready;
      examined = (port ∷ ready) ++ bootloader;
      adopted_by_probe = false;
      bootloader = bootloader;
    },
  )
  after_scan [] (port ∷ bootloader) = (
    [],
    record {
      found = [];
      examined = port ∷ bootloader;
      adopted_by_probe = false;
      bootloader = port ∷ bootloader;
    },
  )
  after_scan [] [] = probe_ports [] [] (candidate_probe_ports w.on_macos w.exists w.listed_again)

  unfoldable pub detect_flight_controller : Detected
  detect_flight_controller =
      let scan = find_pixhawk_ports w.on_macos w.exists w.listed in
      after_scan scan.ready scan.bootloader
