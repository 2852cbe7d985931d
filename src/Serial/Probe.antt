-- ===== src/Serial/Probe.antt =====
-- crates/mavlink-io/src/serial.rs: the search of a byte stream for the header of a HEARTBEAT.
use hitl_daemon.Base.{
  ℕ, ◌-◌, Bool, true, false, ◌&&◌, ◌||◌, ◌==◌, ltb, if◌then◌else◌, Option, none, some, List, [],
  ◌∷◌, ◌++◌, length, drop, get_elem?,
}

abbrev mavlink_v1_magic : ℕ
mavlink_v1_magic = 254

abbrev mavlink_v2_magic : ℕ
mavlink_v2_magic = 253

abbrev pub is_zero : Option ℕ → Bool
is_zero none = false
is_zero (some b) = b == 0

-- One turn of the loop, at the first of these bytes.
unfoldable pub header_at : ℕ → List ℕ → Bool
header_at byte bytes =
    if byte == mavlink_v1_magic && ltb 5 (length bytes)
    then is_zero (get_elem? bytes 5)
    else if byte == mavlink_v2_magic && ltb 9 (length bytes)
    then is_zero (get_elem? bytes 7) && (is_zero (get_elem? bytes 8) && is_zero (get_elem? bytes 9))
    else false

unfoldable pub contains_heartbeat : List ℕ → Bool
contains_heartbeat [] = false
contains_heartbeat (byte ∷ bytes) = header_at byte (byte ∷ bytes) || contains_heartbeat bytes

-- What `read` returns in each turn before the deadline.
pub data Read : Type 0 where
  bytes : List ℕ → Read
  timed_out failed : Read

unfoldable pub drained : List ℕ → List ℕ
drained window = if ltb 4096 (length window) then drop (length window - 512) window else window

unfoldable pub scan_window : List ℕ → List Read → Bool
scan_window window [] = false
scan_window window (timed_out ∷ reads) = scan_window window reads
scan_window window (failed ∷ reads) = false
scan_window window (bytes [] ∷ reads) = scan_window window reads
scan_window window (bytes (b ∷ chunk) ∷ reads) =
    let longer = window ++ b ∷ chunk in
    let later = scan_window (drained longer) reads in
    if contains_heartbeat longer then true else later

unfoldable pub scan_for_heartbeat : List Read → Bool
scan_for_heartbeat = scan_window []
