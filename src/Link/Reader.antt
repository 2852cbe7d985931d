-- ===== src/Link/Reader.antt =====
-- The reader of crates/mavlink-io/src/async_io.rs: bytes from the serial port become messages. The
-- parser of the mavlink crate is given: a message of type `M` with the bytes that it took.
use hitl_daemon.Base.{
  ℕ, zero, suc, Bool, true, false, not, ◌&&◌, ◌||◌, ◌+◌, ◌*◌, ◌/◌, ◌%◌, ◌^◌, min, ltb, leb, ◌==◌,
  if◌then◌else◌, Option, none, some, List, [], ◌∷◌, ◌++◌, length, take, drop,
}

abbrev pub mavlink_v2_stx : ℕ
mavlink_v2_stx = 253

abbrev pub max_parse_buffer_size : ℕ
max_parse_buffer_size = 8192

abbrev pub starts_with_stx : List ℕ → Bool
starts_with_stx [] = false
starts_with_stx (b ∷ buffer) = b == mavlink_v2_stx

-- From the first start byte on; nothing when there is none.
unfoldable pub from_stx : List ℕ → List ℕ
from_stx [] = []
from_stx (b ∷ buffer) = elim (b == mavlink_v2_stx) [ true ↦ b ∷ buffer | false ↦ from_stx buffer ]

unfoldable pub drain_to_next_frame : Bool → List ℕ → List ℕ
drain_to_next_frame skip_first buffer =
    if skip_first || not (starts_with_stx buffer) then from_stx (drop 1 buffer) else from_stx buffer

-- `NshResponseData`, and what the reader takes from a `SERIAL_CONTROL` message.
pub record NshResponseData : Type 0 where
  pub bytes : List ℕ
  pub complete : Bool

pub record SerialControl : Type 0 where
  pub count : ℕ
  pub bytes : List ℕ

pub record Reader (M : Type 0) : Type 0 where
  pub parse_buffer : List ℕ
  pub packets_received : ℕ
  pub parse_successes : ℕ
  pub parse_failures : ℕ
  pub nsh : List NshResponseData
  pub messages : List M

abbrev pub nsh_response : Option SerialControl → List NshResponseData
nsh_response none = []
nsh_response (some sc) =
    let bytes = take (min sc.count 70) sc.bytes in
    if not (length bytes == 0) || sc.count == 0
    then record { bytes = bytes; complete = sc.count == 0 } ∷ []
    else []

module _ {M : Type 0} (read_v2_msg : List ℕ → Option (M × ℕ))
    (serial_control : M → Option SerialControl) where
  unfoldable pub try_parse_message : List ℕ → Option (M × ℕ)
  try_parse_message buffer = if ltb (length buffer) 8 then none else read_v2_msg buffer

  -- A message goes to the application, and to the shell when it is for it.
  abbrev pub hand_over : M → Reader M → Reader M
  hand_over m s = record s {
    packets_received = (s.packets_received + 1) % 2 ^ 32;
    parse_successes = (s.parse_successes + 1) % 2 ^ 64;
    nsh = s.nsh ++ nsh_response (serial_control m);
    messages = s.messages ++ (m ∷ []);
  }

  -- The one drain of the `parsed` bytes at the front.
  abbrev pub retire : ℕ → Reader M → Reader M
  retire parsed s = record s { parse_buffer = drop parsed s.parse_buffer }

  -- Where no message can be parsed: the bytes that begin no frame are dropped.
  unfoldable pub resync : Reader M → Reader M
  resync s =
      if leb 8 (length s.parse_buffer) && not (starts_with_stx s.parse_buffer)
      then record s {
        parse_buffer = drain_to_next_frame true s.parse_buffer;
        parse_failures = (s.parse_failures + 1) % 2 ^ 64;
      }
      else s

  abbrev pub after_attempt : (ℕ → Reader M → Reader M) → ℕ → Option (M × ℕ) → Reader M → Reader M
  after_attempt continue parsed none s = resync (retire parsed s)
  after_attempt continue parsed (some (m, consumed)) s =
      continue (parsed + consumed) (hand_over m s)

  -- The loop over the messages of the buffer, behind the `parsed` bytes of those before. A message
  -- takes at least one byte, so that the length of the buffer is enough fuel.
  unfoldable pub parse_from : (fuel parsed : ℕ) → Reader M → Reader M
  parse_from zero parsed s = retire parsed s
  parse_from (suc fuel) parsed s =
      after_attempt (parse_from fuel) parsed (try_parse_message (drop parsed s.parse_buffer)) s

  abbrev pub bounded : Reader M → Reader M
  bounded s =
      if ltb max_parse_buffer_size (length s.parse_buffer)
      then record s {
        parse_buffer = drain_to_next_frame false s.parse_buffer;
        parse_failures = (s.parse_failures + 1) % 2 ^ 64;
      }
      else s

  -- What a read of `n > 0` bytes does.
  unfoldable pub on_read : Reader M → List ℕ → Reader M
  on_read s chunk =
      let held = bounded (record s { parse_buffer = s.parse_buffer ++ chunk }) in
      parse_from (suc (length held.parse_buffer)) 0 held

  unfoldable pub read_all : Reader M → List (List ℕ) → Reader M
  read_all s [] = s
  read_all s (chunk ∷ chunks) = read_all (on_read s chunk) chunks

-- `link_quality_percent`, for counts whose sum is not over `u64`.
unfoldable pub link_quality_percent : (successes failures : ℕ) → ℕ
link_quality_percent successes failures =
    if successes + failures == 0 then 100 else min (successes * 100 / (successes + failures)) 100
