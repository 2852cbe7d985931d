-- ===== src/Link/Drain.antt =====
-- The loop of the reader in crates/mavlink-io/src/async_io.rs against one that drains the buffer
-- after each message.
use hitl_daemon.Base.{
  ℕ, zero, suc, ◌+◌, ◌≡◌, refl, ap, ◌∙◌, Option, none, some, List, ◌++◌, length, drop, drop-add,
}
use hitl_daemon.Link.Reader.{
  SerialControl, Reader, try_parse_message, hand_over, retire, resync, after_attempt, parse_from,
  bounded, on_read,
}

module _ {M : Type 0} (read_v2_msg : List ℕ → Option (M × ℕ))
    (serial_control : M → Option SerialControl) where
  -- A message that was parsed and the bytes that it took.
  abbrev pub deliver : M → ℕ → Reader M → Reader M
  deliver m consumed s = record (hand_over read_v2_msg serial_control m s) {
    parse_buffer = drop consumed s.parse_buffer;
  }

  abbrev pub after_parse : (Reader M → Reader M) → Option (M × ℕ) → Reader M → Reader M
  after_parse continue none s = resync read_v2_msg serial_control s
  after_parse continue (some (m, consumed)) s = continue (deliver m consumed s)

  unfoldable pub parse_messages : ℕ → Reader M → Reader M
  parse_messages zero s = s
  parse_messages (suc fuel) s =
      after_parse (parse_messages fuel)
        (try_parse_message read_v2_msg serial_control s.parse_buffer) s

  unfoldable pub read_drained : Reader M → List ℕ → Reader M
  read_drained s chunk =
      let held =
        bounded read_v2_msg serial_control (record s { parse_buffer = s.parse_buffer ++ chunk }) in
      parse_messages (suc (length held.parse_buffer)) held

  after_attempt-same :
      (fuel parsed : ℕ) (o : Option (M × ℕ)) (s : Reader M)
      → ((n : ℕ) (t : Reader M)
          → parse_from read_v2_msg serial_control fuel n t
            ≡ parse_messages fuel (retire read_v2_msg serial_control n t))
      → after_attempt read_v2_msg serial_control
          (parse_from read_v2_msg serial_control fuel)
          parsed
          o
          s
        ≡ after_parse (parse_messages fuel) o (retire read_v2_msg serial_control parsed s)
  after_attempt-same fuel parsed none s ih = refl
  after_attempt-same fuel parsed (some (m, consumed)) s ih =
      ih (parsed + consumed) (hand_over read_v2_msg serial_control m s)
      ∙ ap
          (λ b.
            parse_messages fuel
              (record (hand_over read_v2_msg serial_control m s) { parse_buffer = b }))
          (drop-add parsed consumed s.parse_buffer)

  -- Draining once at the end leaves what draining after each message leaves.
  parse_from-same :
      (fuel parsed : ℕ) (s : Reader M)
      → parse_from read_v2_msg serial_control fuel parsed s
        ≡ parse_messages fuel (retire read_v2_msg serial_control parsed s)
  unfolding parse_from parse_messages
  parse_from-same zero parsed s = refl
  parse_from-same (suc fuel) parsed s =
      after_attempt-same fuel parsed
        (try_parse_message read_v2_msg serial_control (drop parsed s.parse_buffer)) s
        (parse_from-same fuel)

  -- A read that goes through the buffer by an offset and drains it once at the end does what one
  -- that drains the buffer after every message does, for any parser.
  pub on_read-drained :
      (s : Reader M) (chunk : List ℕ)
      → on_read read_v2_msg serial_control s chunk ≡ read_drained s chunk
  unfolding on_read read_drained
  on_read-drained s chunk =
      let held =
        bounded read_v2_msg serial_control (record s { parse_buffer = s.parse_buffer ++ chunk }) in
      parse_from-same (suc (length held.parse_buffer)) 0 held
