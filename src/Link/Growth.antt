-- ===== src/Link/Growth.antt =====
-- What the guard on the size of the parse buffer does.
use hitl_daemon.Base.{
  ℕ, suc, Bool, true, false, not, ◌||◌, ◌≡◌, ◌⊎◌, inl, inr, refl, ap, ◌∙◌, ltb, ◌==◌, if◌then◌else◌,
  Option, none, List, [], ◌∷◌, ◌++◌, length, drop, arith, Bool-cases,
}
use hitl_daemon.Link.Reader.{
  mavlink_v2_stx, max_parse_buffer_size, starts_with_stx, from_stx, drain_to_next_frame,
  SerialControl, Reader, try_parse_message, resync, bounded, on_read,
}
use hitl_daemon.Link.Drain.{after_parse, parse_messages, read_drained, on_read-drained}

from_stx-same : (buffer : List ℕ) → starts_with_stx buffer ≡ true → from_stx buffer ≡ buffer
unfolding from_stx
from_stx-same [] h = refl
from_stx-same (b ∷ buffer) h = ground (arith, h)

-- What is left of a buffer begins with a start byte, or nothing is left.
from_stx-start :
    (buffer : List ℕ) → (from_stx buffer ≡ []) ⊎ (starts_with_stx (from_stx buffer) ≡ true)
unfolding from_stx
from_stx-start [] = inl refl
from_stx-start (b ∷ buffer) = elim (Bool-cases (b == mavlink_v2_stx)) [
  | inl e ↦ inr (rw (e, from_stx) e)
  | inr e ↦ rw (e, from_stx) (from_stx-start buffer)
]

drain-stx :
    (buffer : List ℕ) → starts_with_stx buffer ≡ true → drain_to_next_frame false buffer ≡ buffer
unfolding drain_to_next_frame
drain-stx buffer h = rw (h, drain_to_next_frame) (from_stx-same buffer h)

module _ {M : Type 0} (read_v2_msg : List ℕ → Option (M × ℕ))
    (serial_control : M → Option SerialControl) where
  buffer-if :
      (t : Bool) (x y : Reader M) (buffer : List ℕ)
      → x.parse_buffer ≡ buffer
      → y.parse_buffer ≡ buffer
      → (if t then x else y).parse_buffer ≡ buffer
  buffer-if true x y buffer hx hy = hx
  buffer-if false x y buffer hx hy = hy

  bounded-stx :
      (s : Reader M)
      → starts_with_stx s.parse_buffer ≡ true
      → (bounded read_v2_msg serial_control s).parse_buffer ≡ s.parse_buffer
  bounded-stx s h =
      buffer-if (ltb max_parse_buffer_size (length s.parse_buffer)) _ _ s.parse_buffer
        (drain-stx s.parse_buffer h) refl

  -- The loop on a buffer of which nothing can be parsed and that begins with a start byte.
  parse_messages-stuck :
      (fuel : ℕ) (s : Reader M)
      → starts_with_stx s.parse_buffer ≡ true
      → read_v2_msg s.parse_buffer ≡ none
      → (parse_messages read_v2_msg serial_control (suc fuel) s).parse_buffer ≡ s.parse_buffer
  unfolding parse_messages try_parse_message resync
  parse_messages-stuck fuel s starts nothing =
      let found : try_parse_message read_v2_msg serial_control s.parse_buffer ≡ none =
        ground (arith, nothing) in
      let same : resync read_v2_msg serial_control s ≡ s = ground (arith, starts) in
      ap
        (λ o.
          (after_parse read_v2_msg serial_control (parse_messages read_v2_msg serial_control fuel) o
            s).parse_buffer)
        found
      ∙ ap (λ t. t.parse_buffer) same

  -- A read that leaves a buffer which begins with a start byte and in which the parser finds no
  -- message keeps every byte of it, whatever its length.
  pub on_read-stuck :
      (s : Reader M) (chunk : List ℕ)
      → starts_with_stx (s.parse_buffer ++ chunk) ≡ true
      → read_v2_msg (s.parse_buffer ++ chunk) ≡ none
      → (on_read read_v2_msg serial_control s chunk).parse_buffer ≡ s.parse_buffer ++ chunk
  unfolding read_drained
  on_read-stuck s chunk starts nothing =
      let fed : Reader M = record s { parse_buffer = s.parse_buffer ++ chunk } in
      let kept = bounded-stx fed starts in
      let held = bounded read_v2_msg serial_control fed in
      ap (λ t. t.parse_buffer) (on_read-drained read_v2_msg serial_control s chunk)
      ∙ parse_messages-stuck (length held.parse_buffer) held (ap starts_with_stx kept ∙ starts)
          (ap read_v2_msg kept ∙ nothing)
      ∙ kept

-- What is left after a drain begins with a start byte, or nothing is left.
pub drain-start :
    (skip_first : Bool) (buffer : List ℕ)
    → (drain_to_next_frame skip_first buffer ≡ [])
      ⊎ (starts_with_stx (drain_to_next_frame skip_first buffer) ≡ true)
unfolding drain_to_next_frame
drain-start skip_first buffer = elim (Bool-cases (skip_first || not (starts_with_stx buffer))) [
  | inl e ↦ rw (e, drain_to_next_frame) (from_stx-start (drop 1 buffer))
  | inr e ↦ rw (e, drain_to_next_frame) (from_stx-start buffer)
]
