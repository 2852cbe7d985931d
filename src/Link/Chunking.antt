-- ===== src/Link/Chunking.antt =====
-- The messages of a stream of frames are the same however the reads cut the stream.
use hitl_daemon.Base.{
  ℕ, zero, suc, true, false, ◌-◌, ◌≤◌, ◌<◌, ◌≡◌, refl, sym, ap, subst, ◌∙◌, ltb, dec_le, dec_lt,
  Option, none, some, List, [], ◌∷◌, ◌++◌, length, length-append, append_nil, drop, arith,
}
use hitl_daemon.Link.Reader.{
  max_parse_buffer_size, starts_with_stx, SerialControl, Reader, try_parse_message, resync, bounded,
  on_read, read_all,
}
use hitl_daemon.Link.Drain.{deliver, after_parse, parse_messages, read_drained, on_read-drained}

append_assoc : {A : Type 0} (xs ys zs : List A) → (xs ++ ys) ++ zs ≡ xs ++ (ys ++ zs)
append_assoc [] ys zs = refl
append_assoc (x ∷ xs) ys zs = ap (λ l. x ∷ l) (append_assoc xs ys zs)

tail-eq : (x y : ℕ) (xs ys : List ℕ) → x ∷ xs ≡ y ∷ ys → (x ≡ y) × (xs ≡ ys)
tail-eq x y xs ys h = (cc h, cc h)

-- A list that begins as long as another is cut behind it.
cut-long :
    (f t b s : List ℕ)
    → b ++ s ≡ f ++ t
    → length f ≤ length b
    → (b ≡ f ++ drop (length f) b) × (drop (length f) b ++ s ≡ t)
cut-long [] t b s h long = (refl, h)
cut-long (x ∷ f) t [] s h long = absurd (omega arith)
cut-long (x ∷ f) t (y ∷ b) s h long =
    let parts = tail-eq y x (b ++ s) (f ++ t) h in
    let rest = cut-long f t b s parts.1 (omega arith) in ((λ i. parts.0 i ∷ rest.0 i), rest.1)

cut-short : (f t b s : List ℕ) → b ++ s ≡ f ++ t → length b < length f → f ≡ b ++ drop (length b) f
cut-short f t [] s h short = refl
cut-short [] t (y ∷ b) s h short = absurd (omega arith)
cut-short (x ∷ f) t (y ∷ b) s h short =
    let parts = tail-eq y x (b ++ s) (f ++ t) h in
    λ i. sym parts.0 i ∷ cut-short f t b s parts.1 (omega arith) i

length-drop : (n : ℕ) (xs : List ℕ) → length (drop n xs) ≡ length xs - n
length-drop zero xs = omega arith
length-drop (suc n) [] = omega arith
length-drop (suc n) (x ∷ xs) = omega (arith, length-drop n xs)

clean-append : (buffer rest : List ℕ) → length buffer ≡ 0 → buffer ++ rest ≡ rest
clean-append [] rest h = refl
clean-append (x ∷ buffer) rest h = absurd (omega arith)

module _ {M : Type 0} (read_v2_msg : List ℕ → Option (M × ℕ))
    (serial_control : M → Option SerialControl) where
  -- The bytes of a frame and its message: the parser takes the frame off the front of what is
  -- read, and finds nothing in a part of it.
  pub record IsFrame (f : List ℕ) (m : M) : Type 0 where
    pub starts : starts_with_stx f ≡ true
    pub long : 8 ≤ length f
    pub short : length f ≤ 280
    pub parses : (rest : List ℕ) → read_v2_msg (f ++ rest) ≡ some (m, length f)
    pub waits : (p q : List ℕ) → f ≡ p ++ q → 0 < length q → read_v2_msg p ≡ none

  abbrev pub AllFrames : List (List ℕ × M) → Type 0
  AllFrames [] = Unit {0}
  AllFrames ((f, m) ∷ frames) = IsFrame f m × AllFrames frames

  abbrev pub bytes_of : List (List ℕ × M) → List ℕ
  bytes_of [] = []
  bytes_of ((f, m) ∷ frames) = f ++ bytes_of frames

  abbrev pub messages_of : List (List ℕ × M) → List M
  messages_of [] = []
  messages_of ((f, m) ∷ frames) = m ∷ messages_of frames

  -- What is held is less than the first frame that is still to come.
  abbrev Behind : List ℕ → List (List ℕ × M) → Type 0
  Behind buffer [] = length buffer ≡ 0
  Behind buffer ((f, m) ∷ frames) = length buffer < length f

  -- The frames `left` are still to come, and what is held with `rest` is their bytes.
  record Progress (messages : List M) (rest : List ℕ) (after : Reader M) : Type 0 where
    left : List (List ℕ × M)
    frames : AllFrames left
    told : after.messages ++ messages_of left ≡ messages
    held : after.parse_buffer ++ rest ≡ bytes_of left
    behind : Behind after.parse_buffer left

  resync-short :
      (s : Reader M) → length s.parse_buffer < 8 → resync read_v2_msg serial_control s ≡ s
  unfolding resync
  resync-short s h = ground arith

  resync-stx :
      (s : Reader M)
      → starts_with_stx s.parse_buffer ≡ true
      → resync read_v2_msg serial_control s ≡ s
  unfolding resync
  resync-stx s h = ground arith

  try_parse-frame :
      (f rest : List ℕ) (m : M)
      → IsFrame f m
      → try_parse_message read_v2_msg serial_control (f ++ rest) ≡ some (m, length f)
  unfolding try_parse_message
  try_parse-frame f rest m h =
      let e : ltb (length (f ++ rest)) 8 ≡ false = ground (arith, length-append f rest, h.long) in
      rw (e, try_parse_message) (h.parses rest)

  try_parse-part :
      (f p q : List ℕ) (m : M)
      → IsFrame f m
      → f ≡ p ++ q
      → 0 < length q
      → try_parse_message read_v2_msg serial_control p ≡ none
  unfolding try_parse_message
  try_parse-part f p q m h e more = ground (arith, h.waits p q e more)

  try_parse-short :
      (p : List ℕ) → length p < 8 → try_parse_message read_v2_msg serial_control p ≡ none
  unfolding try_parse_message
  try_parse-short p h = ground arith

  -- A part of a frame that is long enough to be looked at begins with the start byte.
  part-stx :
      (f p q : List ℕ)
      → f ≡ p ++ q
      → starts_with_stx f ≡ true
      → 0 < length p
      → starts_with_stx p ≡ true
  part-stx f [] q e starts some_ = absurd (omega arith)
  part-stx f (x ∷ p) q e starts some_ = subst (λ l. starts_with_stx l ≡ true) e starts

  resync-part :
      (f q : List ℕ) (m : M) (s : Reader M)
      → IsFrame f m
      → f ≡ s.parse_buffer ++ q
      → resync read_v2_msg serial_control s ≡ s
  resync-part f q m s h e = elim (dec_lt (length s.parse_buffer) 8) [
    | yes short ↦ resync-short s short
    | no long ↦ resync-stx s (part-stx f s.parse_buffer q e h.starts (omega (arith, long)))
  ]

  -- The loop on a buffer that holds no whole frame.
  parse-waits :
      (fuel : ℕ) (s : Reader M)
      → try_parse_message read_v2_msg serial_control s.parse_buffer ≡ none
      → resync read_v2_msg serial_control s ≡ s
      → parse_messages read_v2_msg serial_control (suc fuel) s ≡ s
  unfolding parse_messages
  parse-waits fuel s nothing same =
      ap
        (λ o.
          after_parse read_v2_msg serial_control (parse_messages read_v2_msg serial_control fuel) o
            s)
        nothing
      ∙ same

  -- The loop on a buffer that begins with a frame.
  parse-takes :
      (fuel : ℕ) (s : Reader M) (m : M) (n : ℕ)
      → try_parse_message read_v2_msg serial_control s.parse_buffer ≡ some (m, n)
      → parse_messages read_v2_msg serial_control (suc fuel) s
        ≡ parse_messages read_v2_msg serial_control fuel (deliver read_v2_msg serial_control m n s)
  unfolding parse_messages
  parse-takes fuel s m n found =
      ap
        (λ o.
          after_parse read_v2_msg serial_control (parse_messages read_v2_msg serial_control fuel) o
            s)
        found

  parse-Progress :
      (fuel : ℕ) (s : Reader M) (frames : List (List ℕ × M)) (rest : List ℕ)
      → length s.parse_buffer < fuel
      → AllFrames frames
      → s.parse_buffer ++ rest ≡ bytes_of frames
      → Progress
          (s.messages ++ messages_of frames)
          rest
          (parse_messages read_v2_msg serial_control fuel s)
  parse-Progress zero s frames rest enough all held = absurd (omega arith)
  parse-Progress (suc fuel) s [] rest enough all held =
      let empty : length s.parse_buffer ≡ 0 =
        omega (arith, ap length held, length-append s.parse_buffer rest) in
      subst (Progress (s.messages ++ []) rest)
        (sym (
          parse-waits fuel s (try_parse-short s.parse_buffer (omega (arith, empty)))
            (resync-short s (omega (arith, empty)))))
        record { left = []; frames = tt; told = refl; held = held; behind = empty }
  parse-Progress (suc fuel) s ((f, m) ∷ frames) rest enough all held =
      elim (dec_le (length f) (length s.parse_buffer)) [
        | yes whole ↦
            let cut = cut-long f (bytes_of frames) s.parse_buffer rest held whole in
            let found =
              subst (λ b. try_parse_message read_v2_msg serial_control b ≡ some (m, length f))
                (sym cut.0) (try_parse-frame f (drop (length f) s.parse_buffer) m all.0) in
            subst (Progress (s.messages ++ (m ∷ messages_of frames)) rest)
              (sym (parse-takes fuel s m (length f) found))
              (subst
                (λ l. Progress l rest (
                  parse_messages read_v2_msg serial_control fuel
                    (deliver read_v2_msg serial_control m (length f) s)))
                (append_assoc s.messages (m ∷ []) (messages_of frames))
                (parse-Progress fuel (deliver read_v2_msg serial_control m (length f) s) frames rest
                  (omega (arith, length-drop (length f) s.parse_buffer, all.0.long, enough)) all.1
                  cut.1))
        | no part ↦
            let e = cut-short f (bytes_of frames) s.parse_buffer rest held (omega (arith, part)) in
            let more = length-drop (length s.parse_buffer) f in
            subst (Progress (s.messages ++ (m ∷ messages_of frames)) rest)
              (sym (
                parse-waits fuel s
                  (try_parse-part f s.parse_buffer (drop (length s.parse_buffer) f) m all.0 e
                    (omega (arith, more, part)))
                  (resync-part f (drop (length s.parse_buffer) f) m s all.0 e)))
              record {
                left = (f, m) ∷ frames;
                frames = all;
                told = refl;
                held = held;
                behind = omega (arith, part);
              }
      ]

  Behind-small :
      (buffer : List ℕ) (frames : List (List ℕ × M))
      → AllFrames frames
      → Behind buffer frames
      → length buffer ≤ 280
  Behind-small buffer [] all h = omega arith
  Behind-small buffer ((f, m) ∷ frames) all h = omega (arith, all.0.short, h)

  bounded-small :
      (s : Reader M)
      → length s.parse_buffer ≤ max_parse_buffer_size
      → bounded read_v2_msg serial_control s ≡ s
  bounded-small s h = ground arith

  -- The chunks of a read, of at most the 1024 bytes that it asks for.
  abbrev pub Reads : List (List ℕ) → Type 0
  Reads [] = Unit {0}
  Reads (chunk ∷ chunks) = (length chunk ≤ 1024) × Reads chunks

  abbrev pub joined : List (List ℕ) → List ℕ
  joined [] = []
  joined (chunk ∷ chunks) = chunk ++ joined chunks

  read_drained-Progress :
      (s : Reader M) (chunk rest : List ℕ) (frames : List (List ℕ × M))
      → AllFrames frames
      → Behind s.parse_buffer frames
      → length chunk ≤ 1024
      → s.parse_buffer ++ (chunk ++ rest) ≡ bytes_of frames
      → Progress
          (s.messages ++ messages_of frames)
          rest
          (read_drained read_v2_msg serial_control s chunk)
  unfolding read_drained
  read_drained-Progress s chunk rest frames all behind small held =
      let fed : Reader M = record s { parse_buffer = s.parse_buffer ++ chunk } in
      let same = bounded-small fed (
        omega (
          arith,
          Behind-small s.parse_buffer frames all behind,
          length-append s.parse_buffer chunk,
        )) in
      subst
        (λ t.
          Progress (s.messages ++ messages_of frames) rest
            (parse_messages read_v2_msg serial_control (suc (length t.parse_buffer)) t))
        (sym same)
        (parse-Progress (suc (length fed.parse_buffer)) fed frames rest (omega arith) all
          (append_assoc s.parse_buffer chunk rest ∙ held))

  on_read-Progress :
      (s : Reader M) (chunk rest : List ℕ) (frames : List (List ℕ × M))
      → AllFrames frames
      → Behind s.parse_buffer frames
      → length chunk ≤ 1024
      → s.parse_buffer ++ (chunk ++ rest) ≡ bytes_of frames
      → Progress
          (s.messages ++ messages_of frames)
          rest
          (on_read read_v2_msg serial_control s chunk)
  on_read-Progress s chunk rest frames all behind small held =
      subst (Progress (s.messages ++ messages_of frames) rest)
        (sym (on_read-drained read_v2_msg serial_control s chunk))
        (read_drained-Progress s chunk rest frames all behind small held)

  read_all-Progress :
      (s : Reader M) (chunks : List (List ℕ)) (frames : List (List ℕ × M))
      → AllFrames frames
      → Behind s.parse_buffer frames
      → Reads chunks
      → s.parse_buffer ++ joined chunks ≡ bytes_of frames
      → Progress
          (s.messages ++ messages_of frames)
          []
          (read_all read_v2_msg serial_control s chunks)
  unfolding read_all
  read_all-Progress s [] frames all behind small held = record {
    left = frames;
    frames = all;
    told = refl;
    held = held;
    behind = behind;
  }
  read_all-Progress s (chunk ∷ chunks) frames all behind small held =
      let p = on_read-Progress s chunk (joined chunks) frames all behind small.0 held in
      subst
        (λ l.
          Progress l [] (
            read_all read_v2_msg serial_control (on_read read_v2_msg serial_control s chunk)
              chunks))
        p.told
        (read_all-Progress (on_read read_v2_msg serial_control s chunk) chunks p.left p.frames
          p.behind small.1 p.held)

  nothing-left :
      (messages : List M) (after : Reader M) (left : List (List ℕ × M))
      → after.messages ++ messages_of left ≡ messages
      → after.parse_buffer ≡ bytes_of left
      → Behind after.parse_buffer left
      → (after.messages ≡ messages) × (after.parse_buffer ≡ [])
  nothing-left messages after [] told held behind = (sym (append_nil after.messages) ∙ told, held)
  nothing-left messages after ((f, m) ∷ left) told held behind =
      absurd (omega (arith, behind, ap length held, length-append f (bytes_of left)))

  -- Nothing is left when all bytes were read.
  finished :
      (messages : List M) (after : Reader M)
      → Progress messages [] after
      → (after.messages ≡ messages) × (after.parse_buffer ≡ [])
  finished messages after p =
      nothing-left messages after p.left p.told (sym (append_nil after.parse_buffer) ∙ p.held)
        p.behind

  clean-Behind :
      (buffer : List ℕ) (frames : List (List ℕ × M))
      → length buffer ≡ 0
      → AllFrames frames
      → Behind buffer frames
  clean-Behind buffer [] h all = h
  clean-Behind buffer ((f, m) ∷ frames) h all = omega (arith, all.0.long, h)

  -- If the parser takes each of the frames whole, with any bytes behind it, and nothing of a
  -- proper part of it, then from an empty buffer the reader delivers exactly their messages in
  -- order and keeps no byte, however reads of at most 1024 bytes cut the stream; a frame has 8 to
  -- 280 bytes.
  pub read_all-messages :
      (s : Reader M) (chunks : List (List ℕ)) (frames : List (List ℕ × M))
      → length s.parse_buffer ≡ 0
      → AllFrames frames
      → Reads chunks
      → joined chunks ≡ bytes_of frames
      → ((read_all read_v2_msg serial_control s chunks).messages ≡ s.messages ++ messages_of frames)
        × ((read_all read_v2_msg serial_control s chunks).parse_buffer ≡ [])
  read_all-messages s chunks frames clean all small held =
      finished (s.messages ++ messages_of frames) (read_all read_v2_msg serial_control s chunks) (
        read_all-Progress s chunks frames all (clean-Behind s.parse_buffer frames clean all) small
          (clean-append s.parse_buffer (joined chunks) clean ∙ held))
