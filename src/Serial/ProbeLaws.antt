-- ===== src/Serial/ProbeLaws.antt =====
-- The search finds what the whole stream holds, however the reads cut it.
use hitl_daemon.Base.{
  ℕ, zero, suc, ◌+◌, ◌-◌, ◌≤◌, ◌<◌, ◌≡◌, inl, inr, refl, sym, ap, subst, ◌∙◌, Bool, true, false,
  ◌&&◌, ◌==◌, ltb, none, List, [], ◌∷◌, ◌++◌, length, drop, get_elem?, length-append, append_nil,
  arith, Bool-cases,
}
use hitl_daemon.Serial.Probe.{
  is_zero, header_at, contains_heartbeat, Read, bytes, timed_out, failed, drained, scan_window,
  scan_for_heartbeat,
}

get_elem-append : (xs ys : List ℕ) (i : ℕ) → i < length xs → get_elem? (xs ++ ys) i ≡ get_elem? xs i
get_elem-append [] ys i h = absurd (omega (arith, h))
get_elem-append (x ∷ xs) ys zero h = refl
get_elem-append (x ∷ xs) ys (suc i) h = get_elem-append xs ys i (omega (arith, h))

get_elem-none : (xs : List ℕ) (i : ℕ) → length xs ≤ i → get_elem? xs i ≡ none
get_elem-none [] i h = refl
get_elem-none (x ∷ xs) zero h = absurd (omega (arith, h))
get_elem-none (x ∷ xs) (suc i) h = get_elem-none xs i (omega (arith, h))

-- A header is within ten bytes.
header_at-append :
    (b : ℕ) (xs ys : List ℕ) → 10 ≤ length xs → header_at b (xs ++ ys) ≡ header_at b xs
unfolding header_at
header_at-append b xs ys h =
    rw
      (
        length-append xs ys,
        get_elem-append xs ys 5 (omega (arith, h)),
        get_elem-append xs ys 7 (omega (arith, h)),
        get_elem-append xs ys 8 (omega (arith, h)),
        get_elem-append xs ys 9 (omega (arith, h)),
      )
      ground arith

header_at-more : (b : ℕ) (xs ys : List ℕ) → header_at b xs ≡ true → header_at b (xs ++ ys) ≡ true
unfolding header_at
header_at-more b xs ys h = elim (Bool-cases (ltb 5 (length xs))) [
  | inl p ↦ elim (Bool-cases (ltb 9 (length xs))) [
    | inl q ↦ header_at-append b xs ys (ground (arith, q)) ∙ h
    | inr q ↦
        rw (length-append xs ys, get_elem-append xs ys 5 (ground (arith, p))) ground
          (arith, h, p, q)
  ]
  | inr p ↦ absurd (ground (arith, h, p))
]

contains_heartbeat-more :
    (xs ys : List ℕ) → contains_heartbeat xs ≡ true → contains_heartbeat (xs ++ ys) ≡ true
unfolding contains_heartbeat
contains_heartbeat-more [] ys h = absurd (cc h)
contains_heartbeat-more (x ∷ xs) ys h = elim (Bool-cases (header_at x (x ∷ xs))) [
  | inl p ↦ ground (arith, header_at-more x (x ∷ xs) ys p)
  | inr p ↦ ground (arith, contains_heartbeat-more xs ys (ground (arith, h, p)))
]

-- What is dropped from the front of a window without a heartbeat was no part of one.
contains_heartbeat-drop :
    (k : ℕ) (xs ys : List ℕ)
    → k + 9 ≤ length xs
    → contains_heartbeat xs ≡ false
    → contains_heartbeat (drop k xs ++ ys) ≡ contains_heartbeat (xs ++ ys)
unfolding contains_heartbeat
contains_heartbeat-drop zero xs ys h q = refl
contains_heartbeat-drop (suc k) [] ys h q = absurd (omega (arith, h))
contains_heartbeat-drop (suc k) (x ∷ xs) ys h q =
    let here = header_at-append x (x ∷ xs) ys (omega (arith, h)) in
    contains_heartbeat-drop k xs ys (omega (arith, h)) (ground (arith, q)) ∙ ground (arith, here, q)

contains_heartbeat-tail :
    (k : ℕ) (xs : List ℕ) → contains_heartbeat xs ≡ false → contains_heartbeat (drop k xs) ≡ false
unfolding contains_heartbeat
contains_heartbeat-tail zero xs q = q
contains_heartbeat-tail (suc k) [] q = refl
contains_heartbeat-tail (suc k) (x ∷ xs) q = contains_heartbeat-tail k xs (ground (arith, q))

drained-false :
    (xs : List ℕ) → contains_heartbeat xs ≡ false → contains_heartbeat (drained xs) ≡ false
unfolding drained
drained-false xs q = elim (Bool-cases (ltb 4096 (length xs))) [
  | inl p ↦ rw p (contains_heartbeat-tail (length xs - 512) xs q)
  | inr p ↦ rw p q
]

drained-same :
    (xs ys : List ℕ)
    → contains_heartbeat xs ≡ false
    → contains_heartbeat (drained xs ++ ys) ≡ contains_heartbeat (xs ++ ys)
unfolding drained
drained-same xs ys q = elim (Bool-cases (ltb 4096 (length xs))) [
  | inl p ↦ rw p (contains_heartbeat-drop (length xs - 512) xs ys (ground (arith, p)) q)
  | inr p ↦ rw p refl
]

-- Everything that was read before an error.
abbrev pub stream : List Read → List ℕ
stream [] = []
stream (timed_out ∷ reads) = stream reads
stream (failed ∷ reads) = []
stream (bytes chunk ∷ reads) = chunk ++ stream reads

append_assoc : (xs ys zs : List ℕ) → (xs ++ ys) ++ zs ≡ xs ++ (ys ++ zs)
append_assoc [] ys zs = refl
append_assoc (x ∷ xs) ys zs = ap (λ l. x ∷ l) (append_assoc xs ys zs)

scan_window-stream :
    (window : List ℕ) (reads : List Read)
    → contains_heartbeat window ≡ false
    → scan_window window reads ≡ contains_heartbeat (window ++ stream reads)
unfolding scan_window
scan_window-stream window [] q = sym (ap contains_heartbeat (append_nil window) ∙ q)
scan_window-stream window (timed_out ∷ reads) q = scan_window-stream window reads q
scan_window-stream window (failed ∷ reads) q = sym (ap contains_heartbeat (append_nil window) ∙ q)
scan_window-stream window (bytes [] ∷ reads) q = scan_window-stream window reads q
scan_window-stream window (bytes (b ∷ chunk) ∷ reads) q =
    let longer = window ++ b ∷ chunk in
    elim (Bool-cases (contains_heartbeat longer)) [
      | inl p ↦ rw p (
          sym (
            ap contains_heartbeat (sym (append_assoc window (b ∷ chunk) (stream reads)))
            ∙ contains_heartbeat-more longer (stream reads) p))
      | inr p ↦ rw p (
          scan_window-stream (drained longer) reads (drained-false longer p)
          ∙ drained-same longer (stream reads) p
          ∙ ap contains_heartbeat (append_assoc window (b ∷ chunk) (stream reads)))
    ]

-- However the reads cut the stream, and with its window cut to the last 512 bytes, the scan
-- answers as a search through all the bytes that were read before the first error.
pub scan_for_heartbeat-stream :
    (reads : List Read) → scan_for_heartbeat reads ≡ contains_heartbeat (stream reads)
unfolding scan_for_heartbeat contains_heartbeat
scan_for_heartbeat-stream reads = scan_window-stream [] reads refl

-- The first bytes of a HEARTBEAT: message id 0 behind the magic byte and the header's other fields.
pub data Header : List ℕ → Type 0 where
  v1 :
      (len seq sysid compid : ℕ) (rest : List ℕ)
      → Header (254 ∷ len ∷ seq ∷ sysid ∷ compid ∷ 0 ∷ rest)
  v2 :
      (len incompat compat seq sysid compid : ℕ) (rest : List ℕ)
      → Header (253 ∷ len ∷ incompat ∷ compat ∷ seq ∷ sysid ∷ compid ∷ 0 ∷ 0 ∷ 0 ∷ rest)

Header-found : (xs : List ℕ) → Header xs → contains_heartbeat xs ≡ true
unfolding contains_heartbeat header_at
Header-found _ (v1 len seq sysid compid rest) = ground arith
Header-found _ (v2 len incompat compat seq sysid compid rest) = ground arith

found-after :
    (before after : List ℕ)
    → contains_heartbeat after ≡ true
    → contains_heartbeat (before ++ after) ≡ true
unfolding contains_heartbeat
found-after [] after h = h
found-after (x ∷ before) after h = ground (arith, found-after before after h)

scan_for_heartbeat_finds :
    (reads : List Read) (before after : List ℕ)
    → stream reads ≡ before ++ after
    → Header after
    → scan_for_heartbeat reads ≡ true
scan_for_heartbeat_finds reads before after split header =
    scan_for_heartbeat-stream reads
    ∙ ap contains_heartbeat split
    ∙ found-after before after (Header-found after header)

-- Where a header stands.
pub record Held (xs : List ℕ) : Type 0 where
  pub before : List ℕ
  pub after : List ℕ
  pub split : xs ≡ before ++ after
  pub header : Header after

v1_Header : (b : ℕ) (xs : List ℕ) → b ≡ 254 → is_zero (get_elem? xs 4) ≡ true → Header (b ∷ xs)
v1_Header b (x0 ∷ x1 ∷ x2 ∷ x3 ∷ x4 ∷ xs) p q =
    let z : x4 ≡ 0 = ground (arith, q) in
    subst (λ m. Header (m ∷ x0 ∷ x1 ∷ x2 ∷ x3 ∷ x4 ∷ xs)) (sym p)
      (subst (λ m. Header (254 ∷ x0 ∷ x1 ∷ x2 ∷ x3 ∷ m ∷ xs)) (sym z) (v1 x0 x1 x2 x3 xs))
v1_Header b xs p q = absurd (cc q)

v2_Header :
    (b : ℕ) (xs : List ℕ)
    → b ≡ 253
    → is_zero (get_elem? xs 6) ≡ true
    → is_zero (get_elem? xs 7) ≡ true
    → is_zero (get_elem? xs 8) ≡ true
    → Header (b ∷ xs)
v2_Header b (x0 ∷ x1 ∷ x2 ∷ x3 ∷ x4 ∷ x5 ∷ x6 ∷ x7 ∷ x8 ∷ xs) p q r s =
    let u : x6 ≡ 0 = ground (arith, q) in
    let v : x7 ≡ 0 = ground (arith, r) in
    let w : x8 ≡ 0 = ground (arith, s) in
    subst (λ m. Header (m ∷ x0 ∷ x1 ∷ x2 ∷ x3 ∷ x4 ∷ x5 ∷ x6 ∷ x7 ∷ x8 ∷ xs)) (sym p)
      (subst (λ m. Header (253 ∷ x0 ∷ x1 ∷ x2 ∷ x3 ∷ x4 ∷ x5 ∷ m ∷ x7 ∷ x8 ∷ xs)) (sym u)
        (subst (λ m. Header (253 ∷ x0 ∷ x1 ∷ x2 ∷ x3 ∷ x4 ∷ x5 ∷ 0 ∷ m ∷ x8 ∷ xs)) (sym v)
          (subst (λ m. Header (253 ∷ x0 ∷ x1 ∷ x2 ∷ x3 ∷ x4 ∷ x5 ∷ 0 ∷ 0 ∷ m ∷ xs)) (sym w)
            (v2 x0 x1 x2 x3 x4 x5 xs))))
v2_Header b xs p q r s = absurd (cc (q, r, s))

and_true : (a b : Bool) → (a && b) ≡ true → (a ≡ true) × (b ≡ true)
and_true true b h = (refl, h)
and_true false b h = absurd (cc h)

header_at-Header : (b : ℕ) (xs : List ℕ) → header_at b (b ∷ xs) ≡ true → Header (b ∷ xs)
unfolding header_at
header_at-Header b xs h = elim (Bool-cases (b == 254 && ltb 5 (length (b ∷ xs)))) [
  | inl p ↦ v1_Header b xs (ground (arith, p)) (rw p at h)
  | inr p ↦
      let h1 = rw p at h in
      elim (Bool-cases (b == 253 && ltb 9 (length (b ∷ xs)))) [
        | inl q ↦
            let z = and_true _ _ (rw q at h1) in
            let y = and_true _ _ z.1 in v2_Header b xs (ground (arith, q)) z.0 y.0 y.1
        | inr q ↦ absurd (cc (rw q at h1))
      ]
]

contains_heartbeat-Held : (xs : List ℕ) → contains_heartbeat xs ≡ true → Held xs
unfolding contains_heartbeat
contains_heartbeat-Held [] h = absurd (cc h)
contains_heartbeat-Held (x ∷ xs) h = elim (Bool-cases (header_at x (x ∷ xs))) [
  | inl p ↦ record { before = []; after = x ∷ xs; split = refl; header = header_at-Header x xs p }
  | inr p ↦
      let k = contains_heartbeat-Held xs (ground (arith, h, p)) in
      record {
        before = x ∷ k.before;
        after = k.after;
        split = ap (λ l. x ∷ l) k.split;
        header = k.header;
      }
]

scan_for_heartbeat-Held :
    (reads : List Read) → scan_for_heartbeat reads ≡ true → Held (stream reads)
scan_for_heartbeat-Held reads h =
    contains_heartbeat-Held (stream reads) (sym (scan_for_heartbeat-stream reads) ∙ h)
