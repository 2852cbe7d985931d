-- ===== src/Handler/RateLaws.antt =====
-- How many commands of one client are admitted in a second, whatever the other clients send.
use hitl_daemon.Base.{
  ℕ, suc, Bool, true, false, ◌&&◌, ◌+◌, ◌-◌, ◌≤◌, ◌<◌, ◌≡◌, refl, ◌∙◌, sym, ap, ltb, ◌==◌,
  if◌then◌else◌, Option, none, some, List, [], ◌∷◌, arith, Bool-cases, inl, inr, ltb→lt, ltb→le,
  eqb→eq, subst,
}
use hitl_daemon.Handler.Rate.{
  command_rate_limit_window, Window, RateLimits, entry_or, put, reset_if_expired, admits, counted,
  check_rate_limit,
}

-- A request: the client and the time of its arrival.
pub record Request : Type 0 where
  pub client_id : ℕ
  pub at : ℕ

-- The number of admitted requests of one client in a run of requests.
unfoldable pub admitted : RateLimits → ℕ → List Request → ℕ
admitted limits client [] = 0
admitted limits client (q ∷ requests) =
    let step = check_rate_limit limits q.client_id q.at in
    let rest = admitted step.0 client requests in
    if q.client_id == client && step.1 then suc rest else rest

-- One client's window alone, and the times of its requests.
abbrev pub find : ℕ → RateLimits → Option Window
find client [] = none
find client ((id, w) ∷ limits) = elim (client == id) [ true ↦ some w | false ↦ find client limits ]

abbrev pub window_at : ℕ → Option Window → Window
window_at now none = record { window_start = now; count = 0 }
window_at now (some w) = w

abbrev pub times_of : ℕ → List Request → List ℕ
times_of client [] = []
times_of client (q ∷ requests) = elim (q.client_id == client) [
  | true ↦ q.at ∷ times_of client requests
  | false ↦ times_of client requests
]

unfoldable pub alone : Option Window → List ℕ → ℕ
alone o [] = 0
alone o (now ∷ times) =
    let w = reset_if_expired now (window_at now o) in
    let rest = alone (some (counted w)) times in if admits w then suc rest else rest

entry_or-find :
    (client now : ℕ) (limits : RateLimits)
    → entry_or client record { window_start = now; count = 0 } limits
      ≡ window_at now (find client limits)
entry_or-find client now [] = refl
entry_or-find client now ((id, w) ∷ limits) = elim (Bool-cases (client == id)) [
  | inl e ↦ rw (e, entry_or, find) refl
  | inr e ↦ rw (e, entry_or, find) (entry_or-find client now limits)
]

find-put-same : (id : ℕ) (w : Window) (limits : RateLimits) → find id (put id w limits) ≡ some w
unfolding put
find-put-same id w [] = ground arith
find-put-same id w ((k, v) ∷ limits) = ground (arith, find-put-same id w limits)

find-put-other :
    (id k : ℕ) (w : Window) (limits : RateLimits)
    → (k == id) ≡ false
    → find id (put k w limits) ≡ find id limits
unfolding put
find-put-other id k w [] h = ground arith
find-put-other id k w ((j, v) ∷ limits) h = ground (arith, h, find-put-other id k w limits h)

-- The window that a request of `id` is counted in.
abbrev current : RateLimits → ℕ → ℕ → Window
current limits id now =
    reset_if_expired now (entry_or id record { window_start = now; count = 0 } limits)

-- The number admitted from a request on, where `mine` says whether it is the client's own.
abbrev admitted_from : Bool → RateLimits → ℕ → ℕ → ℕ → List Request → ℕ
admitted_from mine limits id now client requests =
    let rest = admitted (put id (counted (current limits id now)) limits) client requests in
    if mine && admits (current limits id now) then suc rest else rest

own-request :
    (limits : RateLimits) (client now : ℕ) (requests : List Request)
    → ((m : RateLimits)
        → admitted m client requests ≡ alone (find client m) (times_of client requests))
    → admitted_from true limits client now client requests
      ≡ alone (find client limits) (now ∷ times_of client requests)
unfolding alone
own-request limits client now requests ih =
    let fresh : Window = record { window_start = now; count = 0 } in
    let w = current limits client now in
    let rest : admitted (put client (counted w) limits) client requests
        ≡ alone (some (counted w)) (times_of client requests) =
      ih (put client (counted w) limits)
      ∙ ap (λ o. alone o (times_of client requests)) (find-put-same client (counted w) limits) in
    (λ i. if admits w then suc (rest i) else rest i)
    ∙ ap
        (λ v.
          let u = reset_if_expired now v in
          if admits u
          then suc (alone (some (counted u)) (times_of client requests))
          else alone (some (counted u)) (times_of client requests))
        (entry_or-find client now limits)

admitted-own :
    (limits : RateLimits) (id client now : ℕ) (requests : List Request)
    → id ≡ client
    → ((m : RateLimits)
        → admitted m client requests ≡ alone (find client m) (times_of client requests))
    → admitted_from true limits id now client requests
      ≡ alone (find client limits) (now ∷ times_of client requests)
admitted-own limits id client now requests same ih =
    subst
      (λ k.
        admitted_from true limits k now client requests
        ≡ alone (find client limits) (now ∷ times_of client requests))
      (sym same) (own-request limits client now requests ih)

admitted-other :
    (limits : RateLimits) (id client now : ℕ) (requests : List Request)
    → (id == client) ≡ false
    → ((m : RateLimits)
        → admitted m client requests ≡ alone (find client m) (times_of client requests))
    → admitted_from false limits id now client requests
      ≡ alone (find client limits) (times_of client requests)
admitted-other limits id client now requests other ih =
    ih (put id (counted (current limits id now)) limits)
    ∙ ap (λ o. alone o (times_of client requests))
        (find-put-other client id (counted (current limits id now)) limits other)

-- The number of requests of a client that the shared table of windows admits is the number that a
-- window of that client alone admits.
pub admitted-alone :
    (limits : RateLimits) (client : ℕ) (requests : List Request)
    → admitted limits client requests ≡ alone (find client limits) (times_of client requests)
unfolding admitted alone check_rate_limit
admitted-alone limits client [] = refl
admitted-alone limits client (q ∷ requests) =
    let ih = λ (m : RateLimits). admitted-alone m client requests in
    elim (Bool-cases (q.client_id == client)) [
      | inl e ↦
          rw (e, times_of)
            (admitted-own limits q.client_id client q.at requests (eqb→eq q.client_id client e) ih)
      | inr e ↦ rw (e, times_of) (admitted-other limits q.client_id client q.at requests e ih)
    ]

-- No time is later than `until`.
abbrev By : ℕ → List ℕ → Type 0
By until [] = Unit {0}
By until (now ∷ times) = (now ≤ until) × By until times

-- The times are in order, from `from` on and no later than `until`.
abbrev pub InOrder : ℕ → ℕ → List ℕ → Type 0
InOrder from until [] = Unit {0}
InOrder from until (now ∷ times) = ((from ≤ now) × (now ≤ until)) × InOrder now until times

InOrder-By : (from until : ℕ) (times : List ℕ) → InOrder from until times → By until times
InOrder-By from until [] h = tt
InOrder-By from until (now ∷ times) h = (h.0.1, InOrder-By now until times h.1)

-- The number admitted from a request on that is counted in `w`.
abbrev spend : Window → List ℕ → ℕ
spend w times = let rest = alone (some (counted w)) times in if admits w then suc rest else rest

-- A bound on what a window admits, from the bounds on what its successors do.
spend-bound :
    (w : Window) (times : List ℕ) (n : ℕ)
    → w.count ≤ 10
    → (w.count < 10
        → alone (some record { window_start = w.window_start; count = w.count + 1 }) times
            + (w.count + 1)
          ≤ n)
    → (w.count ≡ 10 → alone (some w) times + w.count ≤ n)
    → spend w times + w.count ≤ n
spend-bound w times n few room full = elim (Bool-cases (admits w)) [
  | inl e ↦ let more = room (ltb→lt w.count 10 e) in rw e (omega (arith, more))
  | inr e ↦ let same = full (omega (arith, ltb→le w.count 10 e)) in rw e same
]

settled :
    (w : Window) (now : ℕ)
    → now ≤ w.window_start + command_rate_limit_window
    → reset_if_expired now w ≡ w
settled w now h =
    let e : ltb command_rate_limit_window (now - w.window_start) ≡ false = ground arith in rw e refl

-- A window that does not expire admits no more than its rest.
alone-settled :
    (w : Window) (until : ℕ) (times : List ℕ)
    → until ≤ w.window_start + command_rate_limit_window
    → w.count ≤ 10
    → By until times
    → alone (some w) times + w.count ≤ 10
unfolding alone
alone-settled w until [] soon few by = omega arith
alone-settled w until (now ∷ times) soon few by =
    subst (λ v. spend v times + w.count ≤ 10) (sym (settled w now (omega (arith, by.0))))
      (spend-bound w times 10 few
        (λ room.
          alone-settled record { window_start = w.window_start; count = w.count + 1 } until times
            soon (omega arith) by.1)
        (λ full. alone-settled w until times soon few by.1))

abbrev count_of : Option Window → ℕ
count_of none = 0
count_of (some w) = w.count

-- A window that opens at the request.
opened :
    (now until : ℕ) (times : List ℕ)
    → until ≤ now + command_rate_limit_window
    → By until times
    → spend record { window_start = now; count = 0 } times ≤ 10
opened now until times soon by =
    let w : Window = record { window_start = now; count = 0 } in
    omega (
      arith,
      spend-bound w times 10 (omega arith)
          (λ room.
            alone-settled record { window_start = now; count = 0 + 1 } until times soon
              (omega arith) by)
          (λ full. absurd (omega arith)),
    )

alone-span :
    (o : Option Window) (from until : ℕ) (times : List ℕ)
    → until ≤ from + command_rate_limit_window
    → count_of o ≤ 10
    → InOrder from until times
    → alone o times + count_of o ≤ 20
unfolding alone
alone-span o from until [] soon few order = omega arith
alone-span none from until (now ∷ times) soon few order =
    let by = InOrder-By now until times order.1 in
    subst (λ v. spend v times + 0 ≤ 20)
      (sym (settled record { window_start = now; count = 0 } now (omega arith)))
      (omega (arith, opened now until times (omega (arith, order.0)) by))
alone-span (some w) from until (now ∷ times) soon few order =
    let by = InOrder-By now until times order.1 in
    elim (Bool-cases (ltb command_rate_limit_window (now - w.window_start))) [
      | inl e ↦ rw e (omega (arith, opened now until times (omega (arith, order.0)) by, few))
      | inr e ↦ rw e (
          spend-bound w times 20 few
            (λ room.
              alone-span (some record { window_start = w.window_start; count = w.count + 1 }) now
                until times (omega (arith, order.0)) (omega arith) order.1)
            (λ full. alone-span (some w) now until times (omega (arith, order.0)) few order.1))
    ]

-- No client has more than its ten counted.
abbrev pub AtMostTen : RateLimits → Type 0
AtMostTen [] = Unit {0}
AtMostTen ((id, w) ∷ limits) = (w.count ≤ 10) × AtMostTen limits

count_of-find :
    (client : ℕ) (limits : RateLimits) → AtMostTen limits → count_of (find client limits) ≤ 10
count_of-find client [] h = omega arith
count_of-find client ((id, w) ∷ limits) h = elim (Bool-cases (client == id)) [
  | inl e ↦ rw (e, find) h.0
  | inr e ↦ rw (e, find) (count_of-find client limits h.1)
]

-- If no window counts more than ten at the start, then of one client's requests whose times are in
-- order and lie within a second, at most twenty are admitted, whatever the other clients send.
pub admitted-bound :
    (limits : RateLimits) (client from until : ℕ) (requests : List Request)
    → AtMostTen limits
    → until ≤ from + command_rate_limit_window
    → InOrder from until (times_of client requests)
    → admitted limits client requests ≤ 20
admitted-bound limits client from until requests few soon order =
    subst (λ n. n ≤ 20) (sym (admitted-alone limits client requests))
      (omega (
        arith,
        alone-span (find client limits) from until (times_of client requests) soon
            (count_of-find client limits few) order,
      ))
