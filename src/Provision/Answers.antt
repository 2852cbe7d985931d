-- ===== src/Provision/Answers.antt =====
-- crates/websocket/src/param_io.rs: a value that was read is the board's answer to a request that the
-- read itself made.
use Prim.Native.String.{String}
use text.Mathlib.Text.{◌==◌}
use text.Mathlib.TextEquality.{eq_iff}
use hitl_daemon.Base.{
  ℕ, zero, suc, ◌≡◌, ◌≢◌, ◌⊎◌, inl, inr, refl, sym, ap, subst, ◌∙◌, true, Option, none, some, List,
  [], ◌∷◌, ◌++◌, arith, Bool-cases,
}
use hitl_daemon.Provision.{
  Sent, param_request_read, sent, full, disconnected, ParamValue, Effect, tried, drained, slept,
  Env, Delivery, delivered, lagged, closed,
}
use hitl_daemon.Provision.Reads.{read_attempts, note_read, read_params_with, await_param}
use hitl_daemon.Provision.Restore.{find_value}

append_assoc : {A : Type 0} (xs ys zs : List A) → (xs ++ ys) ++ zs ≡ xs ++ (ys ++ zs)
append_assoc [] ys zs = refl
append_assoc (x ∷ xs) ys zs = ap (λ l. x ∷ l) (append_assoc xs ys zs)

pub Outcome-cases : (o : Sent) → (o ≡ full) ⊎ ((o ≡ disconnected) ⊎ (o ≡ sent))
Outcome-cases full = inl refl
Outcome-cases disconnected = inr (inl refl)
Outcome-cases sent = inr (inr refl)

pub Option-cases : {A : Type 0} (o : Option A) → (o ≡ none) ⊎ ((a : A) × (o ≡ some a))
Option-cases none = inl refl
Option-cases (some a) = inr (a, refl)

pub none-some : {A : Type 0} (a : A) → none ≢ some a
none-some a q = ground arith

module _ (e : Env) where
  open e use {F32}

  abbrev History : Type 0
  History = List (Effect F32)

  pub await_param-name :
      (name : String) (ds : List (Delivery (ParamValue F32))) (v : ParamValue F32)
      → await_param e name ds ≡ some v
      → (v.name == name) ≡ true
  unfolding await_param
  await_param-name name [] v q = ground arith
  await_param-name name (delivered w ∷ rest) v q = ground (arith, await_param-name name rest v)
  await_param-name name (lagged ∷ rest) v q = await_param-name name rest v q
  await_param-name name (closed ∷ rest) v q = ground arith

  -- The second history goes on from the first.
  abbrev pub Extends : List (Effect F32) → List (Effect F32) → Type 0
  Extends from to = (more : List (Effect F32)) × (to ≡ more ++ from)

  pub Extends-trans : (a b c : History) → Extends a b → Extends b c → Extends a c
  Extends-trans a b c (m, p) (n, q) = (n ++ m, q ∙ ap (λ l. n ++ l) p ∙ sym (append_assoc n m a))

  -- The board's answer to a request for the name that was sent between two histories.
  abbrev pub Answered : List (Effect F32) → List (Effect F32) → String → ParamValue F32 → Type 0
  Answered from to name v =
      (h : List (Effect F32)) × Extends from h
      × (e.try_send h (param_request_read name) ≡ sent)
      × (await_param e name (e.param_values (tried (param_request_read name) sent ∷ h)) ≡ some v)
      × Extends (drained ∷ tried (param_request_read name) sent ∷ h) to

  pub Answered-within :
      (a b c d : History) (name : String) (v : ParamValue F32)
      → Extends a b
      → Extends c d
      → Answered b c name v
      → Answered a d name v
  Answered-within a b c d name v x y (h, z, s, q, w) =
      (h, Extends-trans a b h x z, s, q, Extends-trans _ c d w y)

  -- What one attempt comes to, by the answer of the queue.
  abbrev again : ℕ → String → History → History × Option (ParamValue F32)
  again n name h = read_attempts e n name (slept 50 ∷ tried (param_request_read name) full ∷ h)

  abbrev unheard : ℕ → String → History → History × Option (ParamValue F32)
  unheard n name h = read_attempts e n name (drained ∷ tried (param_request_read name) sent ∷ h)

  abbrev heard : String → History → Option (ParamValue F32)
  heard name h = await_param e name (e.param_values (tried (param_request_read name) sent ∷ h))

  read_attempts-cases :
      (n : ℕ) (name : String) (h : History)
      → (read_attempts e (suc n) name h ≡ again n name h)
        ⊎ ((read_attempts e (suc n) name h
              ≡ (tried (param_request_read name) disconnected ∷ h, none))
            ⊎ ((read_attempts e (suc n) name h ≡ unheard n name h)
                ⊎ ((v : ParamValue F32) × (e.try_send h (param_request_read name) ≡ sent)
                    × (heard name h ≡ some v)
                    × (read_attempts e (suc n) name h
                        ≡ (drained ∷ tried (param_request_read name) sent ∷ h, some v)))))
  unfolding read_attempts
  read_attempts-cases n name h = elim (Outcome-cases (e.try_send h (param_request_read name))) [
    | inl p ↦ inl (rw (p, read_attempts) refl)
    | inr (inl p) ↦ inr (inl (rw (p, read_attempts) refl))
    | inr (inr p) ↦ elim (Option-cases (heard name h)) [
      | inl q ↦ inr (inr (inl (rw (p, read_attempts) rw q refl)))
      | inr (v, q) ↦ inr (inr (inr (v, p, q, rw (p, read_attempts) rw q refl)))
    ]
  ]

  read_attempts-Extends :
      (n : ℕ) (name : String) (h : History) → Extends h (read_attempts e n name h).0
  unfolding read_attempts
  read_attempts-Extends zero name h = ([], refl)
  read_attempts-Extends (suc n) name h = elim (read_attempts-cases n name h) [
    | inl p ↦ rw p (
        Extends-trans h _ (again n name h).0
          (slept 50 ∷ tried (param_request_read name) full ∷ [], refl)
          (read_attempts-Extends n name _))
    | inr (inl p) ↦ rw p (tried (param_request_read name) disconnected ∷ [], refl)
    | inr (inr (inl p)) ↦ rw p (
        Extends-trans h _ (unheard n name h).0
          (drained ∷ tried (param_request_read name) sent ∷ [], refl)
          (read_attempts-Extends n name _))
    | inr (inr (inr (v, s, q, p))) ↦
        rw p (drained ∷ tried (param_request_read name) sent ∷ [], refl)
  ]

  read_attempts-Answered :
      (n : ℕ) (name : String) (h : History) (v : ParamValue F32)
      → (read_attempts e n name h).1 ≡ some v
      → Answered h (read_attempts e n name h).0 name v
  unfolding read_attempts
  read_attempts-Answered zero name h v q = ground arith
  read_attempts-Answered (suc n) name h v q = elim (read_attempts-cases n name h) [
    | inl p ↦
        subst (λ t. Answered h t.0 name v) (sym p)
          (Answered-within h _ (again n name h).0 (again n name h).0 name v
            (slept 50 ∷ tried (param_request_read name) full ∷ [], refl) ([], refl)
            (read_attempts-Answered n name _ v (sym (ap (λ t. t.1) p) ∙ q)))
    | inr (inl p) ↦ absurd (none-some v (sym (ap (λ t. t.1) p) ∙ q))
    | inr (inr (inl p)) ↦
        subst (λ t. Answered h t.0 name v) (sym p)
          (Answered-within h _ (unheard n name h).0 (unheard n name h).0 name v
            (drained ∷ tried (param_request_read name) sent ∷ [], refl) ([], refl)
            (read_attempts-Answered n name _ v (sym (ap (λ t. t.1) p) ∙ q)))
    | inr (inr (inr (w, s, r, p))) ↦
        subst (λ t. Answered h t.0 name v) (sym p)
          (h, ([], refl), s, r ∙ sym (ap (λ t. t.1) p) ∙ q, ([], refl))
  ]

  -- Each value is an answer to a request for its name.
  abbrev pub Genuine : List (Effect F32) → List (Effect F32) → List (ParamValue F32) → Type 0
  Genuine from to [] = Unit {0}
  Genuine from to (v ∷ values) = Answered from to v.name v × Genuine from to values

  Genuine-within :
      (a b c d : History) (values : List (ParamValue F32))
      → Extends a b
      → Extends c d
      → Genuine b c values
      → Genuine a d values
  Genuine-within a b c d [] x y g = tt
  Genuine-within a b c d (v ∷ values) x y (g, gs) =
      (Answered-within a b c d v.name v x y g, Genuine-within a b c d values x y gs)

  named :
      (from to : History) (name : String) (v : ParamValue F32)
      → (v.name == name) ≡ true
      → Answered from to name v
      → Answered from to v.name v
  named from to name v q a = subst (λ n. Answered from to n v) (sym ((eq_iff v.name name).0 q)) a

  note_read-Genuine :
      (from to : History) (r : Option (ParamValue F32)) (name : String)
      (others : List (ParamValue F32) × List String)
      → ((v : ParamValue F32) → r ≡ some v → Answered from to name v)
      → Genuine from to others.0
      → Genuine from to (note_read e r name others).0
  unfolding note_read
  note_read-Genuine from to none name (values, missing) f g = g
  note_read-Genuine from to (some v) name (values, missing) f g =
      let a = f v refl in (named from to name v (await_param-name name _ v a.3) a, g)

  read_params_with-Extends :
      (names : List String) (h : History) → Extends h (read_params_with e names h).0
  unfolding read_params_with
  read_params_with-Extends [] h = ([], refl)
  read_params_with-Extends (name ∷ names) h =
      Extends-trans h (read_attempts e 3 name h).0 _ (read_attempts-Extends 3 name h)
        (read_params_with-Extends names (read_attempts e 3 name h).0)

  pub read_params_with-Genuine :
      (names : List String) (h : History)
      → Genuine h (read_params_with e names h).0 (read_params_with e names h).1.0
  unfolding read_params_with
  read_params_with-Genuine [] h = tt
  read_params_with-Genuine (name ∷ names) h =
      let k = (read_attempts e 3 name h).0 in
      let end = (read_params_with e names k).0 in
      note_read-Genuine h end (read_attempts e 3 name h).1 name (read_params_with e names k).1
        (λ v q.
          Answered-within h h k end name v ([], refl) (read_params_with-Extends names k)
            (read_attempts-Answered 3 name h v q))
        (Genuine-within h k end end (read_params_with e names k).1.0
          (read_attempts-Extends 3 name h) ([], refl) (read_params_with-Genuine names k))

  pub find_value-Answered :
      (from to : List (Effect F32)) (name : String) (values : List (ParamValue F32))
      (v : ParamValue F32)
      → Genuine from to values
      → find_value e name values ≡ some v
      → Answered from to name v
  unfolding find_value
  find_value-Answered from to name [] v g q = absurd (none-some v q)
  find_value-Answered from to name (w ∷ values) v (g, gs) q = elim (Bool-cases (w.name == name)) [
    | inl p ↦
        let same : w ≡ v = ground (arith, p, q) in
        subst (λ u. Answered from to name u) same
          (subst (λ n. Answered from to n w) ((eq_iff w.name name).0 p) g)
    | inr p ↦ find_value-Answered from to name values v gs (ground (arith, p, q))
  ]
