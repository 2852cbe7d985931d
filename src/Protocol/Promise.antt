-- ===== src/Protocol/Promise.antt =====
-- What a result promises of the value that it may hold.
use hitl_daemon.Base.{Bool, true, false, ◌≡◌, refl, if◌then◌else◌, Result, ok, err, ◌>>=◌}

-- What a result promises of the value it may hold.
unfoldable pub Holds {ℓ κ} : {E : Type ℓ} {A : Type κ} → (A → Type 0) → Result E A → Type 0
Holds P (ok a) = P a
Holds P (err e) = Unit {0}

pub Holds-err {ℓ κ} : {E : Type ℓ} {A : Type κ} (P : A → Type 0) (e : E) → Holds P (err e)
unfolding Holds
Holds-err P e = tt

pub Holds-if {ℓ κ} :
    {E : Type ℓ} {A : Type κ} (P : A → Type 0) (t : Bool) (x y : Result E A)
    → (t ≡ true → Holds P x)
    → (t ≡ false → Holds P y)
    → Holds P (if t then x else y)
unfolding Holds
Holds-if P true x y hx hy = hx refl
Holds-if P false x y hx hy = hy refl

pub Holds-refused {ℓ κ} :
    {E : Type ℓ} {A : Type κ} (P : A → Type 0) (t : Bool) (x y : Result E A)
    → Holds P x
    → Holds P y
    → Holds P (if t then x else y)
Holds-refused P t x y hx hy = Holds-if P t x y (λ _. hx) (λ _. hy)

pub Holds-bind {ℓ κ μ} :
    {E : Type ℓ} {A : Type κ} {B : Type μ} (P : A → Type 0) (Q : B → Type 0) (r : Result E A)
    (f : A → Result E B)
    → Holds P r
    → ((a : A) → P a → Holds Q (f a))
    → Holds Q (r >>= f)
unfolding Holds
Holds-bind P Q (ok a) f h k = k a h
Holds-bind P Q (err e) f h k = tt

pub Holds-imp {ℓ κ} :
    {E : Type ℓ} {A : Type κ} (P Q : A → Type 0) (r : Result E A)
    → Holds P r
    → ((a : A) → P a → Q a)
    → Holds Q r
unfolding Holds
Holds-imp P Q (ok a) h k = k a h
Holds-imp P Q (err e) h k = tt

pub Holds-ok {ℓ κ} :
    (E : Type ℓ) {A : Type κ} (P : A → Type 0) (a : A) → P a → Holds {E = E} P (ok a)
unfolding Holds
Holds-ok E P a h = h
