-- ===== src/Terrain/Keyed.antt =====
-- A hash map as a list of keys and values, over a key type with a test for equality. The order of
-- the list stands for the map's own order, which nothing relies on.
use hitl_daemon.Base.{
  suc, Bool, true, false, not, ◌&&◌, ◌||◌, if◌then◌else◌, ◌≡◌, refl, sym, ap, ◌∙◌, List, [], ◌∷◌,
  length, arith, Bool-cases, inl, inr,
}

module _ {A : Type 0} (eq : A → A → Bool) (sound : (a b : A) → eq a b ≡ true → a ≡ b) where
  pub eq-right : (k c d : A) → eq c d ≡ true → eq k c ≡ eq k d
  eq-right k c d h = cc (sound c d h)

  pub eq-left : (k c d : A) → eq k c ≡ true → eq k d ≡ eq c d
  eq-left k c d h = cc (sound k c h)

pub eq_comm :
    {A : Type 0} (eq : A → A → Bool) (sound : (a b : A) → eq a b ≡ true → a ≡ b) (c d : A)
    → eq c d ≡ eq d c
eq_comm eq sound c d = elim (Bool-cases (eq c d)) [
  | inl e ↦ cc (sound c d e)
  | inr e ↦ elim (Bool-cases (eq d c)) [ inl f ↦ cc (sound d c f) | inr f ↦ e ∙ sym f ]
]

module _ {A B : Type 0} (eq : A → A → Bool) where
  unfoldable pub contains_key : A → List (A × B) → Bool
  contains_key k [] = false
  contains_key k ((c, v) ∷ m) = eq k c || contains_key k m

  unfoldable pub insert : A → B → List (A × B) → List (A × B)
  insert k v [] = (k, v) ∷ []
  insert k v ((c, w) ∷ m) = if eq k c then (k, v) ∷ m else (c, w) ∷ insert k v m

  unfoldable pub remove : A → List (A × B) → List (A × B)
  remove k [] = []
  remove k ((c, w) ∷ m) = if eq k c then m else (c, w) ∷ remove k m

  -- No key stands twice.
  unfoldable pub Distinct : List (A × B) → Type 0
  Distinct [] = Unit {0}
  Distinct ((c, v) ∷ m) = (contains_key c m ≡ false) × Distinct m

  -- Every entry has a property.
  unfoldable pub Every : (A → B → Type 0) → List (A × B) → Type 0
  Every P [] = Unit {0}
  Every P ((c, v) ∷ m) = P c v × Every P m

  module _ (sound : (a b : A) → eq a b ≡ true → a ≡ b) (same : (a : A) → eq a a ≡ true) where
    contains_key-eq :
        (k d : A) (m : List (A × B)) → eq k d ≡ true → contains_key k m ≡ contains_key d m
    contains_key-eq k d m h = ap (λ a. contains_key a m) (sound k d h)

    pub contains_key-insert :
        (k c : A) (v : B) (m : List (A × B))
        → contains_key k (insert c v m) ≡ (eq k c || contains_key k m)
    unfolding contains_key insert
    contains_key-insert k c v [] = refl
    contains_key-insert k c v ((d, w) ∷ m) =
        ground (arith, contains_key-insert k c v m, eq-right eq sound k c d, eq-left eq sound k c d)

    pub Distinct-insert : (c : A) (v : B) (m : List (A × B)) → Distinct m → Distinct (insert c v m)
    unfolding contains_key insert Distinct
    Distinct-insert c v [] h = (refl, tt)
    Distinct-insert c v ((d, w) ∷ m) h = elim (Bool-cases (eq c d)) [
      | inl e ↦ rw (e, insert) (contains_key-eq c d m e ∙ h.0, h.1)
      | inr e ↦
          rw (e, insert)
            (
              ground (arith, contains_key-insert d c v m, eq_comm eq sound c d, h, e),
              Distinct-insert c v m h.1,
            )
    ]

    pub contains_key-remove :
        (k c : A) (m : List (A × B))
        → Distinct m
        → contains_key k (remove c m) ≡ (not (eq k c) && contains_key k m)
    unfolding contains_key remove Distinct
    contains_key-remove k c [] h = ground arith
    contains_key-remove k c ((d, w) ∷ m) h = ground (
      arith,
      contains_key-remove k c m h.1,
      eq-right eq sound k c d,
      eq-left eq sound k c d,
      contains_key-eq k d m,
      h,
    )

    pub Distinct-remove : (c : A) (m : List (A × B)) → Distinct m → Distinct (remove c m)
    unfolding contains_key remove Distinct
    Distinct-remove c [] h = tt
    Distinct-remove c ((d, w) ∷ m) h = elim (Bool-cases (eq c d)) [
      | inl e ↦ rw (e, remove) h.1
      | inr e ↦
          rw (e, remove) (ground (arith, contains_key-remove d c m h.1, h), Distinct-remove c m h.1)
    ]

    pub length-remove :
        (c : A) (m : List (A × B)) → contains_key c m ≡ true → suc (length (remove c m)) ≡ length m
    unfolding contains_key remove
    length-remove c [] h = absurd (cc h)
    length-remove c ((d, w) ∷ m) h = ground (arith, length-remove c m)

  pub Every-insert :
      (P : A → B → Type 0) (c : A) (v : B) (m : List (A × B))
      → P c v
      → Every P m
      → Every P (insert c v m)
  unfolding insert Every
  Every-insert P c v [] p h = (p, tt)
  Every-insert P c v ((d, w) ∷ m) p h = elim (Bool-cases (eq c d)) [
    | inl e ↦ rw (e, insert) (p, h.1)
    | inr e ↦ rw (e, insert) (h.0, Every-insert P c v m p h.1)
  ]

  pub Every-remove :
      (P : A → B → Type 0) (c : A) (m : List (A × B)) → Every P m → Every P (remove c m)
  unfolding remove Every
  Every-remove P c [] h = tt
  Every-remove P c ((d, w) ∷ m) h = elim (Bool-cases (eq c d)) [
    | inl e ↦ rw (e, remove) h.1
    | inr e ↦ rw (e, remove) (h.0, Every-remove P c m h.1)
  ]
