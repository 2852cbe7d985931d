-- ===== src/Terrain/Ranked.antt =====
-- Keys with their distances, sorted with the furthest first as `sort_by` does: the sort is stable.
use hitl_daemon.Base.{
  ℕ, zero, suc, Bool, true, false, ◌||◌, leb, if◌then◌else◌, ◌≡◌, ◌≤◌, refl, sym, ap, ◌∙◌, List, [],
  ◌∷◌, length, take, drop, arith, Bool-cases, leb→le, subst, inl, inr,
}
use hitl_daemon.Terrain.Keyed.{eq_comm}

module _ {A : Type 0} where
  -- Puts a key behind the ones that are further.
  unfoldable pub insert_ranked : ℕ × A → List (ℕ × A) → List (ℕ × A)
  insert_ranked p [] = p ∷ []
  insert_ranked p (q ∷ l) = if leb q.0 p.0 then p ∷ q ∷ l else q ∷ insert_ranked p l

  unfoldable pub sort_furthest_first : List (ℕ × A) → List (ℕ × A)
  sort_furthest_first [] = []
  sort_furthest_first (p ∷ l) = insert_ranked p (sort_furthest_first l)

  -- Nothing in the list is further than `n`.
  unfoldable pub Within : ℕ → List (ℕ × A) → Type 0
  Within n [] = Unit {0}
  Within n (p ∷ l) = (p.0 ≤ n) × Within n l

  -- The distances fall.
  unfoldable pub Descending : List (ℕ × A) → Type 0
  Descending [] = Unit {0}
  Descending (p ∷ l) = Within p.0 l × Descending l

  -- Each distance is the one that its key has.
  unfoldable pub Measured : (A → ℕ) → List (ℕ × A) → Type 0
  Measured dist [] = Unit {0}
  Measured dist (p ∷ l) = (p.0 ≡ dist p.1) × Measured dist l

  Within-mono : (m n : ℕ) (l : List (ℕ × A)) → m ≤ n → Within m l → Within n l
  unfolding Within
  Within-mono m n [] h w = tt
  Within-mono m n (p ∷ l) h w = (omega (arith, w.0), Within-mono m n l h w.1)

  Within-insert_ranked :
      (n : ℕ) (p : ℕ × A) (l : List (ℕ × A)) → p.0 ≤ n → Within n l → Within n (insert_ranked p l)
  unfolding Within insert_ranked
  Within-insert_ranked n p [] h w = (h, tt)
  Within-insert_ranked n p (q ∷ l) h w = elim (Bool-cases (leb q.0 p.0)) [
    | inl e ↦ rw (e, insert_ranked) (h, w)
    | inr e ↦ rw (e, insert_ranked) (w.0, Within-insert_ranked n p l h w.1)
  ]

  Descending-insert_ranked :
      (p : ℕ × A) (l : List (ℕ × A)) → Descending l → Descending (insert_ranked p l)
  unfolding Within insert_ranked Descending
  Descending-insert_ranked p [] d = (tt, tt)
  Descending-insert_ranked p (q ∷ l) d = elim (Bool-cases (leb q.0 p.0)) [
    | inl e ↦
        let near : q.0 ≤ p.0 = leb→le q.0 p.0 e in
        rw (e, insert_ranked) ((near, Within-mono q.0 p.0 l near d.0), d)
    | inr e ↦
        rw (e, insert_ranked)
          (Within-insert_ranked q.0 p l (ground (arith, e)) d.0, Descending-insert_ranked p l d.1)
  ]

  pub sort-Descending : (l : List (ℕ × A)) → Descending (sort_furthest_first l)
  unfolding sort_furthest_first Descending
  sort-Descending [] = tt
  sort-Descending (p ∷ l) = Descending-insert_ranked p (sort_furthest_first l) (sort-Descending l)

  Measured-insert_ranked :
      (dist : A → ℕ) (p : ℕ × A) (l : List (ℕ × A))
      → p.0 ≡ dist p.1
      → Measured dist l
      → Measured dist (insert_ranked p l)
  unfolding insert_ranked Measured
  Measured-insert_ranked dist p [] h m = (h, tt)
  Measured-insert_ranked dist p (q ∷ l) h m = elim (Bool-cases (leb q.0 p.0)) [
    | inl e ↦ rw (e, insert_ranked) (h, m)
    | inr e ↦ rw (e, insert_ranked) (m.0, Measured-insert_ranked dist p l h m.1)
  ]

  pub sort-Measured :
      (dist : A → ℕ) (l : List (ℕ × A)) → Measured dist l → Measured dist (sort_furthest_first l)
  unfolding sort_furthest_first Measured
  sort-Measured dist [] m = tt
  sort-Measured dist (p ∷ l) m =
      Measured-insert_ranked dist p (sort_furthest_first l) m.0 (sort-Measured dist l m.1)

  length-insert_ranked :
      (p : ℕ × A) (l : List (ℕ × A)) → length (insert_ranked p l) ≡ suc (length l)
  unfolding insert_ranked
  length-insert_ranked p [] = refl
  length-insert_ranked p (q ∷ l) = ground (arith, length-insert_ranked p l)

  pub length-sort : (l : List (ℕ × A)) → length (sort_furthest_first l) ≡ length l
  unfolding sort_furthest_first
  length-sort [] = refl
  length-sort (p ∷ l) = length-insert_ranked p (sort_furthest_first l) ∙ ap suc (length-sort l)

module _ {A : Type 0} (eq : A → A → Bool) where
  unfoldable pub ranks : A → List (ℕ × A) → Bool
  ranks k [] = false
  ranks k (p ∷ l) = eq k p.1 || ranks k l

  -- No key is ranked twice.
  unfoldable pub Unique : List (ℕ × A) → Type 0
  Unique [] = Unit {0}
  Unique (p ∷ l) = (ranks p.1 l ≡ false) × Unique l

  pub ranks-take-drop :
      (k : A) (n : ℕ) (l : List (ℕ × A)) → ranks k l ≡ (ranks k (take n l) || ranks k (drop n l))
  unfolding ranks
  ranks-take-drop k zero l = refl
  ranks-take-drop k (suc n) [] = refl
  ranks-take-drop k (suc n) (p ∷ l) = ground (arith, ranks-take-drop k n l)

  ranks-insert_ranked :
      (k : A) (p : ℕ × A) (l : List (ℕ × A)) → ranks k (insert_ranked p l) ≡ (eq k p.1 || ranks k l)
  unfolding ranks insert_ranked
  ranks-insert_ranked k p [] = refl
  ranks-insert_ranked k p (q ∷ l) = ground (arith, ranks-insert_ranked k p l)

  pub ranks-sort : (k : A) (l : List (ℕ × A)) → ranks k (sort_furthest_first l) ≡ ranks k l
  unfolding ranks sort_furthest_first
  ranks-sort k [] = refl
  ranks-sort k (p ∷ l) =
      ranks-insert_ranked k p (sort_furthest_first l) ∙ ap (λ b. eq k p.1 || b) (ranks-sort k l)

  module _ (sound : (a b : A) → eq a b ≡ true → a ≡ b) where
    Unique-insert_ranked :
        (p : ℕ × A) (l : List (ℕ × A)) → ranks p.1 l ≡ false → Unique l → Unique (insert_ranked p l)
    unfolding ranks insert_ranked Unique
    Unique-insert_ranked p [] h u = (refl, tt)
    Unique-insert_ranked p (q ∷ l) h u = elim (Bool-cases (leb q.0 p.0)) [
      | inl e ↦ rw (e, insert_ranked) (h, u)
      | inr e ↦
          rw (e, insert_ranked)
            (
              ground (arith, ranks-insert_ranked q.1 p l, eq_comm eq sound q.1 p.1, h, u.0),
              Unique-insert_ranked p l (ground (arith, h)) u.1,
            )
    ]

    pub sort-Unique : (l : List (ℕ × A)) → Unique l → Unique (sort_furthest_first l)
    unfolding sort_furthest_first Unique
    sort-Unique [] u = tt
    sort-Unique (p ∷ l) u =
        Unique-insert_ranked p (sort_furthest_first l) (ranks-sort p.1 l ∙ u.0) (sort-Unique l u.1)

    Within-ranks :
        (dist : A → ℕ) (n : ℕ) (k : A) (l : List (ℕ × A))
        → Within n l
        → Measured dist l
        → ranks k l ≡ true
        → dist k ≤ n
    unfolding Within Measured ranks
    Within-ranks dist n k [] w m r = absurd (cc r)
    Within-ranks dist n k (p ∷ l) w m r = elim (Bool-cases (eq k p.1)) [
      | inl e ↦ subst (λ a. dist a ≤ n) (sym (sound k p.1 e)) (omega (arith, m.0, w.0))
      | inr e ↦ Within-ranks dist n k l w.1 m.1 (ground (arith, r, e))
    ]

    -- What is taken off the front is at least as far as what stays.
    pub ranks-further :
        (dist : A → ℕ) (n : ℕ) (k j : A) (l : List (ℕ × A))
        → Descending l
        → Measured dist l
        → ranks k (take n l) ≡ true
        → ranks j (drop n l) ≡ true
        → dist j ≤ dist k
    unfolding Measured Descending ranks
    ranks-further dist zero k j l d m taken left = absurd (cc taken)
    ranks-further dist (suc n) k j [] d m taken left = absurd (cc taken)
    ranks-further dist (suc n) k j (p ∷ l) d m taken left = elim (Bool-cases (eq k p.1)) [
      | inl e ↦
          subst (λ a. dist j ≤ dist a) (sym (sound k p.1 e))
            (subst (λ x. dist j ≤ x) m.0
              (Within-ranks dist p.0 j l d.0 m.1 (ground (arith, left, ranks-take-drop j n l))))
      | inr e ↦ ranks-further dist n k j l d.1 m.1 (ground (arith, taken, e)) left
    ]
