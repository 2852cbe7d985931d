-- ===== src/Update/Order.antt =====
-- "Newer" is a strict order of versions, in which missing parts are zeros.
use hitl_daemon.Base.{
  ℕ, zero, suc, true, false, max, ◌+◌, ◌≤◌, ◌≡◌, refl, sym, ◌∙◌, List, [], ◌∷◌, length, arith,
}
use hitl_daemon.Update.Versions.{part_at, newer_from, newer_parts, is_newer}

part_at-past : (a : List ℕ) (i : ℕ) → length a ≤ i → part_at a i ≡ 0
part_at-past [] i h = refl
part_at-past (n ∷ a) zero h = absurd (omega arith)
part_at-past (n ∷ a) (suc i) h = part_at-past a i (omega arith)

-- Positions behind both versions decide nothing.
newer_from-past :
    (n i : ℕ) (a b : List ℕ) → length a ≤ i → length b ≤ i → newer_from n i a b ≡ false
unfolding newer_from
newer_from-past zero i a b ha hb = refl
newer_from-past (suc n) i a b ha hb = ground (
  arith,
  part_at-past a i ha,
  part_at-past b i hb,
  newer_from-past n (suc i) a b (omega arith) (omega arith),
)

newer_from-enough :
    (m n i : ℕ) (a b : List ℕ)
    → m ≤ n
    → length a ≤ i + m
    → length b ≤ i + m
    → newer_from m i a b ≡ newer_from n i a b
unfolding newer_from
newer_from-enough zero n i a b h ha hb = sym (newer_from-past n i a b (omega arith) (omega arith))
newer_from-enough (suc m) zero i a b h ha hb = absurd (omega arith)
newer_from-enough (suc m) (suc n) i a b h ha hb =
    ground (arith, newer_from-enough m n (suc i) a b (omega arith) (omega arith) (omega arith))

newer_from-asym : (n i : ℕ) (a b : List ℕ) → newer_from n i a b ≡ true → newer_from n i b a ≡ false
unfolding newer_from
newer_from-asym zero i a b h = refl
newer_from-asym (suc n) i a b h = ground (arith, h, newer_from-asym n (suc i) a b)

newer_from_trans :
    (n i : ℕ) (a b c : List ℕ)
    → newer_from n i a b ≡ true
    → newer_from n i b c ≡ true
    → newer_from n i a c ≡ true
unfolding newer_from
newer_from_trans zero i a b c h k = h
newer_from_trans (suc n) i a b c h k = ground (arith, h, k, newer_from_trans n (suc i) a b c)

newer_parts-at :
    (n : ℕ) (a b : List ℕ) → length a ≤ n → length b ≤ n → newer_parts a b ≡ newer_from n 0 a b
unfolding newer_parts
newer_parts-at n a b ha hb =
    newer_from-enough (max (length a) (length b)) n 0 a b (omega arith) (omega arith) (omega arith)

module _ {T : Type 0} (parts : T → List ℕ) where
  pub is_newer-asym : (a b : T) → is_newer parts a b ≡ true → is_newer parts b a ≡ false
  unfolding is_newer
  is_newer-asym a b h =
      let n = max (length (parts a)) (length (parts b)) in
      newer_parts-at n (parts b) (parts a) (omega arith) (omega arith)
      ∙ newer_from-asym n 0 (parts a) (parts b)
          (sym (newer_parts-at n (parts a) (parts b) (omega arith) (omega arith)) ∙ h)

  -- Being newer is transitive on versions, whatever the numbers of parts they have.
  pub is_newer_trans :
      (a b c : T)
      → is_newer parts a b ≡ true
      → is_newer parts b c ≡ true
      → is_newer parts a c ≡ true
  unfolding is_newer
  is_newer_trans a b c h k =
      let n = max (length (parts a)) (max (length (parts b)) (length (parts c))) in
      newer_parts-at n (parts a) (parts c) (omega arith) (omega arith)
      ∙ newer_from_trans n 0 (parts a) (parts b) (parts c)
          (sym (newer_parts-at n (parts a) (parts b) (omega arith) (omega arith)) ∙ h)
          (sym (newer_parts-at n (parts b) (parts c) (omega arith) (omega arith)) ∙ k)
