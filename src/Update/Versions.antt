-- ===== src/Update/Versions.antt =====
-- `is_newer` and `verify_artifact` of src/update.rs. The numbers of a version text (trimmed, without
-- a leading `v`, split at dots and dashes, 0 for a part that is no number) are given as a list.
use hitl_daemon.Base.{
  ℕ, zero, suc, Bool, false, max, ltb, ◌==◌, if◌then◌else◌, List, [], ◌∷◌, length, Result, ok, err,
}

-- `a.get(i).copied().unwrap_or(0)`.
abbrev pub part_at : List ℕ → ℕ → ℕ
part_at [] i = 0
part_at (n ∷ parts) zero = n
part_at (n ∷ parts) (suc i) = part_at parts i

-- The loop over the positions, where `left` are still to come.
unfoldable pub newer_from : (left i : ℕ) → List ℕ → List ℕ → Bool
newer_from zero i a b = false
newer_from (suc left) i a b =
    let rest = newer_from left (suc i) a b in
    if part_at a i == part_at b i then rest else ltb (part_at b i) (part_at a i)

unfoldable pub newer_parts : List ℕ → List ℕ → Bool
newer_parts a b = newer_from (max (length a) (length b)) 0 a b

unfoldable pub is_newer : {T : Type 0} → (T → List ℕ) → T → T → Bool
is_newer parts candidate current = newer_parts (parts candidate) (parts current)

-- `verify_artifact`: the hash of the bytes and the comparison without case are given.
unfoldable pub verify_artifact :
    {H : Type 0} → (List ℕ → H) → (H → H → Bool) → List ℕ → H → Result (H × H) (Unit {0})
verify_artifact sha256_hex eq_ignore_ascii_case bytes expected =
    if eq_ignore_ascii_case (sha256_hex bytes) expected
    then ok tt
    else err (expected, sha256_hex bytes)
