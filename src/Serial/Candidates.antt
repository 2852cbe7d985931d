-- ===== src/Serial/Candidates.antt =====
-- crates/mavlink-io/src/serial.rs: no listed port that may be opened is left out of the candidates.
use hitl_daemon.Base.{
  ℕ, Bool, true, false, ◌≡◌, ◌⊎◌, inl, inr, if◌then◌else◌, Option, none, some, List, [], ◌∷◌, ◌++◌,
  arith, Bool-cases,
}
use hitl_daemon.Handler.ShellLaws.{same_bytes_refl}
use hitl_daemon.Serial.Ports.{
  UsbPortInfo, Listed, has_name, push_name, usb_ports, maybe_prefer_tty, is_candidate,
  candidates_from, candidate_probe_ports,
}
use hitl_daemon.Serial.DetectLaws.{may_open, of_listing}

has_name-append :
    (names more : List (List ℕ)) (name : List ℕ)
    → has_name names name ≡ true
    → has_name (names ++ more) name ≡ true
has_name-append [] more name h = absurd (cc h)
has_name-append (x ∷ names) more name h =
    let rest = has_name-append names more name in ground (arith, h, rest)

has_name-last : (names : List (List ℕ)) (name : List ℕ) → has_name (names ++ name ∷ []) name ≡ true
has_name-last [] name = let q = same_bytes_refl name in ground (arith, q)
has_name-last (x ∷ names) name = let rest = has_name-last names name in ground (arith, rest)

push_name-has :
    (names : List (List ℕ)) (name : List ℕ) → has_name (push_name names name) name ≡ true
push_name-has names name = elim (Bool-cases (has_name names name)) [
  | inl p ↦ rw p p
  | inr p ↦ rw p (has_name-last names name)
]

push_name-keeps :
    (names : List (List ℕ)) (name kept : List ℕ)
    → has_name names kept ≡ true
    → has_name (push_name names name) kept ≡ true
push_name-keeps names name kept h = elim (Bool-cases (has_name names name)) [
  | inl p ↦ rw p h
  | inr p ↦ rw p (has_name-append names (name ∷ []) kept h)
]

module _ (on_macos : Bool) (exists : List ℕ → Bool) where
  abbrev taken : List (List ℕ) → UsbPortInfo → List (List ℕ)
  taken names port =
      if is_candidate on_macos exists port
      then push_name names (maybe_prefer_tty on_macos exists port.name)
      else names

  -- Every port that may be opened has its name in the list.
  abbrev pub Covered : List UsbPortInfo → List (List ℕ) → Type 0
  Covered [] names = Unit {0}
  Covered (port ∷ ports) names =
      ((may_open port ≡ false)
        ⊎ (has_name names (maybe_prefer_tty on_macos exists port.name) ≡ true))
      × Covered ports names

  taken-keeps :
      (names : List (List ℕ)) (port : UsbPortInfo) (kept : List ℕ)
      → has_name names kept ≡ true
      → has_name (taken names port) kept ≡ true
  taken-keeps names port kept h = elim (Bool-cases (is_candidate on_macos exists port)) [
    | inl p ↦ rw p (push_name-keeps names (maybe_prefer_tty on_macos exists port.name) kept h)
    | inr p ↦ rw p h
  ]

  candidates_from-keeps :
      (names : List (List ℕ)) (ports : List UsbPortInfo) (kept : List ℕ)
      → has_name names kept ≡ true
      → has_name (candidates_from on_macos exists names ports) kept ≡ true
  unfolding candidates_from
  candidates_from-keeps names [] kept h = h
  candidates_from-keeps names (port ∷ ports) kept h =
      candidates_from-keeps (taken names port) ports kept (taken-keeps names port kept h)

  taken-has :
      (names : List (List ℕ)) (port : UsbPortInfo)
      → (may_open port ≡ false)
        ⊎ (has_name (taken names port) (maybe_prefer_tty on_macos exists port.name) ≡ true)
  taken-has names port = elim (Bool-cases (is_candidate on_macos exists port)) [
    | inl p ↦ inr (rw p (push_name-has names (maybe_prefer_tty on_macos exists port.name)))
    | inr p ↦ inl p
  ]

  candidates_from-Covered :
      (names : List (List ℕ)) (ports : List UsbPortInfo)
      → Covered ports (candidates_from on_macos exists names ports)
  unfolding candidates_from
  candidates_from-Covered names [] = tt
  candidates_from-Covered names (port ∷ ports) = (
    elim (taken-has names port) [
      | inl p ↦ inl p
      | inr p ↦ inr (
          candidates_from-keeps (taken names port) ports
            (maybe_prefer_tty on_macos exists port.name) p)
    ],
    candidates_from-Covered (taken names port) ports,
  )

  pub candidate_probe_ports-Covered :
      (listed : Option (List Listed))
      → Covered (of_listing on_macos exists listed) (candidate_probe_ports on_macos exists listed)
  unfolding candidate_probe_ports
  candidate_probe_ports-Covered none = tt
  candidate_probe_ports-Covered (some listed) = candidates_from-Covered [] (usb_ports listed)
