-- ===== src/Serial/DetectLaws.antt =====
-- Which ports are opened, and what an answer of the search rests on.
use hitl_daemon.Base.{
  ℕ, Bool, true, not, ◌&&◌, ◌≡◌, ◌⊎◌, inl, inr, refl, sym, ap, subst, if◌then◌else◌, Option, none,
  some, List, [], ◌∷◌, ◌++◌, arith, Bool-cases,
}
use hitl_daemon.Serial.Ports.{
  is_pixhawk_vid, is_bootloader_product, is_excluded_port, UsbPortInfo, PixhawkScan, Listed,
  has_name, push_name, usb_ports, maybe_prefer_tty, classify, classify_from, classify_ports,
  find_pixhawk_ports, is_candidate, candidates_from, candidate_probe_ports,
}

module _ (on_macos : Bool) (exists : List ℕ → Bool) (admits : UsbPortInfo → Bool) where
  -- The name of a listed port that the test admits.
  abbrev pub Named : List UsbPortInfo → List ℕ → Type 0
  Named [] name = ⊥
  Named (port ∷ ports) name =
      ((admits port ≡ true) × (name ≡ maybe_prefer_tty on_macos exists port.name))
      ⊎ Named ports name

  abbrev pub AllNamed : List UsbPortInfo → List (List ℕ) → Type 0
  AllNamed ports [] = Unit {0}
  AllNamed ports (name ∷ names) = Named ports name × AllNamed ports names

  AllNamed-append :
      (ports : List UsbPortInfo) (xs ys : List (List ℕ))
      → AllNamed ports xs
      → AllNamed ports ys
      → AllNamed ports (xs ++ ys)
  AllNamed-append ports [] ys a b = b
  AllNamed-append ports (x ∷ xs) ys (n, a) b = (n, AllNamed-append ports xs ys a b)

  AllNamed-push :
      (ports : List UsbPortInfo) (names : List (List ℕ)) (name : List ℕ)
      → AllNamed ports names
      → Named ports name
      → AllNamed ports (push_name names name)
  AllNamed-push ports names name a n = elim (Bool-cases (has_name names name)) [
    | inl p ↦ rw p a
    | inr p ↦ rw p (AllNamed-append ports names (name ∷ []) a (n, tt))
  ]

  Named-append :
      (before : List UsbPortInfo) (port : UsbPortInfo) (after : List UsbPortInfo)
      → admits port ≡ true
      → Named (before ++ port ∷ after) (maybe_prefer_tty on_macos exists port.name)
  Named-append [] port after h = inl (h, refl)
  Named-append (x ∷ before) port after h = inr (Named-append before port after h)

abbrev pub is_ready_board : UsbPortInfo → Bool
is_ready_board port = is_pixhawk_vid port.vid && not (is_bootloader_product port.product)

abbrev pub is_booting_board : UsbPortInfo → Bool
is_booting_board port = is_pixhawk_vid port.vid && is_bootloader_product port.product

-- Of another vendor, in no bootloader and not excluded by its name.
abbrev pub may_open : UsbPortInfo → Bool
may_open port =
    not (is_pixhawk_vid port.vid)
    && (not (is_bootloader_product port.product) && not (is_excluded_port port.name))

pub append_assoc : {A : Type 0} (xs ys zs : List A) → (xs ++ ys) ++ zs ≡ xs ++ (ys ++ zs)
append_assoc [] ys zs = refl
append_assoc (x ∷ xs) ys zs = ap (λ l. x ∷ l) (append_assoc xs ys zs)

module _ (on_macos : Bool) (exists : List ℕ → Bool) where
  abbrev pub Sorted : List UsbPortInfo → PixhawkScan → Type 0
  Sorted ports scan =
      AllNamed on_macos exists is_ready_board ports scan.ready
      × AllNamed on_macos exists is_booting_board ports scan.bootloader

  classify-Sorted :
      (before : List UsbPortInfo) (port : UsbPortInfo) (after : List UsbPortInfo)
      (scan : PixhawkScan)
      → Sorted (before ++ port ∷ after) scan
      → Sorted (before ++ port ∷ after) (classify on_macos exists scan port)
  classify-Sorted before port after scan (a, b) = elim (Bool-cases (is_pixhawk_vid port.vid)) [
    | inr p ↦ rw p (a, b)
    | inl p ↦ elim (Bool-cases (is_bootloader_product port.product)) [
      | inl q ↦
          rw (p, q)
            (
              a,
              AllNamed-push on_macos exists is_booting_board (before ++ port ∷ after)
                  scan.bootloader (maybe_prefer_tty on_macos exists port.name) b
                  (Named-append on_macos exists is_booting_board before port after
                    (ground (arith, p, q))),
            )
      | inr q ↦
          rw (p, q)
            (
              AllNamed-push on_macos exists is_ready_board (before ++ port ∷ after) scan.ready
                  (maybe_prefer_tty on_macos exists port.name) a
                  (Named-append on_macos exists is_ready_board before port after
                    (ground (arith, p, q))),
              b,
            )
    ]
  ]

  classify_from-Sorted :
      (before ports : List UsbPortInfo) (scan : PixhawkScan)
      → Sorted (before ++ ports) scan
      → Sorted (before ++ ports) (classify_from on_macos exists scan ports)
  unfolding classify_from
  classify_from-Sorted before [] scan k = k
  classify_from-Sorted before (port ∷ ports) scan k =
      let shift = append_assoc before (port ∷ []) ports in
      subst
        (λ l. Sorted l (classify_from on_macos exists (classify on_macos exists scan port) ports))
        shift
        (classify_from-Sorted (before ++ port ∷ []) ports (classify on_macos exists scan port) (
          subst (λ l. Sorted l (classify on_macos exists scan port)) (sym shift)
            (classify-Sorted before port ports scan k)))

  abbrev Candidates : List UsbPortInfo → List (List ℕ) → Type 0
  Candidates = AllNamed on_macos exists may_open

  candidate-step :
      (before : List UsbPortInfo) (port : UsbPortInfo) (after : List UsbPortInfo)
      (names : List (List ℕ))
      → Candidates (before ++ port ∷ after) names
      → Candidates (before ++ port ∷ after) (
          if is_candidate on_macos exists port
          then push_name names (maybe_prefer_tty on_macos exists port.name)
          else names)
  candidate-step before port after names k = elim (Bool-cases (is_candidate on_macos exists port)) [
    | inl p ↦ rw p (
        AllNamed-push on_macos exists may_open (before ++ port ∷ after) names
          (maybe_prefer_tty on_macos exists port.name) k
          (Named-append on_macos exists may_open before port after p))
    | inr p ↦ rw p k
  ]

  candidates_from-Candidates :
      (before ports : List UsbPortInfo) (names : List (List ℕ))
      → Candidates (before ++ ports) names
      → Candidates (before ++ ports) (candidates_from on_macos exists names ports)
  unfolding candidates_from
  candidates_from-Candidates before [] names k = k
  candidates_from-Candidates before (port ∷ ports) names k =
      let shift = append_assoc before (port ∷ []) ports in
      let next =
        if is_candidate on_macos exists port
        then push_name names (maybe_prefer_tty on_macos exists port.name)
        else names in
      subst (λ l. Candidates l (candidates_from on_macos exists next ports)) shift
        (candidates_from-Candidates (before ++ port ∷ []) ports next
          (subst (λ l. Candidates l next) (sym shift) (candidate-step before port ports names k)))

  -- The USB ports of a listing.
  abbrev pub of_listing : Option (List Listed) → List UsbPortInfo
  of_listing none = []
  of_listing (some listed) = usb_ports listed

  pub find_pixhawk_ports-Sorted :
      (listed : Option (List Listed))
      → Sorted (of_listing listed) (find_pixhawk_ports on_macos exists listed)
  unfolding find_pixhawk_ports classify_ports
  find_pixhawk_ports-Sorted none = (tt, tt)
  find_pixhawk_ports-Sorted (some listed) =
      classify_from-Sorted [] (usb_ports listed) (record { ready = []; bootloader = [] }) (tt, tt)

  pub candidate_probe_ports-Candidates :
      (listed : Option (List Listed))
      → AllNamed on_macos exists may_open
          (of_listing listed)
          (candidate_probe_ports on_macos exists listed)
  unfolding candidate_probe_ports
  candidate_probe_ports-Candidates none = tt
  candidate_probe_ports-Candidates (some listed) =
      candidates_from-Candidates [] (usb_ports listed) [] tt
