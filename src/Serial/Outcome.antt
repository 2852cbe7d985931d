-- ===== src/Serial/Outcome.antt =====
-- What an answer of the search rests on, and which ports it opens.
use hitl_daemon.Base.{
  ℕ, Bool, true, false, ◌≡◌, ◌⊎◌, inl, inr, refl, sym, subst, ◌∙◌, if◌then◌else◌, List, [], ◌∷◌,
  ◌++◌, append_nil,
}
use hitl_daemon.Serial.Ports.{find_pixhawk_ports, candidate_probe_ports}
use hitl_daemon.Serial.Detect.{
  World, is_heard, Detected, probe_ports, after_scan, detect_flight_controller,
}
use hitl_daemon.Serial.Candidates.{Covered, candidate_probe_ports-Covered}
use hitl_daemon.Serial.DetectLaws.{
  append_assoc, AllNamed, is_ready_board, is_booting_board, may_open, Sorted, of_listing,
  find_pixhawk_ports-Sorted, candidate_probe_ports-Candidates,
}

module _ (w : World) where
  -- Opened, one after the other, without a heartbeat.
  abbrev pub Silent : List (List ℕ) → Type 0
  Silent [] = Unit {0}
  Silent (port ∷ ports) = (is_heard (w.probed port) ≡ false) × Silent ports

  Silent-append :
      (xs : List (List ℕ)) (port : List ℕ)
      → Silent xs
      → is_heard (w.probed port) ≡ false
      → Silent (xs ++ port ∷ [])
  Silent-append [] port k h = (h, tt)
  Silent-append (x ∷ xs) port (a, k) h = (a, Silent-append xs port k h)

  -- The names of ports that may be opened: of another vendor, in no bootloader and not excluded by name.
  abbrev Openable : List (List ℕ) → Type 0
  Openable = AllNamed w.on_macos w.exists may_open (of_listing w.on_macos w.exists w.listed_again)

  abbrev candidates : List (List ℕ)
  candidates = candidate_probe_ports w.on_macos w.exists w.listed_again

  -- The candidates are the ports that may be opened. They are opened in their order up to the first
  -- that beats, which is taken, or all of them and none is taken.
  abbrev Probed : Detected w → Type 0
  Probed (opened, outcome) =
      Openable candidates
      × Covered w.on_macos w.exists (of_listing w.on_macos w.exists w.listed_again) candidates
      × (outcome.bootloader ≡ [])
      × (outcome.examined ≡ opened)
      × (((outcome.found ≡ []) × (opened ≡ candidates) × Silent candidates)
          ⊎ ((port : List ℕ) × (before unopened : List (List ℕ)) × (outcome.found ≡ port ∷ [])
              × (opened ≡ before ++ port ∷ [])
              × (candidates ≡ before ++ port ∷ unopened)
              × Silent before
              × (is_heard (w.probed port) ≡ true)))

  Probed-if :
      (t : Bool) (x y : Detected w)
      → (t ≡ true → Probed x)
      → (t ≡ false → Probed y)
      → Probed (if t then x else y)
  Probed-if true x y f g = f refl
  Probed-if false x y f g = g refl

  probe_ports-Probed :
      (opened left : List (List ℕ))
      → candidates ≡ opened ++ left
      → Silent opened
      → Probed (probe_ports w opened opened left)
  unfolding probe_ports
  probe_ports-Probed opened [] q s =
      let all : candidates ≡ opened = q ∙ append_nil opened in
      (
        candidate_probe_ports-Candidates w.on_macos w.exists w.listed_again,
        candidate_probe_ports-Covered w.on_macos w.exists w.listed_again,
        refl,
        refl,
        inl (refl, sym all, subst Silent (sym all) s),
      )
  probe_ports-Probed opened (port ∷ left) q s =
      Probed-if (is_heard (w.probed port)) _
        (probe_ports w (opened ++ port ∷ []) (opened ++ port ∷ []) left)
        (λ h. (
          candidate_probe_ports-Candidates w.on_macos w.exists w.listed_again,
          candidate_probe_ports-Covered w.on_macos w.exists w.listed_again,
          refl,
          refl,
          inr (port, opened, left, refl, refl, q, s, h),
        ))
        (λ h.
          probe_ports-Probed (opened ++ port ∷ []) left
            (q ∙ sym (append_assoc opened (port ∷ []) left)) (Silent-append opened port s h))

  abbrev NonEmpty : List (List ℕ) → Type 0
  NonEmpty [] = ⊥
  NonEmpty (name ∷ names) = Unit {0}

  -- A board by its vendor, for which no port is opened.
  abbrev Recognised : Detected w → Type 0
  Recognised (opened, outcome) =
      (opened ≡ [])
      × (outcome.adopted_by_probe ≡ false)
      × AllNamed w.on_macos w.exists is_ready_board (of_listing w.on_macos w.exists w.listed)
          outcome.found
      × AllNamed w.on_macos w.exists is_booting_board (of_listing w.on_macos w.exists w.listed)
          outcome.bootloader
      × (NonEmpty outcome.found ⊎ ((outcome.found ≡ []) × NonEmpty outcome.bootloader))

  -- With none of those the other ports are probed.
  abbrev pub Outcome : Detected w → Type 0
  Outcome d =
      Recognised d
      ⊎ (((find_pixhawk_ports w.on_macos w.exists w.listed).ready ≡ [])
          × ((find_pixhawk_ports w.on_macos w.exists w.listed).bootloader ≡ [])
          × Probed d)

  after_scan-Outcome :
      (ready bootloader : List (List ℕ))
      → (find_pixhawk_ports w.on_macos w.exists w.listed).ready ≡ ready
      → (find_pixhawk_ports w.on_macos w.exists w.listed).bootloader ≡ bootloader
      → Sorted w.on_macos w.exists
          (of_listing w.on_macos w.exists w.listed)
          (record { ready = ready; bootloader = bootloader })
      → Outcome (after_scan w ready bootloader)
  after_scan-Outcome (port ∷ ready) bootloader p q (a, b) = inl (refl, refl, a, b, inl tt)
  after_scan-Outcome [] (port ∷ bootloader) p q (a, b) = inl (refl, refl, a, b, inr (refl, tt))
  after_scan-Outcome [] [] p q k = inr (p, q, probe_ports-Probed [] candidates refl tt)

  -- Where a board is recognised by its vendor no port is opened, the boards found are listed with
  -- a product that is no bootloader's, and those reported as starting with one that is. Where none
  -- is, the candidates are listed USB ports of other vendors that are in no bootloader and not
  -- excluded by name, and no such port is left out; they are opened in their order, each without a
  -- heartbeat, up to the first that is adopted for its heartbeat, and where none has one all of
  -- them are opened and none is adopted. The ports examined are those opened.
  pub detect_flight_controller-Outcome : Outcome (detect_flight_controller w)
  unfolding detect_flight_controller
  detect_flight_controller-Outcome =
      let scan = find_pixhawk_ports w.on_macos w.exists w.listed in
      after_scan-Outcome scan.ready scan.bootloader refl refl
        (find_pixhawk_ports-Sorted w.on_macos w.exists w.listed)
