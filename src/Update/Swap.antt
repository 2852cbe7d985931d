-- ===== src/Update/Swap.antt =====
-- What is left in place of the daemon's binary, whichever call of the system fails.
use hitl_daemon.Base.{
  ℕ, Bool, true, false, not, ◌≡◌, ◌⊎◌, inl, inr, refl, if◌then◌else◌, Option, none, some, List,
  Result, ok, err, Bool-cases,
}
use hitl_daemon.Update.Install.{
  Files, Outcomes, UpdateError, could_not_stage, could_not_make_executable, could_not_set_aside,
  could_not_install, removed, aside, restored, install_verified,
}

-- The old binary is in its place or, when it could not be put back there, beside it.
abbrev pub Kept : Outcomes → List ℕ → Files → Type 0
Kept o old f = (f.current_exe ≡ some old) ⊎ ((o.restore ≡ false) × (f.backup ≡ some old))

-- The result of an installation over the binary `old`.
pub record Installed (o : Outcomes) (old verified : List ℕ)
    (r : Files × Result UpdateError (Unit {0})) : Type 0 where
  pub success : r.1 ≡ ok tt → (r.0.current_exe ≡ some verified) × (r.0.backup ≡ some old)
  pub failure : (e : UpdateError) → r.1 ≡ err e → Kept o old r.0

module _ (o : Outcomes) (old verified : List ℕ) where
  Installed-if :
      (t : Bool) (x y : Files × Result UpdateError (Unit {0}))
      → Installed o old verified x
      → Installed o old verified y
      → Installed o old verified (if t then x else y)
  Installed-if true x y hx hy = hx
  Installed-if false x y hx hy = hy

  failed : (f : Files) (e : UpdateError) → Kept o old f → Installed o old verified (f, err e)
  failed f e kept = record { success = λ h. absurd (cc h); failure = λ d h. kept }

  removed-Kept : (f : Files) → Kept o old f → Kept o old (removed o f)
  removed-Kept f kept = elim (Bool-cases o.remove_file) [ inl e ↦ rw e kept | inr e ↦ rw e kept ]

  restored-at :
      (t : Bool) (f : Files)
      → o.restore ≡ t
      → f.backup ≡ some old
      → Kept o old (if t then record f { current_exe = f.backup; backup = none } else f)
  restored-at true f e there = inl there
  restored-at false f e there = inr (e, there)

  restored-Kept : (f : Files) → f.backup ≡ some old → Kept o old (restored o f)
  restored-Kept f there = restored-at o.restore f refl there

  -- After an installation that reports success, the new binary is in place and the old one is the
  -- backup; after any failure the old one is in its place, or, if the rename that restores it
  -- failed too, it is the backup.
  pub install_verified-Installed :
      (partial : Option (List ℕ)) (f : Files)
      → f.current_exe ≡ some old
      → Installed o old verified (install_verified o partial verified f)
  unfolding install_verified
  install_verified-Installed partial f there =
      let staged : Files = record f { staged = some verified } in
      Installed-if (not o.write) _ _ (failed _ could_not_stage (inl there)) (
        Installed-if (not o.set_permissions) _ _
          (failed staged could_not_make_executable (inl there))
          (Installed-if (not o.set_aside) _ _
            (failed _ could_not_set_aside (removed-Kept staged (inl there)))
            (Installed-if (not o.put_in_place) _ _
              (failed _ could_not_install
                (removed-Kept (restored o (aside staged)) (restored-Kept (aside staged) there)))
              record { success = λ h. (refl, there); failure = λ e h. absurd (cc h) })))
