-- ===== src/Update/Tests.antt =====
-- A failed installation, and the theorem at it.
use hitl_daemon.Base.{true, false, refl, none, some, [], ◌∷◌}
use hitl_daemon.Update.Install.{Files, Outcomes, install_verified}
use hitl_daemon.Update.Swap.{Installed, install_verified-Installed}

-- The second rename fails, and so does its undoing.
abbrev outcomes : Outcomes
outcomes = record {
  write = true;
  set_permissions = true;
  set_aside = true;
  put_in_place = false;
  restore = false;
  remove_file = true;
}

abbrev files : Files
files = record { current_exe = some (1 ∷ []); backup = none; staged = none }

install_verified-Installed_example :
    Installed outcomes (1 ∷ []) (2 ∷ []) (install_verified outcomes none (2 ∷ []) files)
install_verified-Installed_example =
    install_verified-Installed outcomes (1 ∷ []) (2 ∷ []) none files refl
