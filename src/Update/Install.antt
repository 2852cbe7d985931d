-- ===== src/Update/Install.antt =====
-- `install_verified` of src/update.rs: the artifact is staged, the running binary is renamed aside
-- and the artifact renamed into its place. Whether a call of the system succeeds is given, and a
-- call that fails changes nothing.
use hitl_daemon.Base.{ℕ, Bool, not, if◌then◌else◌, Option, none, some, List, Result, ok, err}

-- The three files that the function touches, with their bytes; `none` is no file.
pub record Files : Type 0 where
  pub current_exe : Option (List ℕ)
  pub backup : Option (List ℕ)
  pub staged : Option (List ℕ)

-- Which calls succeed, in the order of the code; `restore` is the second rename's undoing.
pub record Outcomes : Type 0 where
  pub write : Bool
  pub set_permissions : Bool
  pub set_aside : Bool
  pub put_in_place : Bool
  pub restore : Bool
  pub remove_file : Bool

pub data UpdateError : Type 0 where
  could_not_stage could_not_make_executable could_not_set_aside could_not_install : UpdateError

abbrev pub removed : Outcomes → Files → Files
removed o f = if o.remove_file then record f { staged = none } else f

abbrev pub aside : Files → Files
aside f = record f { current_exe = none; backup = f.current_exe }

abbrev pub in_place : Files → Files
in_place f = record f { current_exe = f.staged; staged = none }

abbrev pub restored : Outcomes → Files → Files
restored o f = if o.restore then record f { current_exe = f.backup; backup = none } else f

-- A file that could not be written whole is left as `partial`.
unfoldable pub install_verified :
    Outcomes → (partial : Option (List ℕ)) → List ℕ → Files → Files × Result UpdateError (Unit {0})
install_verified o partial verified f =
    if not o.write
    then (record f { staged = partial }, err could_not_stage)
    else let staged = record f { staged = some verified } in
      if not o.set_permissions
      then (staged, err could_not_make_executable)
      else if not o.set_aside
      then (removed o staged, err could_not_set_aside)
      else let moved = aside staged in
        if not o.put_in_place
        then (removed o (restored o moved), err could_not_install)
        else (in_place moved, ok tt)
