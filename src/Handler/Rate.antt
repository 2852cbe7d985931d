-- ===== src/Handler/Rate.antt =====
-- `check_rate_limit` of crates/websocket/src/handler.rs. Times are in nanoseconds.
use hitl_daemon.Base.{ℕ, Bool, true, false, ◌+◌, ◌-◌, ltb, ◌==◌, if◌then◌else◌, List, [], ◌∷◌}

abbrev pub command_rate_limit_window : ℕ
command_rate_limit_window = 1000000000

abbrev pub max_commands_per_window : ℕ
max_commands_per_window = 10

pub record Window : Type 0 where
  pub window_start : ℕ
  pub count : ℕ

abbrev pub RateLimits : Type 0
RateLimits = List (ℕ × Window)

-- The map of the clients' windows. `entry(id).or_insert(w)` is a lookup with a default.
abbrev pub entry_or : ℕ → Window → RateLimits → Window
entry_or client_id w [] = w
entry_or client_id w ((id, v) ∷ limits) = elim (client_id == id) [
  | true ↦ v
  | false ↦ entry_or client_id w limits
]

unfoldable pub put : ℕ → Window → RateLimits → RateLimits
put client_id w [] = (client_id, w) ∷ []
put client_id w ((id, v) ∷ limits) =
    if client_id == id then (client_id, w) ∷ limits else (id, v) ∷ put client_id w limits

-- The window that a request at `now` is counted in.
abbrev pub reset_if_expired : ℕ → Window → Window
reset_if_expired now w =
    if ltb command_rate_limit_window (now - w.window_start)
    then record { window_start = now; count = 0 }
    else w

abbrev pub admits : Window → Bool
admits w = ltb w.count max_commands_per_window

abbrev pub counted : Window → Window
counted w = if admits w then record w { count = w.count + 1 } else w

-- `true` is `Ok(())`.
unfoldable pub check_rate_limit : RateLimits → ℕ → ℕ → RateLimits × Bool
check_rate_limit limits client_id now =
    let w =
      reset_if_expired now (entry_or client_id record { window_start = now; count = 0 } limits) in
    (put client_id (counted w) limits, admits w)

-- `cleanup_client`.
unfoldable pub cleanup_client : RateLimits → ℕ → RateLimits
cleanup_client [] client_id = []
cleanup_client ((id, v) ∷ limits) client_id =
    if client_id == id then limits else (id, v) ∷ cleanup_client limits client_id
