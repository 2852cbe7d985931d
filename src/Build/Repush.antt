-- ===== src/Build/Repush.antt =====
-- crates/websocket/src/build_config.rs: the parameters again after the flight controller came back.
-- `shown` is what the browsers are told, newest first.
use hitl_daemon.Base.{Option, none, some, List, ◌∷◌, Result, ok, err}
use hitl_daemon.Provision.{Effect, Env}
use hitl_daemon.Build.Push.{
  Library, PushError, LastVerifiedParams, PushState, Pushed, push_pids_and_verify,
  invalidate_pid_fingerprint,
}

pub data ConfigState : Type 0 where
  configuring ready : ConfigState
  error : PushError → ConfigState

module _ (e : Env) (l : Library e.F32) where
  pub record Repushed : Type 0 where
    pub link : List (Effect e.F32)
    pub push : PushState e l
    pub shown : List ConfigState
    pub result : Result PushError (Unit {0})

  abbrev pub after_push : Pushed e l → List ConfigState → Repushed
  after_push (link, push, ok verified) shown = record {
    link = link;
    push = push;
    shown = ready ∷ shown;
    result = ok tt;
  }
  after_push (link, push, err why) shown = record {
    link = link;
    push = push;
    shown = error why ∷ shown;
    result = err why;
  }

  abbrev pub repush :
      Option (LastVerifiedParams e l)
      → PushState e l
      → List (Effect e.F32)
      → List ConfigState
      → Repushed
  repush none b h shown = record { link = h; push = b; shown = shown; result = ok tt }
  repush (some p) b h shown =
      after_push (push_pids_and_verify e l p (invalidate_pid_fingerprint e l b) h)
        (configuring ∷ shown)

  unfoldable pub repush_if_configured :
      PushState e l → List (Effect e.F32) → List ConfigState → Repushed
  repush_if_configured b h shown = repush b.last_verified_params b h shown
