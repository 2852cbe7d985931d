-- ===== src/Provision/Reads.antt =====
-- crates/websocket/src/param_io.rs: reading parameters from the board with retries.
use Prim.Native.String.{String}
use text.Mathlib.Text.{◌==◌}
use hitl_daemon.Base.{ℕ, zero, suc, true, false, Option, none, some, List, [], ◌∷◌}
use hitl_daemon.Provision.{
  param_request_read, sent, full, disconnected, ParamValue, Effect, tried, drained, slept, Delivery,
  delivered, lagged, closed, Env,
}

module _ (e : Env) where
  open e use {F32, try_send, param_values}

  unfoldable pub await_param : String → List (Delivery (ParamValue F32)) → Option (ParamValue F32)
  await_param name [] = none
  await_param name (delivered pv ∷ rest) = elim (pv.name == name) [
    | true ↦ some pv
    | false ↦ await_param name rest
  ]
  await_param name (lagged ∷ rest) = await_param name rest
  await_param name (closed ∷ rest) = none

  -- The attempts of `read_param_with` that are left.
  unfoldable pub read_attempts :
      ℕ → String → List (Effect F32) → List (Effect F32) × (Option (ParamValue F32))
  unfolding await_param
  read_attempts zero name h = (h, none)
  read_attempts (suc n) name h = elim (try_send h (param_request_read name)) [
    | full ↦ read_attempts n name (slept 50 ∷ tried (param_request_read name) full ∷ h)
    | disconnected ↦ (tried (param_request_read name) disconnected ∷ h, none)
    | sent ↦ elim (await_param name (param_values (tried (param_request_read name) sent ∷ h))) [
      | some pv ↦ (drained ∷ tried (param_request_read name) sent ∷ h, some pv)
      | none ↦ read_attempts n name (drained ∷ tried (param_request_read name) sent ∷ h)
    ]
  ]

  -- One more read, in front of the values that were read and the names that were not.
  unfoldable pub note_read :
      Option (ParamValue F32)
      → String
      → List (ParamValue F32) × List String
      → List (ParamValue F32) × List String
  note_read (some pv) name (values, missing) = (pv ∷ values, missing)
  note_read none name (values, missing) = (values, name ∷ missing)

  unfoldable pub read_params_with :
      List String → List (Effect F32) → List (Effect F32) × (List (ParamValue F32) × List String)
  unfolding read_attempts note_read
  read_params_with [] h = (h, ([], []))
  read_params_with (name ∷ rest) h =
      let (h2, value) = read_attempts 3 name h in
      let (h3, others) = read_params_with rest h2 in (h3, note_read value name others)
