-- ===== src/Provision/Counts.antt =====
-- The writes, flash commits and reboots of a history, and how two histories compare in them.
use hitl_daemon.Base.{ℕ, suc, ◌+◌, ◌≤◌, List, [], ◌∷◌, arith}
use hitl_daemon.Provision.{
  param_set, param_save, param_request_read, sent, full, disconnected, Phase, Effect, tried,
  drained, slept, told_apply, told_restore, captured, asked_nsh,
}

-- The parameters that reached the board's queue, the saves that did, and the reboots.
abbrev pub sets : {F32 : Type 0} → List (Effect F32) → ℕ
sets [] = 0
sets (tried (param_set s) sent ∷ h) = suc (sets h)
sets (tried (param_set s) full ∷ h) = sets h
sets (tried (param_set s) disconnected ∷ h) = sets h
sets (tried (param_request_read n) o ∷ h) = sets h
sets (tried param_save o ∷ h) = sets h
sets (drained ∷ h) = sets h
sets (slept n ∷ h) = sets h
sets (told_apply p ∷ h) = sets h
sets (told_restore p ∷ h) = sets h
sets (captured b ps ∷ h) = sets h
sets (asked_nsh ∷ h) = sets h

abbrev pub saves : {F32 : Type 0} → List (Effect F32) → ℕ
saves [] = 0
saves (tried param_save sent ∷ h) = suc (saves h)
saves (tried param_save full ∷ h) = saves h
saves (tried param_save disconnected ∷ h) = saves h
saves (tried (param_request_read n) o ∷ h) = saves h
saves (tried (param_set s) o ∷ h) = saves h
saves (drained ∷ h) = saves h
saves (slept n ∷ h) = saves h
saves (told_apply p ∷ h) = saves h
saves (told_restore p ∷ h) = saves h
saves (captured b ps ∷ h) = saves h
saves (asked_nsh ∷ h) = saves h

abbrev pub reboots : {F32 : Type 0} → List (Effect F32) → ℕ
reboots [] = 0
reboots (asked_nsh ∷ h) = suc (reboots h)
reboots (tried m o ∷ h) = reboots h
reboots (drained ∷ h) = reboots h
reboots (slept n ∷ h) = reboots h
reboots (told_apply p ∷ h) = reboots h
reboots (told_restore p ∷ h) = reboots h
reboots (captured b ps ∷ h) = reboots h

-- The history `k` has at most `n` more parameters, `s` more saves and `r` more reboots than `h`.
unfoldable pub Within : {F32 : Type 0} → ℕ → ℕ → ℕ → List (Effect F32) → List (Effect F32) → Type 0
Within n s r h k = (sets k ≤ sets h + n) × (saves k ≤ saves h + s) × (reboots k ≤ reboots h + r)

pub Within-refl : {F32 : Type 0} (h : List (Effect F32)) → Within 0 0 0 h h
unfolding Within
Within-refl h = (omega arith, omega arith, omega arith)

pub Within-more :
    {F32 : Type 0} (n s r : ℕ) (h k : List (Effect F32)) → Within 0 0 0 h k → Within n s r h k
unfolding Within
Within-more n s r h k (a, b, c) = (omega arith, omega arith, omega arith)

pub Within-told :
    {F32 : Type 0} (n s r : ℕ) (p : Phase) (h k : List (Effect F32))
    → Within n s r (told_apply p ∷ h) k
    → Within n s r h k
unfolding Within
Within-told n s r p h k w = w

pub Within-after :
    {F32 : Type 0} (n s r : ℕ) (h k l : List (Effect F32))
    → Within 0 0 0 h k
    → Within n s r k l
    → Within n s r h l
unfolding Within
Within-after n s r h k l (a, b, c) (a2, b2, c2) = (omega arith, omega arith, omega arith)
