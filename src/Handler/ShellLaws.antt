-- ===== src/Handler/ShellLaws.antt =====
-- Which shell commands reach the flight controller.
use hitl_daemon.Base.{
  ℕ, Bool, true, false, not, ltb, leb, ◌==◌, ◌≤◌, ◌<◌, ◌≡◌, ◌≢◌, ◌⊎◌, inl, inr, refl, sym, subst,
  if◌then◌else◌, Option, none, some, List, [], ◌∷◌, ◌++◌, length, arith, Bool-cases,
}
use hitl_daemon.Protocol.Nsh.{NshCommand}
use hitl_daemon.Handler.Rate.{check_rate_limit}
use hitl_daemon.Handler.Shell.{
  same_bytes, starts_with, is_blocked_by, blocked_by, blocked_nsh_commands, NshQueue, NshAnswer,
  Shell, validated, try_send, send_unblocked, check_and_send, handle_on, handle_nsh_command,
}

-- The text is none of the words, and none of them with a space behind it begins the text.
abbrev pub Unblocked : List ℕ → List (List ℕ) → Type 0
Unblocked text [] = Unit {0}
Unblocked text (word ∷ words) =
    ((text ≢ word) × ((rest : List ℕ) → text ≢ word ++ (32 ∷ rest))) × Unblocked text words

pub same_bytes_refl : (s : List ℕ) → same_bytes s s ≡ true
unfolding same_bytes
same_bytes_refl [] = refl
same_bytes_refl (b ∷ s) = ground (arith, same_bytes_refl s)

starts_with-append :
    (prefix rest : List ℕ) → starts_with (prefix ++ (32 ∷ [])) (prefix ++ (32 ∷ rest)) ≡ true
unfolding starts_with
starts_with-append [] rest = refl
starts_with-append (b ∷ prefix) rest = ground (arith, starts_with-append prefix rest)

blocked_by-Unblocked :
    (text : List ℕ) (words : List (List ℕ)) → blocked_by text words ≡ none → Unblocked text words
unfolding blocked_by
blocked_by-Unblocked text [] h = tt
blocked_by-Unblocked text (word ∷ words) h = elim (Bool-cases (is_blocked_by text word)) [
  | inl e ↦ absurd (cc (subst (λ t. (if t then some word else blocked_by text words) ≡ none) e h))
  | inr e ↦ (
    (
      (λ same.
          ground (arith, subst (λ t. is_blocked_by t word ≡ false) same e, same_bytes_refl word)),
      (λ rest same.
          ground (
            arith,
            subst (λ t. is_blocked_by t word ≡ false) same e,
            starts_with-append word rest,
          )),
    ),
    blocked_by-Unblocked text words
        (subst (λ t. (if t then some word else blocked_by text words) ≡ none) e h),
  )
]

-- What a command must be to reach the shell.
pub record Passes (normal : List ℕ) (q : NshQueue) (nsh : NshCommand) : Type 0 where
  pub present : 0 < length nsh.command
  pub short : length nsh.command ≤ 256
  pub unblocked : Unblocked normal blocked_nsh_commands
  pub room : length q.waiting < q.capacity
  pub listening : q.open_ ≡ true

-- The queue and the answer: nothing was sent and the answer says so, or this command was sent.
abbrev pub Handled : List ℕ → NshQueue → ℕ → NshCommand → NshQueue × NshAnswer → Type 0
Handled normal q client_id nsh r =
    ((r.0 ≡ q) × (r.1.success ≡ false))
    ⊎ ((r.0 ≡ record q { waiting = q.waiting ++ (validated client_id nsh ∷ []) })
        × (r.1.success ≡ true)
        × Passes normal q nsh)

module _ (normal : List ℕ) (q : NshQueue) (client_id : ℕ) (nsh : NshCommand) where
  Handled-if :
      (t : Bool) (x y : NshQueue × NshAnswer)
      → (t ≡ true → Handled normal q client_id nsh x)
      → (t ≡ false → Handled normal q client_id nsh y)
      → Handled normal q client_id nsh (if t then x else y)
  Handled-if true x y hx hy = hx refl
  Handled-if false x y hx hy = hy refl

  module _ (present : 0 < length nsh.command) (short : length nsh.command ≤ 256) where
    try_send-Handled :
        Unblocked normal blocked_nsh_commands
        → Handled normal q client_id nsh (try_send q client_id nsh)
    try_send-Handled unblocked =
        Handled-if (not q.open_) _ _ (λ _. inl (refl, refl))
          (λ listening.
            Handled-if (leb q.capacity (length q.waiting)) _ _ (λ _. inl (refl, refl))
              (λ room. inr (
                refl,
                refl,
                record {
                  present = present;
                  short = short;
                  unblocked = unblocked;
                  room = ground (arith, room);
                  listening = ground (arith, listening);
                },
              )))

    send_unblocked-Handled :
        (found : Option (List ℕ))
        → (found ≡ none → Unblocked normal blocked_nsh_commands)
        → Handled normal q client_id nsh (send_unblocked found q client_id nsh)
    send_unblocked-Handled (some word) h = inl (refl, refl)
    send_unblocked-Handled none h = try_send-Handled (h refl)

module _ (trim_to_lowercase : List ℕ → List ℕ) where
  check_and_send-Handled :
      (q : NshQueue) (client_id : ℕ) (nsh : NshCommand)
      → Handled
          (trim_to_lowercase nsh.command)
          q
          client_id
          nsh
          (check_and_send trim_to_lowercase q client_id nsh)
  unfolding check_and_send
  check_and_send-Handled q client_id nsh =
      let normal = trim_to_lowercase nsh.command in
      Handled-if normal q client_id nsh (length nsh.command == 0) _ _ (λ _. inl (refl, refl))
        (λ present.
          Handled-if normal q client_id nsh (ltb 256 (length nsh.command)) _ _
            (λ _. inl (refl, refl))
            (λ short.
              send_unblocked-Handled normal q client_id nsh (ground (arith, present))
                (ground (arith, short)) (blocked_by normal blocked_nsh_commands)
                (blocked_by-Unblocked normal blocked_nsh_commands)))

  -- The queue after a call, where there is one.
  abbrev pub queue_or : NshQueue → Option NshQueue → NshQueue
  queue_or q none = q
  queue_or q (some r) = r

  -- With a shell queue there, a shell command is either answered with failure and the queue stays
  -- as it was, or it is queued once and answered with success, and then it has 1 to 256 bytes, its
  -- trimmed lower-case text is no blocked word and begins with none that a space follows, and the
  -- queue was open and had room.
  pub handle_nsh_command-Handled :
      (h : Shell) (q : NshQueue) (now client_id : ℕ) (nsh : NshCommand)
      → h.nsh_tx ≡ some q
      → let r = handle_nsh_command trim_to_lowercase h now client_id nsh in
        Handled (trim_to_lowercase nsh.command) q client_id nsh (queue_or q r.0.nsh_tx, r.1)
  unfolding handle_nsh_command
  handle_nsh_command-Handled h q now client_id nsh there =
      let normal = trim_to_lowercase nsh.command in
      subst
        (λ o. Handled normal q client_id nsh (
          queue_or q (handle_on trim_to_lowercase o h now client_id nsh).0.nsh_tx,
          (handle_on trim_to_lowercase o h now client_id nsh).1,
        ))
        (sym there)
        (Handled-if normal q client_id nsh (check_rate_limit h.rate_limits client_id now).1 _ _
          (λ _. check_and_send-Handled q client_id nsh) (λ _. inl (refl, refl)))
