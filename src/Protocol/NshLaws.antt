-- ===== src/Protocol/NshLaws.antt =====
-- The shell command is decoded up to its first NUL byte.
use hitl_daemon.Base.{
  ℕ, suc, Bool, true, false, ◌+◌, ◌-◌, ◌<◌, ◌≡◌, ltb, ◌==◌, if◌then◌else◌, refl, ap, Option, none,
  some, List, [], ◌∷◌, ◌++◌, length, take, ok, err, length-append, arith,
}
use mathlib.Core.Option
use hitl_daemon.Protocol.Bytes.{le2, le4}
use hitl_daemon.Protocol.Errors.{message_too_short}
use hitl_daemon.Protocol.Nsh.{NshCommand, position, cmd_end, from_bytes, to_bytes}

-- The bytes before the first NUL.
abbrev pub before_nul : List ℕ → List ℕ
before_nul [] = []
before_nul (b ∷ bytes) = elim (b == 0) [ true ↦ [] | false ↦ b ∷ before_nul bytes ]

-- The end that the search finds, counted from the start of the text.
abbrev text_end : List ℕ → Option ℕ → ℕ
text_end bytes none = length bytes
text_end bytes (some p) = p

take-next :
    (nul : Bool) (b : ℕ) (bytes text : List ℕ) (p : Option ℕ)
    → take (text_end bytes p) bytes ≡ text
    → take (text_end (b ∷ bytes) (if nul then some 0 else Option.map suc p)) (b ∷ bytes)
      ≡ elim nul [ true ↦ [] | false ↦ b ∷ text ]
take-next true b bytes text p h = refl
take-next false b bytes text none h = ap (λ l. b ∷ l) h
take-next false b bytes text (some p) h = ap (λ l. b ∷ l) h

take-position :
    (text : List ℕ)
    → take (text_end (text ++ (0 ∷ [])) (position (text ++ (0 ∷ [])))) (text ++ (0 ∷ []))
      ≡ before_nul text
unfolding position
take-position [] = refl
take-position (b ∷ text) =
    take-next (b == 0) b (text ++ (0 ∷ [])) (before_nul text) (position (text ++ (0 ∷ [])))
      (take-position text)

cmd_end-text :
    (bytes : List ℕ) (p : Option ℕ) → cmd_end 7 (7 + length bytes) p - 7 ≡ text_end bytes p
unfolding cmd_end
cmd_end-text bytes none = omega arith
cmd_end-text bytes (some p) = omega arith

command-text :
    (text : List ℕ) (n : ℕ)
    → n ≡ 7 + length (text ++ (0 ∷ []))
    → take (cmd_end 7 n (position (text ++ (0 ∷ []))) - 7) (text ++ (0 ∷ [])) ≡ before_nul text
command-text text n h =
    rw h rw (cmd_end-text (text ++ (0 ∷ [])) (position (text ++ (0 ∷ [])))) (take-position text)

long-frame : (c : NshCommand) → ltb (length (to_bytes c)) 8 ≡ false
unfolding to_bytes
long-frame c = ground (arith, length-append c.command (0 ∷ []))

module _ (from_utf8_lossy : List ℕ → List ℕ) where
  pub from_bytes-before_nul :
      (c : NshCommand)
      → c.request_id < 4294967296
      → c.timeout_ms < 65536
      → from_bytes from_utf8_lossy (to_bytes c)
        ≡ ok (record c { command = from_utf8_lossy (before_nul c.command) })
  unfolding from_bytes to_bytes
  from_bytes-before_nul c h k =
      let n = length (to_bytes c) in
      λ i.
        if long-frame c i
        then err (message_too_short 8 n)
        else ok record {
          request_id = le4 c.request_id h i;
          timeout_ms = le2 c.timeout_ms k i;
          command = from_utf8_lossy (command-text c.command n (omega arith) i);
        }

  -- A text without NUL that is valid UTF-8 comes back as it was.
  pub from_bytes-text :
      (c : NshCommand)
      → c.request_id < 4294967296
      → c.timeout_ms < 65536
      → before_nul c.command ≡ c.command
      → from_utf8_lossy c.command ≡ c.command
      → from_bytes from_utf8_lossy (to_bytes c) ≡ ok c
  from_bytes-text c h k whole valid = rw (from_bytes-before_nul c h k) rw whole rw valid refl
