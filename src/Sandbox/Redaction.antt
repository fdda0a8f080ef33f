-- ===== src/Sandbox/Redaction.antt =====
-- What `redactCommand` hides (internal/converter/nsjail.go) in the command lines that the converters
-- build: qpdf's protection (internal/converter/pdf_password.go) and 7z's passwords
-- (internal/converter/archive.go, internal/converter/decompress.go). The program calls it nowhere but
-- in a test.
use filemagic_backend.Prelude.{
  ℕ, ◌≡◌, refl, ap, ◌∙◌, true, false, List, [], ◌∷◌, ◌++◌, arith, ◌==◌, if◌then◌else◌, Text, codes,
  eq_text, has_prefix, suc, zero, Bool, not, ◌&&◌, length, ltb, leb, get_or,
}
use filemagic_backend.Paths.{base, last_slash}

-- `redactCommand` at one argument that is not skipped.
unfoldable pub redact_arg : Bool → Text → Text
redact_arg is_7z arg =
    if has_prefix arg (codes "--password=")
    then codes "--password=[REDACTED]"
    else if is_7z
        && has_prefix arg (codes "-p")
        && ltb 2 (length arg)
        && not (get_or arg 2 0 == b'-')
    then codes "-p[REDACTED]"
    else arg

-- Its loop; `skip` is `skipNext`.
unfoldable pub redact_from : Bool → ℕ → List Text → List Text
redact_from is_7z skip [] = []
redact_from is_7z (suc skip) (arg ∷ rest) = codes "[REDACTED]" ∷ redact_from is_7z skip rest
redact_from is_7z zero (arg ∷ rest) =
    redact_arg is_7z arg
    ∷ redact_from is_7z (if eq_text arg (codes "--encrypt") && leb 2 (length rest) then 2 else 0)
        rest

abbrev is_7z_command : List Text → Bool
is_7z_command [] = false
is_7z_command (tool ∷ args) = eq_text (base tool) (codes "7z")

unfoldable pub redact_command : List Text → List Text
redact_command cmd = redact_from (is_7z_command cmd) 0 cmd

-- `/usr/bin/qpdf --encrypt <user> <owner> 256 -- <in> <out>`
unfoldable pub protect_command : Text → Text → Text → Text → List Text
protect_command user owner input output =
    codes "/usr/bin/qpdf"
    ∷ codes "--encrypt"
    ∷ user
    ∷ owner
    ∷ codes "256"
    ∷ codes "--"
    ∷ input
    ∷ output
    ∷ []

-- No argument before the password is qpdf's `--encrypt`.
abbrev LacksEncrypt : List Text → Type 0
LacksEncrypt [] = Unit {0}
LacksEncrypt (a ∷ args) = (eq_text a (codes "--encrypt") ≡ false) × LacksEncrypt args

abbrev hidden : Text
hidden = codes "-p[REDACTED]"

redact_from-append :
    (args rest : List Text)
    → LacksEncrypt args
    → redact_from true 0 (args ++ rest) ≡ redact_from true 0 args ++ redact_from true 0 rest
unfolding redact_from
redact_from-append [] rest h = refl
redact_from-append (a ∷ args) rest h =
    rw h.0 (ap (◌∷◌ (redact_arg true a)) (redact_from-append args rest h.1))

redact_arg_password :
    (c : ℕ) (s : Text)
    → redact_arg true (codes "-p" ++ c ∷ s) ≡ (if c == b'-' then codes "-p" ++ c ∷ s else hidden)
unfolding redact_arg has_prefix
redact_arg_password c s = ground arith

tool_lacks : eq_text (codes "/usr/bin/7z") (codes "--encrypt") ≡ false
unfolding eq_text
tool_lacks = refl

is_7z_path :
    (args : List Text)
    → redact_command (codes "/usr/bin/7z" ∷ args) ≡ redact_from true 0 (codes "/usr/bin/7z" ∷ args)
unfolding redact_command base eq_text last_slash
is_7z_path args = refl

-- The redacted form of qpdf's protection command is the same for any two pairs of passwords, and so
-- tells nothing of them.
pub protect_redacted :
    (user owner user' owner' input output : Text)
    → redact_command (protect_command user owner input output)
      ≡ redact_command (protect_command user' owner' input output)
unfolding redact_command protect_command redact_from redact_arg has_prefix eq_text base
protect_redacted user owner user' owner' input output = refl

-- In a 7z command with no `--encrypt` before its password, the redacted form has `-p[REDACTED]` where the
-- password stands, if the password is not empty and does not begin with `-`; if it does begin with `-`,
-- the password is left as it is.
redact_command-password :
    (args rest : List Text) (c : ℕ) (s : Text)
    → LacksEncrypt args
    → redact_command (codes "/usr/bin/7z" ∷ args ++ (codes "-p" ++ c ∷ s) ∷ rest)
      ≡ redact_from true 0 (codes "/usr/bin/7z" ∷ args)
        ++ (if c == b'-' then codes "-p" ++ c ∷ s else hidden) ∷ redact_from true 0 rest
unfolding redact_from eq_text
redact_command-password args rest c s h =
    is_7z_path (args ++ (codes "-p" ++ c ∷ s) ∷ rest)
    ∙ redact_from-append (codes "/usr/bin/7z" ∷ args) ((codes "-p" ++ c ∷ s) ∷ rest) (tool_lacks, h)
    ∙ ap (λ a. redact_from true 0 (codes "/usr/bin/7z" ∷ args) ++ a ∷ redact_from true 0 rest)
        (redact_arg_password c s)
