-- ===== src/Converter/Certs/Secret.antt =====
-- The commands of the converter of certificates and the passwords
-- (internal/converter/cert_converter.go).
use filemagic_backend.Prelude.{
  ◌≡◌, refl, Bool, true, false, List, [], ◌∷◌, ◌++◌, Option, none, some, if◌then◌else◌, Text, codes,
  ap,
}
use filemagic_backend.Paths.{join_path}
use filemagic_backend.Converter.{
  World, Site, Run, ok, failed, panicked, Task, pure, ◌>>=◌, write_file,
}
use filemagic_backend.Converter.Certs.{build_convert_command, write_pass_file}

-- The command, if the conversion returns one.
abbrev pub command_of : Run (List Text) → Option (List Text)
command_of (ok c s) = some c
command_of (failed e s) = none
command_of (panicked s) = none

-- The file system takes the same writes at both sites, whatever is written.
abbrev pub SameWrites : World → Site → Site → Type 0
SameWrites w s1 s2 = (path c1 c2 : Text) → w.writes s1.log path c1 ≡ w.writes s2.log path c2

module _ (w : World) where
  -- The same command, wherever the same writes go well.
  record Agree (m n : Task (List Text)) : Type 0 where
    at : (s1 s2 : Site) → SameWrites w s1 s2 → command_of (m s1) ≡ command_of (n s2)

  Agree-pure : (c : List Text) → Agree (pure c) (pure c)
  unfolding pure
  Agree-pure c = record { at = λ s1 s2 h. refl }

  Agree-if :
      (b : Bool) (m1 m2 n1 n2 : Task (List Text))
      → Agree m1 n1
      → Agree m2 n2
      → Agree (if b then m1 else m2) (if b then n1 else n2)
  Agree-if true m1 m2 n1 n2 p q = p
  Agree-if false m1 m2 n1 n2 p q = q

  Agree-write_pass_file :
      (dir name p q : Text) (k : Text → List Text)
      → Agree
          (write_pass_file w dir name p >>= λ file. pure (k file))
          (write_pass_file w dir name q >>= λ file. pure (k file))
  unfolding write_pass_file write_file pure ◌>>=◌
  Agree-write_pass_file [] name p q k = record { at = λ s1 s2 h. refl }
  Agree-write_pass_file (c ∷ dir) name p q k = record {
    at = λ s1 s2 h.
        ap (λ written. some (k (if written then join_path (c ∷ dir) (codes "." ++ name) else [])))
          (h (join_path (c ∷ dir) (codes "." ++ name)) (p ++ 10 ∷ []) (q ++ 10 ∷ []));
  }

  build-Agree :
      (from to i o p1 q1 p2 q2 dir : Text)
      → Agree
          (build_convert_command w from to i o p1 q1 dir)
          (build_convert_command w from to i o p2 q2 dir)
  unfolding build_convert_command
  build-Agree from to i o p1 q1 p2 q2 dir =
      search (Agree-if, Agree-pure, Agree-write_pass_file) depth 12

  -- Two sites at which the same writes go well: the command for a conversion is the same, whatever the two
  -- passwords are. They reach the tool by files only.
  pub build_convert_command_secret :
      (from to i o p1 q1 p2 q2 dir : Text) (s1 s2 : Site)
      → SameWrites w s1 s2
      → command_of (build_convert_command w from to i o p1 q1 dir s1)
        ≡ command_of (build_convert_command w from to i o p2 q2 dir s2)
  build_convert_command_secret from to i o p1 q1 p2 q2 dir s1 s2 h =
      (build-Agree from to i o p1 q1 p2 q2 dir).at s1 s2 h
