-- ===== src/Converter/Ocr/Guard.antt =====
-- The dimension guard as the converters run it, and the guard by itself
-- (`ValidateImageDimensions` in internal/converter/image_dimensions.go).
use filemagic_backend.Prelude.{
  ℕ, ◌≡◌, Bool, true, false, not, ◌||◌, List, Option, none, some, arith, ◌==◌, if◌then◌else◌, Text,
  codes, refl, ap, ◌∙◌,
}
use filemagic_backend.Gate.{trim_space}
use filemagic_backend.ImageDimensions.{
  Dimensions, rejected, measured, header_command, field_command, parse_vips_dimension_field,
  parse_vips_dimensions, read_vips_dimension_field, read_vips_dimensions_separately, within_limits,
  validate_image_dimensions,
}
use filemagic_backend.Converter.{
  World, Site, Run, Task, ok, failed, panicked, Dirs, Command, Log, pure, fail, ◌>>=◌, ◌>>◌,
  and_then, need, check, capture,
}
use filemagic_backend.Converter.Ocr.{header, read_separately, accept_sides, guard_dimensions}

-- What a run gives, if it ends well.
abbrev pub given : {A : Type 0} → Run A → Option A
given (ok a s) = some a
given (failed e s) = none
given (panicked s) = none

-- The guard lets the image pass.
abbrev pub passes : Dimensions → Option (Unit {0})
passes (rejected e) = none
passes (measured width height) = some tt

-- The task gives this wherever it begins.
record Says {A : Type 0} (m : Task A) (o : Option A) : Type 0 where
  at : (s : Site) → given (m s) ≡ o

abbrev chain : {A B : Type 0} → Option A → (A → Option B) → Option B
chain none f = none
chain (some a) f = f a

module _ {A B : Type 0} where
  given-and_then :
      (k : A → Task B) (f : A → Option B)
      → ((a : A) → Says (k a) (f a))
      → (r : Run A) → given (and_then r k) ≡ chain (given r) f
  given-and_then k f h (ok a s) = (h a).at s
  given-and_then k f h (failed e s) = refl
  given-and_then k f h (panicked s) = refl

  Says-bind :
      (m : Task A) (k : A → Task B) (o : Option A) (f : A → Option B)
      → Says m o
      → ((a : A) → Says (k a) (f a))
      → Says (m >>= k) (chain o f)
  unfolding ◌>>=◌
  Says-bind m k o f hm hk = record {
    at = λ s. given-and_then k f hk (m s) ∙ ap (λ x. chain x f) (hm.at s);
  }

  Says-then :
      (m : Task A) (k : Task B) (o : Option A) (p : Option B)
      → Says m o
      → Says k p
      → Says (m >> k) (chain o (λ _. p))
  unfolding ◌>>◌
  Says-then m k o p hm hk = record {
    at = λ s.
        given-and_then (λ _. k) (λ _. p) (λ _. hk) (m s) ∙ ap (λ x. chain x (λ _. p)) (hm.at s);
  }

module _ {A : Type 0} where
  Says-pure : (a : A) → Says (pure a) (some a)
  unfolding pure
  Says-pure a = record { at = λ s. refl }

  Says-if :
      (b : Bool) (m n : Task A) (o p : Option A)
      → Says m o
      → Says n p
      → Says (if b then m else n) (if b then o else p)
  Says-if true m n o p hm hn = hm
  Says-if false m n o p hm hn = hn

  Says-need : (o : Option A) (e : Text) → Says (need o e) o
  unfolding need pure fail
  Says-need none e = record { at = λ s. refl }
  Says-need (some a) e = record { at = λ s. refl }

Says-check : (b : Bool) (e : Text) → Says (check b e) (if b then some tt else none)
unfolding check pure fail
Says-check true e = record { at = λ s. refl }
Says-check false e = record { at = λ s. refl }

module _ (w : World) (run : List Text → Option Text) (fscan : Text → ℕ × ℕ)
    (steady : (log : Log) (c : Command) → w.output log c ≡ run c.args) (d : Dirs)
    (profile input_file : Text) where
  Says-capture : (c : Command) → Says (capture w c) (some (run c.args))
  unfolding capture
  Says-capture c = record { at = λ s. ap some (steady s.log c) }

  Says-header : (args : List Text) → Says (header w fscan d profile args) (run args)
  Says-header args = Says-bind _ _ _ (λ out. out) (Says-capture _) (λ out. Says-need out _)

  Says-accept_sides : (x : Dimensions) → Says (accept_sides w fscan x) (passes x)
  unfolding accept_sides pure fail
  Says-accept_sides (rejected e) = record { at = λ s. refl }
  Says-accept_sides (measured width height) = record { at = λ s. refl }

  abbrev separately : Option (ℕ × ℕ)
  separately = chain (run (field_command input_file (codes "width"))) (λ width.
      chain (run (field_command input_file (codes "height")))
        (λ height. some (parse_vips_dimension_field width, parse_vips_dimension_field height)))

  Says-read_separately : Says (read_separately w fscan d profile input_file) separately
  unfolding read_separately
  Says-read_separately =
      Says-bind _ _ _ _ (Says-header _)
        (λ width. Says-bind _ _ _ _ (Says-header _) (λ height. Says-pure _))

  abbrev limited : ℕ × ℕ → Option (Unit {0})
  limited sides =
      chain (if not (sides.0 == 0 || sides.1 == 0) then some tt else none)
        (λ _. passes (within_limits (λ args. none) fscan input_file sides.0 sides.1))

  abbrev guarded : Option (Unit {0})
  guarded = chain (run (header_command input_file)) (λ out.
      let first = fscan (trim_space out) in
      chain (if first.0 == 0 || first.1 == 0 then separately else some first) limited)

  Says-guard_dimensions : Says (guard_dimensions w fscan d profile input_file) guarded
  unfolding guard_dimensions
  Says-guard_dimensions = Says-bind _ _ _ _ (Says-header _) (λ out.
      Says-bind _ _ _ _ (Says-if _ _ _ _ _ Says-read_separately (Says-pure _))
        (λ sides. Says-then _ _ _ _ (Says-check _ _) (Says-accept_sides _)))

  guarded_lem : guarded ≡ passes (validate_image_dimensions run fscan input_file)
  unfolding validate_image_dimensions read_vips_dimensions_separately read_vips_dimension_field
      parse_vips_dimensions within_limits
  guarded_lem = ground arith

  -- Where the tool's answers do not depend on what was run before: the guard that a converter runs lets an
  -- image pass exactly if the guard by itself measures it.
  pub guard_dimensions-exact :
      (s : Site)
      → given (guard_dimensions w fscan d profile input_file s)
        ≡ passes (validate_image_dimensions run fscan input_file)
  guard_dimensions-exact s = Says-guard_dimensions.at s ∙ guarded_lem
