-- ===== src/Converter/Keeps.antt =====
-- Invariants of the converters' logs, one rule for each way to build a conversion.
use filemagic_backend.Prelude.{
  ◌≡◌, refl, arith, ℕ, Bool, true, false, List, [], ◌∷◌, ◌∙◌, Option, none, some, if◌then◌else◌,
  Text, codes, All, has_prefix, ◌&&◌, if_some, if_each,
}
use filemagic_backend.Json.{Fields}
use filemagic_backend.Queue.{Job}
use filemagic_backend.Validator.Names.{one_of}
use filemagic_backend.Sandbox.{required_configs}
use filemagic_backend.Converter.Gives.{Returned, Gives}
use filemagic_backend.Converter.{
  Command, Entry, Action, ran, captured, made_dir, removed, wrote, copied, listed, measured, Log,
  World, Site, Run, ok, failed, panicked, Task, pure, fail, panic, ◌>>=◌, ◌>>◌, and_then, get_job,
  check, need, Dirs, run_wrapped, try_run, capture, make_dir, write_file, copy_file, read_dir,
  file_size, remove_file, prepare_job_dir, set_output, set_input, set_metadata, run_tool, finish,
}

-- The program lies in /usr/bin.
unfoldable pub is_installed : List Text → Bool
is_installed [] = false
is_installed (program ∷ args) = has_prefix program (codes "/usr/bin/")

-- The profile is one that the start of the server looks for.
unfoldable pub is_confined : Command → Bool
is_confined c = is_installed c.args && one_of c.profile required_configs

pub is_confined_of :
    (c : Command)
    → is_installed c.args ≡ true
    → one_of c.profile required_configs ≡ true
    → is_confined c ≡ true
unfolding is_confined
is_confined_of c p q = ground arith

abbrev pub Confined : Action → Type 0
Confined (ran c) = is_confined c ≡ true
Confined (captured c) = is_confined c ≡ true
Confined (made_dir p) = Unit {0}
Confined (removed p) = Unit {0}
Confined (wrote p t) = Unit {0}
Confined (copied p q) = Unit {0}
Confined (listed p) = Unit {0}
Confined (measured p) = Unit {0}

-- The site that a conversion leaves, however it ends.
abbrev pub site_of : {A : Type 0} → Run A → Site
site_of (ok a s) = s
site_of (failed e s) = s
site_of (panicked s) = s

abbrev pub log_of : {A : Type 0} → Run A → Log
log_of r = (site_of r).log

-- The log of this end of a conversion.
abbrev pub LogConfined : (A : Type 0) → Run A → Type 0
LogConfined A r = All Confined (log_of r)

-- What the converters leave of a job as it is.
abbrev pub outline : Job → Job
outline j = record j {
  input_path = [];
  input_size = 0;
  output_path = [];
  output_size = 0;
  metadata = none;
}

abbrev pub Same : (A : Type 0) → Site → Run A → Type 0
Same A s r = outline (site_of r).job ≡ outline s.job

-- All the commands that the conversion adds to the log are confined, and the outline of the job stays.
pub record Keeps {A : Type 0} (m : Task A) : Type 0 where
  pub at : (s : Site) → All Confined s.log → All Confined (log_of (m s))
  pub same : (s : Site) → outline (site_of (m s)).job ≡ outline s.job

module _ {A : Type 0} where
  pub Keeps-pure : (a : A) → Keeps (pure a)
  unfolding pure
  Keeps-pure a = record { at = λ s h. h; same = λ s. refl }

  pub Keeps-fail : (e : Text) → Keeps (fail {A = A} e)
  unfolding fail
  Keeps-fail e = record { at = λ s h. h; same = λ s. refl }

  pub Keeps-panic : Keeps (panic {A = A})
  unfolding panic
  Keeps-panic = record { at = λ s h. h; same = λ s. refl }

  pub Keeps-need : (o : Option A) (e : Text) → Keeps (need o e)
  unfolding need
  Keeps-need none e = Keeps-fail e
  Keeps-need (some a) e = Keeps-pure a

  pub Keeps-if : (b : Bool) (m n : Task A) → Keeps m → Keeps n → Keeps (if b then m else n)
  Keeps-if true m n km kn = km
  Keeps-if false m n km kn = kn

  pub Keeps-option :
      {B : Type 0} (o : Option B) (m : Task A) (f : B → Task A)
      → Keeps m
      → ((b : B) → Keeps (f b))
      → Keeps (elim o [ none ↦ m | some b ↦ f b ])
  Keeps-option none m f km kf = km
  Keeps-option (some b) m f km kf = kf b

pub Keeps-bind :
    {A B : Type 0} (m : Task A) (k : A → Task B)
    → Keeps m
    → ((a : A) → Keeps (k a))
    → Keeps (m >>= k)
unfolding ◌>>=◌
Keeps-bind {A} {B} m k km kk = record {
  at = λ s h. after (m s) (km.at s h);
  same = λ s. stays s (m s) (km.same s);
}
  where
    stays : (s0 : Site) (r : Run A) → Same A s0 r → Same B s0 (and_then r k)
    stays s0 (ok a s) h = (kk a).same s ∙ h
    stays s0 (failed e s) h = h
    stays s0 (panicked s) h = h

    after : (r : Run A) → All Confined (log_of r) → All Confined (log_of (and_then r k))
    after (ok a s) h = (kk a).at s h
    after (failed e s) h = h
    after (panicked s) h = h

pub Keeps-then : {A B : Type 0} (m : Task A) (n : Task B) → Keeps m → Keeps n → Keeps (m >> n)
unfolding ◌>>◌ ◌>>=◌
Keeps-then m n km kn =
    let b = Keeps-bind m (λ _. n) km (λ _. kn) in record { at = b.at; same = b.same }

pub Keeps-get_job : Keeps get_job
unfolding get_job
Keeps-get_job = record { at = λ s h. h; same = λ s. refl }

pub Keeps-check : (b : Bool) (e : Text) → Keeps (check b e)
unfolding check
Keeps-check b e = Keeps-if b _ _ (Keeps-pure tt) (Keeps-fail e)

pub Keeps-set_output : (path : Text) (size : ℕ) → Keeps (set_output path size)
unfolding set_output
Keeps-set_output path size = record { at = λ s h. h; same = λ s. refl }

pub Keeps-set_input : (path : Text) (size : ℕ) → Keeps (set_input path size)
unfolding set_input
Keeps-set_input path size = record { at = λ s h. h; same = λ s. refl }

pub Keeps-set_metadata : (m : Option Fields) → Keeps (set_metadata m)
unfolding set_metadata
Keeps-set_metadata m = record { at = λ s h. h; same = λ s. refl }

module _ (w : World) where
  pub Keeps-run_wrapped :
      (words : Text) (c : Command) → is_confined c ≡ true → Keeps (run_wrapped w words c)
  unfolding run_wrapped
  Keeps-run_wrapped words c ok_c = record {
    at = λ s h. if_some (LogConfined (Unit {0})) (w.run s.log c) _ _ (ok_c, h) (λ e p. (ok_c, h));
    same = λ s. if_some (Same (Unit {0}) s) (w.run s.log c) _ _ refl (λ e p. refl);
  }

  pub Keeps-try_run : (c : Command) → is_confined c ≡ true → Keeps (try_run w c)
  unfolding try_run
  Keeps-try_run c ok_c = record { at = λ s h. (ok_c, h); same = λ s. refl }

  pub Keeps-capture : (c : Command) → is_confined c ≡ true → Keeps (capture w c)
  unfolding capture
  Keeps-capture c ok_c = record { at = λ s h. (ok_c, h); same = λ s. refl }

  pub Keeps-make_dir : (words path : Text) → Keeps (make_dir w words path)
  unfolding make_dir
  Keeps-make_dir words path = record {
    at = λ s h.
        if_each (LogConfined (Unit {0})) (w.makes s.log path) _ _ (λ p. (tt, h)) (λ p. (tt, h));
    same = λ s. if_each (Same (Unit {0}) s) (w.makes s.log path) _ _ (λ p. refl) (λ p. refl);
  }

  pub Keeps-write_file : (path content : Text) → Keeps (write_file w path content)
  unfolding write_file
  Keeps-write_file path content = record { at = λ s h. (tt, h); same = λ s. refl }

  pub Keeps-copy_file : (words src dst : Text) → Keeps (copy_file w words src dst)
  unfolding copy_file
  Keeps-copy_file words src dst = record {
    at = λ s h.
        if_each (LogConfined (Unit {0})) (w.copies s.log src dst) _ _ (λ p. (tt, h)) (λ p. (tt, h));
    same = λ s. if_each (Same (Unit {0}) s) (w.copies s.log src dst) _ _ (λ p. refl) (λ p. refl);
  }

  pub Keeps-read_dir : (words path : Text) → Keeps (read_dir w words path)
  unfolding read_dir
  Keeps-read_dir words path = record {
    at =
        λ s h. if_some (LogConfined (List Entry)) (w.lists s.log path) _ _ (tt, h) (λ e p. (tt, h));
    same = λ s. if_some (Same (List Entry) s) (w.lists s.log path) _ _ refl (λ e p. refl);
  }

  pub Keeps-file_size : (words path : Text) → Keeps (file_size w words path)
  unfolding file_size
  Keeps-file_size words path = record {
    at = λ s h. if_some (LogConfined ℕ) (w.stat s.log path) _ _ (tt, h) (λ e p. (tt, h));
    same = λ s. if_some (Same ℕ s) (w.stat s.log path) _ _ refl (λ e p. refl);
  }

  pub Keeps-remove_file : (path : Text) → Keeps (remove_file w path)
  unfolding remove_file
  Keeps-remove_file path = record { at = λ s h. (tt, h); same = λ s. refl }

  pub Keeps-run_tool :
      (d : Dirs) (profile : Text) (seconds : ℕ) (args : List Text)
      → is_confined
          (record { args = args; job_dir = d.job_dir; profile = profile; seconds = seconds })
        ≡ true
      → Keeps (run_tool w d profile seconds args)
  unfolding run_tool
  Keeps-run_tool d profile seconds args h = Keeps-run_wrapped [] _ h

-- The rest of a block may use what the beginning returned.
pub Keeps-given :
    {A B : Type 0} (Q : A → Type 0) (m : Task A) (k : A → Task B)
    → Keeps m
    → Gives Q m
    → ((a : A) → Q a → Keeps (k a))
    → Keeps (m >>= k)
unfolding ◌>>=◌
Keeps-given {A} {B} Q m k km g kk = record {
  at = λ s h. after (m s) (km.at s h) (g.at s);
  same = λ s. stays s (m s) (km.same s) (g.at s);
}
  where
    stays : (s0 : Site) (r : Run A) → Same A s0 r → Returned Q r → Same B s0 (and_then r k)
    stays s0 (ok a s) h q = (kk a q).same s ∙ h
    stays s0 (failed e s) h q = h
    stays s0 (panicked s) h q = h

    after :
        (r : Run A) → All Confined (log_of r) → Returned Q r → All Confined (log_of (and_then r k))
    after (ok a s) h q = (kk a q).at s h
    after (failed e s) h q = h
    after (panicked s) h q = h

pub Keeps-then-given :
    {A B : Type 0} {Q : A → Type 0} (m : Task A) (n : Task B)
    → Keeps m
    → Gives Q m
    → ((a : A) → Q a → Keeps n)
    → Keeps (m >> n)
unfolding ◌>>◌ ◌>>=◌
Keeps-then-given m n km g kn =
    let b = Keeps-given _ m (λ _. n) km g kn in record { at = b.at; same = b.same }

pub ruleset step_rules = (
  Keeps-pure, Keeps-fail, Keeps-panic, Keeps-need, Keeps-if, Keeps-option, Keeps-bind, Keeps-then,
  Keeps-get_job, Keeps-check, Keeps-set_output, Keeps-set_input, Keeps-set_metadata,
  Keeps-run_wrapped, Keeps-try_run, Keeps-capture, Keeps-make_dir, Keeps-write_file,
  Keeps-copy_file, Keeps-read_dir, Keeps-file_size, Keeps-remove_file, Keeps-run_tool,
)

module _ (w : World) where
  pub Keeps-prepare_job_dir : Keeps (prepare_job_dir w)
  unfolding prepare_job_dir
  Keeps-prepare_job_dir = search step_rules depth 12

  pub Keeps-finish : (path : Text) → Keeps (finish w path)
  unfolding finish
  Keeps-finish path = search step_rules

pub ruleset keeps_rules = (step_rules, Keeps-prepare_job_dir, Keeps-finish)
