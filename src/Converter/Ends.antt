-- ===== src/Converter/Ends.antt =====
-- Rules by which one proves, along a converter's do block, what holds of the job when it ends well.
use filemagic_backend.Prelude.{
  ℕ, ◌<◌, ◌≤◌, ◌≡◌, refl, sym, subst, Bool, true, false, List, Option, none, some, arith,
  if◌then◌else◌, Text, if_some, if_each,
}
use filemagic_backend.Queue.{Job}
use filemagic_backend.Converter.{
  World, Site, Run, ok, failed, panicked, Task, pure, fail, ◌>>=◌, ◌>>◌, and_then, get_job, Command,
  Dirs, prepare_job_dir, make_dir, need, check, run_wrapped, run_tool, capture, copy_file,
  file_size, set_output,
}

-- What holds of the job, if the conversion ends well.
abbrev pub Ended : {A : Type 0} → (Job → Type 0) → Run A → Type 0
Ended Q (ok a s) = Q s.job
Ended Q (failed e s) = Unit
Ended Q (panicked s) = Unit

-- Begun with the job `j`.
pub record Ends {A : Type 0} (j : Job) (Q : Job → Type 0) (m : Task A) : Type 0 where
  pub at : (s : Site) → s.job ≡ j → Ended Q (m s)

abbrev pub Frames : {A : Type 0} → Job → Task A → Type 0
Frames j m = Ends j (λ k. k ≡ j) m

-- The output of `k` is not larger than the input of `j`, whose size is known.
abbrev pub NotLarger : Job → Job → Type 0
NotLarger j k = 0 < j.input_size → k.output_size ≤ j.input_size

pub known_size :
    (j : Job) (r : Run (Unit {0}))
    → 0 < j.input_size
    → Ended (NotLarger j) r
    → Ended (λ k. k.output_size ≤ j.input_size) r
known_size j (ok a s) known h = h known
known_size j (failed e s) known h = tt
known_size j (panicked s) known h = tt

module _ {j : Job} where
  pub Frames-pure : {A : Type 0} (a : A) → Frames j (pure a)
  unfolding pure
  Frames-pure a = record { at = λ s e. e }

  pub Frames-fail : {A : Type 0} (e : Text) → Frames j (fail {A = A} e)
  unfolding fail
  Frames-fail e = record { at = λ s e1. tt }

  pub Ends-if :
      {A : Type 0} {Q : Job → Type 0} (b : Bool) (m n : Task A)
      → (b ≡ true → Ends j Q m)
      → (b ≡ false → Ends j Q n)
      → Ends j Q (if b then m else n)
  Ends-if true m n em en = em refl
  Ends-if false m n em en = en refl

  pub Frames-need : {A : Type 0} (o : Option A) (e : Text) → Frames j (need o e)
  unfolding need
  Frames-need none e = Frames-fail e
  Frames-need (some a) e = Frames-pure a

  pub Frames-check : (b : Bool) (e : Text) → Frames j (check b e)
  unfolding check
  Frames-check b e = Ends-if b _ _ (λ p. Frames-pure tt) (λ p. Frames-fail e)

  pub Ends-bind :
      {A B : Type 0} {Q : Job → Type 0} (m : Task A) (k : A → Task B)
      → Frames j m
      → ((a : A) → Ends j Q (k a))
      → Ends j Q (m >>= k)
  unfolding ◌>>=◌
  Ends-bind {A} {B} {Q} m k fm ek = record { at = λ s e. after (m s) (fm.at s e) }
    where
      after : (r : Run A) → Ended (λ i. i ≡ j) r → Ended Q (and_then r k)
      after (ok a s) h = (ek a).at s h
      after (failed e s) h = tt
      after (panicked s) h = tt

  pub Ends-then :
      {A B : Type 0} {Q : Job → Type 0} (m : Task A) (n : Task B)
      → Frames j m
      → Ends j Q n
      → Ends j Q (m >> n)
  unfolding ◌>>◌ ◌>>=◌
  Ends-then m n fm en = record { at = (Ends-bind m (λ _. n) fm (λ _. en)).at }

  pub Ends-get_job :
      {B : Type 0} {Q : Job → Type 0} (k : Job → Task B) → Ends j Q (k j) → Ends j Q (get_job >>= k)
  unfolding get_job ◌>>=◌
  Ends-get_job {B} {Q} k ek = record {
    at = λ s e. subst (λ i. Ended Q (k i s)) (sym e) (ek.at s e);
  }

  pub Ends-set_output :
      {Q : Job → Type 0} (path : Text) (size : ℕ)
      → Q (record j { output_path = path; output_size = size })
      → Ends j Q (set_output path size)
  unfolding set_output
  Ends-set_output {Q} path size q = record {
    at = λ s e. subst (λ i. Q (record i { output_path = path; output_size = size })) (sym e) q;
  }

  module _ (w : World) where
    pub Frames-make_dir : (words path : Text) → Frames j (make_dir w words path)
    unfolding make_dir
    Frames-make_dir words path = record {
      at = λ s e.
          if_each (Ended {A = Unit {0}} (λ k. k ≡ j)) (w.makes s.log path) _ _ (λ p. e) (λ p. tt);
    }

    pub Frames-run_wrapped : (words : Text) (c : Command) → Frames j (run_wrapped w words c)
    unfolding run_wrapped
    Frames-run_wrapped words c = record {
      at = λ s e. if_some (Ended {A = Unit {0}} (λ k. k ≡ j)) (w.run s.log c) _ _ e (λ x p. tt);
    }

    pub Frames-run_tool :
        (d : Dirs) (profile : Text) (seconds : ℕ) (args : List Text)
        → Frames j (run_tool w d profile seconds args)
    unfolding run_tool
    Frames-run_tool d profile seconds args = Frames-run_wrapped _ _

    pub Frames-capture : (c : Command) → Frames j (capture w c)
    unfolding capture
    Frames-capture c = record { at = λ s e. e }

    pub Frames-copy_file : (words src dst : Text) → Frames j (copy_file w words src dst)
    unfolding copy_file
    Frames-copy_file words src dst = record {
      at = λ s e.
          if_each (Ended {A = Unit {0}} (λ k. k ≡ j)) (w.copies s.log src dst) _ _ (λ p. e)
            (λ p. tt);
    }

    pub Frames-file_size : (words path : Text) → Frames j (file_size w words path)
    unfolding file_size
    Frames-file_size words path = record {
      at = λ s e. if_some (Ended {A = ℕ} (λ k. k ≡ j)) (w.stat s.log path) _ _ tt (λ n p. e);
    }

    pub Frames-prepare_job_dir : Frames j (prepare_job_dir w)
    unfolding prepare_job_dir
    Frames-prepare_job_dir =
        Ends-get_job _ (
          Ends-then _ _ (Frames-make_dir _ _) (Ends-then _ _ (Frames-make_dir _ _) (Frames-pure _)))

    -- The common end: the output is replaced by the input unless it is smaller.
    pub end-NotLarger :
        (b : Bool) (words src output : Text) (size : ℕ)
        → (b ≡ false → 0 < j.input_size → size ≤ j.input_size)
        → Ends j (NotLarger j) (
            if b
            then copy_file w words src output >> set_output output j.input_size
            else set_output output size)
    end-NotLarger b words src output size h =
        Ends-if b _ _
          (λ e.
            Ends-then _ _ (Frames-copy_file words src output)
              (Ends-set_output output j.input_size (λ known. omega arith)))
          (λ e. Ends-set_output output size (h e))
