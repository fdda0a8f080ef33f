-- ===== src/Upload/Several/Parts.antt =====
-- The loop over several uploaded files and what surrounds it (internal/api/handlers/convert.go), for any
-- step of the loop.
use filemagic_backend.Prelude.{
  ℕ, ◌+◌, ◌≡◌, refl, ◌≢◌, ◌⊎◌, inl, inr, true, false, List, [], ◌∷◌, ◌++◌, Option, some, arith,
  length, Text, eq_text, eq_text_iff, All, subst, length-append,
}
use filemagic_backend.Json.{Fields}
use filemagic_backend.Queue.{ConversionType, is_refused, enqueue}
use filemagic_backend.Gate.{ErrorCode}
use filemagic_backend.Validator.Names.{one_of}
use filemagic_backend.Upload.{
  owner_ip, partly, Server, Reply, refused, queued, make_dir, remove_all,
}
use filemagic_backend.Upload.Storing.{Lacks, without-cons, submit_job_refused, submit_job_queued}
use filemagic_backend.Upload.Several.{
  Part, PartEnd, stopped, kept, hangs, LoopEnd, loop_stopped, all_kept, loop_hangs, store_parts,
  Batch, batch_dir, batch_request, run_batch,
}

unfoldable pub total_size : List Part → ℕ
total_size [] = 0
total_size (p ∷ ps) = p.size + total_size ps

PartEnd-cases :
    (r : PartEnd)
    → ((status : ℕ) × (code : ErrorCode) × (r ≡ stopped status code))
      ⊎ (((name : Text) × (r ≡ kept name)) ⊎ (r ≡ hangs))
PartEnd-cases (stopped status code) = inl (status, code, refl)
PartEnd-cases (kept name) = inr (inl (name, refl))
PartEnd-cases hangs = inr (inr refl)

module _ (step : ℕ → List Text → Part → PartEnd) where
  -- A turn that is passed.
  store_parts-cons :
      (i total t : ℕ) (names ns : List Text) (p : Part) (ps : List Part)
      → store_parts step i total names (p ∷ ps) ≡ all_kept t ns
      → (name : Text) × (step i names p ≡ kept name)
        × (store_parts step (i + 1) (total + p.size) (names ++ name ∷ []) ps ≡ all_kept t ns)
  unfolding store_parts
  store_parts-cons i total t names ns p ps e = elim (PartEnd-cases (step i names p)) [
    | inl (status, code, f) ↦ absurd (ground arith)
    | inr (inl (name, f)) ↦ (name, f, ground arith)
    | inr (inr f) ↦ absurd (ground arith)
  ]

  -- The sizes add up, and each file has one name.
  store_parts_counts :
      (i total t : ℕ) (names ns : List Text) (ps : List Part)
      → store_parts step i total names ps ≡ all_kept t ns
      → (t ≡ total + total_size ps) × (length ns ≡ length names + length ps)
  unfolding total_size store_parts
  store_parts_counts i total t names ns [] e = ground arith
  store_parts_counts i total t names ns (p ∷ ps) e =
      let (name, f, g) = store_parts-cons i total t names ns p ps e in
      let (a, b) = store_parts_counts (i + 1) (total + p.size) t (names ++ name ∷ []) ns ps g in
      (omega arith, omega (arith, length-append names (name ∷ [])))

  -- From the start, the total is the sum of the sizes, and there is one name for each file.
  pub all_kept_counts :
      (t : ℕ) (ns : List Text) (ps : List Part)
      → store_parts step 0 0 [] ps ≡ all_kept t ns
      → (t ≡ total_size ps) × (length ns ≡ length ps)
  all_kept_counts t ns ps e =
      let (a, b) = store_parts_counts 0 0 t [] ns ps e in (omega arith, omega arith)

  -- What a passed turn says of its file holds of every file.
  pub store_parts-All :
      (P : Part → Type 0)
      → ((i : ℕ) (names : List Text) (p : Part) (name : Text) → step i names p ≡ kept name → P p)
      → (i total t : ℕ) (names ns : List Text) (ps : List Part)
      → store_parts step i total names ps ≡ all_kept t ns
      → All P ps
  store_parts-All P k i total t names ns [] e = tt
  store_parts-All P k i total t names ns (p ∷ ps) e =
      let (name, f, g) = store_parts-cons i total t names ns p ps e in
      (
        k i names p name f,
        store_parts-All P k (i + 1) (total + p.size) t (names ++ name ∷ []) ns ps g,
      )

-- No name stands twice in the list.
abbrev pub AreDistinct : List Text → Type 0
AreDistinct [] = Unit {0}
AreDistinct (x ∷ xs) = (one_of x xs ≡ false) × AreDistinct xs

one_of-snoc :
    (x n : Text) (xs : List Text)
    → one_of x xs ≡ false
    → eq_text n x ≡ false
    → one_of x (xs ++ n ∷ []) ≡ false
unfolding one_of
one_of-snoc x n [] h d = ground arith
one_of-snoc x n (y ∷ xs) h d = ground (arith, one_of-snoc x n xs)

AreDistinct-snoc :
    (xs : List Text) (n : Text) → AreDistinct xs → one_of n xs ≡ false → AreDistinct (xs ++ n ∷ [])
unfolding one_of
AreDistinct-snoc [] n d h = (refl, tt)
AreDistinct-snoc (x ∷ xs) n d h = (
  one_of-snoc x n xs d.0 (ground (arith, eq_text_iff x n, eq_text_iff n x)),
  AreDistinct-snoc xs n d.1 (ground arith),
)

pub store_parts-AreDistinct :
    (step : ℕ → List Text → Part → PartEnd)
    → ((i : ℕ) (names : List Text) (p : Part) (name : Text)
        → step i names p ≡ kept name
        → one_of name names ≡ false)
    → (i total t : ℕ) (names ns : List Text) (ps : List Part)
    → store_parts step i total names ps ≡ all_kept t ns
    → AreDistinct names
    → AreDistinct ns
unfolding store_parts
store_parts-AreDistinct step k i total t names ns [] e d = subst AreDistinct (ground arith) d
store_parts-AreDistinct step k i total t names ns (p ∷ ps) e d =
    let (name, f, g) = store_parts-cons step i total t names ns p ps e in
    store_parts-AreDistinct step k (i + 1) (total + p.size) t (names ++ name ∷ []) ns ps g
      (AreDistinct-snoc names name d (k i names p name f))

LoopEnd-cases :
    (r : LoopEnd)
    → ((status : ℕ) × (code : ErrorCode) × (r ≡ loop_stopped status code))
      ⊎ (((t : ℕ) × (ns : List Text) × (r ≡ all_kept t ns)) ⊎ (r ≡ loop_hangs))
LoopEnd-cases (loop_stopped status code) = inl (status, code, refl)
LoopEnd-cases (all_kept t ns) = inr (inl (t, ns, refl))
LoopEnd-cases loop_hangs = inr (inr refl)

module _ (b : Batch) (conv_type : ConversionType) (output_name : Text)
    (options : List Text → Fields) (step : ℕ → List Text → Part → PartEnd) (s s' : Server) where
  abbrev ran : Option (Server × Reply)
  ran = run_batch b conv_type output_name options step s

  pub run_batch_refused :
      (status : ℕ) (code : ErrorCode)
      → ran ≡ some (s', refused status code)
      → b.disk.removed ≡ true
      → b.disk.mkdir ≢ partly
      → Lacks (batch_dir b) s.job_dirs
      → s' ≡ s
  unfolding run_batch make_dir remove_all
  run_batch_refused status code e gone whole new =
      elim (LoopEnd-cases (store_parts step 0 0 [] b.form.files)) [
        | inl (st, c, f) ↦ ground (arith, without-cons (batch_dir b) s.job_dirs new)
        | inr (inr f) ↦ ground arith
        | inr (inl (t, ns, f)) ↦ ground (
          arith,
          submit_job_refused b.disk (batch_dir b)
              (batch_request b conv_type output_name (options ns) t)
              (record s { job_dirs = batch_dir b ∷ s.job_dirs }) s s' status code,
        )
      ]

  pub run_batch_queued :
      (id : Text) (position wait : ℕ)
      → ran ≡ some (s', queued id position wait)
      → (total : ℕ) × (names : List Text) × (store_parts step 0 0 [] b.form.files
          ≡ all_kept total names)
        × (is_refused s.queue (owner_ip b.cfg b.peer) ≡ false)
        × (s' ≡ record {
          queue = enqueue s.queue (batch_request b conv_type output_name (options names) total);
          job_dirs = batch_dir b ∷ s.job_dirs;
        })
  unfolding run_batch make_dir remove_all
  run_batch_queued id position wait e =
      elim (LoopEnd-cases (store_parts step 0 0 [] b.form.files)) [
        | inl (st, c, f) ↦ absurd (ground arith)
        | inr (inr f) ↦ absurd (ground arith)
        | inr (inl (t, ns, f)) ↦
            let q = batch_request b conv_type output_name (options ns) t in
            let s1 = record s { job_dirs = batch_dir b ∷ s.job_dirs } in
            let (room, stored, name, place, estimate) =
              submit_job_queued b.disk (batch_dir b) q s1 s' id position wait (ground arith) in
            (t, ns, f, room, stored)
      ]
