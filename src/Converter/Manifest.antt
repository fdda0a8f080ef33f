-- ===== src/Converter/Manifest.antt =====
-- The converters whose output is a directory, with a list of its files in the metadata
-- (internal/converter: pdf_extract_images.go and favicon.go). `fmt.Fscan` is a parameter.
use mathlib.Core.List.{reverse}
use filemagic_backend.Prelude.{
  ℕ, ◌+◌, Bool, not, List, [], ◌∷◌, ◌++◌, length, Option, none, some, leb, ◌==◌, if◌then◌else◌,
  Text, codes, non_empty,
}
use filemagic_backend.Json.{Fields, Items, nil, cons, str, int, arr, obj, end, field}
use filemagic_backend.Paths.{join_path, ext}
use filemagic_backend.Converter.{
  World, Entry, Task, pure, check, ◌>>=◌, ◌>>◌, get_job, Dirs, prepare_job_dir, run_tool,
  run_wrapped, read_dir, remove_file, set_output, set_metadata,
}
use filemagic_backend.Converter.Ocr.{guard_dimensions}

-- The files that are listed so far, the last first, and the sum of their sizes.
pub record Listing : Type 0 where
  pub files : List Fields
  pub total : ℕ

abbrev pub no_files : Listing
no_files = record { files = []; total = 0 }

abbrev pub is_none_listed : Listing → Bool
is_none_listed l = length l.files == 0

unfoldable pub to_items : List Fields → Items
to_items [] = nil
to_items (f ∷ fs) = cons (obj f) (to_items fs)

-- `job.Metadata`, `job.OutputPath` and `job.OutputSize` for a listing.
unfoldable pub set_listing : Text → Listing → Task (Unit {0})
set_listing output_dir l = do
  set_metadata (
      some (
        field (codes "files") (arr (to_items (reverse l.files))) (
          field (codes "fileCount") (int (length l.files))
            (field (codes "totalSize") (int l.total) end))))
  set_output output_dir l.total

-- The names and the sizes of the icons, as the command spells them.
abbrev pub favicon_sizes : List (Text × Text)
favicon_sizes =
    (codes "favicon-16x16.png", codes "16x16")
    ∷ (codes "favicon-32x32.png", codes "32x32")
    ∷ (codes "favicon-48x48.png", codes "48x48")
    ∷ (codes "apple-touch-icon.png", codes "180x180")
    ∷ (codes "android-chrome-192x192.png", codes "192x192")
    ∷ (codes "android-chrome-512x512.png", codes "512x512")
    ∷ []

module _ (w : World) where
  unfoldable pub mime_type : Text → Text
  mime_type name =
      let t = w.type_by_extension (ext name) in
      if non_empty t then t else codes "application/octet-stream"

  abbrev pub file_entry : Entry → ℕ → Listing → Listing
  file_entry e size l = record {
    files =
        field (codes "name") (str e.name) (
          field (codes "size") (int size) (
            field (codes "index") (int (length l.files))
              (field (codes "type") (str (mime_type e.name)) end)))
        ∷ l.files;
    total = l.total + size;
  }

  -- The loop over the directory; `limit` is the number of files at which it ends, if there is one.
  unfoldable pub list_entries : Option ℕ → List Entry → Listing → Listing
  list_entries limit [] l = l
  list_entries limit (e ∷ es) l =
      let skipped = list_entries limit es l in
      let taken : Listing = elim e.size [
        | none ↦ skipped
        | some size ↦ list_entries limit es (file_entry e size l)
      ] in
      if e.is_dir
      then skipped
      else elim limit [ none ↦ taken | some n ↦ if leb n (length l.files) then l else taken ]

  unfoldable pub extract_pdf_images : Task (Unit {0})
  extract_pdf_images = do
    d ← prepare_job_dir w
    job ← get_job
    run_tool w d (codes "poppler.cfg") 60 (
        codes "/usr/bin/pdfimages"
        ∷ codes "-all"
        ∷ job.input_path
        ∷ join_path d.output_dir (codes "img")
        ∷ [])
    entries ← read_dir w (codes "failed to read output directory") d.output_dir
    let l = list_entries (some 200) entries no_files
    check (not (is_none_listed l)) (codes "no images found in PDF")
    set_listing d.output_dir l

  -- Step 2 of the icons: the loop over their sizes.
  unfoldable pub make_icons : Dirs → Text → List (Text × Text) → Task (Unit {0})
  make_icons d png [] = pure tt
  make_icons d png ((name, size) ∷ sizes) =
      run_wrapped w (codes "failed to generate " ++ name ++ codes ": ") (record {
        args =
            codes "/usr/bin/vipsthumbnail"
            ∷ png
            ∷ codes "--size"
            ∷ size
            ∷ codes "-o"
            ∷ (join_path d.output_dir name ++ codes "[compression=6]")
            ∷ [];
        job_dir = d.job_dir;
        profile = codes "image.cfg";
        seconds = 30;
      })
      >> make_icons d png sizes

  unfoldable pub generate_favicon : (Text → ℕ × ℕ) → Task (Unit {0})
  generate_favicon fscan = do
    d ← prepare_job_dir w
    job ← get_job
    guard_dimensions w fscan d (codes "image.cfg") job.input_path
    let png = join_path d.output_dir (codes "intermediate.png")
    run_wrapped w (codes "vips PNG conversion failed: ") (record {
      args =
          codes "/usr/bin/vips"
          ∷ codes "pngsave"
          ∷ job.input_path
          ∷ png
          ∷ codes "--compression"
          ∷ codes "6"
          ∷ [];
      job_dir = d.job_dir;
      profile = codes "image.cfg";
      seconds = 30;
    })
    make_icons d png favicon_sizes
    run_wrapped w (codes "ImageMagick ICO generation failed: ") (record {
      args =
          codes "/usr/bin/convert"
          ∷ png
          ∷ codes "-define"
          ∷ codes "icon:auto-resize=48,32,16"
          ∷ join_path d.output_dir (codes "favicon.ico")
          ∷ [];
      job_dir = d.job_dir;
      profile = codes "image_to_pdf.cfg";
      seconds = 30;
    })
    remove_file w png
    entries ← read_dir w (codes "failed to read output directory") d.output_dir
    let l = list_entries none entries no_files
    check (not (is_none_listed l)) (codes "no favicon files generated")
    set_listing d.output_dir l
