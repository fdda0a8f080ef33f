-- ===== src/Lib.antt =====
-- The FileMagic backend: an HTTP service that takes an uploaded file, queues a conversion of it, runs
-- the tool in an nsjail sandbox and serves the result once. The development models the parts that decide
-- what is let in, what waits, what runs and what is told.
--
-- A request passes the rate limiter and the Turnstile check (Gate, RateLimiter), then a handler checks
-- the form and the file's first bytes (Upload, Validator) and submits a job (Queue). One worker takes
-- jobs in order and runs a converter (Converter), which launches nsjail (Sandbox); an archive is unpacked
-- only after its listing is checked (Archive). The client asks for its position and fetches the result.
--
-- Files, and the code they model:
-- - Prelude, Dict, Json, Paths, Float: shared helpers; Go's strings as lists of bytes, maps as
--   association lists, `map[string]any`, the functions of `strings`, `path` and `path/filepath` in use,
--   and float64 values by their bit patterns.
-- - Queue: internal/queue/queue.go. `submit` is `Submit`, `release_slot` is `releaseSlot`, `conclude` the
--   verdict of `worker`. Queue/Machine has the worker, `Submit` and `DeleteJob` as a step relation:
--   each step is one critical section or one channel or map operation. Queue/Turns has the worker's
--   turns as a function.
-- - Validator: internal/validator/validator.go. `detect_file_type` is `DetectFileType`; the order in
--   which Go visits the table of magic bytes is an argument.
-- - RateLimiter: `RateLimiter` of internal/api/middleware.go. `allow` is `Allow`, `sweep` one round of
--   `cleanup`; time is an argument in nanoseconds.
-- - Gate: the other middleware of internal/api/middleware.go, and internal/api/turnstile.go. The
--   Turnstile service is an argument. Gate/Router is `NewRouter` of internal/api/router.go: its table of
--   routes with the middleware of each; how chi finds a route and the handlers are arguments.
-- - Upload: `handleConversion`, `handleTextConversion`, `ownerIP` and the routes of
--   internal/api/handlers/convert.go. The multipart parser, the JSON decoder, the file system's answers
--   and the new job id are arguments.
-- - Upload/Named: the handlers that tell a file by its name (`FontConvert`, `EbookConvert`, `SvgToPng`,
--   `Decompress`, `MarkdownPDF`, `handleCertConversion`), one constructor of `NamedRoute` for each.
-- - Upload/Several: `handleMergeConversion` and `handleArchiveConversion`. What `os.Stat` answers and how
--   numbers are printed are arguments; the search for a free name runs on fuel, and `none` is a handler
--   that has not returned within it.
-- - Sanitize: `SanitizeFilename` of internal/converter/archive.go, on runes, with the bytes of their
--   UTF-8 form counted. Unicode's upper case is an argument.
-- - Download, Outputs: the download handlers of internal/api/handlers/convert.go, and how they open a
--   file (`openRegularFileUnderDir`). The file system is a record of functions, `filepath.Rel` and
--   `filepath.Abs` are written out in Outputs, and the goroutine that cleans up is `clean_up`.
-- - Cleanup: internal/cleanup/cleanup.go. `tick` is one round of `Start`: the expired jobs, then the
--   directories without a job.
-- - Sandbox: internal/converter/nsjail.go. The file system, the working directory, the launched process
--   and the printing of numbers are arguments. Sandbox/Waiting is `waitOrKill`, over the events that it
--   waits for, in order.
-- - Archive: `validate7zListing` of internal/converter/decompress.go, with sizes and their total as
--   64-bit integers that wrap around.
-- - TargetSize: `compressToTargetSize` of internal/converter/image_compress.go. The image tool and the
--   floating-point arithmetic are arguments; the loops have the code's own limits of turns.
-- - ImageDimensions: internal/converter/image_dimensions.go. The output of `vipsheader` and `fmt.Fscan`
--   are arguments. It is the check by itself; `guard_dimensions` of Converter/Ocr is the
--   same check as the converters run it, in the log of what they do.
-- - Converter: internal/converter. A converter's `Convert` is a `Task`: a function of the job and of the
--   log of all that was done, which ends well, with an error, or in a panic. What the tools and the file
--   system answer may depend on the whole log; the record `World` holds these answers. The child modules
--   are named for the converters: Documents (Markdown, e-books, fonts, SVG, qpdf), Media and Video
--   (ffmpeg), Ocr, Certs, Pdf, Listed (merge, images to PDF, archives), Manifest (images of a PDF,
--   icons), Unpacked, Metadata, PdfEdit, Crop, Watermark, Image, ImageCompress, QrCode. Registry is
--   `NewRegistry`, `Get` and `Process`. Keeps and Gives have the rules by which one proves an invariant of
--   a converter's log, and what it returns, along its do block. Ends and Guarded have those for
--   what it does to the job and for what its guard admits.
-- - CertGuard: internal/inspector/pkcs12_guard.go. `asn1.Unmarshal` is an argument, one function for
--   each type it fills.
-- - Stats: internal/stats/cloudflare_kv.go. Stats has one counter and its flushes, Stats/Store both
--   counters of the store with the cache of `Get`, and how replies are read. What the key-value service
--   answers is an argument.
--
-- Loops are recursion on lists, and only the search for a free name needs fuel. Counters of jobs and
-- requests are unbounded numbers: they are bounded by the channel's size and by the limits. Header
-- values, paths and text bodies are ASCII bytes; file names in Validator/Names and Sanitize are runes,
-- with Unicode's tables as arguments.
--
-- Not modelled: internal/inspector/certificate.go and internal/api/handlers/inspect.go, which format
-- the fields of the standard library's certificates; internal/config/config.go, which reads the
-- environment; the status, statistics, contact and health handlers, which format a reply; the limit of
-- the multipart parser; cgroup set-up and cmd/server/main.go, which write to the kernel and start the
-- parts. The values that are formatted into the converters' errors are left out of them, and what the
-- search for a target size of an image runs is not in the converters' log. A launch ends as its argument
-- says: how long it takes is not modelled.
pub mod Archive
pub mod CertGuard
pub mod Cleanup
pub mod Converter
pub mod Dict
pub mod Download
pub mod Float
pub mod Gate
pub mod ImageDimensions
pub mod Json
pub mod Outputs
pub mod Paths
pub mod Prelude
pub mod Queue
pub mod RateLimiter
pub mod Sandbox
pub mod Sanitize
pub mod Stats
pub mod TargetSize
pub mod Upload
pub mod Validator
