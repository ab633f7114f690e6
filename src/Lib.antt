-- ===== src/Lib.antt =====
-- qurator: a service of dynamic QR codes. A user makes a code with a destination; the printed image
-- holds a short address of this service, and a scan of it is redirected to the destination, which the
-- user may change, disable or delete. This library models its core, as plain functions on explicit
-- state, and proves what makes it correct.
--
-- The parts, and the files that model them:
--
-- - Common: lists, texts (lists of bytes) and dictionaries (association lists) over the native
--   numbers, with their lemmas.
-- - Domain: the types that all parts share (internal/domain/types.go), and Domain.Ids the
--   identifiers (internal/domain/ids.go).
-- - Shortcode: the short codes that the program makes and the aliases that users choose
--   (internal/shortcode). `generate` is Generate, `validate_alias` ValidateAlias.
-- - Store: the in-memory store, which implements the interface of internal/store/store.go by the
--   rules that its contract suite pins for every driver (internal/store/storetest/memstore.go). A
--   method is a function from its arguments and the tables (`MemStore`) to a result and the tables:
--   Users, Tokens, Codes (CreateCodes and the lookups), Changes (UpdateDestination, SetCodeState,
--   DeleteCode), Aliases (IsAliasAvailable, ReleaseAlias), Listing (ListCodes with its cursors),
--   Scans (InsertScanBatch, QueryAnalytics, PruneScanEvents) and Walkers (ForEachUser and the other
--   walks over a table, with the state that their callback works on). Calls has the sequences of
--   calls, and Listing.Walk a client that follows the cursors.
-- - Analytics: the counts of scans (BuildRollups of internal/analytics/rollup.go), Recorder the
--   pipeline from Record to the store with its workers (internal/analytics/recorder.go), and
--   Retention the pruning of RunOnce (internal/analytics/retention.go).
-- - Codes: the use cases (internal/codes/service.go) over the store, the blob store and the
--   resolver cache (internal/codes/cache.go): Keys (BlobKeyFor, LogoBlobKeyFor), Destination
--   (ValidateDestination), Prepare (prepare), World (the state and materialise), Create (Create),
--   Batch (CreateBatch, which keeps its results by index; Batch.Positions is an account of it by
--   position), Change (Get, UpdateDestination, SetState, Delete), Resolve (Resolve), Urls
--   (ImageURL, StorageURL). Answers, Coherence, Soundness, Scan, Creation and Sessions are about
--   the cache and the tables, Failure and Success about what Create leaves behind.
-- - Qr: what of the renderer does not paint (internal/qr): Geometry (computeGeometry of shape.go),
--   Colors (ParseHexColor and hexString of render.go), Levels (resolveLogoLevel of logo.go).
-- - Auth: API tokens with their cache (internal/auth/apitoken.go and authenticator.go).
--   `verify_token` is verifyToken, `mint_token` CreateToken.
-- - Public: the scan handler over Resolve (internal/httpapi/public/redirect.go). `redirect` is the
--   handler, with what it hands to the recorder. Image is the handler of images (image.go) over
--   what it uses of a BlobStore (internal/blob/blob.go); Image.Serving joins it to materialise.
--
-- How the code is read:
--
-- - Every method of the store holds its mutex from its first line to its last, so a method is one
--   step, and clients at work together are a list of calls. Pointers that the store hands out are
--   copies there, and values here. A context is one that has ended or one that has not, for the
--   whole of a call; only a walk over a table, which looks at it before each row, has one answer
--   for each look.
-- - A text is its list of bytes. strings.ToLower and strings.TrimSpace are those of ASCII letters
--   and white space; a text with other white space at an end, or with other letters that have a
--   lower case, is not what the model says of it. A time is a number of nanoseconds since Go's zero
--   time, in UTC. The versions of rows are 64-bit patterns, and wrap around; counts of scans and
--   sequence numbers do not. A logo scale is a number of millionths, never NaN.
-- - Maps are association lists, and their order is that of insertion; where the code sorts what it
--   ranges over, so does the model.
-- - Random bytes, clocks, url.Parse, the renderer of images, the detection of content types, and
--   the faults of the blob store are arguments. The cache is an argument with the laws `CacheLaws`:
--   a lookup gives what was set last and not invalidated since, or nothing, as entries may be
--   evicted or expire at any time.
-- - Create's loop runs on its number of attempts, five for a generated short code and one for an
--   alias, and that of UpdateDestination on its three. The padding of a blob key takes at most four
--   rounds, which is the fuel. `others` in UpdateDestination are the calls that other clients make
--   between its read and its write.
--
-- - The pipeline of scans is a relation: a list of actions (Record, Close, a turn of one worker) is
--   any interleaving of the callers, the workers, their tickers and the contexts of their calls. A
--   worker stands at the places of its loop where others can act in between.
-- - The days of retention times the nanoseconds of a day is an int64 product, which wraps around.
--   The limit of a page or of a pruning is 0 or more; the code takes one below 0 for 0.
-- - RunOnce takes fuel, and one round more than there are stored events is enough. A row of modules
--   is scanned with its length as fuel, since each round passes a module. A client that lists codes
--   takes fuel in pages.
-- - What the cursors use of time and base64 is an argument with the laws `CursorLaws`, and what the
--   tokens use of base64, base32 and SHA-256 is one with no laws. A call of the authenticator is
--   one step at one time. The goroutines of CreateBatch, which share nothing, run one after the
--   other.
--
-- Not modelled: the SQL drivers and their migrations, the blob stores of the file system and of S3,
-- the drawing of images and the contrast of colours (floating-point numbers), HTTP (routing, the other
-- handlers, middleware, console), passwords and sessions, configuration, export, logging and metrics,
-- and the classification of user agents.
pub mod Common
pub mod Domain
pub mod Shortcode
pub mod Store
pub mod Analytics
pub mod Codes
pub mod Qr
pub mod Auth
pub mod Public
