-- ===== src/Lib.antt =====
-- The blog engine: a Go server of blogs, with accounts, posts and comments kept in SQLite, the text
-- of posts and their images kept in an object store, and HTML pages made on the server.
--
-- The parts, and the modules that model them. Go's names are kept in lower case with underscores; a
-- method of a type is a function whose last arguments are the state, and it returns the state after.
--
--   * Storage: internal/storage/store.go, the records and constants that the parts share.
--   * Errors: the error variables of internal/storage and internal/storage/sqlite. An error is the
--     list of what `%w` wraps, so that errors.Is is a search in it.
--   * Sqlite: internal/storage/sqlite. `Database.Db` has the rows of the tables that migrations/
--     builds, `Table.Schema` the constraints of a table, `Table.insert` and `Table.update` the two
--     kinds of statement that change one. A method of the store takes a `Call`, which gives
--     CURRENT_TIMESTAMP and the error that the driver meets, if any: the theorems hold for every
--     sequence of such errors. `Invariant` has the invariant of the database and that all methods
--     keep it, `Laws` what the methods do for their callers, and `Accounts`
--     what the store promises of accounts: a directory from ids to accounts, and its steps.
--   * Utils: internal/utils, the slug of a title and the random public ids.
--   * Strconv: what the code uses of Go's strconv.
--   * Config: internal/config/config.go, the defaults, the environment and the validation.
--   * Handlers: internal/handlers, the pages and forms. A handler takes the database and the session
--     of the request and returns an `Outcome`: the response, the database and the session. Where a
--     handler calls the store twice it takes two calls. The session manager (scs) and bcrypt are
--     records of operations with records of laws, `IsSessions` and `IsHashing`.
--   * Http: net/http as the code uses it, a ResponseWriter with its header map, the status and the
--     headers that were sent, and the body. A turn of a handler is a list of calls of the writer.
--   * Storage.S3: internal/storage/s3_store.go over a client of the object store, a record of
--     operations with a record of laws, `IsBucket`.
--   * Handlers.Assets: internal/handlers/assets.go, an image from the cache of variants, or from the
--     originals with a job put on the queue.
--   * Middleware: internal/middleware, the address of a client (ip.go), the statistics of visitors
--     (geostats.go), the map of rate limiters (limiter.go), the headers (csp.go), the delay of
--     forms (secure_delay.go) and the recording of answers (observability.go). Maps are lists of
--     pairs, `Assoc`. `Middleware.Handler` has the type of a handler over a ResponseWriter, and the
--     middleware are functions on it.
--   * Router: internal/router/router.go, the table of routes and the stack of middleware.
--   * Content: internal/content, the names of assets (assets.go), the queue of image jobs and the work
--     on one job (webp_processor.go), the transformation of markdown (markdown.go), the copy of local
--     images into the object store (sync.go), and the posts of a local directory (posts.go,
--     disk_loader.go).
--   * Seeder: internal/seeder, the seeding of one blog from its manifest and of one post from its
--     file, and the walks over the directories of blogs and posts.
--   * Site: cmd/blogengine/main.go and internal/router/router.go, the handlers behind the router on the
--     state that they share. A request is a step of that state, and so is a list of requests.
--   * Server: cmd/blogengine/main.go, the order of start and stop, and the first account.
--   * Prelude: numbers, lists, texts and sorting. A Go string is the list of its bytes.
--   * Tests: runs of the code, and the theorems applied to them.
--
-- How the parts meet: a handler calls the store through its methods and never sees a table; the
-- theorems of Handlers and Seeder use those of Sqlite. The seeder makes slugs with Utils, the store
-- checks them with Sqlite.Validate, and CreatePost takes its public ids from Utils. In `Site` the
-- handlers, the limiters, the statistics and the queue of jobs meet: its theorems are about requests
-- that go through all of the middlewares.
--
-- Bounds. Row keys, offsets and limits are Go's int64 and are integers here without a bound, since
-- they are only compared; a key that AUTOINCREMENT gives out is the successor of the last, which
-- ignores that SQLite ends at 2^63 - 1. strconv.ParseInt has its range. The time of publication of
-- a post is the text that the driver stores, time.Time.String(), since the DSN sets no
-- format, and CURRENT_TIMESTAMP is the text beside it: the queries compare and order these two as
-- texts. Other times and durations are in nanoseconds, or in what the database counts them in, and
-- are compared and added only. Widths and heights of images are numbers whose products fit in Go's int. The loop of GeneratePublicID has no
-- bound in Go: it runs here on the list of the reads of the random source, and as many accepted
-- bytes as the length are enough for it to end. strconv.Itoa runs on one unit of fuel more than the
-- number, which has fewer digits than that. The workers of the image processor take rounds: one
-- takes the oldest job of the queue, and a round for each job empties the queue.
--
-- Parameters. filepath.Clean, UUIDs, net.ParseIP, time.ParseDuration, url.Parse, bcrypt, the session
-- manager, CSRF protection, the token buckets of the rate limiter, the clock and the timer of the delay, the codec and scaler of images,
-- the client of the object store, the parsers of YAML, frontmatter and markdown, and the file system
-- are arguments of the definitions that use them; a parsed text is the list of its nodes in the
-- order of the walk. strings.EqualFold, strings.ToLower and strings.TrimSpace are modelled on texts
-- whose letters and spaces are in ASCII, with the exceptions that the module names.
--
-- Not modelled. Opening the database, running migrations and WithTx; logs, spans, metrics and
-- telemetry; the HTML of the components; cookies; goroutines and tickers, of which each step is a
-- function that may run at any time; the sockets of the server; code in comments.
pub mod Prelude
pub mod Errors
pub mod Storage
pub mod Http
pub mod Utils
pub mod Strconv
pub mod Config
pub mod Sqlite
pub mod Handlers
pub mod Middleware
pub mod Router
pub mod Content
pub mod Seeder
pub mod Site
pub mod Server
pub mod Tests
