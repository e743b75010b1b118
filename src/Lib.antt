-- ===== src/Lib.antt =====
-- LegacyStore is an application store for old versions of Mac OS X: a Go server in backend/, a
-- browser interface for its administrators, and an Objective-C client. This library models the
-- server's core, the code that decides: what runs on which Mac, which file a Mac is offered, who
-- may log in and stay logged in, who may change a review, which requests reach a handler, and where
-- files are kept.
--
-- Parts and files:
-- - Architecture: backend/internal/architecture/architecture.go, names of processors.
-- - Compatibility.Version and Compatibility.Engine: backend/internal/compatibility/version.go and
--   engine.go, versions of systems and the verdict on an artifact; the engine uses Architecture.
-- - Catalog.Row, Catalog.Selection and Catalog.Versions: the artifact rows of
--   backend/internal/catalog/sql.go and models.go, and `chooseArtifact`, `versionsFromArtifacts` and
--   `artifactResponse` of store.go; they use the engine. Catalog.Manifest: `manifestVersions` of
--   manifest.go. Catalog.Telemetry: telemetry.go, the events of downloads and views.
-- - Api.RateLimiter and Api.Security: backend/internal/api/security_middleware.go, with
--   `isSecureRequest` and `writeError` of router.go, and `clientIP` and `sessionToken` of
--   account_handlers.go. The middleware's state is its limiter. Api.Telemetry: telemetry.go, the
--   client of a request; it uses Account.Sessions and fills the record of Catalog.Telemetry.
-- - Account.Rows and Account.Tables: the rows of backend/internal/account/models.go, and the
--   statements on tables. Account.Auth, Account.Sessions and Account.Profile: store_auth.go.
--   Account.Vault, Account.Security, Account.Recovery and Account.Provision: store_security.go, the
--   second factor, the changes and the recovery of a password, the administrator's account.
--   Account.LegacyRows and Account.Legacy: store_legacy.go, the passwords of the old clients.
--   Account.Admin and Account.Moderation: store_admin.go, users, their roles and the moderation queue.
--   Account.ReviewRows and Account.Reviews, with Account.Reviews.Operations: store_reviews.go.
-- - Storage.Paths and Storage.Disk: backend/internal/storage/local.go.
-- - Macmeta.Plist: backend/internal/macmeta/plist.go, binary property lists. Macmeta.Macho: macho.go,
--   the headers of executables; both read by way of Macmeta.Bytes, where a read is a value, an error
--   or a panic. Macmeta.Png and Macmeta.Metadata: `extractPNG`, `applyPlist` and `validateMetadata`
--   of inspect.go, and `plistString`.
-- - Base: what the parts share. Base.Strings has the functions of Go's `strings` and `strconv` that
--   the code calls, Base.Strings.Hosts those of `net`, Base.Dict maps, Base.Sorting a stable sort.
-- A definition keeps the name of its function, in lower case with underscores; the modules below a
-- part hold its proofs and, in Tests, its runs.
--
-- How the code is modelled:
-- - A text is the list of its bytes. Case and white space are those of ASCII.
-- - Times, sizes and identifiers are natural numbers; a version's parts and a rating are those of
--   the source, with the bound of a 64-bit int where a number is parsed.
-- - Stateful code takes its state and returns it: the limiter, the tables, the disk. One call is
--   one step; interleavings are sequences of calls.
-- - A table is the list of its rows. A statement does what the schema of backend/migrations makes
--   of it: unique indexes refuse a row, triggers set `updated_at` and keep one administrator. Apart
--   from that, the database does not fail. An operation that returns an error leaves the tables as
--   they were, unless it returns them beside the error. A key comes from a counter that an operation
--   that fails does not advance.
-- - What Go's libraries, the clock and the random source give is an argument: the parsers of
--   addresses and URLs (`Net`), hashing and codes (`Credentials`, SHA-256), tokens, the time. The
--   theorems assume nothing of them.
-- - An address that a request gives is already parsed, so that the database's type for addresses
--   keeps it as it is.
-- - Loops are structural recursion on a list or on the number of rounds that are left, so that no
--   fuel is needed. `object` of plist.go recurses on the depths that are left, 65 of them, the
--   source's own limit. The loops of `extractPNG` get as many rounds as there are bytes, which is
--   enough.
-- - Sums and products of `uint64` in plist.go wrap at 2^64, and a slice out of range is a panic; the
--   limit plus one of `SaveQuarantine` wraps as an int64.
--
-- Not modelled: the HTTP handlers beyond the middleware, the queries of the catalogue and the
-- signature of the manifest, passwords and codes themselves, the administration of
-- applications, contributions and uploads, XML property lists, archives and whole Mach-O files,
-- images, start-up, and the code in other languages.
pub mod Base
pub mod Account
pub mod Architecture
pub mod Compatibility
pub mod Catalog
pub mod Api
pub mod Storage
pub mod Macmeta
