-- ===== src/Lib.antt =====
-- mediaman: the core of a self-hosted media manager, which deletes what nobody has watched, after a
-- time of grace in which a user may keep it.
--
-- The program is in Python, in src/mediaman/. These of its parts are modelled.
--
-- * Rate limiters (services/rate_limit/limiters.py): RateLimit. Window holds the windows of instants;
--   Action is ActionRateLimiter, with ActionSpec, ActionRun and ActionCaps about it; Ip is RateLimiter,
--   with IpBounds and IpCheck about it. Each `check` returns the limiter's next state and its answer.
-- * Instants as text (core/time.py): Core.Time has the two parsers of ISO-8601 and the order of SQLite
--   on a TEXT column, Core.TimeLaws their laws. `datetime.fromisoformat` and `isoformat` are the record
--   `Datetime`; `IsIso` states what the program relies on, and `one_code` meets it.
-- * The tables that the scanner works on (db/schema_definition.py, scanner/repository/): Scanner.Table
--   has the rows and the lifecycle of a deletion, Scanner.Protection the reads that guard an item and
--   the sweeps of expired snoozes; Batches and Sweeps are about them. A table is the list of its rows,
--   a statement a function on it, a transaction one step.
-- * The deletion pass (scanner/deletions.py): Scanner.Deletion. It reads the due rows from the tables,
--   marks each, removes its file and credits the removal. Crash, Recovery, Pass, DryRun and Snapshot
--   are about it. The storage layer is the record `Storage`, the file system the list of its paths, and
--   calls of Radarr and Sonarr are written down in order.
-- * What a scan decides (scanner/_eligibility.py, scanner/phases/): Scanner.Eligibility has the evaluation
--   of an item, Scanner.Orphans the removal of items that Plex no longer has, with the guard against
--   a scan that came back almost empty. EligibilityLaws, OrphanLaws and OrphanGuard are about them.
-- * The scan (scanner/engine.py, _scan_library.py, arr_dates.py, fetch.py, phases/upsert.py): Scanner.ArrDates
--   is the cache of dates from Radarr and Sonarr, Scanner.Upsert what is written for an item, Scanner.Scan
--   the loop over the items of a library, Scanner.ScanLibrary the libraries and `run_scan`, which hands on
--   to the removal of orphans and to the deletion pass. ScanSteps, ScanLaws, ScanShows, ScanOnce,
--   ScanCounts, ScanWatched and ScanRun are about them. What Plex lists, and where the handling
--   of an item raises, are fields of the libraries and the items.
-- * Keeping an item by the link of a mail (services/scheduled_actions/_mutations.py, _lookup.py,
--   web/routes/keep.py): Keep has the two guarded updates of an action, Keep.Page the routes that apply
--   them, with the record of used tokens. Keep.Laws is about the updates and about how they meet the deletion
--   pass, Keep.PageLaws about the routes. A token is its hash and the payload that its signature covers.
-- * Login (web/auth/login_lockout.py, web/auth/password_hash/_authenticate.py): Auth.Lockout has the
--   table of failures, Auth.Login the check of a password; LockoutSpec, LockoutRun, LoginLaws and
--   Corrupt are about them. bcrypt is the field `checkpw` of `Accounts`.
-- * Signed tokens (crypto/tokens.py): Crypto.Tokens has signing and validation with the cache of sub-keys,
--   Crypto.Kinds the functions that issue and validate each kind. Base64, Subkeys, TokenLaws and KindLaws
--   are about them. base64, hmac, hashlib and json are the record `Codec`.
-- * Sessions and tickets of re-authentication (web/auth/session_store/, reauth.py, _session_fingerprint.py):
--   Session.Store has the two tables and their transactions, Session.Fingerprint what a session is bound
--   to, Session.Validate the life of a session, Session.Reauth the tickets. SweepLaws, Life, Run and
--   TicketLaws are about them. SHA-256 and `ipaddress` are fields of the libraries; whether a write of a
--   request succeeds is a field of the request.
-- * Searches for missing items (services/arr/search_trigger.py, _throttle_state.py, _throttle_persistence.py,
--   core/backoff.py): Search.Backoff has the delays, Search.Throttle what is remembered in memory and in the
--   table, Search.Trigger the three phases of a call, Search.Sweep the scheduled sweep, which calls it for
--   every item. BackoffLaws, TriggerLaws, Spacing, Sending, Race and Overlap are about them. The clients
--   of Radarr and Sonarr are the field `answer` of a call.
-- * Giving up on searches (services/arr/auto_abandon.py, services/downloads/abandon.py): Search.Abandon, with
--   AbandonLaws about it. Radarr and Sonarr are the record `Arr`.
-- * Notifications of downloads (services/downloads/notifications.py, _notification_claims.py,
--   _notification_backoff.py): Notify.Claims has the rows with their claims and the memory of retries,
--   Notify.Probe what Radarr and Sonarr know, Notify.Tick one run, Notify.Steps overlapping runs as a sequence of
--   steps. Laws, Settle, Once, Flight, Overlap and Arrival are about them. What the services answer,
--   which writes succeed and what raises past the handler of a row is the record `Surroundings`.
-- * The retry loop of outbound calls (services/infra/http/retry.py): Http.Retry; RetryLaws and RetryBounds
--   are about it. What an attempt comes to is a function of its index, and a run is its end, the number of
--   attempts and the sleeps.
-- * The guard on outbound URLs (services/infra/url_safety.py, _url_safety_blocks.py): Egress.Blocks has the
--   lists of refused names and networks, Egress.Guard the decision and the allow-list. AddressLaws,
--   AllowLaws and GuardLaws are about them. An address is its number, and `urlparse`, `ipaddress`, idna and
--   the resolver are the record `UrlCalls`.
--
-- Prelude holds what these share: Booleans and `==` by the class `Key`, lists, rows of a table, and
-- dictionaries in the order of insertion.
--
-- Bounds. Numbers are natural numbers, as Python's integers have no width. An instant is a number of
-- ticks, microseconds in Auth, Core, Crypto, Session and Search, where the program uses floats or
-- `datetime`. The batch reads split their ids into chunks by recursion on fuel, and are given the number
-- of ids, which is enough since each chunk takes at least one. All other loops are recursion on a list.
--
-- Not modelled: the requests that load the dates of a scan from Radarr and Sonarr, the mail and the recommendations after a scan, the pages and their routes, the clients of
-- other services, the downloads page, the encryption of settings, start-up and threads. Where a function only
-- logs, nothing stands for it. What is written within one transaction is one step; a database error in
-- the middle of one is not modelled, but for `clear_pending_deletions`, `admin_unlock_with_audit` and the
-- handling of an item by a scan. In Session and Search a write that fails as a whole is a flag. Threads
-- are modelled in Search and Notify only, where the phases of calls and the steps of runs interleave.
pub mod Prelude
pub mod RateLimit
pub mod Auth
pub mod Core
pub mod Crypto
pub mod Egress
pub mod Http
pub mod Keep
pub mod Notify
pub mod Scanner
pub mod Search
pub mod Session
