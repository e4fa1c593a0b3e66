-- ===== src/Lib.antt =====
-- Product Tracker: the checking of products, the rules on them, and the alerts.
--
-- The program watches the pages of online shops. A check (src/product_tracker/services/tracking.py)
-- asks its guard for leave, fetches the page with retries, compares what was read with the
-- histories, appends the changes, evaluates the rules of the product and records the alerts of those
-- that fire. A later step sends what waits. The parts meet in four places: the check calls the guard
-- through the record `CheckGuard`, which `Pacing.Guard` fills with the guard in memory; the alerts of
-- a check go through `record_match` into the table `notifications`; the sending reads that table; and
-- `Runner` joins claims, checks and sending in a pass over all products.
--
-- Files, and the code that they model (paths below src/product_tracker):
-- + Prelude: names of the libraries, tests on native numbers, texts as code points, joined texts.
-- + Decimal: Python's `Decimal` with no sign, as a coefficient and a number of places; `str` and the
--   constructor; the column `Numeric(12, 2)` of db/models.py. Numbers have no bound here; the column
--   refuses an amount of more than twelve digits.
-- + Dict: a `dict` with text keys, in order of insertion.
-- + Domain: domain/enums.py, `FetchResult` and the contexts of domain/models.py.
-- + Changes: services/change_detection.py.
-- + Rules: services/rules_engine.py; Params is `validate_params`, Signature is `dedupe_signature`.
-- + Notifications: repositories/notifications.py over the table; Keys is `build_dedupe_key` and
--   `record`, Sending is `deliver`, Digest is `deliver_pending` with its batches, all of
--   services/notification_service.py.
-- + Tracking: services/tracking.py and what it uses of repositories/. Retry is `_fetch_with_retry`,
--   History and Recording are the histories, the status and the product's columns, Alerting is
--   `_evaluate_rules`, Checking is `_record`, `_record_skipped` and `check_product`.
-- + Pacing: `StoreGuard` of scheduler/throttle.py; Shared is `SharedStoreGuard`.
-- + Claims: scheduler/claims.py.
-- + Runner: services/check_runner.py.
-- + Comparison: services/comparison.py with the rows and the grid of domain/models.py (Rows) and
--   `load_grid` of repositories/groups.py (Grid); Matrix is `build_matrix`, Sorting is `sorted`.
--   Rows that tie in time rank by their ids, which the SQL leaves open.
-- + Money: utils/money.py; Currency is `parse_currency`, Display the two ways to show a price.
-- + Accounts: services/product_service.py (Watching), services/alert_service.py (Alerts) and the
--   subscriptions of services/user_service.py, for one account that acts.
-- + Entries: services/product_entry_service.py and repositories/product_entries.py; Releasing leaves,
--   pauses and retires, Editing creates and changes, Requests joins them.
-- + Users: services/user_service.py, repositories/users.py and core/security.py: accounts and keys.
-- + Scheduler: `reconcile` of scheduler/jobqueue.py and `desired_schedule` of scheduler/runner.py;
--   Heartbeat is scheduler/heartbeat.py.
-- + QueryPolicy: services/query_policy.py.
-- + Robots: `rules_for` of stores/robots.py; Lines takes the file apart.
-- + RateLimit: `TokenBucketLimiter` and the middleware of api/ratelimit.py.
-- + Examples: concrete runs.
--
-- State is passed explicitly: a table or a set of tables goes in and comes out. A transaction is one
-- step, and so is a call under a lock or a single statement of SQL; several threads or workers are a
-- list of such steps in any order. Times are microseconds in ℕ. What the world decides is a
-- parameter: the clock, the jitter, the result of each fetch, the answer of each provider, and the
-- digest of hashlib, which a theorem assumes to be without collisions where it says so. So are the
-- tables of Unicode behind `str.upper`, `str.lower` and `str.casefold`, the collation of the database,
-- and the validation, the canonical form and the store of a URL.
--
-- The loops are structural, over the rows, the rules, the providers or the attempts that are left;
-- only the writing of a number and the grouping of its digits run on fuel: one more than the number,
-- which is more than its digits, and the number of the digits.
-- The retries of a fetch are bounded by the setting, with at least one fetch.
--
-- Not modelled: the adapters and the scraping of pages, which a check takes as a parameter; the
-- bodies of messages and the log; the channels; floating point, for which the rate limit counts in
-- parts of a token; the settings, the sessions and the errors of the database; the API, the command
-- line, the job store and the locks of the scheduler, the edits of groups, and discovery.
pub mod Prelude
pub mod Decimal
pub mod Dict
pub mod Domain
pub mod Changes
pub mod Rules
pub mod Notifications
pub mod Tracking
pub mod Pacing
pub mod RateLimit
pub mod Examples
pub mod Claims
pub mod Comparison
pub mod Money
pub mod Accounts
pub mod Robots
pub mod Entries
pub mod QueryPolicy
pub mod Users
pub mod Scheduler
pub mod Runner
