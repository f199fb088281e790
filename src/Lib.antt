-- ===== src/Lib.antt =====
-- A ticket booking platform on two databases, as a model of its Python services.
--
-- PostgreSQL holds users, orders, tickets, payments, the outbox, the flags and the checkpoints;
-- MongoDB holds the events, whose zones carry a counter of booked seats. An order reserves its seats
-- in MongoDB, then writes itself and its held tickets in one PostgreSQL transaction, and gives the
-- seats back on any failure. A payment validates the tickets; a hold that runs out is expired by the
-- payment that comes too late or by the sweeper, and its seats are given back after the commit. A
-- worker drains the outbox. Two flags say which columns carry the names of users, and a backfill
-- moves them. An audit compares the databases.
--
-- Which file models what:
-- - Base, Text: lists, integers, sorting, loops and Python's str.
-- - Models, Models/Guards: app/models/sql_models.py; a table is a list of rows, and an INSERT names the
--   constraint that it breaks.
-- - Mongo: app/models/nosql_models.py, and MongoDB's documented update of one document.
-- - Errors: app/core/db_errors.py and the handler retryable_db_conflict_handler of app/main.py.
-- - Service: what a service call reads and writes, and the environment it runs in.
-- - Seats: the counters in app/services/order_service.py: the loop over zone_requests of
--   create_order_dual_db, _release_reservations and _release_counted_seats. Seats/Updates,
--   Seats/Capacity, Seats/Totals and Seats/AllOrNothing hold the proofs.
-- - Orders: the rest of app/services/order_service.py. Orders/Idempotency, Orders/Pricing and
--   Orders/Create are the phases of create_order_dual_db, and Orders/Phases says how a call ends;
--   Orders/Sweep is _sweep_one_batch and cleanup_expired_seat_holds. Orders/Capacity, Orders/NoOversell,
--   Orders/Leftover, Orders/Refusals, Orders/Fingerprint and Orders/Retry hold proofs.
-- - Payments: app/services/payment_service.py, with Payments/Outcomes on what a payment does.
-- - Outbox: app/services/outbox_worker.py, with Outbox/Drained on what its loop leaves, Outbox/Retention
--   on what the purge leaves alone, Outbox/Cycle on what a cycle of the worker leaves and Outbox/Worker
--   on the loop of the worker.
-- - Users: app/services/user_service.py and app/schemas/user.py, as Users/Names and Users/Accounts,
--   with Users/Registration on what a registration does, Users/Changes on what a change does,
--   Users/RoundTrip on names that are split and joined, Users/Modes on the write modes and read sources
--   of the name migration, and Users/Pages on the list of users.
-- - Flags: app/core/flags.py and app/api/v1/admin.py, with Flags/Served on what a replica serves.
-- - Consistency: scripts/verify_consistency.py.
-- - IndexReport: scripts/index_report.py, with IndexReport/Covering and IndexReport/Safe on its advice.
-- - Backfill: scripts/backfill.py, with Backfill/Cursor, Backfill/Complete and Backfill/Finished on how
--   it ends and Backfill/Kept on what it leaves alone.
-- - MigrationChecks: scripts/verify_migration.py; the parser of the check file, with
--   MigrationChecks/Printed and MigrationChecks/RoundTrip on the format that it reads, and
--   MigrationChecks/Run on the checks and snapshots, with MigrationChecks/Verdict on the exit status.
-- - Traffic: scripts/traffic_gen.py: what it records of its requests and its report; Traffic/Ranks is about
--   percentiles and Traffic/Verdict about the verdict.
-- - Catalog: app/services/event_service.py, app/schemas/event.py, app/api/v1/events.py.
-- - Summaries: the summary queries of app/api/v1/orders.py.
-- - Integrity: the rules on the relational state, and which transactions keep them; Integrity/Ledger is
--   an abstract ledger of bookings, which Integrity/Refinement and Integrity/Settled compare with the
--   transactions.
-- - Sync: the counters of MongoDB beside the tickets of PostgreSQL, across app/services/order_service.py,
--   app/services/payment_service.py and scripts/verify_consistency.py. Sync/Plus, Sync/Guarded,
--   Sync/Release, Sync/Groups, Sync/Tickets, Sync/Requests and Sync/Cleared carry the lemmas, Sync/Orders,
--   Sync/Create and Sync/Services are about the calls, and Sync/Printed, Sync/Audit and Sync/History about
--   the audit after any of them.
-- - Tests: the theorems at concrete inputs.
--
-- How a call is modelled: it takes the committed state of both databases and returns its result or
-- its exception with the new state. A PostgreSQL transaction is one step: the row locks and unique
-- indexes of the server make it atomic. The environment of a call (Service) says what the driver
-- raises: before the commit (pg_fault), behind it, when the rows are stored already (late_fault),
-- at the SELECT of the idempotency check (read_fault) and at the SELECT of the order that won a
-- race for a key (reread_fault). A batch of the sweeper or the outbox may fail as a whole. A batch
-- of the backfill raises on a timeout and on a part of a name that is longer than its column.
-- Faults of other single reads of PostgreSQL are not modelled. Each call to MongoDB may be
-- answered, lost, or carried out without an answer. Histories interleave transactions freely and
-- let the documents change in any way between them.
--
-- Numbers: money is in whole cents and time in whole seconds (in Traffic, whole microseconds), all
-- natural numbers; a seat counter is an integer, since a release without a guard can bring it below
-- zero. The prices of the catalog are floats in the source; here they are whole millionths of a
-- cent (prices of at most eight decimal places), and to_cents rounds the total and each ticket's
-- price to a cent by itself, as the NUMERIC(10, 2) columns do. There is no arithmetic on machine
-- words. The batch loops run at most as many rounds as the source allows, so they need no other
-- bound; a sweep of the backfill runs on fuel, one unit a batch, and one more than there are users
-- is enough; the loop of the worker runs on fuel too, one unit a round.
--
-- Not modelled: the databases' own machinery (plans, locks, write concerns), bcrypt and bson, which
-- are parameters, what the SQL of the migration checks yields, which is one too, logging, schema
-- migrations, the routes that only forward, start-up and settings, the load tools but the records
-- and the report of the traffic generator, and the browser code. Strings are lists of code points
-- with the case and whitespace rules of ASCII.
pub mod Base
pub mod Text
pub mod Models
pub mod Errors
pub mod Mongo
pub mod Service
pub mod Seats
pub mod Orders
pub mod Payments
pub mod Outbox
pub mod Users
pub mod Flags
pub mod Consistency
pub mod Backfill
pub mod Catalog
pub mod Summaries
pub mod Integrity
pub mod Sync
pub mod IndexReport
pub mod MigrationChecks
pub mod Traffic
pub mod Tests
