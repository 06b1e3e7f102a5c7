-- ===== src/Lib.antt =====
-- A model of the Profundiza UQ backend, a Go service with which students of a university enroll in
-- elective courses, and its correctness theorems.
--
-- The program keeps its state in PostgreSQL. Students submit requests for the groups of an offering
-- and cancel them; a request is put on the direct list or on a waitlist by its shift and the free
-- seats. Administrators decide on requests and change capacities. Each change writes an audit event
-- and puts notifications in an outbox, which workers drain by mail. Logins go by one-time codes.
--
-- Each table is a list of rows, each transaction a function from the database to the database and a
-- result, `Result`, with the errors of the code. The row locks that a transaction holds from its
-- first reads to its commit make it one step; what runs outside them, such as the look-up of an
-- idempotency key before a submission, the statements of a login or the sending of a mail, is a step
-- of its own, with the commits of other sessions between as an argument. The clock, the drawn ids, the mail server and
-- SHA-256 are arguments too.
--
--   Base            helpers: Boolean tests, tables, error results, Go's strings as code points
--   Shared          internal/shared: AcademicShift, and the audit log of audit.Write; the pagination
--                   (Paging) and the checks of input (Validation) that several packages repeat
--   Notification    internal/notification: Enqueue (Outbox), and the worker's reapStuckSending, claim,
--                   deliver and retryBackoff (Worker), drain and the rounds of Run (Worker.Drain);
--                   MarkRead, UnreadCount and ListInApp (Inbox)
--   Enrollment      internal/enrollment: statuses, rules and classification of the domain, the tables
--                   (Database), Submit, Cancel, and SubmitBatch, itoa and Get (Service)
--   Review          internal/review: Decide, and the prioritized queue (Queue)
--   Catalog         internal/catalog: AdjustCapacity (Capacity), the electives, prerequisites, offerings
--                   and groups (Admin), and the offerings that students browse (Browse)
--   System          the enrollment transactions together: what each may change, the invariant, the
--                   reachable states, and replays of a key
--   Identity        internal/identity: the allow-list (Domain), StartLogin, VerifyLogin, Authenticate and
--                   Logout (Auth)
--   Platform        internal/platform: the rate limiter, and the middleware and guards of authn with the
--                   route groups of cmd/api/main.go (Authn)
--   Semester        internal/semester: Create, Activate, Close
--   Window          internal/window: Create and Update
--   Reporting       internal/reporting: the requests (Export), and ClaimNext, processOne and the inner
--                   loop of Run (Worker)
--   Student         internal/student: the checks (Domain), Create, Update and Get (Service), Import, the
--                   academic records and the listing (its children)
--   AdminUser       internal/adminuser: the checks (Domain), Create, Update, Get and the listing (Service)
--   Settings        internal/settings: Upsert, GetByKey and the listing (Service), and the allow-list
--                   that the logins read from them (Service.Policy)
--   Tests           a small semester, and the theorems applied to it
--
-- Numbers are natural numbers; instants are microseconds. `itoa` runs on fuel, which its argument
-- bounds, and its result is shown to be the decimal numeral. The shift of `retryBackoff` is taken
-- modulo 2 ^ 64 in nanoseconds, and the offset of a page modulo 2 ^ 64. The inner loop of the
-- reporting worker runs on fuel; one more than the number of requested exports is shown to be enough.
--
-- ILIKE, the collation of names, json.Valid, jsonb, the parser of JSON arrays, the generator of the
-- report files and the rows that other transactions hold are arguments. A unique index, a CHECK and
-- a foreign key are tests in the operations that meet them, except that the foreign keys of windows
-- and exports are left to arguments or left out. The range of an INT column is a test where
-- AdjustCapacity stores a capacity; the other counts and capacities are taken to fit.
--
-- Not modelled: failures of the database itself, the HTTP handlers, the listing of the audit
-- log, the JSON text of the audit documents, letter case beyond
-- code point 255, and the files of the reports.
pub mod Base
pub mod Shared
pub mod Notification
pub mod Enrollment
pub mod Review
pub mod Catalog
pub mod System
pub mod Identity
pub mod Platform
pub mod Semester
pub mod Window
pub mod Reporting
pub mod Student
pub mod AdminUser
pub mod Settings
pub mod Tests
