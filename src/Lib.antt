-- ===== src/Lib.antt =====
-- A model of the console `kraken-ui` of the firewall KrakenWAF: who may sign in, how guessing is
-- slowed down, how the second factor is enrolled and checked, and how sessions end.
--
-- Parts, and the files that model them:
--   Throttle   `LoginThrottle` of src/security/rate_limit.rs: failures per key, the lock, pruning.
--   Monitor    `AccountFailureMonitor` of the same file: failures per account, the one alert.
--   Gcra       the persistent limiter of src/services/rate_limit.rs: `GcraRate`, the SQLite back end
--              and the choice to fail open.
--   Roles      `OperatorRole` of src/models/operator.rs.
--   Models     the rows and tables of src/models/database.rs and the entities.
--   Operators  `OperatorRepository` of src/models/operator_repository.rs.
--   Mfa        `OperatorMfaRepository` of src/models/operator_mfa_repository.rs; Mfa.Login is the
--              check at login, Mfa.Confirm the enrolment, switch-off and renewal of codes.
--   Sessions   `SeaOrmSessionStore` of src/models/session_store.rs; Sessions.Abstract is its
--              specification, a map from ids to rows.
--   Concurrency  `IpConcurrencyLimiter` of src/middleware/rate_limit.rs, whose lookups, permits and
--              ends of requests are events in any order.
--   ClientIp   src/security/client_ip.rs, with the address parser of Rust's standard library.
--   Policy     src/security/password.rs, and the checks of what an administrator types in
--              src/controllers/acl.rs.
--   StepUp     src/controllers/step_up.rs.
--   Acl        the changes of src/controllers/acl.rs; Acl.Password is that of the own password,
--              Acl.Requests the routes of src/routes/mod.rs to them and runs of requests.
--   Handlers   what request handlers share: the state, early returns, the CSRF shape test
--              (src/security/csrf.rs) and the cleaning of input (src/security/sanitize.rs).
--   Auth       src/controllers/auth.rs and the guards of src/middleware/authentication.rs:
--              `authorized_role`, the guards; Auth.Login holds `login_submit` and `mfa_verify`.
--   Common     tests on numbers, text as lists of code points, maps, tables as lists of rows, and
--              the database monad that the repositories are written in.
--
-- How the models correspond to the code. A repository's method is a function of the tables that
-- returns a result and the tables: each SQL statement is one step that the database may refuse, and a
-- transaction restores the tables on an error and when the code gives it up. The unique and foreign
-- keys that the code leans on are tests of the statements that insert a row. A handler threads the whole state and either goes on,
-- returns a response early, or fails. A session in flight (the crate tower_sessions) is an interface
-- of operations, with the documented reading and writing of values as named laws. The password
-- service, the one-time-password library, the session format, the HTML cleaner and random bytes are
-- arguments. Instants and Unix times are arguments: a request reads each clock once. Concurrency
-- between requests shows only as calls in sequence, since the code serialises them by a mutex or by
-- conditional SQL statements; what the requests of administrators do is stated of requests that are
-- served one after the other, since two that overlap may each remove the other's account.
--
-- Bounds. Counters of 32 bits wrap around, times of the limiter saturate at the end of 64 bits as in
-- the code; ids and epochs of operators are natural numbers. Signed differences of times are written
-- as comparisons of sums. The loop that looks for a free session id runs over the ids that are drawn
-- and answers `none` when they are used up. Decimal numbers are printed with ten digits at most,
-- which a 32-bit id fits in.
--
-- Not modelled: rendering and HTTP, logging, the audit trail, the configuration and start-up, the
-- Redis back end, the clients of the firewall's own interface, source updates, redaction, the
-- first-time setup, the table of operators and the pages of enrolment.
pub mod Common
pub mod Throttle
pub mod Monitor
pub mod Gcra
pub mod Roles
pub mod Models
pub mod Operators
pub mod Mfa
pub mod Sessions
pub mod Handlers
pub mod Auth
pub mod Concurrency
pub mod Policy
pub mod StepUp
pub mod Acl
pub mod ClientIp
