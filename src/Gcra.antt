-- ===== src/Gcra.antt =====
-- The persistent rate limiter of src/services/rate_limit.rs: the GCRA rate, the SQLite back end and
-- the policy when the back end fails. Times are microseconds since 1970.
pub mod Rate
pub mod Served
pub mod Bounds
pub mod Window
pub mod Retry
pub mod Isolation
mod Tests
use kraken_ui.Common.{
  ℕ, suc, ◌+◌, ◌-◌, ◌*◌, ◌/◌, ◌%◌, ◌^◌, min, max, Bool, true, false, ◌||◌, Option, none, some, ltb,
  leb, ◌==◌, if◌then◌else◌, Text, Map, insert, retain, get_or, Result, ok, err, List, Db, DbM, pure,
  ◌>>=◌, ◌>>◌, query, execute, transaction,
}

abbrev pub i64_max : ℕ
i64_max = 2 ^ 63 - 1

abbrev pub u64_mod : ℕ
u64_mod = 2 ^ 64

abbrev pub saturating_add : ℕ → ℕ → ℕ
saturating_add a b = min i64_max (a + b)

pub record GcraRate : Type 0 where
  pub interval_us : ℕ
  pub tolerance_us : ℕ

-- `GcraRate::new`, for 32-bit arguments.
unfoldable pub new_rate : ℕ → ℕ → Result GcraRate
new_rate requests_per_second burst_size =
    if (requests_per_second == 0) || (burst_size == 0)
    then err "GCRA rate and burst must be greater than zero"
    else (let interval_us = 1000000 / requests_per_second in
        if interval_us == 0
        then err "requests_per_second cannot exceed 1,000,000"
        else (let tolerance_us = interval_us * (burst_size - 1) in
            if leb tolerance_us i64_max
            then ok (record { interval_us = interval_us; tolerance_us = tolerance_us })
            else err "GCRA burst is too large"))

-- `retry_after` in microseconds.
pub record RateLimitDecision : Type 0 where
  pub allowed : Bool
  pub retry_after : ℕ

abbrev pub admitted : RateLimitDecision
admitted = record { allowed = true; retry_after = 0 }

abbrev pub rejected : ℕ → RateLimitDecision
rejected retry_after = record { allowed = false; retry_after = retry_after }

pub record Row : Type 0 where
  pub tat_us : ℕ
  pub expires_at_us : ℕ

pub record SqliteBackend : Type 0 where
  pub rows : Map Row
  pub rate : GcraRate
  pub cleanup_interval_requests : ℕ
  pub requests : ℕ

-- `DELETE FROM rate_limit_gcra WHERE expires_at_us <= now`, when its turn has come.
abbrev pub swept : Bool → ℕ → Map Row → Map Row
swept cleanup now rows = if cleanup then retain (λ row. ltb now row.expires_at_us) rows else rows

abbrev pub tat_of : ℕ → Option Row → ℕ
tat_of now none = now
tat_of now (some row) = row.tat_us

-- The decision for a row, and the row that is stored if the request is let in. The source computes
-- `tat - tolerance` in 64 signed bits and only compares it with `now`, which is not negative: where
-- it would be negative there, it is 0 here, and the comparison is the same.
unfoldable pub decide : GcraRate → ℕ → Option Row → Option Row × RateLimitDecision
decide rate now found =
    let tat = tat_of now found in
    let allow_at = tat - rate.tolerance_us in
    let new_tat = saturating_add (max tat now) rate.interval_us in
    if ltb now allow_at then (none, rejected (allow_at - now)) else (
      some (record { tat_us = new_tat; expires_at_us = saturating_add new_tat rate.tolerance_us }),
      admitted,
    )

abbrev pub upsert : Text → Option Row → Map Row → Map Row
upsert key none rows = rows
upsert key (some row) rows = insert key row rows

-- Whether the request that makes the count `requests` sweeps the table; `% 0` is the identity, so a
-- zero interval is met by a zero count alone, as `is_multiple_of` has it.
abbrev pub cleanup_due : SqliteBackend → Bool
cleanup_due b = ((b.requests + 1) % u64_mod) % b.cleanup_interval_requests == 0

-- The row of an admitted request is stored, where there is one.
store_decision : Text → Option Row × RateLimitDecision → DbM (Map Row) RateLimitDecision
store_decision key (none, decision) = pure decision
store_decision key (some row, decision) = execute (insert key row) >>= λ _. pure decision

sweep_if : Bool → ℕ → DbM (Map Row) (Unit {0})
sweep_if cleanup now = if cleanup then execute (swept true now) else pure tt

-- The statements between BEGIN and COMMIT.
check_statements : GcraRate → Bool → Text → ℕ → DbM (Map Row) RateLimitDecision
unfolding store_decision sweep_if decide
check_statements rate cleanup key now = do
  sweep_if cleanup now
  found ← query (λ rows. rows key)
  store_decision key (decide rate now found)

-- `SqliteBackend::check` at the time `now`, where the database refuses the statements that `outages`
-- says; a failure of the lock or of the clock is one of BEGIN.
unfoldable pub sqlite_check :
    SqliteBackend → List Bool → Text → ℕ → SqliteBackend × Result RateLimitDecision
unfolding check_statements
sqlite_check b outages key now =
    let (answer, db) =
      transaction (check_statements b.rate (cleanup_due b) key now)
        (record { tables = b.rows; outages = outages }) in
    (record b { rows = db.tables; requests = (b.requests + 1) % u64_mod }, answer)

-- `PersistentRateLimiter::check`: what becomes of the answer of a back end.
unfoldable pub limiter_policy : Bool → Result RateLimitDecision → RateLimitDecision
limiter_policy fail_open (ok decision) = decision
limiter_policy fail_open (err message) = if fail_open then admitted else rejected 1000000

pub record PersistentRateLimiter : Type 0 where
  pub backend : SqliteBackend
  pub fail_open : Bool

unfoldable pub limiter_check :
    PersistentRateLimiter → List Bool → Text → ℕ → PersistentRateLimiter × RateLimitDecision
unfolding limiter_policy
limiter_check l outages key now =
    let (backend, answer) = sqlite_check l.backend outages key now in
    (record l { backend = backend }, limiter_policy l.fail_open answer)
