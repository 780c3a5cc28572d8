-- ===== src/Gcra/Bounds.antt =====
-- How many requests of a key the SQLite back end of src/services/rate_limit.rs lets in.
use kraken_ui.Common.{
  [], ℕ, ◌+◌, ◌-◌, ◌≤◌, ◌≡◌, ◌≢◌, refl, ap, max, Bool, true, false, Option, none, some, Text, arith,
  text_eq_refl, text_eq_ne, ltb, keep, if◌then◌else◌, Result, ok, err, Map, ◌∙◌,
}
use kraken_ui.Gcra.Served.{sqlite_check_served}
use kraken_ui.Gcra.{
  i64_max, GcraRate, RateLimitDecision, Row, SqliteBackend, swept, tat_of, decide, upsert,
  cleanup_due, sqlite_check, saturating_add, admitted, rejected,
}

-- The theoretical arrival time that a row stands for from the time `now` on.
abbrev pub arrival : ℕ → Option Row → ℕ
arrival now found = max now (tat_of now found)

-- A row does not expire before its arrival time.
abbrev pub RowOk : Option Row → Type 0
RowOk none = Unit {0}
RowOk (some row) = row.tat_us ≤ row.expires_at_us

abbrev pub RowsOk : SqliteBackend → Type 0
RowsOk b = (key : Text) → RowOk (b.rows key)

-- Sweeping drops only rows that no longer count.
pub arrival-keep :
    (now : ℕ) (found : Option Row)
    → RowOk found
    → (arrival now (keep (λ row. ltb now row.expires_at_us) found) ≡ arrival now found)
      × RowOk (keep (λ row. ltb now row.expires_at_us) found)
arrival-keep now none fine = (refl, tt)
arrival-keep now (some row) fine = (ground arith, ground arith)

pub arrival-swept :
    (b : SqliteBackend) (cleanup : Bool) (now : ℕ) (key : Text)
    → RowsOk b
    → (arrival now (swept cleanup now b.rows key) ≡ arrival now (b.rows key))
      × RowOk (swept cleanup now b.rows key)
arrival-swept b true now key fine = arrival-keep now (b.rows key) (fine key)
arrival-swept b false now key fine = (refl, fine key)

arrival-later :
    (now later : ℕ) (found : Option Row) → now ≤ later → arrival now found ≤ arrival later found
arrival-later now later none le = omega arith
arrival-later now later (some row) le = omega arith

-- Whether a call lets the request in.
abbrev pub lets_in : Result RateLimitDecision → Bool
lets_in (ok decision) = decision.allowed
lets_in (err message) = false

-- The row that an admitted request leaves, from the arrival time `a` before it.
abbrev pub row_after : GcraRate → ℕ → Row
row_after rate a = record {
  tat_us = saturating_add a rate.interval_us;
  expires_at_us = saturating_add (saturating_add a rate.interval_us) rate.tolerance_us;
}

-- A decision as a function of the arrival time.
abbrev pub verdict : GcraRate → ℕ → ℕ → Option Row × RateLimitDecision
verdict rate now a =
    if ltb (now + rate.tolerance_us) a
    then (none, rejected (a - rate.tolerance_us - now))
    else (some (row_after rate a), admitted)

pub decide-verdict :
    (rate : GcraRate) (now : ℕ) (found : Option Row)
    → decide rate now found ≡ verdict rate now (arrival now found)
unfolding decide
decide-verdict rate now none = ground arith
decide-verdict rate now (some row) = ground arith

verdict-RowOk :
    (rate : GcraRate) (now a : ℕ) (key other : Text) (rows : Map Row)
    → RowOk (rows other)
    → RowOk (upsert key (verdict rate now a).0 rows other)
verdict-RowOk rate now a key other rows fine = ground arith

upsert-other :
    (key other : Text) (stored : Option Row) (rows : Map Row)
    → other ≢ key
    → upsert key stored rows other ≡ rows other
upsert-other key other none rows ne = refl
upsert-other key other (some row) rows ne = rw (text_eq_ne other key ne)

upsert_self :
    (rate : GcraRate) (now a : ℕ) (key : Text) (rows : Map Row)
    → arrival now (rows key) ≡ a
    → now + rate.tolerance_us + rate.interval_us ≤ i64_max
    → arrival now (upsert key (verdict rate now a).0 rows key)
      ≡ (if ltb (now + rate.tolerance_us) a then a else a + rate.interval_us)
upsert_self rate now a key rows e le = ground (arith, text_eq_refl key)

-- One call of the back end that the database serves.
module _ (b : SqliteBackend) (key : Text) (now : ℕ) (fine : RowsOk b) where
  pub check-answer :
      (sqlite_check b [] key now).1 ≡ ok (verdict b.rate now (arrival now (b.rows key))).1
  check-answer = rw (
    sqlite_check_served b key now,
    decide-verdict,
    (arrival-swept b (cleanup_due b) now key fine).0,
  )

  pub check-RowsOk : RowsOk (sqlite_check b [] key now).0
  check-RowsOk other =
      rw
        (
          sqlite_check_served b key now,
          decide-verdict b.rate now (swept (cleanup_due b) now b.rows key),
        )
        (verdict-RowOk b.rate now _ key other _ (arrival-swept b (cleanup_due b) now other fine).1)

  pub check-arrival :
      now + b.rate.tolerance_us + b.rate.interval_us ≤ i64_max
      → arrival now ((sqlite_check b [] key now).0.rows key) ≡ (
          if ltb (now + b.rate.tolerance_us) (arrival now (b.rows key))
          then arrival now (b.rows key)
          else arrival now (b.rows key) + b.rate.interval_us)
  check-arrival le =
      rw
        (
          sqlite_check_served b key now,
          decide-verdict b.rate now (swept (cleanup_due b) now b.rows key),
          (arrival-swept b (cleanup_due b) now key fine).0,
        )
        (upsert_self b.rate now _ key _ (arrival-swept b (cleanup_due b) now key fine).0 le)

  pub check-arrival_other :
      (other : Text)
      → other ≢ key
      → arrival now ((sqlite_check b [] key now).0.rows other) ≡ arrival now (b.rows other)
  check-arrival_other other ne = rw (sqlite_check_served b key now) (
      ap (arrival now) (upsert-other key other _ (swept (cleanup_due b) now b.rows) ne)
      ∙ (arrival-swept b (cleanup_due b) now other fine).0)
