-- ===== src/Gcra/Isolation.antt =====
-- Keys of the back end of src/services/rate_limit.rs do not disturb one another, and a failing
-- database is met by the policy.
use kraken_ui.Common.{
  ℕ, ◌≤◌, ◌≡◌, ◌≢◌, refl, sym, ap, ap₂, max, true, false, Text, ◌∙◌, ok, List, [], Bool, ◌⊎◌, inl,
  inr, ◌+◌, ◌%◌, ◌^◌, Result, if◌then◌else◌,
}
use kraken_ui.Gcra.{
  GcraRate, SqliteBackend, sqlite_check, PersistentRateLimiter, limiter_check, limiter_policy,
  RateLimitDecision, admitted, rejected,
}
use kraken_ui.Gcra.Served.{sqlite_check-cases}
use kraken_ui.Gcra.Bounds.{
  arrival, RowsOk, verdict, check-answer, check-RowsOk, check-arrival_other,
}
use kraken_ui.Gcra.Window.{check-rate}
use kraken_ui.Gcra.Retry.{arrival-max}

-- A request for one key, which may also sweep the table, changes no later answer for another key.
pub check-other :
    (b : SqliteBackend) (key other : Text) (now later : ℕ)
    → RowsOk b
    → other ≢ key
    → now ≤ later
    → (sqlite_check (sqlite_check b [] key now).0 [] other later).1
      ≡ (sqlite_check b [] other later).1
check-other b key other now later fine ne le =
    let b' = (sqlite_check b [] key now).0 in
    let same : arrival later (b'.rows other) ≡ arrival later (b.rows other) =
      arrival-max now later (b'.rows other) le
      ∙ ap (max later) (check-arrival_other b key now fine other ne)
      ∙ sym (arrival-max now later (b.rows other) le) in
    check-answer b' other later (check-RowsOk b key now fine)
    ∙ ap₂ (λ (r : GcraRate) a. ok (verdict r later a).1) (check-rate b key now) same
    ∙ sym (check-answer b other later fine)

-- Whichever statements the database refuses, a request is decided as if all were served, or the
-- failure is met by the policy: the request is let in exactly if the limiter is configured to fail
-- open, a refused client is told to wait a second, and the limiter keeps its rows and all else but
-- the count of requests.
pub limiter_fault :
    (l : PersistentRateLimiter) (outages : List Bool) (key : Text) (now : ℕ)
    → (limiter_check l outages key now ≡ limiter_check l [] key now)
      ⊎ (((limiter_check l outages key now).1.allowed ≡ l.fail_open)
          × (l.fail_open ≡ false → (limiter_check l outages key now).1.retry_after ≡ 1000000)
          × ((limiter_check l outages key now).0 ≡ record l {
            backend = record l.backend { requests = (l.backend.requests + 1) % 2 ^ 64 };
          }))
unfolding limiter_check limiter_policy
limiter_fault l outages key now = elim (sqlite_check-cases l.backend outages key now) [
  | inl same ↦ inl (ap met same)
  | inr (e, failed) ↦ inr (
    ap (λ r. (met r).1.allowed) failed ∙ refused_allowed l.fail_open,
    (λ closed. ap (λ r. (met r).1.retry_after) failed ∙ refused_wait l.fail_open closed),
    ap (λ r. (met r).0) failed,
  )
]
  where
    met : SqliteBackend × Result RateLimitDecision → PersistentRateLimiter × RateLimitDecision
    met (backend, answer) = (record l { backend = backend }, limiter_policy l.fail_open answer)

    refused_allowed : (b : Bool) → (if b then admitted else rejected 1000000).allowed ≡ b
    refused_allowed true = refl
    refused_allowed false = refl

    refused_wait :
        (b : Bool) → b ≡ false → (if b then admitted else rejected 1000000).retry_after ≡ 1000000
    refused_wait true e = cc
    refused_wait false e = refl
