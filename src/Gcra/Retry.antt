-- ===== src/Gcra/Retry.antt =====
-- What a refused client of src/services/rate_limit.rs is told, and how large a burst gets through.
use kraken_ui.Common.{
  [], ℕ, zero, suc, ◌+◌, ◌-◌, ◌*◌, ◌≤◌, ◌<◌, ◌≡◌, refl, sym, ap, max, min, true, false, Option,
  none, some, Text, arith, text_eq_refl, ltb, if◌then◌else◌, ◌∙◌, ok, replicate, ap₂, dec_lt,
}
use kraken_ui.Gcra.{i64_max, GcraRate, Row, SqliteBackend, tat_of, sqlite_check, rejected}
use kraken_ui.Gcra.Bounds.{
  arrival, RowsOk, lets_in, verdict, check-answer, check-RowsOk, check-arrival,
}
use kraken_ui.Gcra.Window.{admitted_count, check-rate}

pub arrival-max :
    (now later : ℕ) (found : Option Row)
    → now ≤ later
    → arrival later found ≡ max later (arrival now found)
arrival-max now later none le = omega arith
arrival-max now later (some row) le = omega arith

-- A refusal with the wait `d` leaves the arrival time where it was, and `d` is what is missing.
refused :
    (rate : GcraRate) (now a d : ℕ)
    → (verdict rate now a).1 ≡ rejected d
    → (ltb (now + rate.tolerance_us) a ≡ true) × (d ≡ a - rate.tolerance_us - now)
refused rate now a d e = (ground arith, ground arith)

ok-injective {ℓ} : {A : Type ℓ} (a b : A) → ok a ≡ ok b → a ≡ b
ok-injective a b e = cc

-- The wait that a refused client is told is exact: with no other request for the key in between, it
-- is refused at any earlier time and let in from then on. (The times stay clear of the end of 64
-- bits.)
pub retry_after_exact :
    (b : SqliteBackend) (key : Text) (now later d : ℕ)
    → RowsOk b
    → now + b.rate.tolerance_us + b.rate.interval_us ≤ i64_max
    → (sqlite_check b [] key now).1 ≡ ok (rejected d)
    → now ≤ later
    → let again = (sqlite_check (sqlite_check b [] key now).0 [] key later).1 in
      (later < now + d → lets_in again ≡ false) × (now + d ≤ later → lets_in again ≡ true)
retry_after_exact b key now later d fine room e le =
    let a = arrival now (b.rows key) in
    let (late, wait) =
      refused b.rate now a d (ok-injective _ _ (sym (check-answer b key now fine) ∙ e)) in
    let b' = (sqlite_check b [] key now).0 in
    let still : arrival now (b'.rows key) ≡ a = check-arrival b key now fine room ∙ rw late in
    let then_ : arrival later (b'.rows key) ≡ max later a =
      arrival-max now later (b'.rows key) le ∙ ap (max later) still in
    let answer = check-answer b' key later (check-RowsOk b key now fine) in
    let rate = check-rate b key now in
    (λ lt. rw (answer, then_, rate) (ground arith), λ ge. rw (answer, then_, rate) (ground arith))

-- A burst of `n` more requests at the time `now`, for an arrival time `used` intervals on.
burst_step : (i burst used : ℕ) → 0 < i → 0 < burst → used < burst → used * i ≤ i * (burst - 1)
burst_step i burst used p q h = grind arith

burst_over : (i burst : ℕ) → 0 < i → 0 < burst → i * (burst - 1) < burst * i
burst_over i burst p q = grind arith

module _ (key : Text) (now i burst : ℕ) (positive : 0 < i) (some_burst : 0 < burst)
    (room : now + i * (burst - 1) + i ≤ i64_max) where
  abbrev rate_of : GcraRate
  rate_of = record { interval_us = i; tolerance_us = i * (burst - 1) }

  burst_run :
      (n used : ℕ) (b : SqliteBackend)
      → b.rate ≡ rate_of
      → RowsOk b
      → arrival now (b.rows key) ≡ now + used * i
      → used ≤ burst
      → admitted_count b key (replicate n (key, now)) ≡ min n (burst - used)
  unfolding admitted_count
  burst_run zero used b e fine at le = omega arith
  burst_run (suc n) used b e fine at le =
      let b' = (sqlite_check b [] key now).0 in
      let fine' = check-RowsOk b key now fine in
      let e' = check-rate b key now ∙ e in
      let answer : (sqlite_check b [] key now).1 ≡ ok (verdict rate_of now (now + used * i)).1 =
        check-answer b key now fine ∙ ap₂ (λ r a. ok (verdict r now a).1) e at in
      let moved : arrival now (b'.rows key) ≡ (
          if ltb (now + i * (burst - 1)) (now + used * i)
          then now + used * i
          else now + used * i + i) =
        check-arrival b key now fine (rw e room)
        ∙ ap₂ (λ (r : GcraRate) a. if ltb (now + r.tolerance_us) a then a else a + r.interval_us) e
            at in
      elim (dec_lt used burst) [
        | yes more ↦
            let early : ltb (now + i * (burst - 1)) (now + used * i) ≡ false =
              ground (arith, burst_step i burst used positive some_burst more) in
            rw (text_eq_refl key, answer, early)
              (omega (
                arith,
                burst_run n (used + 1) b' e' fine' (moved ∙ rw early (omega arith)) (omega arith),
              ))
        | no full ↦
            let last : used ≡ burst = omega arith in
            let late : ltb (now + i * (burst - 1)) (now + used * i) ≡ true =
              rw last (ground (arith, burst_over i burst positive some_burst)) in
            rw (text_eq_refl key, answer, late)
              (omega (arith, burst_run n used b' e' fine' (moved ∙ rw late refl) le))
      ]

-- Of any number of requests for a key at one time, when nothing of the key's burst has been used,
-- exactly the burst size is let in. (The rate is one that `GcraRate::new` makes, with a positive
-- interval and burst, and the times stay clear of the end of 64 bits.)
pub burst_exact :
    (b : SqliteBackend) (key : Text) (now n burst : ℕ)
    → RowsOk b
    → 0 < b.rate.interval_us
    → 0 < burst
    → b.rate.tolerance_us ≡ b.rate.interval_us * (burst - 1)
    → tat_of now (b.rows key) ≤ now
    → now + b.rate.tolerance_us + b.rate.interval_us ≤ i64_max
    → admitted_count b key (replicate n (key, now)) ≡ min n burst
burst_exact b key now n burst fine p q tol idle room = omega (
  arith,
  burst_run key now b.rate.interval_us burst p q (omega arith) n 0 b (ground arith) fine
      (omega arith) (omega arith),
)
