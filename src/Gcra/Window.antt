-- ===== src/Gcra/Window.antt =====
-- The rate that the back end of src/services/rate_limit.rs enforces over a run of requests.
use kraken_ui.Common.{
  ℕ, suc, ◌+◌, ◌-◌, ◌*◌, ◌≤◌, ◌≡◌, ◌≢◌, refl, sym, ap, max, ◌∙◌, ok, true, false, List, [], ◌∷◌,
  Text, arith, text_eq, text_eq_refl, eq_of_text_eq, ltb, if◌then◌else◌, Bool-cases, inl, inr, ◌&&◌,
  subst,
}
use kraken_ui.Gcra.{i64_max, GcraRate, SqliteBackend, sqlite_check}
use kraken_ui.Gcra.Bounds.{
  arrival, RowsOk, lets_in, verdict, check-answer, check-RowsOk, check-arrival, check-arrival_other,
}

-- How many requests of a key are let in, in a run of requests of any keys at their times.
unfoldable pub admitted_count : SqliteBackend → Text → List (Text × ℕ) → ℕ
admitted_count b key [] = 0
admitted_count b key ((k, now) ∷ events) =
    let rest = admitted_count (sqlite_check b [] k now).0 key events in
    if text_eq k key && lets_in (sqlite_check b [] k now).1 then suc rest else rest

-- The times do not go back, from `start` to `end`.
abbrev pub Ordered : ℕ → List (Text × ℕ) → ℕ → Type 0
Ordered start [] finish = start ≤ finish
Ordered start ((k, now) ∷ events) finish = (start ≤ now) × Ordered now events finish

Ordered-le :
    (start : ℕ) (events : List (Text × ℕ)) (finish : ℕ)
    → Ordered start events finish
    → start ≤ finish
Ordered-le start [] finish o = o
Ordered-le start ((k, now) ∷ events) finish (le, o) = omega (arith, Ordered-le now events finish o)

pub check-rate :
    (b : SqliteBackend) (k : Text) (now : ℕ) → (sqlite_check b [] k now).0.rate ≡ b.rate
unfolding sqlite_check
check-rate b k now = refl

arrival_mono :
    (start now : ℕ) (b : SqliteBackend) (key : Text)
    → start ≤ now
    → arrival start (b.rows key) ≤ arrival now (b.rows key)
arrival_mono start now b key le = ground arith

counted_other : (c i a a1 x : ℕ) → a ≤ a1 → c * i + a1 ≤ max a1 x → c * i + a ≤ max a x
counted_other c i a a1 x le ih = omega arith

counted_self :
    (c i a a1 x : ℕ)
    → a ≤ a1
    → a1 + i ≤ x
    → c * i + (a1 + i) ≤ max (a1 + i) x
    → suc c * i + a ≤ max a x
counted_self c i a a1 x le top ih = omega arith

window_total :
    (n start finish t i a : ℕ)
    → start ≤ a
    → start ≤ finish
    → n + a ≤ max a (finish + t + i)
    → n ≤ (finish - start) + t + i
window_total n start finish t i a le le' h = omega arith

false-ne-true : false ≡ true → ⊥
false-ne-true h = cc

abbrev room : GcraRate → ℕ → ℕ
room rate finish = finish + rate.tolerance_us + rate.interval_us

-- Each admitted request pushes the arrival time one interval on, and no admission pushes it beyond
-- the tolerance and an interval.
abbrev Bounded : GcraRate → SqliteBackend → Text → ℕ → ℕ → ℕ → Type 0
Bounded rate b key start finish count =
    count * rate.interval_us + arrival start (b.rows key)
    ≤ max (arrival start (b.rows key)) (room rate finish)

-- The key's own request: `count` follows, for the back end after the request.
own_step :
    (rate : GcraRate) (b : SqliteBackend) (key : Text) (start now finish count : ℕ)
    → b.rate ≡ rate
    → RowsOk b
    → start ≤ now
    → now ≤ finish
    → room rate finish ≤ i64_max
    → Bounded rate (sqlite_check b [] key now).0 key now finish count
    → Bounded rate b key start finish
        (if lets_in (sqlite_check b [] key now).1 then suc count else count)
own_step rate b key start now finish count e fine le far room ih =
    let a1 = arrival now (b.rows key) in
    let answer = check-answer b key now fine ∙ ap (λ r. ok (verdict r now a1).1) e in
    let moved =
      subst
        (λ (r : GcraRate).
          arrival now ((sqlite_check b [] key now).0.rows key)
          ≡ (if ltb (now + r.tolerance_us) a1 then a1 else a1 + r.interval_us))
        e (check-arrival b key now fine (rw e (omega arith))) in
    let later = arrival_mono start now b key le in
    elim (Bool-cases (ltb (now + rate.tolerance_us) a1)) [
      | inl late ↦ rw (answer, late) (counted_other count _ _ a1 _ later (rw (moved, late) at ih))
      | inr early ↦
          rw (answer, early)
            (counted_self count _ _ a1 _ later (ground arith) (rw (moved, early) at ih))
    ]

other_step :
    (rate : GcraRate) (b : SqliteBackend) (k key : Text) (start now finish count : ℕ)
    → RowsOk b
    → key ≢ k
    → start ≤ now
    → Bounded rate (sqlite_check b [] k now).0 key now finish count
    → Bounded rate b key start finish count
other_step rate b k key start now finish count fine ne le ih =
    counted_other count _ _ (arrival now (b.rows key)) _ (arrival_mono start now b key le)
      (rw (check-arrival_other b k now fine key ne) at ih)

potential :
    (rate : GcraRate) (b : SqliteBackend) (key : Text) (start : ℕ) (events : List (Text × ℕ))
    (finish : ℕ)
    → b.rate ≡ rate
    → RowsOk b
    → Ordered start events finish
    → room rate finish ≤ i64_max
    → Bounded rate b key start finish (admitted_count b key events)
unfolding admitted_count
potential rate b key start [] finish e fine o room = omega arith
potential rate b key start ((k, now) ∷ events) finish e fine (le, o) room =
    let ih =
      potential rate (sqlite_check b [] k now).0 key now events finish (check-rate b k now ∙ e)
        (check-RowsOk b k now fine) o room in
    let far = Ordered-le now events finish o in
    elim (Bool-cases (text_eq k key)) [
      | inl same ↦ rw same (
          subst
            (λ (j : Text).
              Bounded rate (sqlite_check b [] j now).0 key now finish
                (admitted_count (sqlite_check b [] j now).0 key events)
              → Bounded rate b key start finish (
                  if lets_in (sqlite_check b [] j now).1
                  then suc (admitted_count (sqlite_check b [] j now).0 key events)
                  else admitted_count (sqlite_check b [] j now).0 key events))
            (sym (eq_of_text_eq k key same))
            (own_step rate b key start now finish _ e fine le far room) ih)
      | inr other ↦ rw other (
          other_step rate b k key start now finish _ fine
            (λ eq. absurd (false-ne-true (sym other ∙ rw eq (text_eq_refl k)))) le ih)
    ]

-- Between the times `start` and `finish`, whatever other keys do and however often the table is
-- swept, a key is let in no more often than its burst of `tolerance / interval + 1` requests and
-- one for each interval that passes: the count times the interval is at most
-- `(finish - start) + tolerance + interval`. The database serves all requests, the clock does not go
-- back, and the times stay clear of the end of 64 bits.
pub admitted_in_window :
    (b : SqliteBackend) (key : Text) (start : ℕ) (events : List (Text × ℕ)) (finish : ℕ)
    → RowsOk b
    → Ordered start events finish
    → finish + b.rate.tolerance_us + b.rate.interval_us ≤ i64_max
    → admitted_count b key events * b.rate.interval_us
      ≤ (finish - start) + b.rate.tolerance_us + b.rate.interval_us
admitted_in_window b key start events finish fine o room =
    window_total _ start finish b.rate.tolerance_us b.rate.interval_us (arrival start (b.rows key))
      (ground arith) (Ordered-le start events finish o)
      (potential b.rate b key start events finish refl fine o room)
