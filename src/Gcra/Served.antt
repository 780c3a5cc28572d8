-- ===== src/Gcra/Served.antt =====
-- The transaction of `SqliteBackend::check` in src/services/rate_limit.rs, when the database serves
-- every statement and when it does not.
use Prim.Native.String.{String}
use kraken_ui.Common.{
  ap₂, ◌⊎◌, inl, inr, transaction-err, ℕ, ◌+◌, ◌%◌, ◌≡◌, refl, sym, ap, ◌∙◌, Bool, true, false,
  Option, none, some, List, [], Text, Map, insert, Result, ok, err, Db, pure, bind-ok, execute,
  execute-ok, query, query-ok, pure-ok, transaction, transaction-ok, statement,
}
use kraken_ui.Gcra.{
  Row, RateLimitDecision, SqliteBackend, swept, decide, upsert, cleanup_due, u64_mod,
  store_decision, sweep_if, check_statements, sqlite_check,
}

-- What a check that succeeds has stored, and what it answers.
abbrev pub result_of :
    SqliteBackend
    → Text
    → ℕ
    → Option Row × RateLimitDecision
    → SqliteBackend × Result RateLimitDecision
result_of b key now (stored, decision) = (
  record b {
    rows = upsert key stored (swept (cleanup_due b) now b.rows);
    requests = (b.requests + 1) % u64_mod;
  },
  ok decision,
)

abbrev stored_in :
    SqliteBackend
    → Result RateLimitDecision × Db (Map Row)
    → SqliteBackend × Result RateLimitDecision
stored_in b (answer, db) =
    (record b { rows = db.tables; requests = (b.requests + 1) % u64_mod }, answer)

-- With no statement refused.
pub sqlite_check_served :
    (b : SqliteBackend) (key : Text) (now : ℕ)
    → sqlite_check b [] key now
      ≡ result_of b key now (decide b.rate now (swept (cleanup_due b) now b.rows key))
unfolding sqlite_check transaction statement check_statements sweep_if store_decision
sqlite_check_served b key now = go (cleanup_due b)
  where
    ended : Map Row → Option Row × RateLimitDecision → SqliteBackend × Result RateLimitDecision
    ended rows x = stored_in b (
        transaction (λ db. store_decision key x (record db { tables = rows }))
          (record { tables = b.rows; outages = [] }))

    closed : Map Row → Option Row × RateLimitDecision → SqliteBackend × Result RateLimitDecision
    closed rows (stored, decision) = (
      record b { rows = upsert key stored rows; requests = (b.requests + 1) % u64_mod },
      ok decision,
    )

    store : (rows : Map Row) (x : Option Row × RateLimitDecision) → ended rows x ≡ closed rows x
    store rows (none, decision) = refl
    store rows (some row, decision) = refl

    go :
        (c : Bool)
        → stored_in b (
            transaction
              (check_statements b.rate c key now)
              (record { tables = b.rows; outages = [] }))
          ≡ closed (swept c now b.rows) (decide b.rate now (swept c now b.rows key))
    go true = store (swept true now b.rows) (decide b.rate now (swept true now b.rows key))
    go false = store b.rows (decide b.rate now (b.rows key))

-- Whichever statements are refused: a check that answers is the one that is served throughout, and
-- one that fails has counted the request and nothing else.
pub sqlite_check-cases :
    (b : SqliteBackend) (outages : List Bool) (key : Text) (now : ℕ)
    → (sqlite_check b outages key now ≡ sqlite_check b [] key now)
      ⊎ ((e : String) × (sqlite_check b outages key now
            ≡ (record b { requests = (b.requests + 1) % u64_mod }, err e)))
unfolding sqlite_check check_statements sweep_if store_decision
sqlite_check-cases b outages key now =
    go (transaction (check_statements b.rate (cleanup_due b) key now) from) refl
  where
    from : Db (Map Row)
    from = record { tables = b.rows; outages = outages }

    swept-ok :
        (c : Bool) (db mid : Db (Map Row))
        → sweep_if c now db ≡ (ok tt, mid)
        → mid.tables ≡ swept c now db.tables
    swept-ok true db mid e = execute-ok (swept true now) db e
    swept-ok false db mid e =
        let (here, is) = pure-ok tt db e in ap (λ (d : Db (Map Row)). d.tables) here

    store_decision-ok :
        (x : Option Row × RateLimitDecision) (db to : Db (Map Row)) (a : RateLimitDecision)
        → store_decision key x db ≡ (ok a, to)
        → (to.tables ≡ upsert key x.0 db.tables) × (a ≡ x.1)
    store_decision-ok (none, d) db to a e =
        let (here, is) = pure-ok d db e in (ap (λ (d : Db (Map Row)). d.tables) here, is)
    store_decision-ok (some row, d) db to a e =
        let (u, mid, wrote, answered) = bind-ok (execute (insert key row)) (λ _. pure d) db e in
        let (here, is) = pure-ok d mid answered in
        (ap (λ (d : Db (Map Row)). d.tables) here ∙ execute-ok (insert key row) db wrote, is)

    go :
        (r : Result RateLimitDecision × Db (Map Row))
        → transaction (check_statements b.rate (cleanup_due b) key now) from ≡ r
        → (stored_in b r ≡ sqlite_check b [] key now)
          ⊎ ((e : String) × (stored_in b r
                ≡ (record b { requests = (b.requests + 1) % u64_mod }, err e)))
    go (err e, db) ran = inr (
      e,
      ap
          (λ (rows : Map Row).
            (record b { rows = rows; requests = (b.requests + 1) % u64_mod }, err e))
          (transaction-err (check_statements b.rate (cleanup_due b) key now) from ran),
    )
    go (ok a, db) ran =
        let (begun, to, start, body, same) =
          transaction-ok (check_statements b.rate (cleanup_due b) key now) from ran in
        let (u, d1, w1, r1) = bind-ok (sweep_if (cleanup_due b) now) _ begun body in
        let (found, d2, w2, r2) = bind-ok (query (λ rows. rows key)) _ d1 r1 in
        let (kept, read) = query-ok (λ (rows : Map Row). rows key) d1 w2 in
        let (stored, is) = store_decision-ok (decide b.rate now found) d2 to a r2 in
        let rows : d1.tables ≡ swept (cleanup_due b) now b.rows =
          swept-ok (cleanup_due b) begun d1 w1 ∙ ap (swept (cleanup_due b) now) start in
        let decided : decide b.rate now found
            ≡ decide b.rate now (swept (cleanup_due b) now b.rows key) =
          ap (decide b.rate now) (read ∙ ap (λ (m : Map Row). m key) rows) in
        inl (
          ap₂
            (λ (rows : Map Row) (d : RateLimitDecision).
              (record b { rows = rows; requests = (b.requests + 1) % u64_mod }, ok d))
            (same
              ∙ stored
              ∙ ap₂ (λ (x : Option Row × RateLimitDecision) (m : Map Row). upsert key x.0 m) decided
                  (kept ∙ rows))
            (is ∙ ap (λ (x : Option Row × RateLimitDecision). x.1) decided)
          ∙ sym (sqlite_check_served b key now))
