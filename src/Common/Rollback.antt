-- ===== src/Common/Rollback.antt =====
-- A transaction whose code may give up: it answers `none` after `rollback()`, and is committed
-- otherwise.
use mathlib.Core.Path.{◌≡◌, refl, sym, ap, ◌∙◌}
use mathlib.Core.Bool.{Bool, true, false}
use mathlib.Core.Option.{Option, none, some}
use kraken_ui.Common.Results.{Result, ok, err}
use kraken_ui.Common.Database.{Db, DbM, statement, statement-ok, statement-err}
use kraken_ui.Common.Keeping.{Untouched}

abbrev pub committed : {A : Type 0} → Result (Option A) → Bool
committed (ok (some a)) = true
committed r = false

begun-tables :
    {T : Type 0} (db d : Db T) {u : Unit {0}}
    → statement (λ t. ok (t, tt)) db ≡ (ok u, d)
    → d.tables ≡ db.tables
begun-tables {T} db d e = same_tables (statement-ok (λ t. ok (t, tt)) db e)
  where
    same_tables :
        {t t' : T} {u u' : Unit {0}}
        → ◌≡◌ {A = Result (T × Unit {0})} (ok (t, u)) (ok (t', u'))
        → t' ≡ t
    same_tables e = cc

module _ {T : Type 0} {A : Type 0} where
  -- The statement that ends it; where that is refused the transaction is dropped.
  ended : T → Option A → Result (Unit {0}) × Db T → Result (Option A) × Db T
  ended before a (ok _, db) = (ok a, db)
  ended before a (err e, db) = (err e, record db { tables = before })

  end_with : T → Result (Option A) × Db T → Result (Option A) × Db T
  unfolding ended statement
  end_with before (ok (some a), db) = ended before (some a) (statement (λ t. ok (t, tt)) db)
  end_with before (ok none, db) = ended before none (statement (λ t. ok (before, tt)) db)
  end_with before (err e, db) = (err e, record db { tables = before })

  start_with : DbM T (Option A) → Result (Unit {0}) × Db T → Result (Option A) × Db T
  unfolding end_with
  start_with body (ok _, db) = end_with db.tables (body db)
  start_with body (err e, db) = (err e, db)

  -- BEGIN, the body, and COMMIT if it answers, or ROLLBACK if it gives up.
  unfoldable pub transaction_option : DbM T (Option A) → DbM T (Option A)
  unfolding start_with statement
  transaction_option body db = start_with body (statement (λ t. ok (t, tt)) db)

  -- One that is not committed, because it gave up or because any statement of it was refused, leaves
  -- the tables as they were.
  pub transaction_option-Untouched :
      (body : DbM T (Option A)) → Untouched committed (transaction_option body)
  unfolding transaction_option
  transaction_option-Untouched body db bad = begun (statement (λ t. ok (t, tt)) db) refl bad
    where
      end_some :
          (t : T) (a : A) (r : Result (Unit {0}) × Db T)
          → committed (ended t (some a) r).0 ≡ false
          → (ended t (some a) r).1.tables ≡ t
      end_some t a (ok _, d) bad = cc
      end_some t a (err x, d) bad = refl

      end_none :
          (t : T) (d : Db T) (r : Result (Unit {0}) × Db T)
          → statement (λ u. ok (t, tt)) d ≡ r
          → (ended t none r).1.tables ≡ t
      end_none t d (ok _, d') e = given (statement-ok (λ u. ok (t, tt)) d e)
        where
          given :
              {t t' : T} {u u' : Unit {0}}
              → ◌≡◌ {A = Result (T × Unit {0})} (ok (t, u)) (ok (t', u'))
              → t' ≡ t
          given e = cc
      end_none t d (err x, d') e = refl

      closed :
          (t : T) (r : Result (Option A) × Db T)
          → committed (end_with t r).0 ≡ false
          → (end_with t r).1.tables ≡ t
      closed t (ok (some a), d) bad = end_some t a (statement (λ t. ok (t, tt)) d) bad
      closed t (ok none, d) bad = end_none t d (statement (λ u. ok (t, tt)) d) refl
      closed t (err x, d) bad = refl

      begun :
          (r : Result (Unit {0}) × Db T)
          → statement (λ t. ok (t, tt)) db ≡ r
          → committed (start_with body r).0 ≡ false
          → (start_with body r).1.tables ≡ db.tables
      begun (ok _, d) e bad = closed d.tables (body d) bad ∙ begun-tables db d e
      begun (err x, d) e bad = statement-err (λ t. ok (t, tt)) db e

  -- One that is committed is its body, run from the tables as they stand.
  pub transaction_option-ok :
      (body : DbM T (Option A)) (db : Db T) {a : A} {db' : Db T}
      → transaction_option body db ≡ (ok (some a), db')
      → (from : Db T) × (to : Db T) × (from.tables ≡ db.tables)
        × (body from ≡ (ok (some a), to))
        × (db'.tables ≡ to.tables)
  unfolding transaction_option
  transaction_option-ok body db {a} {db'} e = begun (statement (λ t. ok (t, tt)) db) refl e
    where
      end_some :
          (t : T) (x : A) (d : Db T) (r : Result (Unit {0}) × Db T)
          → statement (λ t. ok (t, tt)) d ≡ r
          → ended t (some x) r ≡ (ok (some a), db')
          → (some x ≡ some a) × (db'.tables ≡ d.tables)
      end_some t x d (ok _, d') q h =
          (cc, ap (λ (r : Result (Option A) × Db T). r.1.tables) (sym h) ∙ begun-tables d d' q)
      end_some t x d (err y, d') q h = cc

      end_none : (t : T) (r : Result (Unit {0}) × Db T) → ended t none r ≡ (ok (some a), db') → ⊥
      end_none t (ok _, d') h = cc
      end_none t (err y, d') h = cc

      closed :
          (from : Db T) (t : T) (r : Result (Option A) × Db T)
          → body from ≡ r
          → end_with t r ≡ (ok (some a), db')
          → (to : Db T) × (body from ≡ (ok (some a), to)) × (db'.tables ≡ to.tables)
      closed from t (ok (some x), d) q h =
          let (is, tables) = end_some t x d (statement (λ t. ok (t, tt)) d) refl h in
          (d, q ∙ ap (λ (o : Option A). (ok o, d)) is, tables)
      closed from t (ok none, d) q h = absurd (end_none t (statement (λ u. ok (t, tt)) d) h)
      closed from t (err x, d) q h = cc

      begun :
          (r : Result (Unit {0}) × Db T)
          → statement (λ t. ok (t, tt)) db ≡ r
          → start_with body r ≡ (ok (some a), db')
          → (from : Db T) × (to : Db T) × (from.tables ≡ db.tables)
            × (body from ≡ (ok (some a), to))
            × (db'.tables ≡ to.tables)
      begun (ok _, d) q h =
          let (to, ran, tables) = closed d d.tables (body d) refl h in
          (d, to, begun-tables db d q, ran, tables)
      begun (err x, d) q h = cc
