-- ===== src/Common/Database.antt =====
-- A database connection: its tables, and which of the statements to come it will refuse. Code that
-- talks to it returns a result and the connection, whose tables keep what was done before an error.
use Prim.Native.String.{String}
use mathlib.Core.Bool.{Bool, true, false}
use mathlib.Core.Path.{◌≡◌, refl, ap, ◌∙◌}
use mathlib.Core.List.{List, [], ◌∷◌}
use native.Mathlib.Omega.{arith}
use kraken_ui.Common.Results.{Result, ok, err}

pub record Db (T : Type 0) : Type 0 where
  pub tables : T
  pub outages : List Bool

abbrev pub DbM : Type 0 → Type 0 → Type 0
DbM T A = Db T → Result A × Db T

-- The next statement is refused if the list says so; an empty list refuses none.
abbrev refused : List Bool → Bool
refused [] = false
refused (o ∷ os) = o

abbrev later : List Bool → List Bool
later [] = []
later (o ∷ os) = os

module _ {T : Type 0} where
  abbrev pub pure : {A : Type 0} → A → DbM T A
  pure a db = (ok a, db)

  abbrev pub lift : {A : Type 0} → Result A → DbM T A
  lift r db = (r, db)

  abbrev pub follow : {A B : Type 0} → Result A × Db T → (A → DbM T B) → Result B × Db T
  follow (ok a, db) f = f a db
  follow (err e, db) f = (err e, db)

  infixl 5 ◌>>=◌ ◌>>◌
  abbrev pub ◌>>=◌ : {A B : Type 0} → DbM T A → (A → DbM T B) → DbM T B
  ◌>>=◌ m f db = follow (m db) f

  abbrev pub ◌>>◌ : {B : Type 0} → DbM T (Unit {0}) → DbM T B → DbM T B
  m >> k = m >>= λ _. k

  store : {A : Type 0} → Db T → Result (T × A) → Result A × Db T
  store db (ok (tables, a)) = (ok a, record { tables = tables; outages = later db.outages })
  store db (err e) = (err e, record db { outages = later db.outages })

  refuse : {A : Type 0} → Db T → Bool → Result (T × A) → Result A × Db T
  unfolding store
  refuse db true r = store db (err "database unavailable")
  refuse db false r = store db r

  -- One SQL statement.
  unfoldable pub statement : {A : Type 0} → (T → Result (T × A)) → DbM T A
  unfolding refuse
  statement f db = refuse db (refused db.outages) (f db.tables)

  -- A statement that only reads.
  abbrev pub query : {A : Type 0} → (T → A) → DbM T A
  query f = statement (λ t. ok (t, f t))

  -- A statement that only writes.
  abbrev pub execute : (T → T) → DbM T (Unit {0})
  execute f = statement (λ t. ok (f t, tt))

  close_commit : {A : Type 0} → T → A → Result (Unit {0}) × Db T → Result A × Db T
  close_commit before a (ok _, db) = (ok a, db)
  close_commit before a (err e, db) = (err e, record db { tables = before })

  close : {A : Type 0} → T → Result A × Db T → Result A × Db T
  unfolding statement close_commit
  close before (ok a, db) = close_commit before a (statement (λ t. ok (t, tt)) db)
  close before (err e, db) = (err e, record db { tables = before })

  begin_with : {A : Type 0} → DbM T A → Result (Unit {0}) × Db T → Result A × Db T
  unfolding close
  begin_with body (ok _, db) = close db.tables (body db)
  begin_with body (err e, db) = (err e, db)

  -- BEGIN, the body, and COMMIT; on an error the transaction is dropped, which rolls it back.
  unfoldable pub transaction : {A : Type 0} → DbM T A → DbM T A
  unfolding begin_with statement
  transaction body db = begin_with body (statement (λ t. ok (t, tt)) db)

  -- A successful chain is its steps.
  pub bind-ok :
      {A B : Type 0} (m : DbM T A) (f : A → DbM T B) (db : Db T) {b : B} {db' : Db T}
      → (m >>= f) db ≡ (ok b, db')
      → (a : A) × (mid : Db T) × (m db ≡ (ok a, mid)) × (f a mid ≡ (ok b, db'))
  bind-ok {A} {B} m f db {b} {db'} e = follow-ok (m db) refl e
    where
      follow-ok :
          (r : Result A × Db T)
          → m db ≡ r
          → follow r f ≡ (ok b, db')
          → (a : A) × (mid : Db T) × (m db ≡ (ok a, mid)) × (f a mid ≡ (ok b, db'))
      follow-ok (ok a, mid) q h = (a, mid, q, h)
      follow-ok (err x, mid) q h = cc

  -- A statement that is served did what it says.
  pub statement-ok :
      {A : Type 0} (f : T → Result (T × A)) (db : Db T) {a : A} {db' : Db T}
      → statement f db ≡ (ok a, db')
      → f db.tables ≡ ok (db'.tables, a)
  unfolding statement
  statement-ok {A} f db {a} {db'} e = go (refused db.outages) (f db.tables) e
    where
      go : (o : Bool) (r : Result (T × A)) → refuse db o r ≡ (ok a, db') → r ≡ ok (db'.tables, a)
      go true r h = cc
      go false (ok (t, x)) h = ground arith
      go false (err x) h = cc

  -- One that is not served changed nothing.
  pub statement-err :
      {A : Type 0} (f : T → Result (T × A)) (db : Db T) {message : String} {db' : Db T}
      → statement f db ≡ (err message, db')
      → db'.tables ≡ db.tables
  unfolding statement
  statement-err {A} f db {message} {db'} e = go (refused db.outages) (f db.tables) e
    where
      go :
          (o : Bool) (r : Result (T × A))
          → refuse db o r ≡ (err message, db')
          → db'.tables ≡ db.tables
      go true r h = ground arith
      go false (ok (t, x)) h = cc
      go false (err x) h = ground arith

  -- A transaction that fails, at any of its statements or at COMMIT, leaves the tables as they were.
  pub transaction-err :
      {A : Type 0} (body : DbM T A) (db : Db T) {message : String} {db' : Db T}
      → transaction body db ≡ (err message, db')
      → db'.tables ≡ db.tables
  unfolding transaction
  transaction-err {A} body db {message} {db'} e = begun (statement (λ t. ok (t, tt)) db) refl e
    where
      committed :
          (t : T) (a : A) (r : Result (Unit {0}) × Db T)
          → close_commit t a r ≡ (err message, db')
          → db'.tables ≡ t
      committed t a (ok _, d) h = cc
      committed t a (err x, d) h = ground arith

      closed : (t : T) (r : Result A × Db T) → close t r ≡ (err message, db') → db'.tables ≡ t
      closed t (ok a, d) h = committed t a (statement (λ t. ok (t, tt)) d) h
      closed t (err x, d) h = ground arith

      begun :
          (r : Result (Unit {0}) × Db T)
          → statement (λ t. ok (t, tt)) db ≡ r
          → begin_with body r ≡ (err message, db')
          → db'.tables ≡ db.tables
      begun (ok _, d) q h =
          closed d.tables (body d) h ∙ ground (arith, statement-ok (λ t. ok (t, tt)) db q)
      begun (err x, d) q h = ground (arith, statement-err (λ t. ok (t, tt)) db q)

  -- A transaction that succeeds is its body, run from the tables as they stand.
  pub transaction-ok :
      {A : Type 0} (body : DbM T A) (db : Db T) {a : A} {db' : Db T}
      → transaction body db ≡ (ok a, db')
      → (from : Db T) × (to : Db T) × (from.tables ≡ db.tables)
        × (body from ≡ (ok a, to))
        × (db'.tables ≡ to.tables)
  unfolding transaction
  transaction-ok {A} body db {a} {db'} e = begun (statement (λ t. ok (t, tt)) db) refl e
    where
      committed :
          (d : Db T) (t : T) (x : A) (r : Result (Unit {0}) × Db T)
          → statement (λ t. ok (t, tt)) d ≡ r
          → close_commit t x r ≡ (ok a, db')
          → (x ≡ a) × (db'.tables ≡ d.tables)
      committed d t x (ok _, d') q h = (cc, ground (arith, statement-ok (λ t. ok (t, tt)) d q))
      committed d t x (err y, d') q h = cc

      closed :
          (from : Db T) (t : T) (r : Result A × Db T)
          → body from ≡ r
          → close t r ≡ (ok a, db')
          → (to : Db T) × (body from ≡ (ok a, to)) × (db'.tables ≡ to.tables)
      closed from t (ok x, d) q h =
          let (same, tables) = committed d t x (statement (λ t. ok (t, tt)) d) refl h in
          (d, q ∙ ap (λ y. (ok y, d)) same, tables)
      closed from t (err x, d) q h = cc

      begun :
          (r : Result (Unit {0}) × Db T)
          → statement (λ t. ok (t, tt)) db ≡ r
          → begin_with body r ≡ (ok a, db')
          → (from : Db T) × (to : Db T) × (from.tables ≡ db.tables)
            × (body from ≡ (ok a, to))
            × (db'.tables ≡ to.tables)
      begun (ok _, d) q h =
          let (to, ran, tables) = closed d d.tables (body d) refl h in
          (d, to, ground (arith, statement-ok (λ t. ok (t, tt)) db q), ran, tables)
      begun (err x, d) q h = cc
