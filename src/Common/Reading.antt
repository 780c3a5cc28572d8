-- ===== src/Common/Reading.antt =====
-- Reading the tables back from a statement that was served.
use mathlib.Core.Path.{◌≡◌}
use kraken_ui.Common.Results.{Result, ok, err}
use kraken_ui.Common.Database.{Db, pure, lift, statement, query, execute, statement-ok}

module _ {T : Type 0} where
  written :
      {A : Type 0} (t t' : T) (a a' : A)
      → ◌≡◌ {A = Result (T × A)} (ok (t, a)) (ok (t', a'))
      → (t' ≡ t) × (a' ≡ a)
  written t t' a a' e = (cc, cc)

  -- A statement that cannot fail of itself.
  pub change-ok :
      {A : Type 0} (g : T → T) (h : T → A) (db : Db T) {a : A} {db' : Db T}
      → statement (λ t. ok (g t, h t)) db ≡ (ok a, db')
      → (db'.tables ≡ g db.tables) × (a ≡ h db.tables)
  change-ok g h db {a} {db'} e =
      written (g db.tables) db'.tables (h db.tables) a (statement-ok (λ t. ok (g t, h t)) db e)

  pub query-ok :
      {A : Type 0} (h : T → A) (db : Db T) {a : A} {db' : Db T}
      → query h db ≡ (ok a, db')
      → (db'.tables ≡ db.tables) × (a ≡ h db.tables)
  query-ok h db e = change-ok (λ t. t) h db e

  pub execute-ok :
      (g : T → T) (db : Db T) {db' : Db T} → execute g db ≡ (ok tt, db') → db'.tables ≡ g db.tables
  execute-ok g db e = (change-ok g (λ t. tt) db e).0

  pub pure-ok :
      {A : Type 0} (x : A) (db : Db T) {a : A} {db' : Db T}
      → pure x db ≡ (ok a, db')
      → (db' ≡ db) × (a ≡ x)
  pure-ok x db e = (cc, cc)

  pub lift-ok :
      {A : Type 0} (r : Result A) (db : Db T) {a : A} {db' : Db T}
      → lift r db ≡ (ok a, db')
      → (db' ≡ db) × (r ≡ ok a)
  lift-ok (ok x) db e = (cc, cc)
  lift-ok (err x) db e = cc
