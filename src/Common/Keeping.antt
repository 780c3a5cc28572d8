-- ===== src/Common/Keeping.antt =====
-- Properties of the tables that code over a database keeps, whatever its result: one rule for each
-- way of building such code.
use Prim.Native.String.{String}
use mathlib.Core.Bool.{Bool, true, false}
use mathlib.Core.Path.{◌≡◌, refl, subst, sym, ◌∙◌}
use kraken_ui.Common.Results.{Result, ok, err}
use kraken_ui.Common.Tests.{if◌then◌else◌}
use kraken_ui.Common.Database.{
  Db, DbM, pure, lift, follow, ◌>>=◌, statement, transaction, statement-ok, statement-err,
  transaction-ok, transaction-err, query,
}

module _ {T : Type 0} (P : T → Type 0) where
  abbrev pub Preserves : {A : Type 0} → DbM T A → Type 0
  Preserves m = (db : Db T) → P db.tables → P (m db).1.tables

  pub bind-Preserves :
      {A B : Type 0} (m : DbM T A) (f : A → DbM T B)
      → Preserves m
      → ((a : A) → Preserves (f a))
      → Preserves (m >>= f)
  bind-Preserves {A} {B} m f h k db p = go (m db) (h db p)
    where
      go : (r : Result A × Db T) → P r.1.tables → P (follow r f).1.tables
      go (ok a, d) q = k a d q
      go (err e, d) q = q

  pub lift-Preserves : {A : Type 0} (r : Result A) → Preserves (lift r)
  lift-Preserves r db p = p

  -- What is known of a value may be used after it.
  pub bind_known-Preserves :
      {A B : Type 0} (Q : A → Type 0) (m : DbM T A) (f : A → DbM T B)
      → ((db db' : Db T) (a : A) → P db.tables → m db ≡ (ok a, db') → Q a × P db'.tables)
      → Preserves m
      → ((a : A) → Q a → Preserves (f a))
      → Preserves (m >>= f)
  bind_known-Preserves {A} {B} Q m f known h k db p = go (m db) refl (h db p)
    where
      go : (r : Result A × Db T) → m db ≡ r → P r.1.tables → P (follow r f).1.tables
      go (ok a, d) e q = let (is, there) = known db d a p e in k a is d there
      go (err x, d) e q = q

  pub statement-Preserves :
      {A : Type 0} (f : T → Result (T × A))
      → ((t t' : T) (a : A) → f t ≡ ok (t', a) → P t → P t')
      → Preserves (statement f)
  statement-Preserves {A} f h db p = go (statement f db) refl
    where
      go : (r : Result A × Db T) → statement f db ≡ r → P r.1.tables
      go (ok a, d) e = h db.tables d.tables a (statement-ok f db e) p
      go (err x, d) e = subst P (sym (statement-err f db e)) p

  pub query-Preserves : {A : Type 0} (f : T → A) → Preserves (query f)
  query-Preserves {A} f =
      statement-Preserves (λ t. ok (t, f t)) (λ t t' a e p. subst P (kept t t' a e) p)
    where
      kept : (t t' : T) (a : A) → ◌≡◌ {A = Result (T × A)} (ok (t, f t)) (ok (t', a)) → t ≡ t'
      kept t t' a e = cc

  pub transaction-Preserves :
      {A : Type 0} (body : DbM T A) → Preserves body → Preserves (transaction body)
  transaction-Preserves {A} body h db p = go (transaction body db) refl
    where
      go : (r : Result A × Db T) → transaction body db ≡ r → P r.1.tables
      go (ok a, d) e =
          let (from, to, start, ran, tables) = transaction-ok body db e in
          subst P (sym tables)
            (subst (λ (r : Result A × Db T). P r.1.tables) ran (h from (subst P (sym start) p)))
      go (err x, d) e = subst P (sym (transaction-err body db e)) p

  pub branch-Preserves :
      {A : Type 0} (b : Bool) (m n : DbM T A)
      → (b ≡ true → Preserves m)
      → (b ≡ false → Preserves n)
      → Preserves (if b then m else n)
  branch-Preserves true m n h k = h refl
  branch-Preserves false m n h k = k refl

-- Code that changes no table unless its result is a good one.
module _ {T : Type 0} where
  abbrev pub Reads : {A : Type 0} → DbM T A → Type 0
  Reads m = (db : Db T) → (m db).1.tables ≡ db.tables

  abbrev pub Untouched : {A : Type 0} → (Result A → Bool) → DbM T A → Type 0
  Untouched good m = (db : Db T) → good (m db).0 ≡ false → (m db).1.tables ≡ db.tables

  pub query-Reads : {A : Type 0} (f : T → A) → Reads (query f)
  query-Reads f db = query-Preserves (λ t. t ≡ db.tables) f db refl

  pub read-Untouched :
      {A B : Type 0} (good : Result B → Bool) (m : DbM T A) (f : A → DbM T B)
      → Reads m
      → ((a : A) → Untouched good (f a))
      → Untouched good (m >>= f)
  read-Untouched {A} {B} good m f reads rest db = go (m db) (reads db)
    where
      go :
          (r : Result A × Db T)
          → r.1.tables ≡ db.tables
          → good (follow r f).0 ≡ false
          → (follow r f).1.tables ≡ db.tables
      go (ok a, d) same bad = rest a d bad ∙ same
      go (err e, d) same bad = same

  pub then-Untouched :
      {A B : Type 0} (good_a : Result A → Bool) (good : Result B → Bool) (m : DbM T A) (f : A → B)
      → Untouched good_a m
      → ((a : A) → good (ok (f a)) ≡ false → good_a (ok a) ≡ false)
      → ((e : String) → good_a (err e) ≡ false)
      → Untouched good (m >>= λ a. pure (f a))
  then-Untouched {A} {B} good_a good m f body back fails db = go (m db) (body db)
    where
      go :
          (r : Result A × Db T)
          → (good_a r.0 ≡ false → r.1.tables ≡ db.tables)
          → good (follow r (λ a. pure (f a))).0 ≡ false
          → (follow r (λ a. pure (f a))).1.tables ≡ db.tables
      go (ok a, d) h bad = h (back a bad)
      go (err e, d) h bad = h (fails e)

  pub transaction-Untouched :
      {A : Type 0} (good : Result A → Bool) (body : DbM T A)
      → ((from to : Db T) (a : A)
          → body from ≡ (ok a, to)
          → good (ok a) ≡ false
          → to.tables ≡ from.tables)
      → Untouched good (transaction body)
  transaction-Untouched {A} good body h db bad = go (transaction body db) refl bad
    where
      go :
          (r : Result A × Db T)
          → transaction body db ≡ r
          → good r.0 ≡ false
          → r.1.tables ≡ db.tables
      go (ok a, d) e bad =
          let (from, to, start, ran, same) = transaction-ok body db e in
          same ∙ h from to a ran bad ∙ start
      go (err x, d) e bad = transaction-err body db e
