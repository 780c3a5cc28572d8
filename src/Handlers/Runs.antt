-- ===== src/Handlers/Runs.antt =====
-- Reading a handler's run backwards, and what the sessions of `tower_sessions` are relied on for.
use kraken_ui.Common.{
  ℕ, ◌≡◌, refl, Option, none, some, Text, Result, ok, err, Db, DbM, Map, insert, remove,
}
use kraken_ui.Models.{Tables}
use kraken_ui.Gcra.{PersistentRateLimiter}
use kraken_ui.Handlers.{
  SessionApi, World, Flow, go_on, respond, failed, Handler, return, and_then, ◌>>=◌, question,
  in_db, in_session, persistent_check, persistent_login_retry_after,
}

-- The values of a session, as its documentation says they are read and written by calls that
-- succeed. A key holds a number or a text.
pub record SessionView {S : Type 0} (api : SessionApi S) : Type 0 where
  pub numbers : S → Map ℕ
  pub texts : S → Map Text
  pub get_i64-ok :
      (key : Text) (s s' : S) (a : Option ℕ)
      → api.get_i64 key s ≡ (ok a, s')
      → (a ≡ numbers s key) × (numbers s' ≡ numbers s) × (texts s' ≡ texts s)
  pub get_string-ok :
      (key : Text) (s s' : S) (a : Option Text)
      → api.get_string key s ≡ (ok a, s')
      → (a ≡ texts s key) × (numbers s' ≡ numbers s) × (texts s' ≡ texts s)
  pub insert_i64-ok :
      (key : Text) (n : ℕ) (s s' : S)
      → api.insert_i64 key n s ≡ (ok tt, s')
      → (numbers s' ≡ insert key n (numbers s)) × (texts s' ≡ remove key (texts s))
  pub insert_string-ok :
      (key text : Text) (s s' : S)
      → api.insert_string key text s ≡ (ok tt, s')
      → (numbers s' ≡ remove key (numbers s)) × (texts s' ≡ insert key text (texts s))
  pub cycle_id-ok :
      (s s' : S) → api.cycle_id s ≡ (ok tt, s') → (numbers s' ≡ numbers s) × (texts s' ≡ texts s)

module _ {S : Type 0} where
  -- A chain that ends with a value is its steps.
  pub bind-go_on :
      {A B : Type 0} (m : Handler S A) (f : A → Handler S B) (w : World S) {b : B} {w' : World S}
      → (m >>= f) w ≡ (go_on b, w')
      → (a : A) × (mid : World S) × (m w ≡ (go_on a, mid)) × (f a mid ≡ (go_on b, w'))
  bind-go_on {A} {B} m f w {b} {w'} e = go (m w) refl e
    where
      go :
          (r : Flow A × World S)
          → m w ≡ r
          → and_then r f ≡ (go_on b, w')
          → (a : A) × (mid : World S) × (m w ≡ (go_on a, mid)) × (f a mid ≡ (go_on b, w'))
      go (go_on a, mid) q h = (a, mid, q, h)
      go (respond r, mid) q h = cc
      go (failed x, mid) q h = cc

  pub return-go_on :
      {A : Type 0} (x : A) (w : World S) {a : A} {w' : World S}
      → return x w ≡ (go_on a, w')
      → (w' ≡ w) × (a ≡ x)
  return-go_on x w e = (cc, cc)

  pub in_db-go_on :
      {A : Type 0} (m : DbM Tables A) (w : World S) {a : A} {w' : World S}
      → in_db m w ≡ (go_on a, w')
      → (db : Db Tables) × (m w.db ≡ (ok a, db)) × (w' ≡ record w { db = db })
  unfolding in_db
  in_db-go_on {A} m w {a} {w'} e = go (m w.db) refl e
    where
      go :
          (r : Result A × Db Tables)
          → m w.db ≡ r
          → ◌≡◌ {A = Flow A × World S} (question r.0, record w { db = r.1 }) (go_on a, w')
          → (db : Db Tables) × (m w.db ≡ (ok a, db)) × (w' ≡ record w { db = db })
      go (ok x, db) q h = (db, cc, cc)
      go (err x, db) q h = cc

  pub in_session-go_on :
      {A : Type 0} (m : S → Result A × S) (w : World S) {a : A} {w' : World S}
      → in_session m w ≡ (go_on a, w')
      → (s : S) × (m w.session ≡ (ok a, s)) × (w' ≡ record w { session = s })
  unfolding in_session
  in_session-go_on {A} m w {a} {w'} e = go (m w.session) refl e
    where
      go :
          (r : Result A × S)
          → m w.session ≡ r
          → ◌≡◌ {A = Flow A × World S} (question r.0, record w { session = r.1 }) (go_on a, w')
          → (s : S) × (m w.session ≡ (ok a, s)) × (w' ≡ record w { session = s })
      go (ok x, s) q h = (s, cc, cc)
      go (err x, s) q h = cc

  pub persistent_login_retry_after-keeps :
      (now_us : ℕ) (key : Text) (w : World S)
      → ((persistent_login_retry_after now_us key w).1.db ≡ w.db)
        × ((persistent_login_retry_after now_us key w).1.session ≡ w.session)
  unfolding persistent_login_retry_after persistent_check
  persistent_login_retry_after-keeps now_us key w = go w.login_persistent
    where
      go :
          (l : Option PersistentRateLimiter)
          → ((persistent_check now_us key w l).1.db ≡ w.db)
            × ((persistent_check now_us key w l).1.session ≡ w.session)
      go none = (refl, refl)
      go (some limiter) = (refl, refl)
