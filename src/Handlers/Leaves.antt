-- ===== src/Handlers/Leaves.antt =====
-- What a handler leaves behind, on each way it can end: a property `P` of the tables that holds
-- throughout, and while it goes on what is known of the session and of the value.
use kraken_ui.Common.{
  ◌≡◌, refl, Bool, true, false, Result, ok, err, Db, DbM, Preserves, if◌then◌else◌,
}
use kraken_ui.Models.{Tables}
use kraken_ui.Sessions.{SessionTable}
use kraken_ui.Handlers.{
  World, Response, Flow, go_on, respond, failed, Handler, answer, and_then, ◌>>=◌, question, in_db,
  in_session, try_session, try_sessions,
}

-- Nothing is known of the session.
abbrev pub Any : {S : Type 0} → S → Type 0
Any s = Unit {0}

module _ {S : Type 0} (P : Tables → Type 0) where
  -- The property of the tables, and what is known of the session.
  abbrev pub Kept : (S → Type 0) → World S → Type 0
  Kept B w = B w.session × P w.db.tables

  abbrev pub Left : {A : Type 0} → (A → World S → Type 0) → Flow A × World S → Type 0
  Left R (go_on a, w) = R a w
  Left R (respond r, w) = P w.db.tables
  Left R (failed e, w) = P w.db.tables

  abbrev pub Leaves :
      {A : Type 0} → (World S → Type 0) → Handler S A → (A → World S → Type 0) → Type 0
  Leaves Q m R = (w : World S) → Q w → Left R (m w)

  pub bind-Leaves :
      {A B : Type 0} (Q : World S → Type 0) (M : A → World S → Type 0) (R : B → World S → Type 0)
      (m : Handler S A) (f : A → Handler S B)
      → Leaves Q m M
      → ((a : A) → Leaves (M a) (f a) R)
      → Leaves Q (m >>= f) R
  bind-Leaves {A} {B} Q M R m f h k w q = go (m w) (h w q)
    where
      go : (r : Flow A × World S) → Left M r → Left R (and_then r f)
      go (go_on a, w) p = k a w p
      go (respond r, w) p = p
      go (failed e, w) p = p

  pub in_db-Leaves :
      {A : Type 0} (B : S → Type 0) (m : DbM Tables A)
      → Preserves P m
      → Leaves (Kept B) (in_db m) (λ a. Kept B)
  unfolding in_db
  in_db-Leaves {A} B m h w (b, p) = go (m w.db) (h w.db p)
    where
      go :
          (r : Result A × Db Tables)
          → P r.1.tables
          → Left (λ (a : A). Kept B) (question r.0, record w { db = r.1 })
      go (ok a, db) p = (b, p)
      go (err e, db) p = p

  pub in_session-Leaves :
      {A : Type 0} (B : S → Type 0) (C : A → S → Type 0) (m : S → Result A × S)
      → ((s s' : S) (a : A) → B s → m s ≡ (ok a, s') → C a s')
      → Leaves (Kept B) (in_session m) (λ a. Kept (C a))
  unfolding in_session
  in_session-Leaves {A} B C m h w (b, p) = go (m w.session) refl
    where
      go :
          (r : Result A × S)
          → m w.session ≡ r
          → Left (λ (a : A). Kept (C a)) (question r.0, record w { session = r.1 })
      go (ok a, s) e = (h w.session s a b e, p)
      go (err x, s) e = p

  pub try_session-Leaves :
      {A : Type 0} (B : S → Type 0) (m : S → Result A × S)
      → Leaves (Kept B) (try_session m) (λ u. Kept Any)
  unfolding try_session
  try_session-Leaves B m w (b, p) = (tt, p)

  pub try_sessions-Leaves :
      {A : Type 0} (B : S → Type 0) (m : DbM SessionTable A)
      → Leaves (Kept B) (try_sessions m) (λ u. Kept B)
  unfolding try_sessions
  try_sessions-Leaves B m w p = p

  pub answer-Leaves :
      {A : Type 0} (B : S → Type 0) (R : A → World S → Type 0) (r : Response)
      → Leaves (Kept B) (answer {A = A} r) R
  answer-Leaves B R r w (b, p) = p

  pub branch-Leaves :
      {A : Type 0} (Q : World S → Type 0) (R : A → World S → Type 0) (b : Bool) (m n : Handler S A)
      → (b ≡ true → Leaves Q m R)
      → (b ≡ false → Leaves Q n R)
      → Leaves Q (if b then m else n) R
  branch-Leaves Q R true m n h k = h refl
  branch-Leaves Q R false m n h k = k refl

  pub forget-Leaves :
      {A : Type 0} (B : S → Type 0) (R : A → World S → Type 0) (m : Handler S A)
      → Leaves (Kept Any) m R
      → Leaves (Kept B) m R
  forget-Leaves B R m h w (b, p) = h w (tt, p)
