-- ===== src/Acl/Keeping.antt =====
-- What the requests of src/controllers/acl.rs do to the signed-in administrator's own account.
use Prim.Native.String.{String}
use kraken_ui.Common.{
  ℕ, ◌≡◌, refl, sym, ◌∙◌, ap, subst, Bool, true, false, Option, none, some, Text, arith,
  if◌then◌else◌, Result, ok, err, Db, DbM, query, query-ok, query-Preserves, select_one,
  select_one-test, Preserves,
}
use kraken_ui.Models.{Operator, Tables}
use kraken_ui.Sessions.{user_id_field, delete_by_user_id}
use kraken_ui.Operators.{has_id, find_by_id}
use kraken_ui.Operators.Administrator.{IsAdministrator}
use kraken_ui.Policy.{ValidatedOperator}
use kraken_ui.StepUp.{
  StepUpOutcome, verified, unauthorized_step, rejected, verify, authenticated_user_id,
}
use kraken_ui.StepUp.Keeping.{Keeps, then-Keeps, verify-Keeps}
use kraken_ui.Handlers.{
  Request, AppState, Response, csrf_error, Handler, return, answer, ◌>>=◌, ◌>>◌, in_db, in_session,
  question, try_sessions, csrf_verify,
}
use kraken_ui.Handlers.Runs.{SessionView}
use kraken_ui.Handlers.Leaves.{
  Kept, Left, Leaves, Any, bind-Leaves, in_db-Leaves, in_session-Leaves, try_sessions-Leaves,
  forget-Leaves,
}
use kraken_ui.Auth.{session_i64}
use kraken_ui.Acl.{checked_csrf, passed, stepped_up, valid_input, unless, found_or, id_or}

module _ {S : Type 0} (state : AppState S) (view : SessionView state.sessions) (request : Request)
    (a : ℕ) where
  -- The session names this operator.
  abbrev pub Names : S → Type 0
  Names s = view.numbers s user_id_field ≡ some a

  abbrev pub Goes : {A : Type 0} → Handler S A → Type 0
  Goes {A} m =
      Leaves (IsAdministrator a) (Kept (IsAdministrator a) Names) m
        (λ (x : A). Kept (IsAdministrator a) Names)

  abbrev pub Ends : {A : Type 0} → Handler S A → Type 0
  Ends {A} m =
      Leaves (IsAdministrator a) (Kept (IsAdministrator a) Names) m
        (λ (x : A). Kept (IsAdministrator a) Any)

  pub then-Ends :
      {A B : Type 0} (m : Handler S A) (f : A → Handler S B)
      → Goes m
      → ((x : A) → Ends (f x))
      → Ends (m >>= f)
  then-Ends {A} {B} m f h k =
      bind-Leaves (IsAdministrator a) (Kept (IsAdministrator a) Names)
        (λ (x : A). Kept (IsAdministrator a) Names) (λ (x : B). Kept (IsAdministrator a) Any) m f h
        k

  pub forgotten : {A : Type 0} (m : Handler S A) → Keeps state request a m → Ends m
  forgotten {A} m h =
      forget-Leaves (IsAdministrator a) Names (λ (x : A). Kept (IsAdministrator a) Any) m h

  pub return-Goes : {A : Type 0} (x : A) → Goes (return x)
  return-Goes x w p = p

  pub db-Goes : {A : Type 0} (m : DbM Tables A) → Preserves (IsAdministrator a) m → Goes (in_db m)
  db-Goes m h = in_db-Leaves (IsAdministrator a) Names m h

  pub checked_csrf-Goes : (csrf_token : Text) → Goes (checked_csrf state request csrf_token)
  unfolding checked_csrf
  checked_csrf-Goes csrf_token = go (csrf_verify request csrf_token)
    where
      go : (b : Bool) → Goes (if b then return tt else answer csrf_error)
      go true = return-Goes tt
      go false = λ w p. p.1

  pub valid_input-Goes :
      (page : String → Response) (r : Result ValidatedOperator)
      → Goes (valid_input state request page r)
  unfolding valid_input
  valid_input-Goes page (ok input) = return-Goes input
  valid_input-Goes page (err message) = λ w p. p.1

  pub unless-Ends :
      {B : Type 0} (taken : Bool) (page : Response) (k : Handler S B)
      → (taken ≡ false → Ends k)
      → Ends (unless state request taken page >> k)
  unfolding unless
  unless-Ends true page k h = λ w p. p.1
  unless-Ends false page k h = h refl

  pub unless-Keeps :
      {B : Type 0} (taken : Bool) (page : Response) (k : Handler S B)
      → Keeps state request a k
      → Keeps state request a (unless state request taken page >> k)
  unfolding unless
  unless-Keeps true page k h = λ w p. p.1
  unless-Keeps false page k h = h

  pub found_or-Goes :
      (page : Response) (found : Option Operator) → Goes (found_or state request page found)
  unfolding found_or
  found_or-Goes page none = λ w p. p.1
  found_or-Goes page (some o) = return-Goes o

  pub id_or-Goes : (page : Response) (found : Option ℕ) → Goes (id_or state request page found)
  unfolding id_or
  id_or-Goes page none = λ w p. p.1
  id_or-Goes page (some id) = return-Goes id

  passed-Keeps :
      (page : String → Response) (outcome : StepUpOutcome)
      → Keeps state request a (passed state request page outcome)
  unfolding passed
  passed-Keeps page (verified o) w p = p
  passed-Keeps page unauthorized_step w p = p.1
  passed-Keeps page (rejected message) w p = p.1

  pub stepped_up-Keeps :
      (page : String → Response) (current_password mfa_code : Text)
      → Keeps state request a (stepped_up state request page current_password mfa_code)
  unfolding stepped_up
  stepped_up-Keeps page current_password mfa_code =
      then-Keeps state request a (verify state request current_password mfa_code) _
        (verify-Keeps state request a current_password mfa_code) (passed-Keeps page)

  pub db-Keeps :
      {A : Type 0} (m : DbM Tables A)
      → Preserves (IsAdministrator a) m
      → Keeps state request a (in_db m)
  db-Keeps m h = in_db-Leaves (IsAdministrator a) Any m h

  pub rows-Keeps : (id : ℕ) → Keeps state request a (try_sessions (delete_by_user_id id))
  rows-Keeps id = try_sessions-Leaves (IsAdministrator a) Any (delete_by_user_id id)

  -- The operator that the session names is read there.
  pub user-Ends :
      {B : Type 0} (f : Option ℕ → Handler S B)
      → Ends (f (some a))
      → Ends (authenticated_user_id state request >>= f)
  unfolding authenticated_user_id session_i64
  user-Ends {B} f h =
      bind-Leaves (IsAdministrator a) (Kept (IsAdministrator a) Names)
        (λ (x : Option ℕ). Kept (IsAdministrator a) (λ s. (x ≡ some a) × Names s))
        (λ (x : B). Kept (IsAdministrator a) Any)
        (in_session (state.sessions.get_i64 user_id_field)) f
        (in_session-Leaves (IsAdministrator a) Names (λ x s. (x ≡ some a) × Names s)
          (state.sessions.get_i64 user_id_field)
          (λ s s' x names e.
            let (got, numbers, texts) = view.get_i64-ok user_id_field s s' x e in
            (got ∙ names, ap (λ (n : Text → Option ℕ). n user_id_field) numbers ∙ names)))
        (λ x w known.
          let ((is, names), p) = known in
          subst
            (λ (x : Option ℕ).
              Left (IsAdministrator a) (λ (y : B). Kept (IsAdministrator a) Any) (f x w))
            (sym is) (h w (names, p)))

  found-Leaves :
      (id : ℕ)
      → Leaves
          (IsAdministrator a)
          (Kept (IsAdministrator a) Names)
          (in_db (find_by_id id))
          (λ (found : Option Operator) w.
            ((o : Operator) → found ≡ some o → o.id_user ≡ id) × Kept (IsAdministrator a) Names w)
  unfolding in_db find_by_id
  found-Leaves id w (names, p) =
      go (query (λ t. select_one (has_id id) t.operators) w.db) refl
        (query-Preserves (IsAdministrator a) (λ t. select_one (has_id id) t.operators) w.db p)
    where
      own :
          (o : Operator) (t : Tables) → select_one (has_id id) t.operators ≡ some o → o.id_user ≡ id
      own o t e = let test = select_one-test (has_id id) t.operators {x = o} e in ground arith

      go :
          (r : Result (Option Operator) × Db Tables)
          → query (λ t. select_one (has_id id) t.operators) w.db ≡ r
          → IsAdministrator a r.1.tables
          → Left
              (IsAdministrator a)
              (λ (found : Option Operator) w.
                ((o : Operator) → found ≡ some o → o.id_user ≡ id)
                × Kept (IsAdministrator a) Names w)
              (question r.0, record w { db = r.1 })
      go (ok found, db) e p =
          let (kept, got) = query-ok (λ t. select_one (has_id id) t.operators) w.db e in
          ((λ o is. own o w.db.tables (sym got ∙ is)), (names, p))
      go (err x, db) e p = p

  -- A row that is found by its id has it.
  pub row-Ends :
      {B : Type 0} (id : ℕ) (page : Response) (f : Operator → Handler S B)
      → ((o : Operator) → o.id_user ≡ id → Ends (f o))
      → Ends (in_db (find_by_id id) >>= λ found. found_or state request page found >>= f)
  unfolding found_or
  row-Ends {B} id page f h =
      bind-Leaves (IsAdministrator a) (Kept (IsAdministrator a) Names)
        (λ (found : Option Operator) w. HasId found × Kept (IsAdministrator a) Names w)
        (λ (x : B). Kept (IsAdministrator a) Any) (in_db (find_by_id id))
        (λ found. found_or state request page found >>= f) (found-Leaves id) after
    where
      HasId : Option Operator → Type 0
      HasId found = (o : Operator) → found ≡ some o → o.id_user ≡ id

      after :
          (found : Option Operator)
          → Leaves
              (IsAdministrator a)
              (λ w. HasId found × Kept (IsAdministrator a) Names w)
              (found_or state request page found >>= f)
              (λ (x : B). Kept (IsAdministrator a) Any)
      after none w (has, (names, p)) = p
      after (some o) w (has, kept) = h o (has o refl) w kept
