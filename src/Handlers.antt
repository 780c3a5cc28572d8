-- ===== src/Handlers.antt =====
-- What the request handlers share: the state that a request reads and changes (src/state.rs), early
-- returns, and the checks of src/security/csrf.rs and src/security/sanitize.rs. The session of the
-- crate `tower_sessions`, the CSRF token and the HTML cleaner are arguments.
pub mod Runs
pub mod Leaves
use Prim.Native.String.{String}
use kraken_ui.Common.{
  ℕ, ◌+◌, ◌/◌, ◌%◌, zero, suc, Bool, true, false, not, ◌&&◌, ◌||◌, Option, none, some, List, [],
  ◌∷◌, ◌==◌, ltb, leb, all, any, if◌then◌else◌, Text, codes, text_eq, trim, is_empty, byte_len,
  is_ascii_alphanumeric, Result, ok, err, Db, DbM,
}
use kraken_ui.Models.{Operator, Tables, Moment}
use kraken_ui.Sessions.{SessionTable}
use kraken_ui.Operators.{PasswordCrypto}
use kraken_ui.Mfa.{Otp}
use kraken_ui.Throttle.{LoginThrottle, locked_for_at, record_failure_at, record_success}
use kraken_ui.Monitor.{AccountFailureMonitor, note_failure_at}
use kraken_ui.Gcra.{PersistentRateLimiter, RateLimitDecision, limiter_check}

-- `tower_sessions::Session`: each call answers and leaves a session.
pub record SessionApi (S : Type 0) : Type 0 where
  pub get_i64 : Text → S → Result (Option ℕ) × S
  pub get_string : Text → S → Result (Option Text) × S
  pub insert_i64 : Text → ℕ → S → Result (Unit {0}) × S
  pub insert_string : Text → Text → S → Result (Unit {0}) × S
  pub remove : Text → S → Result (Unit {0}) × S
  pub cycle_id : S → Result (Unit {0}) × S
  pub flush : S → Result (Unit {0}) × S
  pub id : S → Option Text

pub record World (S : Type 0) : Type 0 where
  pub db : Db Tables
  pub session : S
  pub session_rows : Db SessionTable
  pub login_throttle : LoginThrottle
  pub account_failure_monitor : AccountFailureMonitor
  pub login_persistent : Option PersistentRateLimiter
  pub limiter_faults : List (List Bool)

-- What comes with a request: the address that src/security/client_ip.rs finds, and the clocks.
pub record Request : Type 0 where
  pub client_ip : Text
  pub moment : Moment
  pub instant : ℕ
  pub now_us : ℕ
  pub token_verify : Text → Bool

-- The services and settings of `AppState`.
pub record AppState (S : Type 0) : Type 0 where
  pub sessions : SessionApi S
  pub password_crypto : PasswordCrypto
  pub otp : Otp
  pub clean_markup : Text → Text
  pub password_policy : Text → Text → Result (Unit {0})
  pub admin_session_time_limit_seconds : ℕ

pub data Response : Type 0 where
  redirect : Text → Response
  csrf_error login_invalid : Response
  login_locked mfa_locked : ℕ → Response
  mfa_challenge : Text → Response
  unauthorized internal_error : Response
  add_user_page edit_search_page : String → String → Response
  delete_user_page : Text → String → String → Response
  edit_operator_page : Operator → String → String → Response
  password_page : Operator → Bool → String → String → Response

-- A step of a handler goes on with a value, returns early, or fails with an internal error.
pub data Flow (A : Type 0) : Type 0 where
  go_on : A → Flow A
  respond : Response → Flow A
  failed : String → Flow A

abbrev pub Handler : Type 0 → Type 0 → Type 0
Handler S A = World S → Flow A × World S

-- `?` on a result of the database, or of the session.
abbrev pub question : {A : Type 0} → Result A → Flow A
question (ok a) = go_on a
question (err e) = failed e

abbrev fault_now : List (List Bool) → List Bool
fault_now [] = []
fault_now (f ∷ fs) = f

abbrev faults_later : List (List Bool) → List (List Bool)
faults_later [] = []
faults_later (f ∷ fs) = fs

abbrev retry_after_of : RateLimitDecision → Option ℕ
retry_after_of d = if d.allowed then none else some d.retry_after

module _ {S : Type 0} where
  abbrev pub return : {A : Type 0} → A → Handler S A
  return a w = (go_on a, w)

  abbrev pub answer : {A : Type 0} → Response → Handler S A
  answer r w = (respond r, w)

  abbrev pub and_then : {A B : Type 0} → Flow A × World S → (A → Handler S B) → Flow B × World S
  and_then (go_on a, w) f = f a w
  and_then (respond r, w) f = (respond r, w)
  and_then (failed e, w) f = (failed e, w)

  infixl 5 ◌>>=◌ ◌>>◌
  abbrev pub ◌>>=◌ : {A B : Type 0} → Handler S A → (A → Handler S B) → Handler S B
  ◌>>=◌ m f w = and_then (m w) f

  abbrev pub ◌>>◌ : {B : Type 0} → Handler S (Unit {0}) → Handler S B → Handler S B
  m >> k = m >>= λ _. k

  unfoldable pub in_db : {A : Type 0} → DbM Tables A → Handler S A
  in_db m w = let (r, db) = m w.db in (question r, record w { db = db })

  unfoldable pub in_session : {A : Type 0} → (S → Result A × S) → Handler S A
  in_session m w = let (r, s) = m w.session in (question r, record w { session = s })

  -- A statement on the session store whose failure is only logged.
  unfoldable pub try_sessions : {A : Type 0} → DbM SessionTable A → Handler S (Unit {0})
  try_sessions m w = (go_on tt, record w { session_rows = (m w.session_rows).1 })

  -- `let _ = …`
  unfoldable pub try_session : {A : Type 0} → (S → Result A × S) → Handler S (Unit {0})
  try_session m w = (go_on tt, record w { session = (m w.session).1 })

  unfoldable pub locked_for : ℕ → Text → Handler S (Option ℕ)
  locked_for instant key w =
      let (t, remaining) = locked_for_at w.login_throttle key instant in
      (go_on remaining, record w { login_throttle = t })

  unfoldable pub record_login_failure : ℕ → Text → Handler S (Unit {0})
  record_login_failure instant key w =
      (go_on tt, record w { login_throttle = (record_failure_at w.login_throttle key instant).0 })

  unfoldable pub record_login_success : Text → Handler S (Unit {0})
  record_login_success key w =
      (go_on tt, record w { login_throttle = record_success w.login_throttle key })

  unfoldable pub note_account_failure : ℕ → Text → Handler S (Unit {0})
  note_account_failure instant username w = (
    go_on tt,
    record w {
      account_failure_monitor = (note_failure_at w.account_failure_monitor username instant).0;
    },
  )

  persistent_check : ℕ → Text → World S → Option PersistentRateLimiter → Flow (Option ℕ) × World S
  persistent_check now_us key w none = (go_on none, w)
  persistent_check now_us key w (some limiter) =
      let (l, decision) = limiter_check limiter (fault_now w.limiter_faults) key now_us in
      (
        go_on (retry_after_of decision),
        record w { login_persistent = some l; limiter_faults = faults_later w.limiter_faults },
      )

  unfoldable pub persistent_login_retry_after : ℕ → Text → Handler S (Option ℕ)
  unfolding persistent_check
  persistent_login_retry_after now_us key w = persistent_check now_us key w w.login_persistent

-- The Base64 alphabets.
abbrev is_token_symbol : ℕ → Bool
is_token_symbol c =
    is_ascii_alphanumeric c || (c == b'+' || (c == b'/' || (c == b'=' || (c == b'-' || c == b'_'))))

unfoldable pub is_well_formed : Text → Bool
is_well_formed submitted =
    not (is_empty submitted) && (leb (byte_len submitted) 512 && all is_token_symbol submitted)

abbrev pub csrf_verify : Request → Text → Bool
csrf_verify request submitted = is_well_formed submitted && request.token_verify submitted

unfoldable pub plain_text : (Text → Text) → Text → Text
plain_text clean_markup input = trim (clean_markup input)

unfoldable pub secret_has_rejected_markup : (Text → Text) → Text → Bool
secret_has_rejected_markup clean_markup input =
    any (λ c. c == b'<' || c == b'>') input && not (text_eq (plain_text clean_markup input) input)

-- The digits of a number below 10 ^ 10, the last ones first found.
abbrev digits_of : ℕ → ℕ → Text → Text
digits_of zero n acc = acc
digits_of (suc fuel) n acc =
    let rest = digits_of fuel (n / 10) ((b'0' + n % 10) ∷ acc) in
    if ltb n 10 then (b'0' + n) ∷ acc else rest

unfoldable pub decimal : ℕ → Text
decimal n = digits_of 10 n []
