-- ===== src/Auth/Login.antt =====
-- `login_submit` and `mfa_verify` of src/controllers/auth.rs. The audit log and the dummy hashing for
-- an unknown name are left out: they change no state.
pub mod Steps
pub mod Marker
pub mod SignIn
pub mod SecondFactor
mod Tests
use kraken_ui.Common.{
  ℕ, Bool, true, false, ◌||◌, Option, none, some, ◌++◌, ltb, if◌then◌else◌, Text, codes,
  to_ascii_lowercase, byte_len, is_empty, Result, ok, err,
}
use kraken_ui.Models.{Operator}
use kraken_ui.Operators.{
  PasswordVerification, find_by_id, find_by_username, record_authenticated,
  update_encrypted_password,
}
use kraken_ui.Mfa.{is_enabled}
use kraken_ui.Mfa.Login.{verify_login_code}
use kraken_ui.Handlers.{
  Request, AppState, Response, redirect, csrf_error, login_invalid, login_locked, mfa_locked,
  mfa_challenge, Handler, return, answer, ◌>>=◌, ◌>>◌, in_db, try_session, locked_for,
  record_login_failure, record_login_success, note_account_failure, persistent_login_retry_after,
  csrf_verify, plain_text, secret_has_rejected_markup, decimal,
}
use kraken_ui.Auth.{
  is_console_role, establish_session, mfa_pending_user_id, clear_mfa_pending, set_i64, cycle_id,
  login_path, admin_panel_path, mfa_challenge_path, mfa_pending_user_id_field, mfa_pending_at_field,
}

pub record LoginForm : Type 0 where
  pub login : Text
  pub password : Text
  pub csrf_token : Text

pub record MfaCodeForm : Type 0 where
  pub code : Text
  pub csrf_token : Text

abbrev pub ip_key : Request → Text
ip_key request = codes "ip:" ++ request.client_ip

abbrev pub ip_user_key : Request → Text → Text
ip_user_key request username = codes "ip:" ++ (request.client_ip ++ (codes "|user:" ++ username))

abbrev pub throttle_key : Request → ℕ → Text
throttle_key request id_user =
    codes "mfa:" ++ (request.client_ip ++ (codes "|user:" ++ decimal id_user))

module _ {S : Type 0} (state : AppState S) (request : Request) where
  abbrev pub username_of : LoginForm → Text
  username_of form = to_ascii_lowercase (plain_text state.clean_markup form.login)

  -- A lock that is found ends the request.
  stop_if : (ℕ → Response) → Option ℕ → Handler S (Unit {0})
  stop_if locked none = return tt
  stop_if locked (some remaining) = answer (locked remaining)

  -- Both throttles on a key.
  unfoldable pub throttled : (ℕ → Response) → Text → Handler S (Unit {0})
  unfolding stop_if
  throttled locked key = do
    remaining ← locked_for request.instant key
    stop_if locked remaining
    retry_after ← persistent_login_retry_after request.now_us (codes "login:" ++ key)
    stop_if locked retry_after

  unfoldable pub register_login_failure : Text → Handler S (Unit {0})
  register_login_failure username = do
    record_login_failure request.instant (ip_key request)
    record_login_failure request.instant (ip_user_key request username)
    if is_empty username then return tt else note_account_failure request.instant username

  unfoldable pub login_fails : {A : Type 0} → Text → Handler S A
  unfolding register_login_failure
  login_fails username = register_login_failure username >> answer login_invalid

  known_operator : Text → Option Operator → Handler S Operator
  unfolding login_fails
  known_operator username none = login_fails username
  known_operator username (some o) = return o

  valid_password : Text → Result PasswordVerification → Handler S PasswordVerification
  unfolding login_fails
  valid_password username (err e) = login_fails username
  valid_password username (ok v) = if v.valid then return v else login_fails username

  store_replacement : ℕ → Option Text → Handler S (Unit {0})
  store_replacement id none = return tt
  store_replacement id (some hash) = in_db (update_encrypted_password request.moment id hash)

  -- The password is only the first of two factors: a marker on a fresh session id.
  park_pending : Operator → Handler S Response
  unfolding cycle_id set_i64
  park_pending o = do
    cycle_id state
    set_i64 state mfa_pending_user_id_field o.id_user
    set_i64 state mfa_pending_at_field request.moment.now
    return (redirect mfa_challenge_path)

  sign_in : Operator → Handler S Response
  unfolding establish_session
  sign_in o = do
    in_db (record_authenticated request.moment o.id_user)
    establish_session state request.moment.now o
    return (redirect admin_panel_path)

  unfoldable pub authenticate : Text → Text → Handler S Operator
  unfolding known_operator valid_password store_replacement
  authenticate username password = do
    found ← in_db (find_by_username username)
    o ← known_operator username found
    verification ←
        valid_password username
          (state.password_crypto.verify_password o.id_user o.encrypted_password_hash password)
    store_replacement o.id_user verification.replacement_record
    return o

  pub admitted_to_console : Operator → Handler S (Unit {0})
  admitted_to_console o =
      if is_console_role o.operator_type then return tt else answer login_invalid

  after_password : Text → Operator → Handler S Response
  unfolding park_pending sign_in admitted_to_console
  after_password username o = do
    admitted_to_console o
    record_login_success (ip_key request)
    record_login_success (ip_user_key request username)
    enabled ← in_db (is_enabled o.id_user)
    if enabled then park_pending o else sign_in o

  pub checked_input : Text → Text → Handler S (Unit {0})
  unfolding login_fails
  checked_input username password =
      if ltb 128 (byte_len username)
        || (ltb 256 (byte_len password) || secret_has_rejected_markup state.clean_markup password)
      then login_fails username
      else return tt

  pub verified_csrf : Text → Handler S (Unit {0})
  verified_csrf csrf_token = if csrf_verify request csrf_token then return tt else answer csrf_error

  unfoldable pub login_submit : LoginForm → Handler S Response
  unfolding throttled verified_csrf checked_input authenticate after_password
  login_submit form = do
    verified_csrf form.csrf_token
    throttled login_locked (ip_key request)
    let username = username_of form
    throttled login_locked (ip_user_key request username)
    checked_input username form.password
    o ← authenticate username form.password
    after_password username o

  pending_user : Option ℕ → Handler S ℕ
  pending_user none = answer (redirect login_path)
  pending_user (some id_user) = return id_user

  known_pending : Option Operator → Handler S Operator
  known_pending none = try_session state.sessions.flush >> answer (redirect login_path)
  known_pending (some o) = return o

  accept_code : ℕ → Text → Handler S Bool
  accept_code id_user code =
      if ltb 32 (byte_len code)
      then return false
      else in_db (verify_login_code state.password_crypto state.otp request.moment id_user code)

  code_rejected : ℕ → Handler S Response
  code_rejected id_user =
      record_login_failure request.instant (throttle_key request id_user)
      >> return (mfa_challenge (codes "Invalid or expired code"))

  second_factor_done : ℕ → Operator → Handler S Response
  unfolding sign_in clear_mfa_pending establish_session
  second_factor_done id_user o = do
    record_login_success (throttle_key request id_user)
    in_db (record_authenticated request.moment o.id_user)
    clear_mfa_pending state
    establish_session state request.moment.now o
    return (redirect admin_panel_path)

  after_code : ℕ → Operator → Bool → Handler S Response
  unfolding code_rejected second_factor_done
  after_code id_user o false = code_rejected id_user
  after_code id_user o true =
      if is_console_role o.operator_type
      then second_factor_done id_user o
      else (try_session state.sessions.flush >> return (redirect login_path))

  unfoldable pub mfa_verify : MfaCodeForm → Handler S Response
  unfolding verified_csrf pending_user throttled known_pending accept_code after_code
      mfa_pending_user_id
  mfa_verify form = do
    verified_csrf form.csrf_token
    found ← mfa_pending_user_id state request.moment.now
    id_user ← pending_user found
    throttled mfa_locked (throttle_key request id_user)
    let code = plain_text state.clean_markup form.code
    account ← in_db (find_by_id id_user)
    o ← known_pending account
    accepted ← accept_code id_user code
    after_code id_user o accepted
