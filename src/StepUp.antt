-- ===== src/StepUp.antt =====
-- `verify` of src/controllers/step_up.rs: the administrator proves the password again, and the second
-- factor where there is one, before a change.
pub mod Factors
pub mod Verified
pub mod Keeping
pub mod Tests
use Prim.Native.String.{String}
use kraken_ui.Common.{
  ℕ, ◌*◌, Bool, true, false, ◌||◌, Option, none, some, ltb, if◌then◌else◌, Text, byte_len, is_empty,
  Result, ok, err, Db,
}
use kraken_ui.Models.{Operator}
use kraken_ui.Operators.{PasswordVerification, find_by_id, record_reauthenticated}
use kraken_ui.Sessions.{user_id_field}
use kraken_ui.Mfa.{is_enabled}
use kraken_ui.Mfa.Login.{verify_login_code}
use kraken_ui.Handlers.{
  Request, AppState, World, Handler, Flow, go_on, failed, respond, return, ◌>>=◌, ◌>>◌, in_db,
  plain_text, secret_has_rejected_markup,
}
use kraken_ui.Auth.{session_i64, mark_reauthenticated, reauthenticated_within}

pub data StepUpOutcome : Type 0 where
  verified : Operator → StepUpOutcome
  unauthorized_step : StepUpOutcome
  rejected : String → StepUpOutcome

abbrev pub step_up_freshness_seconds : ℕ
step_up_freshness_seconds = 5 * 60

module _ {S : Type 0} (state : AppState S) (request : Request) where
  unfoldable pub authenticated_user_id : Handler S (Option ℕ)
  authenticated_user_id = session_i64 state user_id_field

  -- The last steps, once both factors are proved.
  pub marked : Operator → Handler S StepUpOutcome
  marked o = do
    in_db (record_reauthenticated request.moment o.id_user)
    _ ← mark_reauthenticated state request.moment.now
    fresh ← reauthenticated_within state request.moment.now step_up_freshness_seconds
    return (if fresh then verified o else unauthorized_step)

  pub code_checked : ℕ → Text → Handler S Bool
  code_checked id code =
      if ltb 32 (byte_len code)
      then return false
      else in_db (verify_login_code state.password_crypto state.otp request.moment id code)

  pub after_code : Operator → Bool → Handler S StepUpOutcome
  unfolding marked
  after_code o false = return (rejected "The two-factor code is invalid or expired.")
  after_code o true = marked o

  pub second_factor : Operator → Text → Bool → Handler S StepUpOutcome
  unfolding code_checked after_code marked
  second_factor o code false = marked o
  second_factor o code true =
      if is_empty code
      then return (rejected "Enter your current two-factor code.")
      else (code_checked o.id_user code >>= after_code o)

  pub after_password : Operator → Text → Result PasswordVerification → Handler S StepUpOutcome
  unfolding second_factor
  after_password o mfa_code (err e) = λ w. (failed e, w)
  after_password o mfa_code (ok verification) =
      if verification.valid
      then (in_db (is_enabled o.id_user)
          >>= second_factor o (plain_text state.clean_markup mfa_code))
      else return (rejected "The current password is incorrect.")

  pub after_account : Text → Text → Option Operator → Handler S StepUpOutcome
  unfolding after_password
  after_account current_password mfa_code none = return unauthorized_step
  after_account current_password mfa_code (some o) =
      if is_empty current_password
        || (ltb 256 (byte_len current_password)
            || secret_has_rejected_markup state.clean_markup current_password)
      then return (rejected "The current password is incorrect.")
      else after_password o mfa_code (
          state.password_crypto.verify_password o.id_user o.encrypted_password_hash
            current_password)

  pub after_user : Text → Text → Option ℕ → Handler S StepUpOutcome
  unfolding after_account
  after_user current_password mfa_code none = return unauthorized_step
  after_user current_password mfa_code (some id_user) =
      in_db (find_by_id id_user) >>= after_account current_password mfa_code

  unfoldable pub verify : Text → Text → Handler S StepUpOutcome
  unfolding authenticated_user_id after_user
  verify current_password mfa_code = authenticated_user_id >>= after_user current_password mfa_code
