-- ===== src/StepUp/Keeping.antt =====
-- What the proof of identity in src/controllers/step_up.rs leaves as it was, however it ends.
use kraken_ui.Common.{
  ℕ, Bool, true, false, ◌||◌, Option, none, some, Text, ltb, byte_len, is_empty, Result, ok, err,
  if◌then◌else◌,
}
use kraken_ui.Models.{Operator}
use kraken_ui.Operators.{PasswordVerification, find_by_id, record_reauthenticated}
use kraken_ui.Operators.Administrator.{IsAdministrator}
use kraken_ui.Operators.Administrator.Statements.{
  find_by_id-Preserves, record_reauthenticated-Preserves,
}
use kraken_ui.Mfa.{is_enabled}
use kraken_ui.Mfa.Login.Elsewhere.{is_enabled-Preserves, verify_login_code-Preserves}
use kraken_ui.Handlers.{
  Request, AppState, Handler, return, ◌>>=◌, in_db, in_session, plain_text,
  secret_has_rejected_markup,
}
use kraken_ui.Handlers.Leaves.{Kept, Leaves, Any, bind-Leaves, in_db-Leaves, in_session-Leaves}
use kraken_ui.Sessions.{user_id_field}
use kraken_ui.Auth.{
  session_i64, set_i64, mark_reauthenticated, reauthenticated_within, reauthenticated_at_field,
  fresh_within,
}
use kraken_ui.StepUp.{
  verified, unauthorized_step, rejected, step_up_freshness_seconds, authenticated_user_id, marked,
  code_checked, after_code, second_factor, after_password, after_account, after_user, verify,
}

module _ {S : Type 0} (state : AppState S) (request : Request) (a : ℕ) where
  abbrev pub Keeps : {A : Type 0} → Handler S A → Type 0
  Keeps {A} m =
      Leaves (IsAdministrator a) (Kept (IsAdministrator a) Any) m
        (λ (x : A). Kept (IsAdministrator a) Any)

  pub then-Keeps :
      {A B : Type 0} (m : Handler S A) (f : A → Handler S B)
      → Keeps m
      → ((x : A) → Keeps (f x))
      → Keeps (m >>= f)
  then-Keeps {A} {B} m f h k =
      bind-Leaves (IsAdministrator a) (Kept (IsAdministrator a) Any)
        (λ (x : A). Kept (IsAdministrator a) Any) (λ (x : B). Kept (IsAdministrator a) Any) m f h k

  pub return-Keeps : {A : Type 0} (x : A) → Keeps (return x)
  return-Keeps x w p = p

  pub session-Keeps : {A : Type 0} (m : S → Result A × S) → Keeps (in_session m)
  session-Keeps {A} m = in_session-Leaves (IsAdministrator a) Any (λ x. Any) m (λ s s' x b e. tt)

  pub set-Keeps : (key : Text) (n : ℕ) → Keeps (set_i64 state key n)
  unfolding set_i64
  set-Keeps key n = session-Keeps _

  pub read-Keeps : (key : Text) → Keeps (session_i64 state key)
  unfolding session_i64
  read-Keeps key = session-Keeps _

  branch-Keeps :
      {A : Type 0} (b : Bool) (m n : Handler S A) → Keeps m → Keeps n → Keeps (if b then m else n)
  branch-Keeps true m n h k = h
  branch-Keeps false m n h k = k

  marked-Keeps : (o : Operator) → Keeps (marked state request o)
  unfolding marked mark_reauthenticated reauthenticated_within
  marked-Keeps o =
      then-Keeps (in_db (record_reauthenticated request.moment o.id_user)) _
        (in_db-Leaves (IsAdministrator a) Any _
          (record_reauthenticated-Preserves a request.moment o.id_user))
        (λ u.
          then-Keeps (mark_reauthenticated state request.moment.now) _
            (then-Keeps (set_i64 state reauthenticated_at_field request.moment.now) _
              (set-Keeps reauthenticated_at_field request.moment.now)
              (λ v. return-Keeps request.moment.now))
            (λ at_.
              then-Keeps (reauthenticated_within state request.moment.now step_up_freshness_seconds)
                _
                (then-Keeps (session_i64 state reauthenticated_at_field) _
                  (read-Keeps reauthenticated_at_field)
                  (λ found.
                    return-Keeps
                      (fresh_within state request.moment.now step_up_freshness_seconds found)))
                (λ fresh. return-Keeps (if fresh then verified o else unauthorized_step))))

  code_checked-Keeps : (id : ℕ) (code : Text) → Keeps (code_checked state request id code)
  unfolding code_checked
  code_checked-Keeps id code = branch-Keeps (ltb 32 (byte_len code)) _ _ (return-Keeps false) (
      in_db-Leaves (IsAdministrator a) Any _ (
        verify_login_code-Preserves (IsAdministrator a) (λ t rows p. p) (λ t rows p. p)
          state.password_crypto request.moment id state.otp code))

  after_code-Keeps : (o : Operator) (accepted : Bool) → Keeps (after_code state request o accepted)
  unfolding after_code
  after_code-Keeps o true = marked-Keeps o
  after_code-Keeps o false = return-Keeps (rejected "The two-factor code is invalid or expired.")

  second_factor-Keeps :
      (o : Operator) (code : Text) (enabled : Bool)
      → Keeps (second_factor state request o code enabled)
  unfolding second_factor
  second_factor-Keeps o code false = marked-Keeps o
  second_factor-Keeps o code true =
      branch-Keeps (is_empty code) _ _
        (return-Keeps (rejected "Enter your current two-factor code."))
        (then-Keeps (code_checked state request o.id_user code) _
          (code_checked-Keeps o.id_user code) (after_code-Keeps o))

  after_password-Keeps :
      (o : Operator) (mfa_code : Text) (r : Result PasswordVerification)
      → Keeps (after_password state request o mfa_code r)
  unfolding after_password
  after_password-Keeps o mfa_code (err e) = λ w p. p.1
  after_password-Keeps o mfa_code (ok verification) =
      branch-Keeps verification.valid _ _
        (then-Keeps (in_db (is_enabled o.id_user)) _
          (in_db-Leaves (IsAdministrator a) Any _
            (is_enabled-Preserves (IsAdministrator a) (λ t rows p. p) (λ t rows p. p) o.id_user))
          (second_factor-Keeps o (plain_text state.clean_markup mfa_code)))
        (return-Keeps (rejected "The current password is incorrect."))

  after_account-Keeps :
      (current_password mfa_code : Text) (found : Option Operator)
      → Keeps (after_account state request current_password mfa_code found)
  unfolding after_account
  after_account-Keeps current_password mfa_code none = return-Keeps unauthorized_step
  after_account-Keeps current_password mfa_code (some o) =
      branch-Keeps
        (is_empty current_password
          || (ltb 256 (byte_len current_password)
              || secret_has_rejected_markup state.clean_markup current_password))
        _ _ (return-Keeps (rejected "The current password is incorrect."))
        (after_password-Keeps o mfa_code (
          state.password_crypto.verify_password o.id_user o.encrypted_password_hash
            current_password))

  after_user-Keeps :
      (current_password mfa_code : Text) (found : Option ℕ)
      → Keeps (after_user state request current_password mfa_code found)
  unfolding after_user
  after_user-Keeps current_password mfa_code none = return-Keeps unauthorized_step
  after_user-Keeps current_password mfa_code (some id_user) =
      then-Keeps (in_db (find_by_id id_user)) _
        (in_db-Leaves (IsAdministrator a) Any _ (find_by_id-Preserves a id_user))
        (after_account-Keeps current_password mfa_code)

  pub verify-Keeps :
      (current_password mfa_code : Text) → Keeps (verify state request current_password mfa_code)
  unfolding verify authenticated_user_id
  verify-Keeps current_password mfa_code =
      then-Keeps (session_i64 state user_id_field) _ (read-Keeps user_id_field)
        (after_user-Keeps current_password mfa_code)
