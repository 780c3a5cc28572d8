-- ===== src/Acl/OwnPassword.antt =====
-- The change of an account's own password in src/controllers/acl.rs leaves every administrator one.
use kraken_ui.Common.{
  ℕ, Bool, true, false, not, Option, none, some, Text, Result, ok, err, if◌then◌else◌,
}
use kraken_ui.Models.{Operator}
use kraken_ui.Sessions.{delete_by_user_id_except, user_id_field}
use kraken_ui.Operators.{find_by_id, update_password, PasswordVerification}
use kraken_ui.Operators.Administrator.{IsAdministrator}
use kraken_ui.Operators.Administrator.Statements.{find_by_id-Preserves, update_password-Preserves}
use kraken_ui.Policy.{parse_i32, password_example, password_is_acceptable}
use kraken_ui.StepUp.{authenticated_user_id}
use kraken_ui.StepUp.Keeping.{Keeps, then-Keeps, return-Keeps, read-Keeps}
use kraken_ui.Handlers.{
  Request, AppState, Response, csrf_error, unauthorized, password_page, return, answer, ◌>>=◌, ◌>>◌,
  in_db, csrf_verify, plain_text, secret_has_rejected_markup,
}
use kraken_ui.Handlers.Runs.{SessionView}
use kraken_ui.Handlers.Leaves.{try_sessions-Leaves, Any}
use kraken_ui.Auth.{sync_session_identity}
use kraken_ui.Acl.{UpdatePasswordForm, checked_csrf, found_or}
use kraken_ui.Acl.Password.{
  current_id, same_id, verified_password, verify_current_password, others_revoked, session_id,
  update_password_action,
}
use kraken_ui.Acl.Keeping.{unless-Keeps, db-Keeps}
use kraken_ui.Acl.OwnUpdate.{sync-Keeps}

module _ {S : Type 0} (state : AppState S) (view : SessionView state.sessions) (request : Request)
    (a : ℕ) where
  checked_csrf-Keeps :
      (csrf_token : Text) → Keeps state request a (checked_csrf state request csrf_token)
  unfolding checked_csrf
  checked_csrf-Keeps csrf_token = go (csrf_verify request csrf_token)
    where
      go : (b : Bool) → Keeps state request a (if b then return tt else answer csrf_error)
      go true = return-Keeps state request a tt
      go false = λ w p. p.1

  current_id-Keeps : (found : Option ℕ) → Keeps state request a (current_id state request found)
  unfolding current_id
  current_id-Keeps none = λ w p. p.1
  current_id-Keeps (some id) = return-Keeps state request a id

  found_or-Keeps :
      (page : Response) (found : Option Operator)
      → Keeps state request a (found_or state request page found)
  unfolding found_or
  found_or-Keeps page none = λ w p. p.1
  found_or-Keeps page (some o) = return-Keeps state request a o

  user-Keeps : Keeps state request a (authenticated_user_id state request)
  unfolding authenticated_user_id
  user-Keeps = read-Keeps state request a user_id_field

  verified_password-Keeps :
      (r : Result PasswordVerification) → Keeps state request a (verified_password state request r)
  unfolding verified_password
  verified_password-Keeps (ok verification) = return-Keeps state request a verification.valid
  verified_password-Keeps (err e) = λ w p. p.1

  verify-Keeps :
      (o : Operator) (current_password : Text)
      → Keeps state request a (verify_current_password state request o current_password)
  unfolding verify_current_password
  verify-Keeps o current_password =
      verified_password-Keeps
        (state.password_crypto.verify_password o.id_user o.encrypted_password_hash current_password)

  others-Keeps :
      (id : ℕ) (current : Option Text)
      → Keeps state request a (others_revoked state request id current)
  unfolding others_revoked
  others-Keeps id none = return-Keeps state request a tt
  others-Keeps id (some current) =
      try_sessions-Leaves (IsAdministrator a) Any (delete_by_user_id_except id current)

  session_id-Keeps : Keeps state request a (session_id state request)
  unfolding session_id
  session_id-Keeps w p = p

  written-Keeps :
      (form : UpdatePasswordForm) (existing : Operator) (id : ℕ)
      → Keeps state request a (
          in_db (update_password state.password_crypto request.moment existing form.password)
          >>= λ updated.
              sync_session_identity state updated
              >> (session_id state request >>= λ current.
                  others_revoked state request id current
                  >> return
                      (password_page updated false "Password changed successfully." "success")))
  written-Keeps form existing id =
      then-Keeps state request a
        (in_db (update_password state.password_crypto request.moment existing form.password)) _
        (db-Keeps state view request a _
          (update_password-Preserves a state.password_crypto request.moment existing form.password))
        (λ updated.
          then-Keeps state request a (sync_session_identity state updated) _
            (sync-Keeps state view request a updated)
            (λ u.
              then-Keeps state request a (session_id state request) _ session_id-Keeps (λ current.
                then-Keeps state request a (others_revoked state request id current) _
                  (others-Keeps id current)
                  (λ u.
                    return-Keeps state request a
                      (password_page updated false "Password changed successfully." "success")))))

  pub password-Keeps :
      (form : UpdatePasswordForm)
      → Keeps state request a (update_password_action state request form)
  unfolding update_password_action
  password-Keeps form =
      then-Keeps state request a (checked_csrf state request form.csrf_token) _
        (checked_csrf-Keeps form.csrf_token)
        (λ u.
          then-Keeps state request a (authenticated_user_id state request) _ user-Keeps
            (λ signed_in.
              then-Keeps state request a (current_id state request signed_in) _
                (current_id-Keeps signed_in)
                (λ id.
                  then-Keeps state request a (in_db (find_by_id id)) _
                    (db-Keeps state view request a _ (find_by_id-Preserves a id))
                    (λ found.
                      then-Keeps state request a (found_or state request unauthorized found) _
                        (found_or-Keeps unauthorized found)
                        (λ existing.
                          unless-Keeps state view request a
                            (not (
                              same_id state request
                                (parse_i32 (plain_text state.clean_markup form.id_user)) id))
                            (password_page existing true
                              "The submitted ID does not match the signed-in session." "error")
                            _
                            (then-Keeps state request a
                              (verify_current_password state request existing form.current_password)
                              _ (verify-Keeps existing form.current_password)
                              (λ valid.
                                unless-Keeps state view request a (not valid)
                                  (password_page existing true "The current password is incorrect."
                                    "error")
                                  _
                                  (unless-Keeps state view request a
                                    (secret_has_rejected_markup state.clean_markup form.password)
                                    (password_page existing true password_example "error") _
                                    (unless-Keeps state view request a
                                      (not (
                                        password_is_acceptable state form.password existing.username
                                          existing.email))
                                      (password_page existing true password_example "error") _
                                      (written-Keeps form existing id))))))))))
