-- ===== src/Acl/Password.antt =====
-- The change of an account's own password in src/controllers/acl.rs.
use kraken_ui.Common.{ℕ, Bool, true, false, not, Option, none, some, ◌==◌, Text, Result, ok, err}
use kraken_ui.Models.{Operator}
use kraken_ui.Operators.{find_by_id, update_password, PasswordVerification}
use kraken_ui.Sessions.{delete_by_user_id_except}
use kraken_ui.Policy.{ℤ, pos, negsuc, parse_i32, password_example, password_is_acceptable}
use kraken_ui.StepUp.{authenticated_user_id}
use kraken_ui.Handlers.{
  Request, AppState, Response, unauthorized, password_page, Handler, go_on, failed, return, answer,
  ◌>>=◌, ◌>>◌, in_db, try_sessions, plain_text, secret_has_rejected_markup,
}
use kraken_ui.Auth.{sync_session_identity}
use kraken_ui.Acl.{checked_csrf, unless, found_or, UpdatePasswordForm}

module _ {S : Type 0} (state : AppState S) (request : Request) where
  unfoldable pub current_id : Option ℕ → Handler S ℕ
  current_id none = answer unauthorized
  current_id (some id) = return id

  unfoldable pub same_id : Option ℤ → ℕ → Bool
  same_id none id = 0 == id
  same_id (some (pos n)) id = n == id
  same_id (some (negsuc n)) id = false

  unfoldable pub verified_password : Result PasswordVerification → Handler S Bool
  verified_password (ok verification) = return verification.valid
  verified_password (err e) = λ w. (failed e, w)

  unfoldable pub verify_current_password : Operator → Text → Handler S Bool
  unfolding verified_password
  verify_current_password o current_password =
      verified_password
        (state.password_crypto.verify_password o.id_user o.encrypted_password_hash current_password)

  unfoldable pub others_revoked : ℕ → Option Text → Handler S (Unit {0})
  others_revoked id none = return tt
  others_revoked id (some current) = try_sessions (delete_by_user_id_except id current)

  unfoldable pub session_id : Handler S (Option Text)
  session_id w = (go_on (state.sessions.id w.session), w)

  unfoldable pub update_password_page : Handler S Response
  unfolding current_id found_or
  update_password_page = do
    signed_in ← authenticated_user_id state request
    id ← current_id signed_in
    found ← in_db (find_by_id id)
    o ← found_or state request unauthorized found
    return (password_page o true "" "")

  unfoldable pub update_password_action : UpdatePasswordForm → Handler S Response
  unfolding checked_csrf current_id same_id found_or unless verify_current_password others_revoked
      session_id
  update_password_action form = do
    checked_csrf state request form.csrf_token
    signed_in ← authenticated_user_id state request
    id ← current_id signed_in
    found ← in_db (find_by_id id)
    existing ← found_or state request unauthorized found
    unless state request (not (same_id (parse_i32 (plain_text state.clean_markup form.id_user)) id))
        (password_page existing true "The submitted ID does not match the signed-in session."
          "error")
    valid ← verify_current_password existing form.current_password
    unless state request (not valid)
        (password_page existing true "The current password is incorrect." "error")
    unless state request (secret_has_rejected_markup state.clean_markup form.password)
        (password_page existing true password_example "error")
    unless state request
        (not (password_is_acceptable state form.password existing.username existing.email))
        (password_page existing true password_example "error")
    updated ← in_db (update_password state.password_crypto request.moment existing form.password)
    sync_session_identity state updated
    current ← session_id
    others_revoked id current
    return (password_page updated false "Password changed successfully." "success")
