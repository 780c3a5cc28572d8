-- ===== src/Acl/OwnUpdate.antt =====
-- An update of src/controllers/acl.rs leaves the signed-in administrator an administrator.
use kraken_ui.Common.{ℕ, ◌≡◌, Bool, true, false, not, ◌&&◌, some, Text, codes, text_eq, arith}
use kraken_ui.Roles.{admin, parse}
use kraken_ui.Models.{Operator}
use kraken_ui.Sessions.{user_id_field}
use kraken_ui.Operators.{find_by_email, find_by_username, update}
use kraken_ui.Operators.Administrator.Statements.{
  find_by_email-Preserves, find_by_username-Preserves, update-Preserves,
}
use kraken_ui.Policy.{parse_i32, ValidatedOperator, validate_operator}
use kraken_ui.StepUp.{authenticated_user_id}
use kraken_ui.StepUp.Keeping.{Keeps, then-Keeps, return-Keeps, session-Keeps, set-Keeps}
use kraken_ui.Handlers.{
  Request, AppState, edit_search_page, edit_operator_page, return, ◌>>=◌, ◌>>◌, in_db, plain_text,
}
use kraken_ui.Handlers.Runs.{SessionView}
use kraken_ui.Auth.{
  authenticated_username_field, authenticated_operator_type_field,
  authenticated_authz_version_field, set_i64, set_string, sync_session_identity,
}
use kraken_ui.Acl.{
  UpdateUserForm, positive, is_id, is_other, update_of, checked_csrf, stepped_up, valid_input,
  unless, id_or, refreshed, revoked_if, update_user_action,
}
use kraken_ui.Acl.Keeping.{
  Ends, then-Ends, forgotten, db-Goes, checked_csrf-Goes, valid_input-Goes, unless-Ends, id_or-Goes,
  stepped_up-Keeps, db-Keeps, rows-Keeps, user-Ends, row-Ends,
}

module _ {S : Type 0} (state : AppState S) (view : SessionView state.sessions) (request : Request)
    (a : ℕ) where
  text-Keeps : (key text : Text) → Keeps state request a (set_string state key text)
  unfolding set_string
  text-Keeps key text = session-Keeps state request a (state.sessions.insert_string key text)

  pub sync-Keeps : (o : Operator) → Keeps state request a (sync_session_identity state o)
  unfolding sync_session_identity
  sync-Keeps o =
      then-Keeps state request a (set_i64 state user_id_field o.id_user) _
        (set-Keeps state request a user_id_field o.id_user)
        (λ u.
          then-Keeps state request a
            (set_string state authenticated_username_field
              (plain_text state.clean_markup o.username))
            _ (text-Keeps authenticated_username_field (plain_text state.clean_markup o.username))
            (λ u.
              then-Keeps state request a
                (set_string state authenticated_operator_type_field
                  (plain_text state.clean_markup o.operator_type))
                _
                (text-Keeps authenticated_operator_type_field
                  (plain_text state.clean_markup o.operator_type))
                (λ u. set-Keeps state request a authenticated_authz_version_field o.authz_version)))

  refreshed-Keeps :
      (own : Bool) (o : Operator) → Keeps state request a (refreshed state request own o)
  unfolding refreshed
  refreshed-Keeps true o = sync-Keeps o
  refreshed-Keeps false o = return-Keeps state request a tt

  revoked_if-Keeps :
      (changed : Bool) (id : ℕ) → Keeps state request a (revoked_if state request changed id)
  unfolding revoked_if
  revoked_if-Keeps true id = rows-Keeps state view request a id
  revoked_if-Keeps false id = return-Keeps state request a tt

  -- From the step-up on: the row that is written is not its own, or stays an administrator's.
  update_of-Keeps :
      (form : UpdateUserForm) (existing : Operator) (input : ValidatedOperator)
      → (existing.id_user ≡ a → parse input.operator_type ≡ some admin)
      → Keeps state request a (
          stepped_up state request
            (λ message. edit_operator_page existing message "error")
            form.current_password
            form.mfa_code
          >> (in_db (update state.password_crypto request.moment existing (update_of input))
              >>= λ updated.
                  refreshed state request (is_id (some a) updated.id_user) updated
                  >> (revoked_if state request
                        (not (text_eq existing.operator_type input.operator_type))
                        updated.id_user
                      >> return (
                          edit_operator_page updated "User details updated successfully."
                            "success"))))
  update_of-Keeps form existing input own =
      then-Keeps state request a
        (stepped_up state request (λ message. edit_operator_page existing message "error")
          form.current_password form.mfa_code)
        _ (stepped_up-Keeps state view request a _ form.current_password form.mfa_code)
        (λ u.
          then-Keeps state request a
            (in_db (update state.password_crypto request.moment existing (update_of input))) _
            (db-Keeps state view request a _ (
              update-Preserves a state.password_crypto request.moment existing (update_of input)
                own))
            (λ updated.
              then-Keeps state request a
                (refreshed state request (is_id (some a) updated.id_user) updated) _
                (refreshed-Keeps (is_id (some a) updated.id_user) updated)
                (λ u.
                  then-Keeps state request a
                    (revoked_if state request
                      (not (text_eq existing.operator_type input.operator_type)) updated.id_user)
                    _
                    (revoked_if-Keeps (not (text_eq existing.operator_type input.operator_type))
                      updated.id_user)
                    (λ u. return-Keeps state request a (
                      edit_operator_page updated "User details updated successfully." "success")))))

  own_role :
      (id : ℕ) (existing : Operator) (input : ValidatedOperator)
      → existing.id_user ≡ id
      → (is_id (some a) id && not (text_eq input.operator_type (codes "admin"))) ≡ false
      → existing.id_user ≡ a
      → parse input.operator_type ≡ some admin
  unfolding parse
  own_role id existing input is allowed own = ground arith

  update_found-Ends :
      (form : UpdateUserForm) (id : ℕ) (existing : Operator) (input : ValidatedOperator)
      → existing.id_user ≡ id
      → Ends state view request a (
          authenticated_user_id state request >>= λ signed_in.
          unless state request
            (is_id signed_in id && not (text_eq input.operator_type (codes "admin")))
            (edit_operator_page existing "The signed-in administrator cannot change their own role."
              "error")
          >> (in_db (find_by_email input.email) >>= λ by_email.
              unless state request
                (is_other id by_email)
                (edit_operator_page existing "That email address is already registered." "error")
              >> (in_db (find_by_username input.username) >>= λ by_name.
                  unless state request
                    (is_other id by_name)
                    (edit_operator_page existing "That username is already taken." "error")
                  >> (stepped_up state request
                        (λ message. edit_operator_page existing message "error")
                        form.current_password
                        form.mfa_code
                      >> (in_db
                            (update state.password_crypto request.moment existing (update_of input))
                          >>= λ updated.
                              refreshed state request (is_id signed_in updated.id_user) updated
                              >> (revoked_if state request
                                    (not (text_eq existing.operator_type input.operator_type))
                                    updated.id_user
                                  >> return (
                                      edit_operator_page updated
                                        "User details updated successfully." "success")))))))
  update_found-Ends form id existing input is = user-Ends state view request a _ (
      unless-Ends state view request a
        (is_id (some a) id && not (text_eq input.operator_type (codes "admin")))
        (edit_operator_page existing "The signed-in administrator cannot change their own role."
          "error")
        _
        (λ allowed.
          then-Ends state view request a (in_db (find_by_email input.email)) _
            (db-Goes state view request a _ (find_by_email-Preserves a input.email))
            (λ by_email.
              unless-Ends state view request a (is_other id by_email)
                (edit_operator_page existing "That email address is already registered." "error") _
                (λ free.
                  then-Ends state view request a (in_db (find_by_username input.username)) _
                    (db-Goes state view request a _ (find_by_username-Preserves a input.username))
                    (λ by_name.
                      unless-Ends state view request a (is_other id by_name)
                        (edit_operator_page existing "That username is already taken." "error") _
                        (λ free_name. forgotten state view request a _ (
                          update_of-Keeps form existing input
                            (own_role id existing input is allowed))))))))

  pub update-Ends :
      (form : UpdateUserForm) → Ends state view request a (update_user_action state request form)
  unfolding update_user_action
  update-Ends form =
      then-Ends state view request a (checked_csrf state request form.csrf_token) _
        (checked_csrf-Goes state view request a form.csrf_token)
        (λ u.
          then-Ends state view request a
            (id_or state request (edit_search_page "Invalid user ID." "error")
              (positive (parse_i32 (plain_text state.clean_markup form.id_user))))
            _ (id_or-Goes state view request a _ _)
            (λ id.
              row-Ends state view request a id (edit_search_page "User not found." "error") _
                (λ existing is.
                  then-Ends state view request a
                    (valid_input state request
                      (λ message. edit_operator_page existing message "error")
                      (validate_operator state form.username form.email form.user_type form.password
                        true))
                    _ (valid_input-Goes state view request a _ _)
                    (λ input. update_found-Ends form id existing input is))))
