-- ===== src/Acl/Own.antt =====
-- Each request of src/controllers/acl.rs leaves the signed-in administrator an administrator.
use kraken_ui.Common.{
  ℕ, ◌≡◌, ◌≢◌, Bool, true, false, ◌||◌, Option, none, some, ◌==◌, Text, codes, is_empty, ltb,
  byte_len, arith, if◌then◌else◌, query-Preserves,
}
use kraken_ui.Sessions.{delete_by_user_id}
use kraken_ui.Operators.{find_by_email, find_by_username, delete_by_id}
use kraken_ui.Operators.Administrator.{IsAdministrator}
use kraken_ui.Operators.Administrator.Statements.{
  find_by_id-Preserves, find_by_email-Preserves, find_by_username-Preserves, create-Preserves,
  delete_by_id-Preserves,
}
use kraken_ui.Policy.{
  ℤ, pos, negsuc, parse_i32, valid_email, ValidatedOperator, validate_operator, cleaned,
}
use kraken_ui.StepUp.Keeping.{Keeps, then-Keeps, return-Keeps}
use kraken_ui.Handlers.{
  Request, AppState, add_user_page, delete_user_page, return, answer, ◌>>=◌, ◌>>◌, in_db,
  try_sessions,
}
use kraken_ui.Handlers.Runs.{SessionView}
use kraken_ui.Acl.{
  OperatorForm, DeleteUserForm, find_by_i32, is_id, new_operator, checked_csrf, stepped_up,
  valid_input, found_or, is_found, created, insert_user_action, target_of, delete_user_action,
}
use kraken_ui.Acl.Keeping.{
  Goes, Ends, then-Ends, forgotten, db-Goes, checked_csrf-Goes, valid_input-Goes, unless-Ends,
  found_or-Goes, stepped_up-Keeps, db-Keeps, rows-Keeps, user-Ends,
}

module _ {S : Type 0} (state : AppState S) (view : SessionView state.sessions) (request : Request)
    (a : ℕ) where
  created-Keeps :
      (input : ValidatedOperator) (password : Option Text)
      → Keeps state request a (created state request input password)
  unfolding created
  created-Keeps input none = λ w p. p.1
  created-Keeps input (some password) =
      db-Keeps state view request a _
        (create-Preserves a state.password_crypto request.moment (new_operator input password))

  pub insert-Ends :
      (form : OperatorForm) → Ends state view request a (insert_user_action state request form)
  unfolding insert_user_action
  insert-Ends form =
      then-Ends state view request a (checked_csrf state request form.csrf_token) _
        (checked_csrf-Goes state view request a form.csrf_token)
        (λ u.
          then-Ends state view request a
            (valid_input state request (λ message. add_user_page message "error")
              (validate_operator state form.username form.email form.user_type form.password false))
            _ (valid_input-Goes state view request a _ _)
            (λ input.
              then-Ends state view request a (in_db (find_by_email input.email)) _
                (db-Goes state view request a _ (find_by_email-Preserves a input.email))
                (λ by_email.
                  unless-Ends state view request a (is_found state request by_email)
                    (add_user_page "That email address is already registered." "error") _
                    (λ free.
                      then-Ends state view request a (in_db (find_by_username input.username)) _
                        (db-Goes state view request a _
                          (find_by_username-Preserves a input.username))
                        (λ by_name.
                          unless-Ends state view request a (is_found state request by_name)
                            (add_user_page "That username is already taken." "error") _
                            (λ free_name. forgotten state view request a _ (
                              then-Keeps state request a
                                (stepped_up state request (λ message. add_user_page message "error")
                                  form.current_password form.mfa_code)
                                _
                                (stepped_up-Keeps state view request a _ form.current_password
                                  form.mfa_code)
                                (λ u.
                                  then-Keeps state request a
                                    (created state request input input.password) _
                                    (created-Keeps input input.password)
                                    (λ o. return-Keeps state request a (
                                      add_user_page "User created successfully." "success"))))))))))

  target-Goes :
      (identity : Text) (id : Option ℤ)
      → Goes state view request a (target_of state request identity id)
  unfolding target_of find_by_i32
  target-Goes identity (some (pos n)) = db-Goes state view request a _ (find_by_id-Preserves a n)
  target-Goes identity (some (negsuc n)) =
      db-Goes state view request a _ (query-Preserves (IsAdministrator a) _)
  target-Goes identity none = go (valid_email identity)
    where
      go :
          (b : Bool)
          → Goes state view request a (
              if b
              then in_db (find_by_email identity)
              else answer (
                  delete_user_page identity "Enter a numeric ID or a valid email address." "error"))
      go true = db-Goes state view request a _ (find_by_email-Preserves a identity)
      go false = λ w p. p.1

  delete_of-Keeps :
      (identity : Text) (form : DeleteUserForm) (id : ℕ)
      → id ≢ a
      → Keeps state request a (
          stepped_up state request
            (λ message. delete_user_page identity message "error")
            form.current_password
            form.mfa_code
          >> (in_db (delete_by_id id) >>= λ n.
              try_sessions (delete_by_user_id id)
              >> return (delete_user_page (codes "") "User removed." "error")))
  delete_of-Keeps identity form id other =
      then-Keeps state request a
        (stepped_up state request (λ message. delete_user_page identity message "error")
          form.current_password form.mfa_code)
        _ (stepped_up-Keeps state view request a _ form.current_password form.mfa_code)
        (λ u.
          then-Keeps state request a (in_db (delete_by_id id)) _
            (db-Keeps state view request a _ (delete_by_id-Preserves a id other))
            (λ n.
              then-Keeps state request a (try_sessions (delete_by_user_id id)) _
                (rows-Keeps state view request a id)
                (λ u.
                  return-Keeps state request a
                    (delete_user_page (codes "") "User removed." "error"))))

  pub delete-Ends :
      (form : DeleteUserForm) → Ends state view request a (delete_user_action state request form)
  unfolding delete_user_action
  delete-Ends form =
      then-Ends state view request a (checked_csrf state request form.csrf_token) _
        (checked_csrf-Goes state view request a form.csrf_token)
        (λ u.
          unless-Ends state view request a (is_empty identity || ltb 128 (byte_len identity))
            (delete_user_page identity "Enter a valid ID or email address." "error") _
            (λ short.
              then-Ends state view request a (target_of state request identity (parse_i32 identity))
                _ (target-Goes identity (parse_i32 identity))
                (λ found.
                  then-Ends state view request a
                    (found_or state request (delete_user_page identity "User not found." "error")
                      found)
                    _ (found_or-Goes state view request a _ found)
                    (λ target. user-Ends state view request a _ (
                      unless-Ends state view request a (is_id (some a) target.id_user)
                        (delete_user_page identity
                          "The signed-in administrator cannot remove their own account." "error")
                        _
                        (λ other. forgotten state view request a _ (
                          delete_of-Keeps identity form target.id_user
                            (apart target.id_user other))))))))
    where
      identity : Text
      identity = cleaned state form.user_identity

      apart : (id : ℕ) → (a == id) ≡ false → id ≢ a
      apart id e same = ground arith
