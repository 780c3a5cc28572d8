-- ===== src/Acl.antt =====
-- The operator administration of src/controllers/acl.rs. Rendering a page is what its answer names;
-- the audit log is left out, as it changes no state.
pub mod Requests
pub mod Password
pub mod Keeping
pub mod Own
pub mod OwnUpdate
pub mod OwnPassword
pub mod Remains
mod Tests
use Prim.Native.String.{String}
use kraken_ui.Common.{
  ℕ, Bool, true, false, not, ◌&&◌, ◌||◌, Option, none, some, ◌==◌, ltb, leb, if◌then◌else◌, Text,
  codes, byte_len, is_empty, text_eq, Result, ok, err, Db, DbM, query,
}
use kraken_ui.Models.{Operator, Tables}
use kraken_ui.Operators.{
  NewOperator, UpdateOperator, find_by_id, find_by_email, find_by_username, create, update,
  update_password, delete_by_id, PasswordVerification,
}
use kraken_ui.Sessions.{delete_by_user_id, delete_by_user_id_except}
use kraken_ui.Policy.{
  ℤ, pos, negsuc, parse_i32, valid_email, ValidatedOperator, validate_operator, password_example,
  password_is_acceptable, cleaned,
}
use kraken_ui.StepUp.{
  StepUpOutcome, verified, unauthorized_step, rejected, verify, authenticated_user_id,
}
use kraken_ui.Handlers.{
  Request, AppState, World, Response, csrf_error, unauthorized, add_user_page, edit_search_page,
  delete_user_page, edit_operator_page, password_page, Handler, Flow, go_on, failed, respond,
  return, answer, ◌>>=◌, ◌>>◌, in_db, try_sessions, csrf_verify, plain_text,
  secret_has_rejected_markup,
}
use kraken_ui.Auth.{sync_session_identity}

pub record OperatorForm : Type 0 where
  pub username : Text
  pub email : Text
  pub user_type : Text
  pub password : Text
  pub current_password : Text
  pub mfa_code : Text
  pub csrf_token : Text

pub record DeleteUserForm : Type 0 where
  pub user_identity : Text
  pub current_password : Text
  pub mfa_code : Text
  pub csrf_token : Text

pub record EditLookupForm : Type 0 where
  pub id_user : Text
  pub csrf_token : Text

pub record UpdateUserForm : Type 0 where
  pub id_user : Text
  pub username : Text
  pub email : Text
  pub user_type : Text
  pub password : Text
  pub current_password : Text
  pub mfa_code : Text
  pub csrf_token : Text

pub record UpdatePasswordForm : Type 0 where
  pub id_user : Text
  pub current_password : Text
  pub password : Text
  pub csrf_token : Text

-- No row has a negative id.
unfoldable pub find_by_i32 : ℤ → DbM Tables (Option Operator)
find_by_i32 (pos n) = find_by_id n
find_by_i32 (negsuc n) = query (λ t. none)

abbrev pub positive : Option ℤ → Option ℕ
positive none = none
positive (some (pos n)) = if ltb 0 n then some n else none
positive (some (negsuc n)) = none

abbrev pub is_id : Option ℕ → ℕ → Bool
is_id none id = false
is_id (some a) id = a == id

abbrev pub is_other : ℕ → Option Operator → Bool
is_other id none = false
is_other id (some o) = not (o.id_user == id)

abbrev pub new_operator : ValidatedOperator → Text → NewOperator
new_operator input password = record {
  username = input.username;
  email = input.email;
  operator_type = input.operator_type;
  password = password;
}

abbrev pub update_of : ValidatedOperator → UpdateOperator
update_of input = record {
  username = input.username;
  email = input.email;
  operator_type = input.operator_type;
  password = input.password;
}

module _ {S : Type 0} (state : AppState S) (request : Request) where
  pub checked_csrf : Text → Handler S (Unit {0})
  checked_csrf csrf_token = if csrf_verify request csrf_token then return tt else answer csrf_error

  -- A refusal ends the request with the page that says so.
  pub passed : (String → Response) → StepUpOutcome → Handler S (Unit {0})
  passed page (verified o) = return tt
  passed page unauthorized_step = answer unauthorized
  passed page (rejected message) = answer (page message)

  unfoldable pub stepped_up : (String → Response) → Text → Text → Handler S (Unit {0})
  unfolding passed
  stepped_up page current_password mfa_code =
      verify state request current_password mfa_code >>= passed page

  pub valid_input : (String → Response) → Result ValidatedOperator → Handler S ValidatedOperator
  valid_input page (ok input) = return input
  valid_input page (err message) = answer (page message)

  pub unless : Bool → Response → Handler S (Unit {0})
  unless taken page = if taken then answer page else return tt

  pub found_or : Response → Option Operator → Handler S Operator
  found_or page none = answer page
  found_or page (some o) = return o

  pub is_found : Option Operator → Bool
  is_found none = false
  is_found (some o) = true

  pub created : ValidatedOperator → Option Text → Handler S Operator
  created input none = λ w. (failed "validated password is missing", w)
  created input (some password) =
      in_db (create state.password_crypto request.moment (new_operator input password))

  unfoldable pub insert_user_action : OperatorForm → Handler S Response
  unfolding checked_csrf valid_input unless is_found stepped_up created
  insert_user_action form = do
    checked_csrf form.csrf_token
    input ←
        valid_input (λ message. add_user_page message "error")
          (validate_operator state form.username form.email form.user_type form.password false)
    by_email ← in_db (find_by_email input.email)
    unless (is_found by_email) (add_user_page "That email address is already registered." "error")
    by_name ← in_db (find_by_username input.username)
    unless (is_found by_name) (add_user_page "That username is already taken." "error")
    stepped_up (λ message. add_user_page message "error") form.current_password form.mfa_code
    _ ← created input input.password
    return (add_user_page "User created successfully." "success")

  -- A numeric identity is an id, another an address.
  target_of : Text → Option ℤ → Handler S (Option Operator)
  unfolding find_by_i32
  target_of identity (some id) = in_db (find_by_i32 id)
  target_of identity none =
      if valid_email identity
      then in_db (find_by_email identity)
      else answer (delete_user_page identity "Enter a numeric ID or a valid email address." "error")

  unfoldable pub delete_user_action : DeleteUserForm → Handler S Response
  unfolding checked_csrf unless target_of found_or stepped_up
  delete_user_action form = do
    checked_csrf form.csrf_token
    let identity = cleaned state form.user_identity
    unless (is_empty identity || ltb 128 (byte_len identity))
        (delete_user_page identity "Enter a valid ID or email address." "error")
    found ← target_of identity (parse_i32 identity)
    target ← found_or (delete_user_page identity "User not found." "error") found
    signed_in ← authenticated_user_id state request
    unless (is_id signed_in target.id_user) (
        delete_user_page identity "The signed-in administrator cannot remove their own account."
          "error")
    stepped_up (λ message. delete_user_page identity message "error") form.current_password
        form.mfa_code
    _ ← in_db (delete_by_id target.id_user)
    try_sessions (delete_by_user_id target.id_user)
    return (delete_user_page (codes "") "User removed." "error")

  pub id_or : Response → Option ℕ → Handler S ℕ
  id_or page none = answer page
  id_or page (some id) = return id

  unfoldable pub edit_user_lookup : EditLookupForm → Handler S Response
  unfolding checked_csrf id_or found_or
  edit_user_lookup form = do
    checked_csrf form.csrf_token
    id_user ←
        id_or (edit_search_page "Enter a valid ID." "error")
          (positive (parse_i32 (plain_text state.clean_markup form.id_user)))
    found ← in_db (find_by_id id_user)
    o ← found_or (edit_search_page "User not found." "error") found
    return (edit_operator_page o "" "")

  pub refreshed : Bool → Operator → Handler S (Unit {0})
  refreshed own updated = if own then sync_session_identity state updated else return tt

  pub revoked_if : Bool → ℕ → Handler S (Unit {0})
  revoked_if role_changed id =
      if role_changed then try_sessions (delete_by_user_id id) else return tt

  unfoldable pub update_user_action : UpdateUserForm → Handler S Response
  unfolding checked_csrf id_or found_or valid_input unless stepped_up refreshed revoked_if
  update_user_action form = do
    checked_csrf form.csrf_token
    id_user ←
        id_or (edit_search_page "Invalid user ID." "error")
          (positive (parse_i32 (plain_text state.clean_markup form.id_user)))
    found ← in_db (find_by_id id_user)
    existing ← found_or (edit_search_page "User not found." "error") found
    input ←
        valid_input (λ message. edit_operator_page existing message "error")
          (validate_operator state form.username form.email form.user_type form.password true)
    signed_in ← authenticated_user_id state request
    unless (is_id signed_in id_user && not (text_eq input.operator_type (codes "admin"))) (
        edit_operator_page existing "The signed-in administrator cannot change their own role."
          "error")
    by_email ← in_db (find_by_email input.email)
    unless (is_other id_user by_email)
        (edit_operator_page existing "That email address is already registered." "error")
    by_name ← in_db (find_by_username input.username)
    unless (is_other id_user by_name)
        (edit_operator_page existing "That username is already taken." "error")
    stepped_up (λ message. edit_operator_page existing message "error") form.current_password
        form.mfa_code
    updated ← in_db (update state.password_crypto request.moment existing (update_of input))
    refreshed (is_id signed_in updated.id_user) updated
    revoked_if (not (text_eq existing.operator_type input.operator_type)) updated.id_user
    return (edit_operator_page updated "User details updated successfully." "success")
