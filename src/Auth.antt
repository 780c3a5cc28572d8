-- ===== src/Auth.antt =====
-- The session side of src/controllers/auth.rs and src/middleware/authentication.rs: what a sign-in
-- writes to the session, and the check that every guarded request goes through. Times are whole
-- seconds; a difference that would be negative is compared as one.
pub mod Login
pub mod Authorized
pub mod Leaving
pub mod Guard
pub mod Established
pub mod Tests
use kraken_ui.Common.{
  ℕ, ◌+◌, ◌*◌, min, Bool, true, false, not, ◌&&◌, ◌||◌, Option, none, some, List, [], ◌∷◌, ◌==◌,
  ltb, leb, if◌then◌else◌, Text, codes, ok, err, Result,
}
use kraken_ui.Models.{Operator, Tables}
use kraken_ui.Operators.{find_by_id}
use kraken_ui.Roles.{
  OperatorRole, admin, operator, auditor, role_eq, all_roles, parse, can_use_console, contains,
}
use kraken_ui.Sessions.{user_id_field}
use kraken_ui.Gcra.{i64_max}
use kraken_ui.Handlers.{
  SessionApi, World, Request, AppState, Response, redirect, csrf_error, Flow, go_on, respond,
  failed, Handler, return, answer, ◌>>=◌, ◌>>◌, in_db, in_session, try_session, csrf_verify,
  plain_text,
}

abbrev pub authenticated_username_field : Text
authenticated_username_field = codes "authenticated_username"

abbrev pub authenticated_operator_type_field : Text
authenticated_operator_type_field = codes "authenticated_operator_type"

abbrev pub authenticated_authz_version_field : Text
authenticated_authz_version_field = codes "authenticated_authz_version"

abbrev pub authenticated_at_field : Text
authenticated_at_field = codes "authenticated_at"

abbrev pub reauthenticated_at_field : Text
reauthenticated_at_field = codes "reauthenticated_at"

abbrev pub session_rotated_at_field : Text
session_rotated_at_field = codes "session_rotated_at"

abbrev pub mfa_pending_user_id_field : Text
mfa_pending_user_id_field = codes "mfa_pending_user_id"

abbrev pub mfa_pending_at_field : Text
mfa_pending_at_field = codes "mfa_pending_at"

abbrev pub session_rotation_interval_seconds : ℕ
session_rotation_interval_seconds = 15 * 60

abbrev pub mfa_pending_ttl_seconds : ℕ
mfa_pending_ttl_seconds = 5 * 60

abbrev pub login_path : Text
login_path = codes "/kraken_ui/login"

abbrev pub admin_panel_path : Text
admin_panel_path = codes "/kraken_ui/auth/admin_panel"

abbrev pub mfa_challenge_path : Text
mfa_challenge_path = codes "/kraken_ui/auth/mfa_challenge"

abbrev console_of : Option OperatorRole → Bool
console_of none = false
console_of (some role) = can_use_console role

unfoldable pub is_console_role : Text → Bool
is_console_role operator_type = console_of (parse operator_type)

abbrev parse_option : Option Text → Option OperatorRole
parse_option none = none
parse_option (some operator_type) = parse operator_type

module _ {S : Type 0} (state : AppState S) where
  unfoldable pub session_i64 : Text → Handler S (Option ℕ)
  session_i64 key = in_session (state.sessions.get_i64 key)

  unfoldable pub set_i64 : Text → ℕ → Handler S (Unit {0})
  set_i64 key n = in_session (state.sessions.insert_i64 key n)

  unfoldable pub set_string : Text → Text → Handler S (Unit {0})
  set_string key text = in_session (state.sessions.insert_string key text)

  unfoldable pub cycle_id : Handler S (Unit {0})
  cycle_id = in_session state.sessions.cycle_id

  unfoldable pub sync_session_identity : Operator → Handler S (Unit {0})
  unfolding set_i64 set_string
  sync_session_identity o = do
    set_i64 user_id_field o.id_user
    set_string authenticated_username_field (plain_text state.clean_markup o.username)
    set_string authenticated_operator_type_field (plain_text state.clean_markup o.operator_type)
    set_i64 authenticated_authz_version_field o.authz_version

  unfoldable pub establish_session : ℕ → Operator → Handler S (Unit {0})
  unfolding sync_session_identity cycle_id set_i64
  establish_session now o = do
    cycle_id
    sync_session_identity o
    set_i64 authenticated_at_field now
    set_i64 reauthenticated_at_field now
    set_i64 session_rotated_at_field now

  unfoldable pub mark_reauthenticated : ℕ → Handler S ℕ
  unfolding set_i64
  mark_reauthenticated now = set_i64 reauthenticated_at_field now >>= λ _. return now

  pub fresh_within : ℕ → ℕ → Option ℕ → Bool
  fresh_within now max_age_seconds none = false
  fresh_within now max_age_seconds (some at) = leb now (at + max_age_seconds)

  unfoldable pub reauthenticated_within : ℕ → ℕ → Handler S Bool
  unfolding session_i64 fresh_within
  reauthenticated_within now max_age_seconds = do
    at ← session_i64 reauthenticated_at_field
    return (fresh_within now max_age_seconds at)

  unfoldable pub clear_mfa_pending : Handler S (Unit {0})
  clear_mfa_pending = do
    in_session (state.sessions.remove mfa_pending_user_id_field)
    in_session (state.sessions.remove mfa_pending_at_field)

  abbrev pub stale : ℕ → ℕ → Bool
  stale now started_at = started_at == 0 || ltb (started_at + mfa_pending_ttl_seconds) now

  abbrev or_zero : Option ℕ → ℕ
  or_zero none = 0
  or_zero (some n) = n

  pending_from : ℕ → Option ℕ → Handler S (Option ℕ)
  unfolding session_i64 clear_mfa_pending
  pending_from now none = return none
  pending_from now (some id_user) = do
    found ← session_i64 mfa_pending_at_field
    let cleared : Handler S (Option ℕ) = clear_mfa_pending >>= λ _. return none
    if stale now (or_zero found) then cleared else return (some id_user)

  unfoldable pub mfa_pending_user_id : ℕ → Handler S (Option ℕ)
  unfolding pending_from session_i64
  mfa_pending_user_id now = do found ← session_i64 mfa_pending_user_id_field; pending_from now found

  unfoldable pub authenticated_role : Handler S (Option OperatorRole)
  authenticated_role = do
    operator_type ← in_session (state.sessions.get_string authenticated_operator_type_field)
    return (parse_option operator_type)

  rotate_from : ℕ → Option ℕ → Handler S (Unit {0})
  unfolding set_i64 cycle_id
  rotate_from now none = set_i64 session_rotated_at_field now
  rotate_from now (some rotated_at) =
      if ltb now (rotated_at + session_rotation_interval_seconds)
      then return tt
      else (cycle_id >> set_i64 session_rotated_at_field now)

  unfoldable pub rotate_session_id_if_due : ℕ → Handler S (Unit {0})
  unfolding session_i64 rotate_from
  rotate_session_id_if_due now = session_i64 session_rotated_at_field >>= rotate_from now

  -- `let _ = session.flush().await; return Ok(None)`
  unfoldable pub flushed : Handler S (Option OperatorRole)
  flushed = try_session state.sessions.flush >> return none

  with_current :
      ℕ → OperatorRole → ℕ → Operator → Option OperatorRole → Handler S (Option OperatorRole)
  unfolding flushed rotate_session_id_if_due
  with_current now session_role version o none = flushed
  with_current now session_role version o (some current_role) =
      if not (role_eq current_role session_role) || not (o.authz_version == version)
      then flushed
      else (rotate_session_id_if_due now >>= λ _. return (some current_role))

  with_operator : ℕ → OperatorRole → ℕ → Option Operator → Handler S (Option OperatorRole)
  unfolding with_current flushed
  with_operator now session_role version none = flushed
  with_operator now session_role version (some o) =
      with_current now session_role version o (parse o.operator_type)

  with_time : ℕ → ℕ → OperatorRole → ℕ → Option ℕ → Handler S (Option OperatorRole)
  unfolding with_operator flushed
  with_time now id_user session_role version none = flushed
  with_time now id_user session_role version (some authenticated_at) =
      if leb (authenticated_at + min state.admin_session_time_limit_seconds i64_max) now
      then flushed
      else (in_db (find_by_id id_user) >>= with_operator now session_role version)

  with_version : ℕ → ℕ → OperatorRole → Option ℕ → Handler S (Option OperatorRole)
  unfolding with_time session_i64 flushed
  with_version now id_user session_role none = flushed
  with_version now id_user session_role (some version) =
      session_i64 authenticated_at_field >>= with_time now id_user session_role version

  with_role : ℕ → ℕ → Option OperatorRole → Handler S (Option OperatorRole)
  unfolding with_version session_i64 flushed
  with_role now id_user none = flushed
  with_role now id_user (some session_role) =
      session_i64 authenticated_authz_version_field >>= with_version now id_user session_role

  with_user : ℕ → Option ℕ → Handler S (Option OperatorRole)
  unfolding with_role authenticated_role
  with_user now none = return none
  with_user now (some id_user) = authenticated_role >>= with_role now id_user

  unfoldable pub authorized_role : ℕ → Handler S (Option OperatorRole)
  unfolding with_user session_i64
  authorized_role now = session_i64 user_id_field >>= with_user now

  unfoldable pub logout : Request → Text → Handler S Response
  logout request csrf_token =
      if csrf_verify request csrf_token
      then (try_session (state.sessions.get_string authenticated_username_field)
          >> in_session state.sessions.flush
          >> return (redirect login_path))
      else return csrf_error

  -- The check never answers with a page of its own.
  unfoldable pub guarded :
      (World S → Response × World S)
      → List OperatorRole
      → Flow (Option OperatorRole) × World S
      → Response × World S
  guarded next allowed_roles (go_on (some role), w) =
      let ran = next w in if contains allowed_roles role then ran else (redirect login_path, w)
  guarded next allowed_roles (go_on none, w) = (redirect login_path, w)
  guarded next allowed_roles (respond r, w) = (redirect login_path, w)
  guarded next allowed_roles (failed e, w) = (redirect login_path, w)

  unfoldable pub guard :
      ℕ → (World S → Response × World S) → List OperatorRole → World S → Response × World S
  unfolding guarded
  guard now next allowed_roles w = guarded next allowed_roles (authorized_role now w)

  abbrev pub require_admin : ℕ → (World S → Response × World S) → World S → Response × World S
  require_admin now next = guard now next (admin ∷ [])

  abbrev pub require_operator : ℕ → (World S → Response × World S) → World S → Response × World S
  require_operator now next = guard now next (admin ∷ operator ∷ [])

  abbrev pub require_console_viewer :
      ℕ → (World S → Response × World S) → World S → Response × World S
  require_console_viewer now next = guard now next all_roles
