-- ===== src/Auth/Tests.antt =====
-- A session as two maps, a signed-in administrator, and the theorems at them.
use kraken_ui.Common.{
  ℕ, ◌≡◌, ◌⊎◌, refl, ap, none, some, true, false, [], ◌∷◌, Text, codes, text_eq, Map, empty_map,
  insert, remove, Result, ok, statement, select_one,
}
use kraken_ui.Models.{Operator}
use kraken_ui.Roles.{OperatorRole, admin, parse, contains}
use kraken_ui.Operators.{PasswordCrypto, find_by_id}
use kraken_ui.Mfa.{Otp}
use kraken_ui.Sessions.{user_id_field}
use kraken_ui.Throttle.{with_defaults}
use kraken_ui.Monitor.{with_defaults as monitor_defaults}
use kraken_ui.Handlers.{SessionApi, World, AppState, redirect, mfa_challenge, in_session, in_db}
use kraken_ui.Handlers.Runs.{SessionView}
use kraken_ui.Auth.{
  authenticated_operator_type_field, authenticated_authz_version_field, authenticated_at_field,
  session_rotated_at_field, login_path, session_i64, authenticated_role, rotate_session_id_if_due,
  authorized_role, guard,
}
use kraken_ui.Auth.Authorized.{Authorized, authorized_role-Authorized}
use kraken_ui.Auth.Guard.{guard_lem}

pub record MapSession : Type 0 where
  pub numbers : Map ℕ
  pub texts : Map Text

abbrev pub sessions : SessionApi MapSession
sessions = record {
  get_i64 = λ key s. (ok (s.numbers key), s);
  get_string = λ key s. (ok (s.texts key), s);
  insert_i64 =
      λ key n s. (ok tt, record { numbers = insert key n s.numbers; texts = remove key s.texts });
  insert_string = λ key text s.
      (ok tt, record { numbers = remove key s.numbers; texts = insert key text s.texts });
  remove = λ key s. (ok tt, record { numbers = remove key s.numbers; texts = remove key s.texts });
  cycle_id = λ s. (ok tt, s);
  flush = λ s. (ok tt, record { numbers = empty_map; texts = empty_map });
  id = λ s. some (codes "s1");
}

pub left_session :
    {A : Type 0} (a a' : A) (s s' : MapSession)
    → ◌≡◌ {A = Result A × MapSession} (ok a, s) (ok a', s')
    → (a' ≡ a) × (s' ≡ s)
left_session a a' s s' e = (cc, cc)

abbrev pub view : SessionView sessions
view = record {
  numbers = λ s. s.numbers;
  texts = λ s. s.texts;
  get_i64-ok = λ key s s' a e.
      let (got, same) = left_session _ _ _ _ e in
      (got, ap (λ (s : MapSession). s.numbers) same, ap (λ (s : MapSession). s.texts) same);
  get_string-ok = λ key s s' a e.
      let (got, same) = left_session _ _ _ _ e in
      (got, ap (λ (s : MapSession). s.numbers) same, ap (λ (s : MapSession). s.texts) same);
  insert_i64-ok = λ key n s s' e.
      let (got, same) = left_session _ _ _ _ e in
      (ap (λ (s : MapSession). s.numbers) same, ap (λ (s : MapSession). s.texts) same);
  insert_string-ok = λ key text s s' e.
      let (got, same) = left_session _ _ _ _ e in
      (ap (λ (s : MapSession). s.numbers) same, ap (λ (s : MapSession). s.texts) same);
  cycle_id-ok = λ s s' e.
      let (got, same) = left_session _ _ _ _ e in
      (ap (λ (s : MapSession). s.numbers) same, ap (λ (s : MapSession). s.texts) same);
}

abbrev pub plain : PasswordCrypto
plain = record {
  encrypt_password = λ id p. ok p;
  verify_password = λ id r p. ok (record { valid = text_eq r p; replacement_record = none });
  encrypt_secret = λ id d s. ok s;
  decrypt_secret = λ id d s. ok s;
}

abbrev pub no_codes : Otp
no_codes = record {
  base32_secret = λ bytes. codes "S";
  is_base32 = λ s. true;
  to_uri = λ s label issuer. label;
  verify = λ s code period at. false;
}

abbrev pub state : AppState MapSession
state = record {
  sessions = sessions;
  password_crypto = plain;
  otp = no_codes;
  clean_markup = λ text. text;
  password_policy = λ password identity. ok tt;
  admin_session_time_limit_seconds = 28800;
}

abbrev pub ann : Operator
ann = record {
  id_user = 1;
  username = codes "ann";
  email = codes "ann@example.test";
  operator_type = codes "admin";
  encrypted_password_hash = codes "secret";
  mfa_enabled = 0;
  authz_version = 3;
  authenticated_at = none;
  reauthenticated_at = none;
  created_at = [];
  updated_at = [];
}

abbrev pub world : MapSession → World MapSession
world session = record {
  db = record {
    tables = record {
      operators = ann ∷ [];
      totp = [];
      recovery = [];
      next_user = 2;
      next_totp = 1;
      next_code = 1;
    };
    outages = [];
  };
  session = session;
  session_rows = record { tables = []; outages = [] };
  login_throttle = with_defaults;
  account_failure_monitor = monitor_defaults;
  login_persistent = none;
  limiter_faults = [];
}

abbrev pub signed_in : World MapSession
signed_in = world (record {
  numbers = insert user_id_field 1 (
      insert authenticated_authz_version_field 3
        (insert authenticated_at_field 500 (insert session_rotated_at_field 500 empty_map)));
  texts = insert authenticated_operator_type_field (codes "admin") empty_map;
})

authorized_role-Authorized_example : Authorized state view 900 admin signed_in
unfolding authorized_role session_i64 authenticated_role rotate_session_id_if_due in_session in_db
    find_by_id statement select_one text_eq parse
authorized_role-Authorized_example =
    authorized_role-Authorized state view 900 admin signed_in signed_in refl

guard_lem_example :
    ((role : OperatorRole) × Authorized state view 900 role signed_in
      × (contains (admin ∷ []) role ≡ true)
      × (guard state 900 (λ w. (mfa_challenge [], w)) (admin ∷ []) signed_in
          ≡ (mfa_challenge [], (authorized_role state 900 signed_in).1)))
    ⊎ (guard state 900 (λ w. (mfa_challenge [], w)) (admin ∷ []) signed_in
        ≡ (redirect login_path, (authorized_role state 900 signed_in).1))
guard_lem_example = guard_lem state view 900 (λ w. (mfa_challenge [], w)) (admin ∷ []) signed_in
