-- ===== src/Auth/Login/Tests.antt =====
-- A sign-in of an administrator without a second factor, and the theorem at it.
use kraken_ui.Common.{
  none, insert, [], ◌∷◌, select_all, count_where, refl, true, codes, text_eq, empty_map, statement,
  select_one, update_where, byte_len, trim,
}
use kraken_ui.Roles.{parse, can_use_console}
use kraken_ui.Operators.{record_authenticated}
use kraken_ui.Mfa.{totp_row}
use kraken_ui.Throttle.{locked_for_at, record_success, with_defaults, new}
use kraken_ui.Handlers.{
  World, Request, in_db, in_session, locked_for, record_login_success, persistent_login_retry_after,
  is_well_formed, plain_text, decimal,
}
use kraken_ui.Auth.{
  is_console_role, establish_session, sync_session_identity, cycle_id, set_i64, set_string,
}
use kraken_ui.Auth.Tests.{MapSession, state, view, world, ann}
use kraken_ui.Auth.{
  mfa_pending_user_id_field, mfa_pending_at_field, mfa_pending_user_id, session_i64,
  clear_mfa_pending,
}
use kraken_ui.Mfa.{normalize_recovery}
use kraken_ui.Operators.{find_by_id}
use kraken_ui.Auth.Login.{
  MfaCodeForm, mfa_verify, accept_code, after_code, second_factor_done, known_pending, pending_user,
  LoginForm, login_submit, throttled, stop_if, verified_csrf,
}
use kraken_ui.Auth.Login.SecondFactor.{Completed, mfa_verify-Completed}
use kraken_ui.Mfa.Login.{verify_login_code, consume_recovery_code, consume_recovery_code_row}

abbrev a_request : Request
a_request = record {
  client_ip = codes "10.0.0.1";
  moment = record { now = 700; stamp = codes "t" };
  instant = 5;
  now_us = 5;
  token_verify = λ t. true;
}

abbrev visitor : World MapSession
visitor = world (record { numbers = empty_map; texts = empty_map })

abbrev a_form : LoginForm
a_form = record { login = codes "Ann"; password = codes "secret"; csrf_token = codes "dG9rZW4=" }

abbrev inside : World MapSession
inside = (login_submit state a_request a_form visitor).1

-- The operator answers the challenge with a recovery code.
abbrev challenged : World MapSession
challenged =
    record (world (record {
      numbers = insert mfa_pending_user_id_field 1 (insert mfa_pending_at_field 500 empty_map);
      texts = empty_map;
    })) {
      db = record {
        tables = record {
          operators = ann ∷ [];
          totp = [];
          recovery =
              record {
                id_code = 4;
                id_user = 1;
                encrypted_code = codes "ABCDE-FGHJK";
                used = 0;
                created_at = [];
                used_at = none;
              }
              ∷ [];
          next_user = 2;
          next_totp = 1;
          next_code = 5;
        };
        outages = [];
      };
    }

abbrev a_code_form : MfaCodeForm
a_code_form = record { code = codes "abcde-fghjk"; csrf_token = codes "dG9rZW4=" }

abbrev completed : World MapSession
completed = (mfa_verify state a_request a_code_form challenged).1

mfa_verify-Completed_example : Completed state view a_request a_code_form challenged completed
unfolding mfa_verify is_well_formed byte_len locked_for locked_for_at with_defaults new
    persistent_login_retry_after plain_text trim in_db in_session find_by_id statement select_one
    select_all count_where text_eq is_console_role parse can_use_console accept_code after_code
    second_factor_done known_pending pending_user stop_if throttled verified_csrf
    mfa_pending_user_id session_i64 clear_mfa_pending cycle_id establish_session set_i64 set_string
    sync_session_identity update_where record_login_success totp_row record_authenticated
    record_success verify_login_code consume_recovery_code consume_recovery_code_row
    normalize_recovery decimal
mfa_verify-Completed_example =
    mfa_verify-Completed state view a_request a_code_form challenged completed refl
