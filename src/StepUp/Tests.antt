-- ===== src/StepUp/Tests.antt =====
-- A step-up of an administrator without a second factor, and the theorem at it.
use kraken_ui.Common.{
  ℕ, ◌≡◌, refl, true, some, [], codes, text_eq, statement, select_one, update_where, byte_len,
}
use kraken_ui.Sessions.{user_id_field}
use kraken_ui.Operators.{find_by_id, record_reauthenticated}
use kraken_ui.Mfa.{is_enabled, totp_row}
use kraken_ui.Handlers.{
  World, Request, go_on, in_db, in_session, plain_text, secret_has_rejected_markup,
}
use kraken_ui.Auth.{session_i64, set_i64, mark_reauthenticated, reauthenticated_within}
use kraken_ui.Auth.Tests.{MapSession, state, view, ann, signed_in}
use kraken_ui.StepUp.{
  rejected, verify, authenticated_user_id, marked, second_factor, after_password, after_account,
  after_user,
}
use kraken_ui.StepUp.Verified.{Verified, verify-Verified}

abbrev pub a_request : Request
a_request = record {
  client_ip = codes "10.0.0.1";
  moment = record { now = 700; stamp = codes "t" };
  instant = 5;
  now_us = 5;
  token_verify = λ t. true;
}

abbrev proved : World MapSession
proved = (verify state a_request (codes "secret") [] signed_in).1

wrong_password :
    (verify state a_request (codes "guess") [] signed_in).0
    ≡ go_on (rejected "The current password is incorrect.")
unfolding verify authenticated_user_id session_i64 in_session in_db find_by_id statement select_one
    after_user after_account after_password byte_len secret_has_rejected_markup text_eq plain_text
wrong_password = refl

verify-Verified_example :
    (id : ℕ) × (view.numbers signed_in.session user_id_field ≡ some id)
    × Verified state a_request ann (codes "secret") [] id signed_in.db.tables
unfolding verify authenticated_user_id session_i64 in_session in_db find_by_id statement select_one
    after_user after_account after_password byte_len secret_has_rejected_markup text_eq plain_text
    is_enabled totp_row second_factor marked record_reauthenticated update_where
    mark_reauthenticated reauthenticated_within set_i64
verify-Verified_example =
    verify-Verified state a_request view ann (codes "secret") [] signed_in proved refl
