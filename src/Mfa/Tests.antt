-- ===== src/Mfa/Tests.antt =====
-- Runs of the two-factor repository with a stand-in for the cryptography and the authenticator, and
-- the theorems at them.
use mathlib.Core.List.{Memᴰ}
use kraken_ui.Common.{
  ◌/◌, ◌==◌, ◌≡◌, ◌≢◌, ◌<◌, refl, none, true, List, [], ◌∷◌, codes, arith, text_eq, ok, Db,
  statement, select_one, select_all, count_where, update_where, trim, byte_len,
}
use kraken_ui.Models.{Operator, TotpRow, RecoveryRow, Tables, Moment}
use kraken_ui.Operators.{PasswordCrypto}
use kraken_ui.Mfa.{Otp, verify_totp_code, normalize_recovery}
use kraken_ui.Mfa.Login.{
  verify_login_code, consume_totp_step, consume_recovery_code, consume_recovery_code_row,
}
use kraken_ui.Mfa.Login.Accepted.{LiveCode, RecoveryCode, Accepted, verify_login_code-Accepted}
use kraken_ui.Mfa.Login.Replay.{LoginAttempt, attempts, steps_increase, codes_differ}

-- Nothing is sealed, and the code of a time step is the step.
abbrev plain : PasswordCrypto
plain = record {
  encrypt_password = λ id p. ok p;
  verify_password = λ id r p. ok (record { valid = text_eq r p; replacement_record = none });
  encrypt_secret = λ id d s. ok s;
  decrypt_secret = λ id d s. ok s;
}

abbrev counter : Otp
counter = record {
  base32_secret = λ bytes. codes "S";
  is_base32 = λ s. true;
  to_uri = λ s label issuer. label;
  verify = λ s code period at. at / period == code;
}

abbrev an_operator : Operator
an_operator = record {
  id_user = 1;
  username = codes "ann";
  email = codes "ann@example.test";
  operator_type = codes "admin";
  encrypted_password_hash = codes "secret";
  mfa_enabled = 1;
  authz_version = 3;
  authenticated_at = none;
  reauthenticated_at = none;
  created_at = [];
  updated_at = [];
}

abbrev a_totp : TotpRow
a_totp = record {
  id_totp = 7;
  id_user = 1;
  encrypted_secret = codes "S";
  confirmed = 1;
  created_at = [];
  confirmed_at = none;
  last_used_step = 0;
}

abbrev a_code : RecoveryRow
a_code = record {
  id_code = 4;
  id_user = 1;
  encrypted_code = codes "ABCDE-FGHJK";
  used = 0;
  created_at = [];
  used_at = none;
}

abbrev two_factor : Tables
two_factor = record {
  operators = an_operator ∷ [];
  totp = a_totp ∷ [];
  recovery = a_code ∷ record a_code { id_code = 5; encrypted_code = codes "22222-33333" } ∷ [];
  next_user = 2;
  next_totp = 8;
  next_code = 6;
}

abbrev fresh : Db Tables
fresh = record { tables = two_factor; outages = [] }

abbrev at_100 : Moment
at_100 = record { now = 3000; stamp = codes "t" }

abbrev at_101 : Moment
at_101 = record { now = 3030; stamp = codes "u" }

abbrev after_live : Db Tables
after_live = (verify_login_code plain counter at_100 1 (codes "000100") fresh).1

live_code_accepted : (verify_login_code plain counter at_100 1 (codes " 000100 ") fresh).0 ≡ ok true
unfolding verify_login_code consume_totp_step statement verify_totp_code trim text_eq select_one
    count_where update_where byte_len
live_code_accepted = refl

abbrev first_live : LiveCode plain counter at_100 1 (codes "000100") fresh.tables after_live.tables
unfolding verify_login_code consume_totp_step statement verify_totp_code trim text_eq select_one
    count_where update_where byte_len
first_live = record {
  row = a_totp;
  step = 100;
  secret = codes "S";
  enrolled = refl;
  active = refl;
  opened = refl;
  live = refl;
  newer = omega arith;
  available = refl;
  taken = refl;
}

verify_login_code-Accepted_example :
    Accepted plain counter at_100 1 (codes "000100") two_factor after_live.tables
unfolding verify_login_code consume_totp_step statement verify_totp_code trim text_eq select_one
    count_where update_where byte_len
verify_login_code-Accepted_example =
    verify_login_code-Accepted plain counter at_100 1 (codes "000100") fresh after_live refl

-- In between, the first code again, and the code of an account without an authenticator.
abbrev between : List LoginAttempt
between =
    record { moment = at_100; id_user = 1; code = codes "000100" }
    ∷ record { moment = at_101; id_user = 2; code = codes "000101" }
    ∷ []

abbrev after_between : Db Tables
after_between = attempts plain counter between after_live

abbrev at_the_end : Db Tables
at_the_end = (verify_login_code plain counter at_101 1 (codes "000101") after_between).1

abbrev second_live :
    LiveCode plain counter at_101 1 (codes "000101") after_between.tables at_the_end.tables
unfolding attempts verify_login_code consume_totp_step statement verify_totp_code trim text_eq
    select_one count_where update_where byte_len normalize_recovery select_all
second_live = record {
  row = record a_totp { last_used_step = 100 };
  step = 101;
  secret = codes "S";
  enrolled = refl;
  active = refl;
  opened = refl;
  live = refl;
  newer = omega arith;
  available = refl;
  taken = refl;
}

steps_increase_example : first_live.step < second_live.step
unfolding first_live second_live
steps_increase_example =
    steps_increase plain counter at_100 at_101 1 (codes "000100") (codes "000101") fresh after_live
      between at_the_end.tables first_live second_live refl

abbrev after_burn : Db Tables
after_burn = (verify_login_code plain counter at_100 1 (codes "abcde fghjk") fresh).1

abbrev after_both : Db Tables
after_both = (verify_login_code plain counter at_101 1 (codes "2222233333") after_burn).1

abbrev first_code :
    RecoveryCode plain counter at_100 1 (codes "abcde fghjk") fresh.tables after_burn.tables
unfolding verify_login_code consume_recovery_code consume_recovery_code_row consume_totp_step
    statement verify_totp_code trim text_eq select_one select_all count_where update_where byte_len
    normalize_recovery
first_code = record {
  row = a_code;
  stored = codes "ABCDE-FGHJK";
  listed = Memᴰ.head refl;
  opened = refl;
  matches = refl;
  some_symbol = refl;
  available = refl;
  burned_now = refl;
}

abbrev second_code :
    RecoveryCode plain counter at_101 1 (codes "2222233333") after_burn.tables after_both.tables
unfolding verify_login_code consume_recovery_code consume_recovery_code_row consume_totp_step
    statement verify_totp_code trim text_eq select_one select_all count_where update_where byte_len
    normalize_recovery
second_code = record {
  row = record a_code { id_code = 5; encrypted_code = codes "22222-33333" };
  stored = codes "22222-33333";
  listed = Memᴰ.head refl;
  opened = refl;
  matches = refl;
  some_symbol = refl;
  available = refl;
  burned_now = refl;
}

codes_differ_example : first_code.row.id_code ≢ second_code.row.id_code
unfolding attempts
codes_differ_example =
    codes_differ plain counter at_100 at_101 1 (codes "abcde fghjk") (codes "2222233333") fresh
      after_burn [] after_both.tables first_code second_code
