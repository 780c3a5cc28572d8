-- ===== src/Mfa/Confirm/Tests.antt =====
-- The theorems on enrolment at concrete tables, with stand-ins that seal nothing.
use Prim.Native.String.{String}
use kraken_ui.Common.{
  ℕ, ◌==◌, ◌≡◌, refl, none, true, false, List, [], ◌∷◌, Text, codes, text_eq, ok, Db, statement,
  ◌+◌, transaction_option, select_one, count_where, update_where, delete_where, trim, byte_len,
}
use kraken_ui.Models.{Operator, TotpRow, Tables, Moment}
use kraken_ui.Operators.{PasswordCrypto}
use kraken_ui.Mfa.{Otp, totp_row, verify_totp_code, generate_recovery_code}
use kraken_ui.Mfa.Confirm.{confirm, regenerate_recovery_codes}
use kraken_ui.Mfa.Confirm.Atomic.{confirm-Untouched, regenerate_recovery_codes-Untouched}
use kraken_ui.Mfa.Confirm.Effects.{Confirmed, confirm-Confirmed}

abbrev plain : PasswordCrypto
plain = record {
  encrypt_password = λ id p. ok p;
  verify_password = λ id r p. ok (record { valid = text_eq r p; replacement_record = none });
  encrypt_secret = λ id d s. ok s;
  decrypt_secret = λ id d s. ok s;
}

-- A code is the secret's only if it reads 123456, at every time.
abbrev one_code : Otp
one_code = record {
  base32_secret = λ bytes. codes "S";
  is_base32 = λ s. true;
  to_uri = λ s label issuer. label;
  verify = λ s code period at. code == 123456;
}

abbrev an_operator : Operator
an_operator = record {
  id_user = 1;
  username = codes "ann";
  email = codes "ann@example.test";
  operator_type = codes "admin";
  encrypted_password_hash = codes "secret";
  mfa_enabled = 0;
  authz_version = 3;
  authenticated_at = none;
  reauthenticated_at = none;
  created_at = [];
  updated_at = [];
}

abbrev waiting : TotpRow
waiting = record {
  id_totp = 7;
  id_user = 1;
  encrypted_secret = codes "S";
  confirmed = 0;
  created_at = [];
  confirmed_at = none;
  last_used_step = 0;
}

abbrev enrolling : Db Tables
enrolling = record {
  tables = record {
    operators = an_operator ∷ [];
    totp = waiting ∷ [];
    recovery = [];
    next_user = 2;
    next_totp = 8;
    next_code = 1;
  };
  outages = [];
}

abbrev at_100 : Moment
at_100 = record { now = 3000; stamp = codes "t" }

abbrev draws : ℕ → List ℕ
draws left = left ∷ (left + 1) ∷ []

abbrev ten_codes : List Text
ten_codes =
    codes "KL"
    ∷ codes "JK"
    ∷ codes "HJ"
    ∷ codes "GH"
    ∷ codes "FG"
    ∷ codes "EF"
    ∷ codes "DE"
    ∷ codes "CD"
    ∷ codes "BC"
    ∷ codes "AB"
    ∷ []

abbrev enrolled : Db Tables
enrolled = (confirm plain one_code at_100 draws 1 (codes "123456") enrolling).1

confirm-Confirmed_example :
    Confirmed plain one_code at_100 1 (codes "123456") ten_codes enrolling.tables enrolled.tables
unfolding confirm totp_row verify_totp_code transaction_option statement select_one count_where
    update_where delete_where trim byte_len generate_recovery_code
confirm-Confirmed_example =
    confirm-Confirmed plain one_code at_100 draws 1 (codes "123456") ten_codes enrolling enrolled
      refl

-- The statement that inserts the third recovery code fails.
abbrev failing : Db Tables
failing = record enrolling {
  outages = false ∷ false ∷ false ∷ false ∷ false ∷ false ∷ false ∷ true ∷ [];
}

confirm-Untouched_example :
    (confirm plain one_code at_100 draws 1 (codes "123456") failing).1.tables ≡ enrolling.tables
unfolding confirm totp_row verify_totp_code transaction_option statement select_one count_where
    update_where delete_where trim byte_len generate_recovery_code
confirm-Untouched_example =
    confirm-Untouched plain one_code at_100 draws 1 (codes "123456") failing refl

regenerate_recovery_codes-Untouched_example :
    (regenerate_recovery_codes plain at_100 draws 1 enrolling).1.tables ≡ enrolling.tables
unfolding regenerate_recovery_codes transaction_option statement select_one
regenerate_recovery_codes-Untouched_example =
    regenerate_recovery_codes-Untouched plain at_100 draws 1 enrolling refl
