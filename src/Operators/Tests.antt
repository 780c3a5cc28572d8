-- ===== src/Operators/Tests.antt =====
-- The theorems on epochs at a concrete table, with a password service that seals nothing.
use kraken_ui.Common.{
  ◌+◌, ◌≡◌, refl, none, [], ◌∷◌, codes, text_eq, ok, Db, statement, transaction, select_one,
  update_where,
}
use kraken_ui.Models.{Operator, Tables, Moment}
use kraken_ui.Roles.{parse}
use kraken_ui.Operators.{PasswordCrypto, UpdateOperator, find_by_id, update, update_password}
use kraken_ui.Operators.Epochs.{HasOperator, update-authz_version, update_password-authz_version}

abbrev plain : PasswordCrypto
plain = record {
  encrypt_password = λ id p. ok p;
  verify_password = λ id r p. ok (record { valid = text_eq r p; replacement_record = none });
  encrypt_secret = λ id d s. ok s;
  decrypt_secret = λ id d s. ok s;
}

abbrev ann : Operator
ann = record {
  id_user = 1;
  username = codes "ann";
  email = codes "ann@example.test";
  operator_type = codes "admin";
  encrypted_password_hash = codes "secret";
  mfa_enabled = 0;
  authz_version = 3;
  authenticated_at = none;
  reauthenticated_at = none;
  created_at = [];
  updated_at = [];
}

abbrev bob : Operator
bob = record ann { id_user = 2; username = codes "bob"; email = codes "bob@example.test" }

abbrev two_operators : Db Tables
two_operators = record {
  tables = record {
    operators = ann ∷ bob ∷ [];
    totp = [];
    recovery = [];
    next_user = 3;
    next_totp = 1;
    next_code = 1;
  };
  outages = [];
}

abbrev a_moment : Moment
a_moment = record { now = 9; stamp = codes "t" }

abbrev demotion : UpdateOperator
demotion = record {
  username = codes "bob";
  email = codes "bob@example.test";
  operator_type = codes "auditor";
  password = none;
}

abbrev demoted : Operator
demoted = record bob { operator_type = codes "auditor"; authz_version = 4; updated_at = codes "t" }

update-authz_version_example :
    HasOperator 2 demoted (update plain a_moment bob demotion two_operators).1.tables
    × (demoted.authz_version ≡ bob.authz_version + 1)
    × (demoted.username ≡ demotion.username)
    × (demoted.operator_type ≡ demotion.operator_type)
unfolding update find_by_id parse transaction statement select_one update_where text_eq
update-authz_version_example =
    update-authz_version plain a_moment bob demotion bob demoted two_operators
      (update plain a_moment bob demotion two_operators).1 refl refl

abbrev renewed : Operator
renewed = record bob {
  encrypted_password_hash = codes "new";
  authz_version = 4;
  updated_at = codes "t";
}

update_password-authz_version_example :
    HasOperator 2 renewed (update_password plain a_moment bob (codes "new") two_operators).1.tables
    × (renewed.authz_version ≡ bob.authz_version + 1)
    × (plain.encrypt_password 2 (codes "new") ≡ ok renewed.encrypted_password_hash)
unfolding update_password find_by_id transaction statement select_one update_where
update_password-authz_version_example =
    update_password-authz_version plain a_moment bob (codes "new") bob renewed two_operators
      (update_password plain a_moment bob (codes "new") two_operators).1 refl refl
