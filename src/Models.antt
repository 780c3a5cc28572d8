-- ===== src/Models.antt =====
-- The tables of src/models/database.rs as the entities of src/models/operator.rs,
-- src/models/operator_mfa_totp.rs and src/models/operator_mfa_recovery_code.rs read them. Ids and
-- epochs are natural numbers, time stamps are text, and Unix times are whole seconds.
use kraken_ui.Common.{ℕ, Option, List, Text}

pub record Operator : Type 0 where
  pub id_user : ℕ
  pub username : Text
  pub email : Text
  pub operator_type : Text
  pub encrypted_password_hash : Text
  pub mfa_enabled : ℕ
  pub authz_version : ℕ
  pub authenticated_at : Option Text
  pub reauthenticated_at : Option Text
  pub created_at : Text
  pub updated_at : Text

pub record TotpRow : Type 0 where
  pub id_totp : ℕ
  pub id_user : ℕ
  pub encrypted_secret : Text
  pub confirmed : ℕ
  pub created_at : Text
  pub confirmed_at : Option Text
  pub last_used_step : ℕ

pub record RecoveryRow : Type 0 where
  pub id_code : ℕ
  pub id_user : ℕ
  pub encrypted_code : Text
  pub used : ℕ
  pub created_at : Text
  pub used_at : Option Text

-- The counters are what AUTOINCREMENT gives out next.
pub record Tables : Type 0 where
  pub operators : List Operator
  pub totp : List TotpRow
  pub recovery : List RecoveryRow
  pub next_user : ℕ
  pub next_totp : ℕ
  pub next_code : ℕ

-- The moment of a request: the clock in seconds, and the text that `current_timestamp` makes of it.
pub record Moment : Type 0 where
  pub now : ℕ
  pub stamp : Text
