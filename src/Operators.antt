-- ===== src/Operators.antt =====
-- `OperatorRepository` of src/models/operator_repository.rs over the operators table: its statements,
-- with the UNIQUE and CHECK constraints and the foreign keys of src/models/database.rs.
-- The password service of src/services/password_crypto.rs is an argument.
pub mod Epochs
pub mod Administrator
mod Tests
use kraken_ui.Common.{
  ℕ, ◌+◌, Bool, true, false, not, ◌&&◌, ◌||◌, Option, none, some, List, [], ◌∷◌, ◌++◌, ◌==◌, any,
  length, Text, codes, text_eq, select_one, update_where, delete_where, count_where, Result, ok,
  err, ok_or, DbM, pure, lift, ◌>>=◌, ◌>>◌, statement, query, execute, transaction,
}
use kraken_ui.Roles.{OperatorRole, parse}
use kraken_ui.Models.{Operator, Tables, Moment}

pub record PasswordVerification : Type 0 where
  pub valid : Bool
  pub replacement_record : Option Text

-- The trait `PasswordCryptoService`.
pub record PasswordCrypto : Type 0 where
  pub encrypt_password : ℕ → Text → Result Text
  pub verify_password : ℕ → Text → Text → Result PasswordVerification
  pub encrypt_secret : ℕ → Text → Text → Result Text
  pub decrypt_secret : ℕ → Text → Text → Result Text

pub record NewOperator : Type 0 where
  pub username : Text
  pub email : Text
  pub operator_type : Text
  pub password : Text

pub record UpdateOperator : Type 0 where
  pub username : Text
  pub email : Text
  pub operator_type : Text
  pub password : Option Text

abbrev pub has_id : ℕ → Operator → Bool
has_id id o = o.id_user == id

unfoldable pub find_by_id : ℕ → DbM Tables (Option Operator)
find_by_id id = query (λ t. select_one (has_id id) t.operators)

unfoldable pub find_by_username : Text → DbM Tables (Option Operator)
find_by_username username = query (λ t. select_one (λ o. text_eq o.username username) t.operators)

unfoldable pub find_by_email : Text → DbM Tables (Option Operator)
find_by_email email = query (λ t. select_one (λ o. text_eq o.email email) t.operators)

unfoldable pub count : DbM Tables ℕ
count = query (λ t. length t.operators)

-- The constraints on the row with this id: the type is a known one, and no other row has its name
-- or its address.
abbrev pub violates : ℕ → Text → Text → Text → List Operator → Bool
violates id username email operator_type operators =
    not (known (parse operator_type))
    || any (λ o. not (o.id_user == id) && (text_eq o.username username || text_eq o.email email))
        operators
  where
    known : Option OperatorRole → Bool
    known none = false
    known (some role) = true

abbrev constrained : {A : Type 0} → Bool → Tables × A → Result (Tables × A)
constrained true r = err "constraint failed"
constrained false r = ok r

abbrev pending_row : NewOperator → Moment → ℕ → Operator
pending_row input m id = record {
  id_user = id;
  username = input.username;
  email = input.email;
  operator_type = input.operator_type;
  encrypted_password_hash = codes "transaction-pending";
  mfa_enabled = 0;
  authz_version = 0;
  authenticated_at = none;
  reauthenticated_at = none;
  created_at = m.stamp;
  updated_at = m.stamp;
}

insert_pending : NewOperator → Moment → DbM Tables Operator
insert_pending input m = statement λ t.
    constrained (violates t.next_user input.username input.email input.operator_type t.operators) (
      record t {
        operators = t.operators ++ pending_row input m t.next_user ∷ [];
        next_user = t.next_user + 1;
      },
      pending_row input m t.next_user,
    )

-- `update` of an active model: every column of the row with its id.
abbrev store_row : Operator → Tables → Tables
store_row row t = record t { operators = update_where (has_id row.id_user) (λ o. row) t.operators }

unfoldable pub create : PasswordCrypto → Moment → NewOperator → DbM Tables Operator
unfolding insert_pending
create crypto m input = transaction do
  pending ← insert_pending input m
  hash ← lift (crypto.encrypt_password pending.id_user input.password)
  let row : Operator = record pending { encrypted_password_hash = hash }
  execute (store_row row)
  pure row

-- The columns that `UPDATE operators SET …` writes; a new hash is optional.
abbrev updated_row : UpdateOperator → Option Text → Moment → Operator → Operator
updated_row input none m o = record o {
  username = input.username;
  email = input.email;
  operator_type = input.operator_type;
  updated_at = m.stamp;
  authz_version = o.authz_version + 1;
}
updated_row input (some hash) m o = record o {
  username = input.username;
  email = input.email;
  operator_type = input.operator_type;
  encrypted_password_hash = hash;
  updated_at = m.stamp;
  authz_version = o.authz_version + 1;
}

abbrev encrypt_optional : PasswordCrypto → ℕ → Option Text → Result (Option Text)
encrypt_optional crypto id none = ok none
encrypt_optional crypto id (some password) = wrap (crypto.encrypt_password id password)
  where
    wrap : Result Text → Result (Option Text)
    wrap (ok hash) = ok (some hash)
    wrap (err message) = err message

update_statement : ℕ → UpdateOperator → Option Text → Moment → DbM Tables (Unit {0})
update_statement id input hash m = statement λ t.
    constrained
      (any (has_id id) t.operators
        && violates id input.username input.email input.operator_type t.operators)
      (record t { operators = update_where (has_id id) (updated_row input hash m) t.operators }, tt)

unfoldable pub update : PasswordCrypto → Moment → Operator → UpdateOperator → DbM Tables Operator
unfolding update_statement find_by_id
update crypto m existing input = do
  hash ← lift (encrypt_optional crypto existing.id_user input.password)
  transaction do
    update_statement existing.id_user input hash m
    found ← find_by_id existing.id_user
    lift (ok_or "updated operator disappeared before commit" found)

unfoldable pub record_authenticated : Moment → ℕ → DbM Tables (Unit {0})
record_authenticated m id = execute λ t. record t {
  operators =
      update_where (has_id id) (λ o. record o { authenticated_at = some m.stamp }) t.operators;
}

unfoldable pub record_reauthenticated : Moment → ℕ → DbM Tables (Unit {0})
record_reauthenticated m id = execute λ t. record t {
  operators =
      update_where (has_id id) (λ o. record o { reauthenticated_at = some m.stamp }) t.operators;
}

rehash_row : Moment → Text → Option Operator → DbM Tables (Unit {0})
rehash_row m hash none = pure tt
rehash_row m hash (some o) =
    execute (store_row (record o { encrypted_password_hash = hash; updated_at = m.stamp }))

unfoldable pub update_encrypted_password : Moment → ℕ → Text → DbM Tables (Unit {0})
unfolding rehash_row find_by_id
update_encrypted_password m id hash = do found ← find_by_id id; rehash_row m hash found

abbrev repassworded : Text → Moment → Operator → Operator
repassworded hash m o = record o {
  encrypted_password_hash = hash;
  updated_at = m.stamp;
  authz_version = o.authz_version + 1;
}

unfoldable pub update_password : PasswordCrypto → Moment → Operator → Text → DbM Tables Operator
unfolding find_by_id
update_password crypto m existing password = do
  hash ← lift (crypto.encrypt_password existing.id_user password)
  transaction do
    execute λ t. record t {
      operators = update_where (has_id existing.id_user) (repassworded hash m) t.operators;
    }
    found ← find_by_id existing.id_user
    lift (ok_or "updated operator disappeared before commit" found)

-- `FOREIGN KEY (id_user) REFERENCES operators (id_user) ON DELETE CASCADE` of the two tables of the
-- second factor, for the operator with this id.
abbrev cascade_operator : ℕ → Tables → Tables
cascade_operator id t = record t {
  totp = delete_where (λ r. r.id_user == id) t.totp;
  recovery = delete_where (λ r. r.id_user == id) t.recovery;
}

unfoldable pub delete_by_id : ℕ → DbM Tables ℕ
delete_by_id id = statement λ t. ok (
  cascade_operator id (record t { operators = delete_where (has_id id) t.operators }),
  count_where (has_id id) t.operators,
)
