-- ===== src/Mfa.antt =====
-- `OperatorMfaRepository` of src/models/operator_mfa_repository.rs: the enrolment of an
-- authenticator, the check of a code at login, and the recovery codes. The authenticator library and
-- the random bytes are arguments; an operation reads the clock once.
pub mod Flag
pub mod Confirm
pub mod Login
mod Tests
use kraken_ui.Common.{
  ℕ, zero, suc, ◌+◌, ◌-◌, ◌*◌, ◌/◌, ◌%◌, Bool, true, false, not, ◌&&◌, ◌||◌, Option, none, some,
  List, [], ◌∷◌, ◌++◌, ◌==◌, leb, any, all, map, length, if◌then◌else◌, Text, codes, text_eq, trim,
  is_empty, byte_len, is_ascii_digit, is_ascii_alphanumeric, ascii_upper, select_one, select_all,
  update_where, delete_where, count_where, Result, ok, err, Db, DbM, pure, lift, ◌>>=◌, ◌>>◌,
  statement, query, execute, transaction,
}
use kraken_ui.Models.{Operator, TotpRow, RecoveryRow, Tables, Moment}
use kraken_ui.Operators.{PasswordCrypto, has_id}

-- What the crate `otpauth` gives: a secret from random bytes, whether a text is a secret, the URI,
-- and whether a code is the one of the time step that holds a time.
pub record Otp : Type 0 where
  pub base32_secret : List ℕ → Text
  pub is_base32 : Text → Bool
  pub to_uri : Text → Text → Text → Text
  pub verify : Text → ℕ → ℕ → ℕ → Bool

abbrev pub totp_period : ℕ
totp_period = 30

abbrev issuer : Text
issuer = codes "KrakenWAF"

abbrev pub totp_domain : Text
totp_domain = codes "totp"

abbrev pub recovery_domain : Text
recovery_domain = codes "mfa_recovery"

abbrev recovery_alphabet : Text
recovery_alphabet = codes "ABCDEFGHJKLMNPQRSTUVWXYZ23456789"

pub record MfaEnrollment : Type 0 where
  pub secret_base32 : Text
  pub otpauth_uri : Text

pub record MfaStatus : Type 0 where
  pub enabled : Bool
  pub remaining_recovery_codes : ℕ

pub data ConfirmOutcome : Type 0 where
  no_pending_enrollment invalid_code : ConfirmOutcome
  confirmed : List Text → ConfirmOutcome

abbrev pub of_user : ℕ → TotpRow → Bool
of_user id r = r.id_user == id

abbrev pub is_confirmed : TotpRow → Bool
is_confirmed r = not (r.confirmed == 0)

abbrev pub code_of_user : ℕ → RecoveryRow → Bool
code_of_user id r = r.id_user == id

abbrev pub unused_of_user : ℕ → RecoveryRow → Bool
unused_of_user id r = r.id_user == id && r.used == 0

-- The number that digits spell.
abbrev digits_from : ℕ → Text → ℕ
digits_from acc [] = acc
digits_from acc (c ∷ s) = digits_from (acc * 10 + (c - b'0')) s

abbrev first_step : (ℕ → Bool) → List (Option ℕ) → Option ℕ
first_step test [] = none
first_step test (none ∷ times) = first_step test times
first_step test (some at ∷ times) =
    let rest = first_step test times in if test at then some (at / totp_period) else rest

-- The times that are tried: now, a period earlier if that is not before 1970, a period later.
abbrev tried_times : ℕ → List (Option ℕ)
tried_times now =
    some now
    ∷ (if leb totp_period now then some (now - totp_period) else none)
    ∷ some (now + totp_period)
    ∷ []

unfoldable pub verify_totp_code : Otp → ℕ → Text → Text → Option ℕ
verify_totp_code otp now secret code =
    let trimmed = trim code in
    if not (byte_len trimmed == 6) || not (all is_ascii_digit trimmed)
    then none
    else if otp.is_base32 secret
    then first_step (otp.verify secret (digits_from 0 trimmed) totp_period) (tried_times now)
    else none

-- The symbol at an index; the loop takes indices modulo the alphabet's length.
abbrev symbol_at : Text → ℕ → ℕ
symbol_at [] i = 0
symbol_at (c ∷ s) zero = c
symbol_at (c ∷ s) (suc i) = symbol_at s i

abbrev recovery_symbols : ℕ → List ℕ → Text
recovery_symbols index [] = []
recovery_symbols index (byte ∷ bytes) =
    let symbol = symbol_at recovery_alphabet (byte % length recovery_alphabet) in
    let rest = recovery_symbols (index + 1) bytes in
    if index == 5 then b'-' ∷ symbol ∷ rest else symbol ∷ rest

unfoldable pub generate_recovery_code : List ℕ → Text
generate_recovery_code bytes = recovery_symbols 0 bytes

abbrev alphanumerics : Text → Text
alphanumerics [] = []
alphanumerics (c ∷ s) =
    let rest = alphanumerics s in if is_ascii_alphanumeric c then c ∷ rest else rest

unfoldable pub normalize_recovery : Text → Text
normalize_recovery input = map ascii_upper (alphanumerics input)

unfoldable pub totp_row : ℕ → DbM Tables (Option TotpRow)
totp_row id = query (λ t. select_one (of_user id) t.totp)

abbrev pub confirmed_only : Option TotpRow → Option TotpRow
confirmed_only none = none
confirmed_only (some row) = if is_confirmed row then some row else none

abbrev pub is_some {ℓ} : {A : Type ℓ} → Option A → Bool
is_some none = false
is_some (some a) = true

unfoldable pub is_enabled : ℕ → DbM Tables Bool
unfolding totp_row
is_enabled id = do found ← totp_row id; pure (is_some (confirmed_only found))

unfoldable pub remaining_recovery_count : ℕ → DbM Tables ℕ
remaining_recovery_count id = query (λ t. count_where (unused_of_user id) t.recovery)

unfoldable pub status : ℕ → DbM Tables MfaStatus
unfolding is_enabled remaining_recovery_count
status id = do
  enabled ← is_enabled id
  remaining ← elim enabled [ true ↦ remaining_recovery_count id | false ↦ pure 0 ]
  pure (record { enabled = enabled; remaining_recovery_codes = remaining })

abbrev set_operator_flag : ℕ → ℕ → Moment → Tables → Tables
set_operator_flag id flag m t = record t {
  operators =
      update_where (has_id id)
        (λ o. record o {
          mfa_enabled = flag;
          updated_at = m.stamp;
          authz_version = o.authz_version + 1;
        })
        t.operators;
}

abbrev bump_authz_version : ℕ → Moment → Tables → Tables
bump_authz_version id m t = record t {
  operators =
      update_where (has_id id)
        (λ o. record o { updated_at = m.stamp; authz_version = o.authz_version + 1 }) t.operators;
}

abbrev new_code : ℕ → Text → Moment → ℕ → RecoveryRow
new_code id sealed_code m next = record {
  id_code = next;
  id_user = id;
  encrypted_code = sealed_code;
  used = 0;
  created_at = m.stamp;
  used_at = none;
}

abbrev pub code_added : ℕ → Text → Moment → Tables → Tables
code_added id sealed_code m t = record t {
  recovery = t.recovery ++ new_code id sealed_code m t.next_code ∷ [];
  next_code = t.next_code + 1;
}

-- The foreign key of a code refuses one of an account that is not there.
abbrev insert_code : ℕ → Text → Moment → Tables → Result (Tables × Unit {0})
insert_code id sealed_code m t =
    if any (has_id id) t.operators
    then ok (code_added id sealed_code m t, tt)
    else err "constraint failed"

abbrev pub recovery_code_count : ℕ
recovery_code_count = 10

-- The loop that mints a number of codes; `randoms` gives the random bytes of each turn, by the number
-- of turns that are left after it.
pub mint_codes : PasswordCrypto → Moment → ℕ → (ℕ → List ℕ) → ℕ → DbM Tables (List Text)
mint_codes crypto m id randoms zero = pure []
mint_codes crypto m id randoms (suc left) = do
  let code = generate_recovery_code (randoms left)
  sealed_code ← lift (crypto.encrypt_secret id recovery_domain code)
  statement (insert_code id sealed_code m)
  rest ← mint_codes crypto m id randoms left
  pure (code ∷ rest)

pub replace_recovery_codes_in : PasswordCrypto → Moment → ℕ → (ℕ → List ℕ) → DbM Tables (List Text)
unfolding mint_codes
replace_recovery_codes_in crypto m id randoms = do
  execute λ t. record t { recovery = delete_where (code_of_user id) t.recovery }
  mint_codes crypto m id randoms recovery_code_count

abbrev pending_totp : ℕ → Text → Moment → ℕ → TotpRow
pending_totp id sealed_secret m next = record {
  id_totp = next;
  id_user = id;
  encrypted_secret = sealed_secret;
  confirmed = 0;
  created_at = m.stamp;
  confirmed_at = none;
  last_used_step = 0;
}

-- The UNIQUE constraint on `id_user` refuses a second row, and the foreign key one of an account that
-- is not there.
abbrev insert_totp : ℕ → Text → Moment → Tables → Result (Tables × Unit {0})
insert_totp id sealed_secret m t =
    if any (of_user id) t.totp || not (any (has_id id) t.operators)
    then err "constraint failed"
    else ok (
      record t {
        totp = t.totp ++ pending_totp id sealed_secret m t.next_totp ∷ [];
        next_totp = t.next_totp + 1;
      },
      tt,
    )

unfoldable pub begin_enrollment :
    PasswordCrypto → Otp → Moment → List ℕ → ℕ → Text → DbM Tables MfaEnrollment
begin_enrollment crypto otp m secret_bytes id account_label = do
  let secret = otp.base32_secret secret_bytes
  sealed_secret ← lift (crypto.encrypt_secret id totp_domain secret)
  transaction do
    execute λ t. record t { totp = delete_where (of_user id) t.totp }
    statement (insert_totp id sealed_secret m)
  pure (record {
    secret_base32 = secret;
    otpauth_uri = otp.to_uri secret (issuer ++ (codes ":" ++ account_label)) issuer;
  })

pending_from : PasswordCrypto → Otp → ℕ → Text → Option TotpRow → DbM Tables (Option MfaEnrollment)
pending_from crypto otp id account_label none = pure none
pending_from crypto otp id account_label (some row) = if is_confirmed row then pure none else do
  secret ← lift (crypto.decrypt_secret id totp_domain row.encrypted_secret)
  pure (
      if otp.is_base32 secret
      then some (record {
        secret_base32 = secret;
        otpauth_uri = otp.to_uri secret (issuer ++ (codes ":" ++ account_label)) issuer;
      })
      else none)

unfoldable pub pending_enrollment :
    PasswordCrypto → Otp → ℕ → Text → DbM Tables (Option MfaEnrollment)
unfolding totp_row pending_from
pending_enrollment crypto otp id account_label = do
  found ← totp_row id
  pending_from crypto otp id account_label found
