-- ===== src/Mfa/Confirm.antt =====
-- Confirming, disabling and renewing in src/models/operator_mfa_repository.rs: the operations that
-- run as one transaction over the three tables.
pub mod Atomic
pub mod Codes
pub mod Effects
pub mod Disabled
mod Tests
use kraken_ui.Common.{
  ℕ, ◌==◌, Bool, ◌&&◌, Option, none, some, List, if◌then◌else◌, Text, select_one, update_where,
  delete_where, count_where, ok, DbM, pure, lift, ◌>>=◌, ◌>>◌, statement, query, execute,
  transaction, transaction_option,
}
use kraken_ui.Models.{TotpRow, Tables, Moment}
use kraken_ui.Operators.{PasswordCrypto}
use kraken_ui.Mfa.{
  Otp, ConfirmOutcome, no_pending_enrollment, invalid_code, confirmed, of_user, is_confirmed,
  code_of_user, totp_domain, totp_row, verify_totp_code, set_operator_flag, bump_authz_version,
  replace_recovery_codes_in, is_some,
}

-- WHERE id_totp = ? AND id_user = ? AND confirmed = 0
abbrev pub unconfirmed_row : ℕ → ℕ → TotpRow → Bool
unconfirmed_row id_totp id r = r.id_totp == id_totp && (r.id_user == id && r.confirmed == 0)

abbrev pub confirmed_row : ℕ → Moment → TotpRow → TotpRow
confirmed_row step m r = record r {
  confirmed = 1;
  confirmed_at = some m.stamp;
  last_used_step = step;
}

mark_confirmed : ℕ → ℕ → ℕ → Moment → DbM Tables ℕ
mark_confirmed id_totp id step m = statement λ t. ok (
  record t { totp = update_where (unconfirmed_row id_totp id) (confirmed_row step m) t.totp },
  count_where (unconfirmed_row id_totp id) t.totp,
)

-- The statements after the conditional UPDATE touched exactly one row.
activate : PasswordCrypto → Moment → ℕ → (ℕ → List ℕ) → DbM Tables (List Text)
unfolding replace_recovery_codes_in
activate crypto m id randoms = do
  execute (set_operator_flag id 1 m)
  replace_recovery_codes_in crypto m id randoms

confirm_with :
    PasswordCrypto → Moment → (ℕ → List ℕ) → ℕ → TotpRow → ℕ → DbM Tables (Option (List Text))
unfolding mark_confirmed activate
confirm_with crypto m randoms id row step = transaction_option do
  touched ← mark_confirmed row.id_totp id step m
  let renew : DbM Tables (Option (List Text)) = activate crypto m id randoms >>= λ c. pure (some c)
  if touched == 1 then renew else pure none

abbrev outcome_of : Option (List Text) → ConfirmOutcome
outcome_of none = no_pending_enrollment
outcome_of (some recovery_codes) = confirmed recovery_codes

confirm_step :
    PasswordCrypto → Moment → (ℕ → List ℕ) → ℕ → TotpRow → Option ℕ → DbM Tables ConfirmOutcome
unfolding confirm_with
confirm_step crypto m randoms id row none = pure invalid_code
confirm_step crypto m randoms id row (some step) = do
  done ← confirm_with crypto m randoms id row step
  pure (outcome_of done)

confirm_from :
    PasswordCrypto
    → Otp
    → Moment
    → (ℕ → List ℕ)
    → ℕ
    → Text
    → Option TotpRow
    → DbM Tables ConfirmOutcome
unfolding confirm_step
confirm_from crypto otp m randoms id code none = pure no_pending_enrollment
confirm_from crypto otp m randoms id code (some row) =
    if is_confirmed row then pure no_pending_enrollment else do
      secret ← lift (crypto.decrypt_secret id totp_domain row.encrypted_secret)
      confirm_step crypto m randoms id row (verify_totp_code otp m.now secret code)

unfoldable pub confirm :
    PasswordCrypto → Otp → Moment → (ℕ → List ℕ) → ℕ → Text → DbM Tables ConfirmOutcome
unfolding confirm_from totp_row
confirm crypto otp m randoms id code = do
  found ← totp_row id
  confirm_from crypto otp m randoms id code found

unfoldable pub disable : Moment → ℕ → DbM Tables (Unit {0})
disable m id = transaction do
  execute λ t. record t { totp = delete_where (of_user id) t.totp }
  execute λ t. record t { recovery = delete_where (code_of_user id) t.recovery }
  execute (set_operator_flag id 0 m)

abbrev enabled_row : ℕ → TotpRow → Bool
enabled_row id r = r.id_user == id && r.confirmed == 1

renew_codes : PasswordCrypto → Moment → (ℕ → List ℕ) → ℕ → DbM Tables (Option (List Text))
unfolding replace_recovery_codes_in
renew_codes crypto m randoms id = do
  recovery_codes ← replace_recovery_codes_in crypto m id randoms
  execute (bump_authz_version id m)
  pure (some recovery_codes)

unfoldable pub regenerate_recovery_codes :
    PasswordCrypto → Moment → (ℕ → List ℕ) → ℕ → DbM Tables (Option (List Text))
unfolding renew_codes
regenerate_recovery_codes crypto m randoms id = transaction_option do
  enabled ← query (λ t. is_some (select_one (enabled_row id) t.totp))
  if enabled then renew_codes crypto m randoms id else pure none
