-- ===== src/Mfa/Confirm/Atomic.antt =====
-- The roll-backs of src/models/operator_mfa_repository.rs: an enrolment that is not confirmed, and
-- codes that are not renewed, leave the tables as they were.
use kraken_ui.Common.{
  ℕ, ◌≡◌, refl, Bool, true, false, Option, none, some, List, Text, if◌then◌else◌, Result, ok, Db,
  DbM, pure, lift, ◌>>=◌, query, select_one, Untouched, query-Reads, read-Untouched, then-Untouched,
  committed, transaction_option-Untouched,
}
use kraken_ui.Models.{TotpRow, Tables, Moment}
use kraken_ui.Operators.{PasswordCrypto}
use kraken_ui.Mfa.{
  Otp, ConfirmOutcome, no_pending_enrollment, confirmed, totp_row, is_confirmed, of_user,
  totp_domain, verify_totp_code,
}
use kraken_ui.Mfa.Confirm.{
  confirm_with, outcome_of, confirm_step, confirm_from, confirm, regenerate_recovery_codes,
}

abbrev pub activated : Result ConfirmOutcome → Bool
activated (ok (confirmed recovery_codes)) = true
activated r = false

abbrev pub renewed : Result (Option (List Text)) → Bool
renewed r = committed r

confirm_with-Untouched :
    (crypto : PasswordCrypto) (m : Moment) (randoms : ℕ → List ℕ) (id : ℕ) (row : TotpRow)
    (step : ℕ)
    → Untouched renewed (confirm_with crypto m randoms id row step)
unfolding confirm_with
confirm_with-Untouched crypto m randoms id row step = transaction_option-Untouched _

confirm_step-Untouched :
    (crypto : PasswordCrypto) (m : Moment) (randoms : (ℕ → List ℕ)) (id : ℕ) (row : TotpRow)
    (step : Option ℕ)
    → Untouched activated (confirm_step crypto m randoms id row step)
unfolding confirm_step
confirm_step-Untouched crypto m randoms id row none = λ db bad. refl
confirm_step-Untouched crypto m randoms id row (some step) =
    then-Untouched renewed activated (confirm_with crypto m randoms id row step) outcome_of
      (confirm_with-Untouched crypto m randoms id row step) back (λ e. refl)
  where
    back : (a : Option (List Text)) → activated (ok (outcome_of a)) ≡ false → renewed (ok a) ≡ false
    back none bad = refl
    back (some c) bad = bad

confirm_from-Untouched :
    (crypto : PasswordCrypto) (otp : Otp) (m : Moment) (randoms : (ℕ → List ℕ)) (id : ℕ)
    (code : Text) (found : Option TotpRow)
    → Untouched activated (confirm_from crypto otp m randoms id code found)
unfolding confirm_from
confirm_from-Untouched crypto otp m randoms id code none = λ db bad. refl
confirm_from-Untouched crypto otp m randoms id code (some row) = go (is_confirmed row)
  where
    opened : DbM Tables ConfirmOutcome
    opened = lift (crypto.decrypt_secret id totp_domain row.encrypted_secret) >>= λ secret.
        confirm_step crypto m randoms id row (verify_totp_code otp m.now secret code)

    go : (b : Bool) → Untouched activated (if b then pure no_pending_enrollment else opened)
    go true = λ db bad. refl
    go false =
        read-Untouched activated (lift (crypto.decrypt_secret id totp_domain row.encrypted_secret))
          _ (λ db. refl)
          (λ secret.
            confirm_step-Untouched crypto m randoms id row (verify_totp_code otp m.now secret code))

-- An enrolment that is not confirmed leaves the tables as they were, whatever stopped it: no row that
-- waits, a wrong code, another request that confirmed it first, or a failure of any statement of the
-- transaction or of its COMMIT.
pub confirm-Untouched :
    (crypto : PasswordCrypto) (otp : Otp) (m : Moment) (randoms : (ℕ → List ℕ)) (id : ℕ)
    (code : Text) (db : Db Tables)
    → activated (confirm crypto otp m randoms id code db).0 ≡ false
    → (confirm crypto otp m randoms id code db).1.tables ≡ db.tables
unfolding confirm totp_row
confirm-Untouched crypto otp m randoms id code =
    read-Untouched activated (query (λ t. select_one (of_user id) t.totp)) _
      (query-Reads (λ t. select_one (of_user id) t.totp))
      (confirm_from-Untouched crypto otp m randoms id code)

-- Recovery codes that are not renewed are all still there, and nothing else has changed.
pub regenerate_recovery_codes-Untouched :
    (crypto : PasswordCrypto) (m : Moment) (randoms : (ℕ → List ℕ)) (id : ℕ) (db : Db Tables)
    → renewed (regenerate_recovery_codes crypto m randoms id db).0 ≡ false
    → (regenerate_recovery_codes crypto m randoms id db).1.tables ≡ db.tables
unfolding regenerate_recovery_codes
regenerate_recovery_codes-Untouched crypto m randoms id = transaction_option-Untouched _
