-- ===== src/Mfa/Login/Elsewhere.antt =====
-- What the second factor at login in src/models/operator_mfa_repository.rs leaves as it was: all that
-- does not depend on the tables of codes.
use kraken_ui.Common.{
  ℕ, ◌≡◌, subst, Bool, Option, none, some, List, [], ◌∷◌, leb, Text, text_eq, is_empty, select_all,
  Result, ok, lift, statement, query, Preserves, bind-Preserves, statement-Preserves,
  query-Preserves, lift-Preserves, branch-Preserves,
}
use kraken_ui.Models.{TotpRow, RecoveryRow, Tables, Moment}
use kraken_ui.Operators.{PasswordCrypto}
use kraken_ui.Mfa.{
  Otp, confirmed_only, is_enabled, unused_of_user, totp_domain, recovery_domain, totp_row,
  verify_totp_code, normalize_recovery,
}
use kraken_ui.Mfa.Login.{
  consume_totp_step, consume_recovery_code_row, try_codes, consume_recovery_code, with_code,
  with_row, verify_login_code,
}

module _ (P : Tables → Type 0)
    (totp : (t : Tables) (rows : List TotpRow) → P t → P (record t { totp = rows }))
    (recovery : (t : Tables) (rows : List RecoveryRow)
      → P t
      → P (record t { recovery = rows })) where
  counted-Preserves :
      (f : Tables → Tables) (g : Tables → Bool)
      → ((t : Tables) → P t → P (f t))
      → Preserves P (statement (λ t. ok (f t, g t)))
  counted-Preserves f g h =
      statement-Preserves P (λ t. ok (f t, g t)) (λ t t' b e p. subst P (moved t t' b e) (h t p))
    where
      moved :
          (t t' : Tables) (b : Bool)
          → ◌≡◌ {A = Result (Tables × Bool)} (ok (f t, g t)) (ok (t', b))
          → f t ≡ t'
      moved t t' b e = cc

  totp_row-Preserves : (id : ℕ) → Preserves P (totp_row id)
  unfolding totp_row
  totp_row-Preserves id = query-Preserves P _

  pub is_enabled-Preserves : (id : ℕ) → Preserves P (is_enabled id)
  unfolding is_enabled
  is_enabled-Preserves id =
      bind-Preserves P (totp_row id) _ (totp_row-Preserves id) (λ found db p. p)

  module _ (crypto : PasswordCrypto) (m : Moment) (id : ℕ) where
    try_codes-Preserves :
        (candidate : Text) (rows : List RecoveryRow)
        → Preserves P (try_codes crypto m id candidate rows)
    unfolding try_codes consume_recovery_code_row
    try_codes-Preserves candidate [] = λ db p. p
    try_codes-Preserves candidate (row ∷ rows) =
        bind-Preserves P (lift (crypto.decrypt_secret id recovery_domain row.encrypted_code)) _
          (lift-Preserves P (crypto.decrypt_secret id recovery_domain row.encrypted_code))
          (λ stored.
            branch-Preserves P (text_eq (normalize_recovery stored) candidate) _ _
              (λ e. counted-Preserves _ _ (λ t p. recovery t _ p))
              (λ e. try_codes-Preserves candidate rows))

    consume_recovery_code-Preserves :
        (code : Text) → Preserves P (consume_recovery_code crypto m id code)
    unfolding consume_recovery_code
    consume_recovery_code-Preserves code =
        branch-Preserves P (is_empty (normalize_recovery code)) _ _ (λ e db p. p)
          (λ e.
            bind-Preserves P (query (λ t. select_all (unused_of_user id) t.recovery)) _
              (query-Preserves P _) (try_codes-Preserves (normalize_recovery code)))

    with_code-Preserves :
        (code : Text) (row : TotpRow) (step : Option ℕ)
        → Preserves P (with_code crypto m id code row step)
    unfolding with_code consume_totp_step
    with_code-Preserves code row none = consume_recovery_code-Preserves code
    with_code-Preserves code row (some step) =
        branch-Preserves P (leb step row.last_used_step) _ _ (λ e db p. p)
          (λ e. counted-Preserves _ _ (λ t p. totp t _ p))

    with_row-Preserves :
        (otp : Otp) (code : Text) (row : Option TotpRow)
        → Preserves P (with_row crypto otp m id code row)
    unfolding with_row
    with_row-Preserves otp code none = consume_recovery_code-Preserves code
    with_row-Preserves otp code (some row) =
        bind-Preserves P (lift (crypto.decrypt_secret id totp_domain row.encrypted_secret)) _
          (lift-Preserves P (crypto.decrypt_secret id totp_domain row.encrypted_secret))
          (λ secret. with_code-Preserves code row (verify_totp_code otp m.now secret code))

    pub verify_login_code-Preserves :
        (otp : Otp) (code : Text) → Preserves P (verify_login_code crypto otp m id code)
    unfolding verify_login_code
    verify_login_code-Preserves otp code =
        bind-Preserves P (totp_row id) _ (totp_row-Preserves id)
          (λ found. with_row-Preserves otp code (confirmed_only found))
