-- ===== src/Mfa/Login.antt =====
-- The second factor at login in src/models/operator_mfa_repository.rs: a live code whose time step
-- is consumed, or a recovery code that is burned.
pub mod Accepted
pub mod Replay
pub mod Elsewhere
use kraken_ui.Common.{
  ℕ, ◌+◌, ◌==◌, ltb, leb, Bool, true, false, ◌&&◌, Option, none, some, List, [], ◌∷◌, if◌then◌else◌,
  Text, text_eq, is_empty, select_all, update_where, count_where, ok, Db, DbM, pure, lift, ◌>>=◌,
  ◌>>◌, statement, query,
}
use kraken_ui.Models.{TotpRow, RecoveryRow, Tables, Moment}
use kraken_ui.Operators.{PasswordCrypto}
use kraken_ui.Mfa.{
  Otp, confirmed_only, unused_of_user, totp_domain, recovery_domain, totp_row, verify_totp_code,
  normalize_recovery,
}

-- WHERE id_totp = ? AND id_user = ? AND confirmed = 1 AND last_used_step < ?
abbrev pub unused_step : ℕ → ℕ → ℕ → TotpRow → Bool
unused_step id_totp id step r =
    r.id_totp == id_totp && (r.id_user == id && (r.confirmed == 1 && ltb r.last_used_step step))

abbrev pub with_step : ℕ → TotpRow → TotpRow
with_step step r = record r { last_used_step = step }

abbrev pub step_taken : ℕ → ℕ → ℕ → Tables → Tables
step_taken id_totp id step t = record t {
  totp = update_where (unused_step id_totp id step) (with_step step) t.totp;
}

unfoldable pub consume_totp_step : ℕ → ℕ → ℕ → DbM Tables Bool
consume_totp_step id_totp id step =
    statement
      λ t. ok (step_taken id_totp id step t, count_where (unused_step id_totp id step) t.totp == 1)

-- WHERE id_code = ? AND id_user = ? AND used = 0
abbrev pub unused_code : ℕ → ℕ → RecoveryRow → Bool
unused_code id_code id r = r.id_code == id_code && (r.id_user == id && r.used == 0)

abbrev pub burned : Moment → RecoveryRow → RecoveryRow
burned m r = record r { used = 1; used_at = some m.stamp }

abbrev pub code_burned : Moment → ℕ → ℕ → Tables → Tables
code_burned m id id_code t = record t {
  recovery = update_where (unused_code id_code id) (burned m) t.recovery;
}

unfoldable pub consume_recovery_code_row : Moment → ℕ → ℕ → DbM Tables Bool
consume_recovery_code_row m id id_code =
    statement
      λ t. ok (code_burned m id id_code t, count_where (unused_code id_code id) t.recovery == 1)

-- The loop over the unused codes. `constant_time_eq` answers as `text_eq` does.
try_codes : PasswordCrypto → Moment → ℕ → Text → List RecoveryRow → DbM Tables Bool
unfolding consume_recovery_code_row
try_codes crypto m id candidate [] = pure false
try_codes crypto m id candidate (row ∷ rows) = do
  stored ← lift (crypto.decrypt_secret id recovery_domain row.encrypted_code)
  let next : DbM Tables Bool = try_codes crypto m id candidate rows
  if text_eq (normalize_recovery stored) candidate
      then consume_recovery_code_row m id row.id_code
      else next

unfoldable pub consume_recovery_code : PasswordCrypto → Moment → ℕ → Text → DbM Tables Bool
unfolding try_codes
consume_recovery_code crypto m id code =
    let candidate = normalize_recovery code in
    if is_empty candidate then pure false else do
      rows ← query (λ t. select_all (unused_of_user id) t.recovery)
      try_codes crypto m id candidate rows

-- A live code whose step is used up is refused; what is no live code is tried as a recovery code.
with_code : PasswordCrypto → Moment → ℕ → Text → TotpRow → Option ℕ → DbM Tables Bool
unfolding consume_recovery_code consume_totp_step
with_code crypto m id code row none = consume_recovery_code crypto m id code
with_code crypto m id code row (some step) =
    if leb step row.last_used_step then pure false else consume_totp_step row.id_totp id step

with_row : PasswordCrypto → Otp → Moment → ℕ → Text → Option TotpRow → DbM Tables Bool
unfolding with_code
with_row crypto otp m id code none = consume_recovery_code crypto m id code
with_row crypto otp m id code (some row) = do
  secret ← lift (crypto.decrypt_secret id totp_domain row.encrypted_secret)
  with_code crypto m id code row (verify_totp_code otp m.now secret code)

unfoldable pub verify_login_code : PasswordCrypto → Otp → Moment → ℕ → Text → DbM Tables Bool
unfolding totp_row with_row
verify_login_code crypto otp m id code = do
  found ← totp_row id
  with_row crypto otp m id code (confirmed_only found)
