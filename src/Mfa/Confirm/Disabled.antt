-- ===== src/Mfa/Confirm/Disabled.antt =====
-- What switching the second factor off in src/models/operator_mfa_repository.rs leaves.
use Prim.Native.String.{String}
use kraken_ui.Common.{ℕ, not, select_all, ◌≡◌, count_where, delete_where}
use kraken_ui.Models.{Tables, Moment}
use kraken_ui.Mfa.Flag.{IsFlagged}
use kraken_ui.Mfa.{of_user, code_of_user}

-- The account has no authenticator and no recovery code, its flag is cleared in a new epoch, and
-- nothing of the other accounts has changed.
pub record IsDisabled (id : ℕ) (before after : Tables) : Type 0 where
  pub no_totp : count_where (of_user id) after.totp ≡ 0
  pub no_codes : count_where (code_of_user id) after.recovery ≡ 0
  pub flagged : IsFlagged id 0 before after
  pub other_totp :
      select_all (λ r. not (of_user id r)) after.totp
      ≡ select_all (λ r. not (of_user id r)) before.totp
  pub other_codes :
      select_all (λ r. not (code_of_user id r)) after.recovery
      ≡ select_all (λ r. not (code_of_user id r)) before.recovery

module _ (m : Moment) (id : ℕ) where
  totp_gone : Tables → Tables
  totp_gone t = record t { totp = delete_where (of_user id) t.totp }

  codes_gone : Tables → Tables
  codes_gone t = record t { recovery = delete_where (code_of_user id) t.recovery }
