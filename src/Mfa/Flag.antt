-- ===== src/Mfa/Flag.antt =====
-- The displayed flag and the epoch of an account, which the enrolment and the switch-off of
-- src/models/operator_mfa_repository.rs set together.
use kraken_ui.Common.{
  ℕ, any, sym, ◌∙◌, any-update, select_one-any, ◌+◌, ◌≡◌, refl, true, not, Option, none, some, List,
  [], ◌∷◌, arith, select_one, select_all, update_where, select_all-update, ◌==◌,
}
use kraken_ui.Models.{Operator, Tables, Moment}
use kraken_ui.Operators.{has_id}
use kraken_ui.Mfa.{set_operator_flag}

-- The flag and the epoch of an account, if it is there.
abbrev pub authority : Option Operator → Option (ℕ × ℕ)
authority none = none
authority (some o) = some (o.mfa_enabled, o.authz_version)

-- The same with another flag, in the epoch after.
abbrev pub next_authority : ℕ → Option Operator → Option (ℕ × ℕ)
next_authority flag none = none
next_authority flag (some o) = some (flag, o.authz_version + 1)

-- The account has that flag in a new epoch, and the others are as they were.
pub record IsFlagged (id flag : ℕ) (before after : Tables) : Type 0 where
  pub account :
      authority (select_one (has_id id) after.operators)
      ≡ next_authority flag (select_one (has_id id) before.operators)
  pub others :
      select_all (λ o. not (has_id id o)) after.operators
      ≡ select_all (λ o. not (has_id id o)) before.operators

module _ (id flag : ℕ) (m : Moment) where
  flagged_row : Operator → Operator
  flagged_row o = record o {
    mfa_enabled = flag;
    updated_at = m.stamp;
    authz_version = o.authz_version + 1;
  }

  flagged_account :
      (rows : List Operator)
      → authority (select_one (has_id id) (update_where (has_id id) flagged_row rows))
        ≡ next_authority flag (select_one (has_id id) rows)
  unfolding select_one update_where flagged_row
  flagged_account [] = refl
  flagged_account (o ∷ rows) = ground (arith, flagged_account rows)

  pub set_operator_flag-IsFlagged :
      (t : Tables) → IsFlagged id flag t (set_operator_flag id flag m t)
  unfolding flagged_row
  set_operator_flag-IsFlagged t = record {
    account = flagged_account t.operators;
    others =
        select_all-update (has_id id) (λ o. not (has_id id o)) flagged_row
          (λ (o : Operator) (h : (o.id_user == id) ≡ true). ground arith)
          (λ (o : Operator) (h : (o.id_user == id) ≡ true). ground arith) t.operators;
  }

  -- An account that is there after the change was there before it.
  pub set_operator_flag-stands :
      (t : Tables)
      → any (has_id id) (set_operator_flag id flag m t).operators ≡ true
      → (o : Operator) × (select_one (has_id id) t.operators ≡ some o)
  unfolding flagged_row
  set_operator_flag-stands t e =
      select_one-any (has_id id) t.operators
        (sym (any-update (has_id id) flagged_row (λ o. refl) t.operators) ∙ e)
