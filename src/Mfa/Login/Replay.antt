-- ===== src/Mfa/Login/Replay.antt =====
-- A code that has been used at a login of src/models/operator_mfa_repository.rs is not accepted
-- again, whatever other logins come in between.
use kraken_ui.Common.{
  ℕ, ◌≤◌, ◌<◌, ◌≡◌, ◌≢◌, sym, subst, Bool, true, false, Option, none, some, List, [], ◌∷◌, Text,
  arith, leb, ◌==◌, count_where, count_where-update_zero, count_where-update_none,
  count_where-zero_of, Result, ok, Db, lift, text_eq, is_empty, Preserves, bind-Preserves,
  statement-Preserves, query-Preserves, branch-Preserves, query, select_all, select_one, dec_lt,
}
use kraken_ui.Models.{TotpRow, RecoveryRow, Tables, Moment}
use kraken_ui.Operators.{PasswordCrypto}
use kraken_ui.Mfa.{
  Otp, totp_row, verify_totp_code, confirmed_only, normalize_recovery, totp_domain, recovery_domain,
  of_user, unused_of_user,
}
use kraken_ui.Mfa.Login.{
  unused_step, with_step, step_taken, unused_code, burned, code_burned, consume_totp_step,
  consume_recovery_code_row, try_codes, consume_recovery_code, with_code, with_row,
  verify_login_code,
}
use kraken_ui.Mfa.Login.Accepted.{LiveCode, RecoveryCode}

-- No row of this id takes this step, or an earlier one, any more.
abbrev pub StepUsed : ℕ → ℕ → ℕ → Tables → Type 0
StepUsed id_totp id step t = count_where (unused_step id_totp id step) t.totp ≡ 0

-- This recovery code is burned.
abbrev pub CodeUsed : ℕ → ℕ → Tables → Type 0
CodeUsed id_code id t = count_where (unused_code id_code id) t.recovery ≡ 0

taken_out :
    (i u s : ℕ) (r : TotpRow)
    → unused_step i u s r ≡ true
    → unused_step i u s (with_step s r) ≡ false
taken_out i u s r p = ground arith

StepUsed-taken : (i u s : ℕ) (t : Tables) → StepUsed i u s (step_taken i u s t)
StepUsed-taken i u s t =
    count_where-update_none (unused_step i u s) (with_step s) (taken_out i u s) t.totp

burned_out :
    (m : Moment) (c u : ℕ) (r : RecoveryRow)
    → unused_code c u r ≡ true
    → unused_code c u (burned m r) ≡ false
burned_out m c u r p = ground arith

CodeUsed-burned : (m : Moment) (c u : ℕ) (t : Tables) → CodeUsed c u (code_burned m u c t)
CodeUsed-burned m c u t =
    count_where-update_none (unused_code c u) (burned m) (burned_out m c u) t.recovery

step_keeps :
    (i u s j v s' : ℕ) (r : TotpRow)
    → unused_step j v s' r ≡ true
    → unused_step i u s r ≡ false
    → unused_step i u s (with_step s' r) ≡ false
step_keeps i u s j v s' r p q = ground arith

code_keeps :
    (m : Moment) (c u c' v : ℕ) (r : RecoveryRow)
    → unused_code c' v r ≡ true
    → unused_code c u r ≡ false
    → unused_code c u (burned m r) ≡ false
code_keeps m c u c' v r p q = ground arith

earlier_step :
    (i u s s' : ℕ)
    → s' ≤ s
    → (r : TotpRow) → unused_step i u s' r ≡ true
    → unused_step i u s r ≡ true
earlier_step i u s s' le r p = ground arith

-- What every login check keeps: whatever both of its statements keep.
module _ (P : Tables → Type 0) (takes : (j v s : ℕ) (t : Tables) → P t → P (step_taken j v s t))
    (burns : (m : Moment) (v c : ℕ) (t : Tables) → P t → P (code_burned m v c t)) where
  took :
      (j v s : ℕ) (t t' : Tables) (a : Bool)
      → ◌≡◌ {A = Result (Tables × Bool)}
          (ok (step_taken j v s t, count_where (unused_step j v s) t.totp == 1))
          (ok (t', a))
      → P t
      → P t'
  took j v s t t' a e p = let same : step_taken j v s t ≡ t' = cc in subst P same (takes j v s t p)

  burnt :
      (m : Moment) (v c : ℕ) (t t' : Tables) (a : Bool)
      → ◌≡◌ {A = Result (Tables × Bool)}
          (ok (code_burned m v c t, count_where (unused_code c v) t.recovery == 1))
          (ok (t', a))
      → P t
      → P t'
  burnt m v c t t' a e p =
      let same : code_burned m v c t ≡ t' = cc in subst P same (burns m v c t p)

  consume_totp_step-keeps : (j v s : ℕ) → Preserves P (consume_totp_step j v s)
  unfolding consume_totp_step
  consume_totp_step-keeps j v s = statement-Preserves P _ (took j v s)

  consume_recovery_code_row-keeps :
      (m : Moment) (v c : ℕ) → Preserves P (consume_recovery_code_row m v c)
  unfolding consume_recovery_code_row
  consume_recovery_code_row-keeps m v c = statement-Preserves P _ (burnt m v c)

  module _ (crypto : PasswordCrypto) where
    try_codes-keeps :
        (m : Moment) (id : ℕ) (candidate : Text) (rows : List RecoveryRow)
        → Preserves P (try_codes crypto m id candidate rows)
    unfolding try_codes
    try_codes-keeps m id candidate [] = λ db p. p
    try_codes-keeps m id candidate (row ∷ rows) =
        bind-Preserves P (lift (crypto.decrypt_secret id recovery_domain row.encrypted_code)) _
          (λ db p. p)
          λ stored.
            branch-Preserves P (text_eq (normalize_recovery stored) candidate)
              (consume_recovery_code_row m id row.id_code) (try_codes crypto m id candidate rows)
              (λ _. consume_recovery_code_row-keeps m id row.id_code)
              (λ _. try_codes-keeps m id candidate rows)

    consume_recovery_code-keeps :
        (m : Moment) (id : ℕ) (code : Text) → Preserves P (consume_recovery_code crypto m id code)
    unfolding consume_recovery_code
    consume_recovery_code-keeps m id code =
        branch-Preserves P (is_empty (normalize_recovery code)) _ _ (λ _ db p. p)
          λ _.
            bind-Preserves P (query (λ t. select_all (unused_of_user id) t.recovery)) _
              (query-Preserves P (λ t. select_all (unused_of_user id) t.recovery))
              (try_codes-keeps m id (normalize_recovery code))

    with_code-keeps :
        (m : Moment) (id : ℕ) (code : Text) (row : TotpRow) (step : Option ℕ)
        → Preserves P (with_code crypto m id code row step)
    unfolding with_code
    with_code-keeps m id code row none = consume_recovery_code-keeps m id code
    with_code-keeps m id code row (some step) =
        branch-Preserves P (leb step row.last_used_step) _ _ (λ _ db p. p)
          λ _. consume_totp_step-keeps row.id_totp id step

    with_row-keeps :
        (otp : Otp) (m : Moment) (id : ℕ) (code : Text) (found : Option TotpRow)
        → Preserves P (with_row crypto otp m id code found)
    unfolding with_row
    with_row-keeps otp m id code none = consume_recovery_code-keeps m id code
    with_row-keeps otp m id code (some row) =
        bind-Preserves P (lift (crypto.decrypt_secret id totp_domain row.encrypted_secret)) _
          (λ db p. p)
          (λ secret. with_code-keeps m id code row (verify_totp_code otp m.now secret code))

    pub verify_login_code-keeps :
        (otp : Otp) (m : Moment) (id : ℕ) (code : Text)
        → Preserves P (verify_login_code crypto otp m id code)
    unfolding verify_login_code totp_row
    verify_login_code-keeps otp m id code =
        bind-Preserves P (query (λ t. select_one (of_user id) t.totp)) _
          (query-Preserves P (λ t. select_one (of_user id) t.totp))
          (λ found. with_row-keeps otp m id code (confirmed_only found))

step_stays :
    (i u s j v s' : ℕ) (t : Tables) → StepUsed i u s t → StepUsed i u s (step_taken j v s' t)
step_stays i u s j v s' t =
    count_where-update_zero (unused_step j v s') (unused_step i u s) (with_step s')
      (step_keeps i u s j v s') t.totp

code_stays :
    (c u : ℕ) (m : Moment) (v c' : ℕ) (t : Tables)
    → CodeUsed c u t
    → CodeUsed c u (code_burned m v c' t)
code_stays c u m v c' t =
    count_where-update_zero (unused_code c' v) (unused_code c u) (burned m) (code_keeps m c u c' v)
      t.recovery

-- Any logins, of any accounts and at any moments, one after the other.
pub record LoginAttempt : Type 0 where
  pub moment : Moment
  pub id_user : ℕ
  pub code : Text

module _ (crypto : PasswordCrypto) (otp : Otp) where
  unfoldable pub attempts : List LoginAttempt → Db Tables → Db Tables
  attempts [] db = db
  attempts (a ∷ as_) db = attempts as_ (verify_login_code crypto otp a.moment a.id_user a.code db).1

  attempts-keep :
      (P : Tables → Type 0)
      → ((j v s : ℕ) (t : Tables) → P t → P (step_taken j v s t))
      → ((m : Moment) (v c : ℕ) (t : Tables) → P t → P (code_burned m v c t))
      → (as_ : List LoginAttempt) (db : Db Tables) → P db.tables
      → P (attempts as_ db).tables
  unfolding attempts
  attempts-keep P takes burns [] db p = p
  attempts-keep P takes burns (a ∷ as_) db p =
      attempts-keep P takes burns as_ _
        (verify_login_code-keeps P takes burns crypto otp a.moment a.id_user a.code db p)

  abbrev used_up : (n : ℕ) → n ≡ 0 → n ≡ 1 → ⊥
  used_up n z o = omega arith

  -- Two live codes of one enrolment that are accepted, one after the other with any logins of any
  -- accounts in between, are of strictly increasing time steps: no code is accepted twice in its
  -- window.
  pub steps_increase :
      (m m' : Moment) (id : ℕ) (code code' : Text) (db db' : Db Tables) (as_ : List LoginAttempt)
      (end : Tables) (first : LiveCode crypto otp m id code db.tables db'.tables)
      (second : LiveCode crypto otp m' id code' (attempts as_ db').tables end)
      → first.row.id_totp ≡ second.row.id_totp
      → first.step < second.step
  steps_increase m m' id code code' db db' as_ end first second same =
      elim (dec_lt first.step second.step) [
        | yes later ↦ later
        | no earlier ↦
            let i = first.row.id_totp in
            let s = first.step in
            let start : StepUsed i id s db'.tables =
              subst (StepUsed i id s) (sym first.taken) (StepUsed-taken i id s db.tables) in
            let still =
              attempts-keep (StepUsed i id s) (step_stays i id s) (λ m v c t p. p) as_ db' start in
            let none_left =
              count_where-zero_of _ (unused_step i id second.step)
                (earlier_step i id s second.step (omega arith)) (attempts as_ db').tables.totp
                still in
            absurd (used_up _ none_left (rw same second.available))
      ]

  -- Two recovery codes that are accepted, with any logins in between, are different rows.
  pub codes_differ :
      (m m' : Moment) (id : ℕ) (code code' : Text) (db db' : Db Tables) (as_ : List LoginAttempt)
      (end : Tables) (first : RecoveryCode crypto otp m id code db.tables db'.tables)
      (second : RecoveryCode crypto otp m' id code' (attempts as_ db').tables end)
      → first.row.id_code ≢ second.row.id_code
  codes_differ m m' id code code' db db' as_ end first second same =
      let c = first.row.id_code in
      let start : CodeUsed c id db'.tables =
        subst (CodeUsed c id) (sym first.burned_now) (CodeUsed-burned m c id db.tables) in
      let still = attempts-keep (CodeUsed c id) (λ j v s t p. p) (code_stays c id) as_ db' start in
      used_up _ still (rw same second.available)
