-- ===== src/Mfa/Confirm/Effects.antt =====
-- What a confirmed enrolment in src/models/operator_mfa_repository.rs has done to the tables.
use kraken_ui.Common.{
  any, ◌+◌, ℕ, ◌≡◌, refl, sym, ◌∙◌, subst, ap, Bool, true, false, Option, none, some, List, Text,
  ◌==◌, if◌then◌else◌, arith, length, ok, Db, pure, lift, ◌>>=◌, bind-ok, query, execute,
  execute-ok, query-ok, pure-ok, lift-ok, change-ok, transaction_option-ok, not, select_all,
  select_one-test, select_one-update_found, select_one, count_where, update_where,
}
use kraken_ui.Models.{Operator, TotpRow, Tables, Moment}
use kraken_ui.Operators.{PasswordCrypto, has_id}
use kraken_ui.Mfa.{
  Otp, ConfirmOutcome, no_pending_enrollment, confirmed, totp_row, is_confirmed, of_user,
  totp_domain, verify_totp_code, set_operator_flag, code_of_user,
}
use kraken_ui.Mfa.Confirm.{
  activate, confirm_with, outcome_of, confirm_step, confirm_from, confirm, mark_confirmed,
  unconfirmed_row, confirmed_row,
}
use kraken_ui.Mfa.Confirm.Codes.{IsSealed, replace_recovery_codes_in-Replaced}
use kraken_ui.Mfa.Flag.{
  IsFlagged, authority, next_authority, set_operator_flag-stands, set_operator_flag-IsFlagged,
}

module _ (crypto : PasswordCrypto) (otp : Otp) (m : Moment) (id : ℕ) (code : Text)
    (recovery_codes : List Text) (before after : Tables) where
  -- The waiting row of the account became its second factor because the code proved its secret; the
  -- operator is flagged and starts a new epoch; all recovery codes of the account are the new ones.
  pub record Confirmed : Type 0 where
    pub row : TotpRow
    pub step : ℕ
    pub secret : Text
    pub waiting : select_one (of_user id) before.totp ≡ some row
    pub unconfirmed : is_confirmed row ≡ false
    pub opened : crypto.decrypt_secret id totp_domain row.encrypted_secret ≡ ok secret
    pub proved : verify_totp_code otp m.now secret code ≡ some step
    pub once : count_where (unconfirmed_row row.id_totp id) before.totp ≡ 1
    pub activated :
        after.totp
        ≡ update_where (unconfirmed_row row.id_totp id) (confirmed_row step m) before.totp
    pub second_factor : TotpRow
    pub held : select_one (of_user id) after.totp ≡ some second_factor
    pub same_secret : second_factor.encrypted_secret ≡ row.encrypted_secret
    pub turned_on : second_factor.confirmed ≡ 1
    pub used_up : second_factor.last_used_step ≡ step
    pub account : Operator
    pub stands : select_one (has_id id) before.operators ≡ some account
    pub flagged :
        authority (select_one (has_id id) after.operators) ≡ some (1, account.authz_version + 1)
    pub other_accounts :
        select_all (λ o. not (has_id id o)) after.operators
        ≡ select_all (λ o. not (has_id id o)) before.operators
    pub all_shown : IsSealed crypto id recovery_codes (select_all (code_of_user id) after.recovery)
    pub ten : length recovery_codes ≡ 10
    pub other_codes :
        select_all (λ r. not (code_of_user id r)) after.recovery
        ≡ select_all (λ r. not (code_of_user id r)) before.recovery

-- The tables after the statements of a confirmation.
record Activated (crypto : PasswordCrypto) (id : ℕ) (m : Moment) (row : TotpRow) (step : ℕ)
    (recovery_codes : List Text) (before after : Tables) : Type 0 where
  once : count_where (unconfirmed_row row.id_totp id) before.totp ≡ 1
  totp :
      after.totp ≡ update_where (unconfirmed_row row.id_totp id) (confirmed_row step m) before.totp
  account : Operator
  stands : select_one (has_id id) before.operators ≡ some account
  flagged : IsFlagged id 1 before after
  all_shown : IsSealed crypto id recovery_codes (select_all (code_of_user id) after.recovery)
  ten : length recovery_codes ≡ 10
  other_codes :
      select_all (λ r. not (code_of_user id r)) after.recovery
      ≡ select_all (λ r. not (code_of_user id r)) before.recovery

-- The one row that waits is the one that is confirmed.
now_confirmed :
    (id step : ℕ) (m : Moment) (row : TotpRow) (rows : List TotpRow)
    → select_one (of_user id) rows ≡ some row
    → is_confirmed row ≡ false
    → select_one
        (of_user id)
        (update_where (unconfirmed_row row.id_totp id) (confirmed_row step m) rows)
      ≡ some (confirmed_row step m row)
now_confirmed id step m row rows e out =
    let own : (row.id_user == id) ≡ true = select_one-test (of_user id) rows e in
    select_one-update_found (unconfirmed_row row.id_totp id) (of_user id) (confirmed_row step m)
      (λ r. refl) rows row e (ground arith)

same_list : {c c' : List Text} → ◌≡◌ {A = Option (List Text)} (some c) (some c') → c ≡ c'
same_list e = cc

same_confirmed : {c c' : List Text} → confirmed c ≡ confirmed c' → c ≡ c'
same_confirmed e = cc

is_one : (n : ℕ) → (n == 1) ≡ true → n ≡ 1
is_one n e = ground arith

module _ (crypto : PasswordCrypto) (m : Moment) (randoms : ℕ → List ℕ) (id : ℕ) where
  marked : TotpRow → ℕ → Tables → Tables
  marked row step t = record t {
    totp = update_where (unconfirmed_row row.id_totp id) (confirmed_row step m) t.totp;
  }

  activate-ok :
      (row : TotpRow) (step : ℕ) (db to : Db Tables) (cs : List Text) (before : Tables)
      → activate crypto m id randoms db ≡ (ok cs, to)
      → db.tables ≡ marked row step before
      → count_where (unconfirmed_row row.id_totp id) before.totp ≡ 1
      → Activated crypto id m row step cs before to.tables
  unfolding activate marked
  activate-ok row step db to cs before e start once =
      let (u, mid, wrote, ran) = bind-ok (execute (set_operator_flag id 1 m)) _ db e in
      let stored : mid.tables ≡ set_operator_flag id 1 m (marked row step before) =
        execute-ok (set_operator_flag id 1 m) db wrote ∙ ap (set_operator_flag id 1 m) start in
      let (renewed, ten) = replace_recovery_codes_in-Replaced crypto m id randoms mid to cs ran in
      let set : IsFlagged id 1 before (set_operator_flag id 1 m before) =
        set_operator_flag-IsFlagged id 1 m before in
      let operators : to.tables.operators ≡ (set_operator_flag id 1 m before).operators =
        renewed.same_operators ∙ ap (λ (t : Tables). t.operators) stored in
      let (account, stands) =
        set_operator_flag-stands id 1 m before
          (ap (λ (t : Tables). any (has_id id) t.operators) (sym stored) ∙ renewed.stands) in
      record {
        once = once;
        account = account;
        stands = stands;
        totp = renewed.same_totp ∙ ap (λ (t : Tables). t.totp) stored;
        flagged = record {
          account =
              ap (λ (o : List Operator). authority (select_one (has_id id) o)) operators
              ∙ set.account;
          others = ap (select_all (λ o. not (has_id id o))) operators ∙ set.others;
        };
        all_shown = renewed.own;
        ten = ten;
        other_codes =
            renewed.others
            ∙ ap (λ (t : Tables). select_all (λ r. not (code_of_user id r)) t.recovery) stored;
      }

  confirm_with-ok :
      (row : TotpRow) (step : ℕ) (db db' : Db Tables) (cs : List Text)
      → confirm_with crypto m randoms id row step db ≡ (ok (some cs), db')
      → Activated crypto id m row step cs db.tables db'.tables
  unfolding confirm_with mark_confirmed marked
  confirm_with-ok row step db db' cs e =
      let (from, to, start, ran, same) = transaction_option-ok _ db e in
      let (touched, mid, wrote, rest) = bind-ok (mark_confirmed row.id_totp id step m) _ from ran in
      let (stored, count) =
        change-ok (marked row step) (λ t. count_where (unconfirmed_row row.id_totp id) t.totp) from
          wrote in
      branch (touched == 1) touched mid to refl (stored ∙ ap (marked row step) start)
        (count ∙ ap (λ (t : Tables). count_where (unconfirmed_row row.id_totp id) t.totp) start)
        same rest
    where
      branch :
          (b : Bool) (touched : ℕ) (mid to : Db Tables)
          → (touched == 1) ≡ b
          → mid.tables ≡ marked row step db.tables
          → touched ≡ count_where (unconfirmed_row row.id_totp id) db.tables.totp
          → db'.tables ≡ to.tables
          → (if b then (activate crypto m id randoms >>= λ c. pure (some c)) else pure none) mid
            ≡ (ok (some cs), to)
          → Activated crypto id m row step cs db.tables db'.tables
      branch true touched mid to is stored count same rest =
          let (c, d, ran, answered) =
            bind-ok (activate crypto m id randoms) (λ c. pure (some c)) mid rest in
          let (here, shown) = pure-ok {A = Option (List Text)} (some c) d answered in
          let done =
            activate-ok row step mid d c db.tables ran stored (sym count ∙ is_one touched is) in
          subst (λ (c : List Text). Activated crypto id m row step c db.tables db'.tables)
            (sym (same_list shown))
            (subst (Activated crypto id m row step c db.tables)
              (sym (same ∙ ap (λ (d : Db Tables). d.tables) here)) done)
      branch false touched mid to is stored count same rest =
          let (here, shown) = pure-ok {A = Option (List Text)} none mid rest in cc

  confirm_step-ok :
      (row : TotpRow) (found : Option ℕ) (db db' : Db Tables) (cs : List Text)
      → confirm_step crypto m randoms id row found db ≡ (ok (confirmed cs), db')
      → (step : ℕ) × (found ≡ some step) × Activated crypto id m row step cs db.tables db'.tables
  unfolding confirm_step
  confirm_step-ok row none db db' cs e = cc
  confirm_step-ok row (some step) db db' cs e =
      let (done, mid, ran, answered) =
        bind-ok (confirm_with crypto m randoms id row step) (λ d. pure (outcome_of d)) db e in
      let (here, shown) = pure-ok {A = ConfirmOutcome} (outcome_of done) mid answered in
      finish done mid ran (sym shown) here
    where
      finish :
          (done : Option (List Text)) (mid : Db Tables)
          → confirm_with crypto m randoms id row step db ≡ (ok done, mid)
          → outcome_of done ≡ confirmed cs
          → db' ≡ mid
          → (s : ℕ) × (◌≡◌ {A = Option ℕ} (some step) (some s))
            × Activated crypto id m row s cs db.tables db'.tables
      finish none mid ran is here = cc
      finish (some c) mid ran is here =
          let done = confirm_with-ok row step db mid c ran in
          (
            step,
            refl,
            subst (λ (c : List Text). Activated crypto id m row step c db.tables db'.tables)
                (same_confirmed is)
                (subst (λ (d : Db Tables). Activated crypto id m row step c db.tables d.tables)
                  (sym here) done),
          )

  confirm_from-ok :
      (otp : Otp) (code : Text) (found : Option TotpRow) (db db' : Db Tables) (before : Tables)
      (cs : List Text)
      → confirm_from crypto otp m randoms id code found db ≡ (ok (confirmed cs), db')
      → select_one (of_user id) before.totp ≡ found
      → db.tables ≡ before
      → Confirmed crypto otp m id code cs before db'.tables
  unfolding confirm_from
  confirm_from-ok otp code none db db' before cs e at_ start = cc
  confirm_from-ok otp code (some row) db db' before cs e at_ start = go (is_confirmed row) refl e
    where
      go :
          (b : Bool)
          → is_confirmed row ≡ b
          → (if b
                then pure no_pending_enrollment
                else (lift (crypto.decrypt_secret id totp_domain row.encrypted_secret) >>= λ secret.
                    confirm_step crypto m randoms id row (verify_totp_code otp m.now secret code)))
              db
            ≡ (ok (confirmed cs), db')
          → Confirmed crypto otp m id code cs before db'.tables
      go true is e = cc
      go false is e =
          let (secret, mid, read, ran) =
            bind-ok (lift (crypto.decrypt_secret id totp_domain row.encrypted_secret)) _ db e in
          let (here, opened) =
            lift-ok (crypto.decrypt_secret id totp_domain row.encrypted_secret) db read in
          let (step, proved, done) =
            confirm_step-ok row (verify_totp_code otp m.now secret code) mid db' cs ran in
          let all_done : Activated crypto id m row step cs before db'.tables =
            subst (λ (t : Tables). Activated crypto id m row step cs t db'.tables)
              (ap (λ (d : Db Tables). d.tables) here ∙ start) done in
          record {
            row = row;
            step = step;
            secret = secret;
            waiting = at_;
            unconfirmed = is;
            opened = opened;
            proved = proved;
            once = all_done.once;
            activated = all_done.totp;
            second_factor = confirmed_row step m row;
            held =
                ap (select_one (of_user id)) all_done.totp
                ∙ now_confirmed id step m row before.totp at_ is;
            same_secret = refl;
            turned_on = refl;
            used_up = refl;
            account = all_done.account;
            stands = all_done.stands;
            flagged = all_done.flagged.account ∙ ap (next_authority 1) all_done.stands;
            other_accounts = all_done.flagged.others;
            all_shown = all_done.all_shown;
            ten = all_done.ten;
            other_codes = all_done.other_codes;
          }

-- When an enrolment is confirmed, the code was live for the secret of the account's one waiting row;
-- that row is now its second factor, with the code's time step used up; the operator is flagged and
-- starts a new epoch; the account's recovery codes are ten new ones, and its rows hold exactly those
-- that are shown, each sealed and unused. The other accounts, and their codes, are as they were.
pub confirm-Confirmed :
    (crypto : PasswordCrypto) (otp : Otp) (m : Moment) (randoms : ℕ → List ℕ) (id : ℕ) (code : Text)
    (recovery_codes : List Text) (db db' : Db Tables)
    → confirm crypto otp m randoms id code db ≡ (ok (confirmed recovery_codes), db')
    → Confirmed crypto otp m id code recovery_codes db.tables db'.tables
unfolding confirm totp_row
confirm-Confirmed crypto otp m randoms id code recovery_codes db db' e =
    let (found, mid, read, next) = bind-ok (query (λ t. select_one (of_user id) t.totp)) _ db e in
    let (kept, at_) = query-ok (λ t. select_one (of_user id) t.totp) db read in
    confirm_from-ok crypto m randoms id otp code found mid db' db.tables recovery_codes next
      (sym at_) kept
