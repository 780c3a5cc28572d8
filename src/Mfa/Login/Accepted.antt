-- ===== src/Mfa/Login/Accepted.antt =====
-- What a login check of src/models/operator_mfa_repository.rs has established when it accepts.
use mathlib.Core.List.{Memᴰ}
use kraken_ui.Common.{
  ℕ, ◌<◌, ◌≡◌, refl, sym, ap, ◌∙◌, subst, inl, inr, true, false, Option, none, some, List, [], ◌∷◌,
  Text, arith, leb, ◌==◌, count_where, ok, Db, lift, bind-ok, lift-ok, query-ok, change-ok, text_eq,
  eq_of_text_eq, is_empty, Bool-cases, query, select_all, select_one,
}
use kraken_ui.Models.{TotpRow, RecoveryRow, Tables, Moment}
use kraken_ui.Operators.{PasswordCrypto}
use kraken_ui.Mfa.{
  Otp, totp_row, verify_totp_code, confirmed_only, is_confirmed, normalize_recovery, totp_domain,
  recovery_domain, of_user, unused_of_user,
}
use kraken_ui.Mfa.Login.{
  unused_step, step_taken, unused_code, code_burned, consume_totp_step, consume_recovery_code_row,
  try_codes, consume_recovery_code, with_code, with_row, verify_login_code,
}

module _ (crypto : PasswordCrypto) (otp : Otp) (m : Moment) (id : ℕ) (code : Text)
    (before after : Tables) where
  -- The code is a live one of the account's confirmed authenticator, its time step is later than
  -- every one used before, and it is used up now.
  pub record LiveCode : Type 0 where
    pub row : TotpRow
    pub step : ℕ
    pub secret : Text
    pub enrolled : select_one (of_user id) before.totp ≡ some row
    pub active : is_confirmed row ≡ true
    pub opened : crypto.decrypt_secret id totp_domain row.encrypted_secret ≡ ok secret
    pub live : verify_totp_code otp m.now secret code ≡ some step
    pub newer : row.last_used_step < step
    pub available : count_where (unused_step row.id_totp id step) before.totp ≡ 1
    pub taken : after ≡ step_taken row.id_totp id step before

  -- The code is one of the account's unused recovery codes, up to case and separators, and it is
  -- burned now.
  pub record RecoveryCode : Type 0 where
    pub row : RecoveryRow
    pub stored : Text
    pub listed : Memᴰ row (select_all (unused_of_user id) before.recovery)
    pub opened : crypto.decrypt_secret id recovery_domain row.encrypted_code ≡ ok stored
    pub matches : normalize_recovery stored ≡ normalize_recovery code
    pub some_symbol : is_empty (normalize_recovery code) ≡ false
    pub available : count_where (unused_code row.id_code id) before.recovery ≡ 1
    pub burned_now : after ≡ code_burned m id row.id_code before

  pub data Accepted : Type 0 where
    by_live_code : LiveCode → Accepted
    by_recovery_code : RecoveryCode → Accepted

one_of : (n : ℕ) → true ≡ (n == 1) → n ≡ 1
one_of n e = ground arith

consume_totp_step-ok :
    (i u s : ℕ) (db db' : Db Tables)
    → consume_totp_step i u s db ≡ (ok true, db')
    → (db'.tables ≡ step_taken i u s db.tables)
      × (count_where (unused_step i u s) db.tables.totp ≡ 1)
unfolding consume_totp_step
consume_totp_step-ok i u s db db' e =
    let (tables, one) =
      change-ok (step_taken i u s) (λ t. count_where (unused_step i u s) t.totp == 1) db e in
    (tables, one_of _ one)

consume_recovery_code_row-ok :
    (m : Moment) (u c : ℕ) (db db' : Db Tables)
    → consume_recovery_code_row m u c db ≡ (ok true, db')
    → (db'.tables ≡ code_burned m u c db.tables)
      × (count_where (unused_code c u) db.tables.recovery ≡ 1)
unfolding consume_recovery_code_row
consume_recovery_code_row-ok m u c db db' e =
    let (tables, one) =
      change-ok (code_burned m u c) (λ t. count_where (unused_code c u) t.recovery == 1) db e in
    (tables, one_of _ one)

module _ (crypto : PasswordCrypto) (otp : Otp) (m : Moment) (id : ℕ) (code : Text)
    (before : Tables) where
  abbrev Listed : List RecoveryRow → Type 0
  Listed rows =
      (r : RecoveryRow) → Memᴰ r rows → Memᴰ r (select_all (unused_of_user id) before.recovery)

  matched :
      (row : RecoveryRow) (stored : Text) (db db' : Db Tables)
      → Memᴰ row (select_all (unused_of_user id) before.recovery)
      → is_empty (normalize_recovery code) ≡ false
      → db.tables ≡ before
      → crypto.decrypt_secret id recovery_domain row.encrypted_code ≡ ok stored
      → text_eq (normalize_recovery stored) (normalize_recovery code) ≡ true
      → consume_recovery_code_row m id row.id_code db ≡ (ok true, db')
      → RecoveryCode crypto otp m id code before db'.tables
  matched row stored db db' inside some_ same opened hit e =
      let (burnt, one) = consume_recovery_code_row-ok m id row.id_code db db' e in
      record {
        row = row;
        stored = stored;
        listed = inside;
        opened = opened;
        matches = eq_of_text_eq _ _ hit;
        some_symbol = some_;
        available = rw (← same) one;
        burned_now = burnt ∙ ap (code_burned m id row.id_code) same;
      }

  -- The loop over the unused codes accepts by a code that it found.
  try_codes-accepted :
      (rows : List RecoveryRow) (db db' : Db Tables)
      → Listed rows
      → is_empty (normalize_recovery code) ≡ false
      → db.tables ≡ before
      → try_codes crypto m id (normalize_recovery code) rows db ≡ (ok true, db')
      → RecoveryCode crypto otp m id code before db'.tables
  unfolding try_codes
  try_codes-accepted [] db db' inside some_ same e = cc
  try_codes-accepted (row ∷ rows) db db' inside some_ same e =
      let (stored, mid, read, next) =
        bind-ok (lift (crypto.decrypt_secret id recovery_domain row.encrypted_code)) _ db e in
      let (here, opened) =
        lift-ok (crypto.decrypt_secret id recovery_domain row.encrypted_code) db read in
      let stays : mid.tables ≡ before = ap (λ (d : Db Tables). d.tables) here ∙ same in
      elim (Bool-cases (text_eq (normalize_recovery stored) (normalize_recovery code))) [
        | inl hit ↦
            matched row stored mid db' (inside row (Memᴰ.head refl)) some_ stays opened hit
              (rw hit at next)
        | inr miss ↦
            try_codes-accepted rows mid db' (λ r h. inside r (Memᴰ.tail h)) some_ stays
              (rw miss at next)
      ]

  consume_recovery_code-accepted :
      (db db' : Db Tables)
      → db.tables ≡ before
      → consume_recovery_code crypto m id code db ≡ (ok true, db')
      → RecoveryCode crypto otp m id code before db'.tables
  unfolding consume_recovery_code
  consume_recovery_code-accepted db db' same e =
      elim (Bool-cases (is_empty (normalize_recovery code))) [
        | inl blank ↦ let refused = rw (blank, consume_recovery_code) at e in cc
        | inr some_ ↦
            let e' = rw (some_, consume_recovery_code) at e in
            let (rows, mid, read, next) =
              bind-ok (query (λ t. select_all (unused_of_user id) t.recovery)) _ db e' in
            let (kept, found) = query-ok (λ t. select_all (unused_of_user id) t.recovery) db read in
            try_codes-accepted rows mid db'
              (λ r h.
                subst (λ (t : Tables). Memᴰ r (select_all (unused_of_user id) t.recovery)) same
                  (subst (Memᴰ r) found h))
              some_ (kept ∙ same) next
      ]

  with_code-accepted :
      (row : TotpRow) (secret : Text) (step : Option ℕ) (db db' : Db Tables)
      → select_one (of_user id) before.totp ≡ some row
      → is_confirmed row ≡ true
      → crypto.decrypt_secret id totp_domain row.encrypted_secret ≡ ok secret
      → verify_totp_code otp m.now secret code ≡ step
      → db.tables ≡ before
      → with_code crypto m id code row step db ≡ (ok true, db')
      → Accepted crypto otp m id code before db'.tables
  unfolding with_code
  with_code-accepted row secret none db db' enrolled active opened live same e =
      by_recovery_code (consume_recovery_code-accepted db db' same e)
  with_code-accepted row secret (some step) db db' enrolled active opened live same e =
      elim (Bool-cases (leb step row.last_used_step)) [
        | inl old ↦ let refused = rw old at e in cc
        | inr new ↦
            let (taken, one) = consume_totp_step-ok row.id_totp id step db db' (rw new at e) in
            by_live_code (record {
              row = row;
              step = step;
              secret = secret;
              enrolled = enrolled;
              active = active;
              opened = opened;
              live = live;
              newer = ground arith;
              available = rw (← same) one;
              taken = taken ∙ ap (step_taken row.id_totp id step) same;
            })
      ]

  with_row-accepted :
      (found : Option TotpRow) (db db' : Db Tables)
      → select_one (of_user id) before.totp ≡ found
      → db.tables ≡ before
      → with_row crypto otp m id code (confirmed_only found) db ≡ (ok true, db')
      → Accepted crypto otp m id code before db'.tables
  unfolding with_row
  with_row-accepted none db db' at_ same e =
      by_recovery_code (consume_recovery_code-accepted db db' same e)
  with_row-accepted (some row) db db' at_ same e = elim (Bool-cases (is_confirmed row)) [
    | inl active ↦
        let e' = rw active at e in
        let (secret, mid, read, next) =
          bind-ok (lift (crypto.decrypt_secret id totp_domain row.encrypted_secret)) _ db e' in
        let (here, opened) =
          lift-ok (crypto.decrypt_secret id totp_domain row.encrypted_secret) db read in
        with_code-accepted row secret (verify_totp_code otp m.now secret code) mid db' at_ active
          opened refl (ap (λ (d : Db Tables). d.tables) here ∙ same) next
    | inr pending ↦ by_recovery_code (consume_recovery_code-accepted db db' same (rw pending at e))
  ]

-- Whenever the check at the login challenge accepts a code, the code is either a live code of the
-- account's confirmed authenticator whose time step is newer than all that were used, and that step
-- is recorded, or one of the account's unused recovery codes, and that code is burned; nothing else
-- in the tables changes.
pub verify_login_code-Accepted :
    (crypto : PasswordCrypto) (otp : Otp) (m : Moment) (id : ℕ) (code : Text) (db db' : Db Tables)
    → verify_login_code crypto otp m id code db ≡ (ok true, db')
    → Accepted crypto otp m id code db.tables db'.tables
unfolding verify_login_code totp_row
verify_login_code-Accepted crypto otp m id code db db' e =
    let (found, mid, read, next) = bind-ok (query (λ t. select_one (of_user id) t.totp)) _ db e in
    let (kept, at_) = query-ok (λ t. select_one (of_user id) t.totp) db read in
    with_row-accepted crypto otp m id code db.tables found mid db' (sym at_) kept next
