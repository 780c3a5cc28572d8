-- ===== src/StepUp/Factors.antt =====
-- What the password and the second factor have shown where src/controllers/step_up.rs answers that the
-- administrator is verified.
use Prim.Native.String.{String}
use kraken_ui.Common.{
  ℕ, ◌≡◌, ◌⊎◌, inl, inr, refl, ◌∙◌, ap, subst, Bool, true, false, Text, ltb, byte_len, is_empty,
  Result, ok, err, Db, query, query-ok, bind-ok, pure-ok, select_one, if◌then◌else◌,
}
use kraken_ui.Models.{Operator, Tables}
use kraken_ui.Operators.{PasswordVerification, record_reauthenticated}
use kraken_ui.Mfa.{is_enabled, is_some, confirmed_only, of_user, totp_row}
use kraken_ui.Mfa.Login.{verify_login_code}
use kraken_ui.Handlers.{Request, AppState, World, go_on, return, ◌>>=◌, in_db, plain_text}
use kraken_ui.Handlers.Runs.{bind-go_on, return-go_on, in_db-go_on}
use kraken_ui.Auth.{mark_reauthenticated, reauthenticated_within}
use kraken_ui.Auth.Login.Steps.{enabled_is}
use kraken_ui.StepUp.{
  verified, unauthorized_step, rejected, marked, code_checked, after_code, second_factor,
  after_password, step_up_freshness_seconds,
}

abbrev pub has_two_factors : Operator → Tables → Bool
has_two_factors o t = is_some (confirmed_only (select_one (of_user o.id_user) t.totp))

is_enabled-Reads :
    (id : ℕ) (b : Bool) (db db' : Db Tables)
    → is_enabled id db ≡ (ok b, db')
    → db'.tables ≡ db.tables
unfolding is_enabled totp_row
is_enabled-Reads id b db db' e =
    let (found, mid, asked, answered) =
      bind-ok (query (λ t. select_one (of_user id) t.totp)) _ db e in
    let (kept, got) = query-ok (λ t. select_one (of_user id) t.totp) db asked in
    let (here, is) = pure-ok (is_some (confirmed_only found)) mid answered in
    ap (λ (d : Db Tables). d.tables) here ∙ kept

module _ {S : Type 0} (state : AppState S) (request : Request) where
  -- The code was accepted by the check of the sign-in, on the tables as they were.
  pub record CodeAccepted (o : Operator) (mfa_code : Text) (t : Tables) : Type 0 where
    pub before : Db Tables
    pub after : Db Tables
    pub same_tables : before.tables ≡ t
    pub accepted :
        verify_login_code state.password_crypto state.otp request.moment o.id_user
          (plain_text state.clean_markup mfa_code)
          before
        ≡ (ok true, after)

  pub record PasswordGiven (o : Operator) (current_password : Text) : Type 0 where
    pub verification : PasswordVerification
    pub checked :
        state.password_crypto.verify_password o.id_user o.encrypted_password_hash current_password
        ≡ ok verification
    pub is_valid : verification.valid ≡ true

  -- Both factors were proved, the second where the account has one.
  abbrev pub Proofs : Operator → Text → Text → Tables → Type 0
  Proofs o current_password mfa_code t =
      PasswordGiven o current_password × ((has_two_factors o t ≡ false) ⊎ CodeAccepted o mfa_code t)

  pub not_rejected :
      (message : String) (o : Operator) (w w' : World S)
      → return (rejected message) w ≡ (go_on (verified o), w')
      → ⊥
  not_rejected message o w w' e = let (there, is) = return-go_on (rejected message) w e in cc

  marked-verified :
      (o o' : Operator) (w w' : World S)
      → marked state request o w ≡ (go_on (verified o'), w')
      → o ≡ o'
  unfolding marked
  marked-verified o o' w w' e =
      let (u1, w1, r1, e1) =
        bind-go_on (in_db (record_reauthenticated request.moment o.id_user)) _ w e in
      let (u2, w2, r2, e2) = bind-go_on (mark_reauthenticated state request.moment.now) _ w1 e1 in
      let (fresh, w3, r3, e3) =
        bind-go_on (reauthenticated_within state request.moment.now step_up_freshness_seconds) _ w2
          e2 in
      let (there, is) = return-go_on (if fresh then verified o else unauthorized_step) w3 e3 in
      go fresh is
    where
      go : (b : Bool) → verified o' ≡ (if b then verified o else unauthorized_step) → o ≡ o'
      go true e = cc
      go false e = cc

  code_checked-accepted :
      (o : Operator) (mfa_code : Text) (w w' : World S)
      → code_checked state request o.id_user (plain_text state.clean_markup mfa_code) w
        ≡ (go_on true, w')
      → CodeAccepted o mfa_code w.db.tables
  unfolding code_checked
  code_checked-accepted o mfa_code w w' e =
      go (ltb 32 (byte_len (plain_text state.clean_markup mfa_code))) e
    where
      go :
          (b : Bool)
          → (if b
                then return false
                else in_db (
                    verify_login_code state.password_crypto state.otp request.moment o.id_user
                      (plain_text state.clean_markup mfa_code)))
              w
            ≡ (go_on true, w')
          → CodeAccepted o mfa_code w.db.tables
      go true e = cc
      go false e =
          let (db, ran, is) =
            in_db-go_on
              (verify_login_code state.password_crypto state.otp request.moment o.id_user
                (plain_text state.clean_markup mfa_code))
              w e in
          record { before = w.db; after = db; same_tables = refl; accepted = ran }

  after_code-verified :
      (o o' : Operator) (accepted : Bool) (w w' : World S)
      → after_code state request o accepted w ≡ (go_on (verified o'), w')
      → (o ≡ o') × (accepted ≡ true)
  unfolding after_code
  after_code-verified o o' true w w' e = (marked-verified o o' w w' e, refl)
  after_code-verified o o' false w w' e =
      absurd (not_rejected "The two-factor code is invalid or expired." o' w w' e)

  second_factor-verified :
      (o o' : Operator) (mfa_code : Text) (enabled : Bool) (w w' : World S)
      → second_factor state request o (plain_text state.clean_markup mfa_code) enabled w
        ≡ (go_on (verified o'), w')
      → (o ≡ o') × ((enabled ≡ false) ⊎ CodeAccepted o mfa_code w.db.tables)
  unfolding second_factor
  second_factor-verified o o' mfa_code false w w' e = (marked-verified o o' w w' e, inl refl)
  second_factor-verified o o' mfa_code true w w' e =
      go (is_empty (plain_text state.clean_markup mfa_code)) e
    where
      go :
          (b : Bool)
          → (if b
                then return (rejected "Enter your current two-factor code.")
                else (code_checked state request o.id_user (plain_text state.clean_markup mfa_code)
                    >>= after_code state request o))
              w
            ≡ (go_on (verified o'), w')
          → (o ≡ o') × ((true ≡ false) ⊎ CodeAccepted o mfa_code w.db.tables)
      go true e = absurd (not_rejected "Enter your current two-factor code." o' w w' e)
      go false e =
          let (accepted, w1, r1, e1) =
            bind-go_on
              (code_checked state request o.id_user (plain_text state.clean_markup mfa_code))
              (after_code state request o) w e in
          let (same, yes_) = after_code-verified o o' accepted w1 w' e1 in
          (same, inr (code_checked-accepted o mfa_code w w1 (r1 ∙ ap (λ b. (go_on b, w1)) yes_)))

  pub after_password-verified :
      (o o' : Operator) (current_password mfa_code : Text) (r : Result PasswordVerification)
      (w w' : World S)
      → state.password_crypto.verify_password o.id_user o.encrypted_password_hash current_password
        ≡ r
      → after_password state request o mfa_code r w ≡ (go_on (verified o'), w')
      → (o ≡ o') × Proofs o current_password mfa_code w.db.tables
  unfolding after_password
  after_password-verified o o' current_password mfa_code (err x) w w' checked e = cc
  after_password-verified o o' current_password mfa_code (ok verification) w w' checked e =
      go verification.valid refl e
    where
      go :
          (b : Bool)
          → verification.valid ≡ b
          → (if b
                then (in_db (is_enabled o.id_user)
                    >>= second_factor state request o (plain_text state.clean_markup mfa_code))
                else return (rejected "The current password is incorrect."))
              w
            ≡ (go_on (verified o'), w')
          → (o ≡ o') × Proofs o current_password mfa_code w.db.tables
      go false v e = absurd (not_rejected "The current password is incorrect." o' w w' e)
      go true v e =
          let (enabled, w1, r1, e1) =
            bind-go_on (in_db (is_enabled o.id_user))
              (second_factor state request o (plain_text state.clean_markup mfa_code)) w e in
          let (db, ran, is) = in_db-go_on (is_enabled o.id_user) w r1 in
          let (same, second) = second_factor-verified o o' mfa_code enabled w1 w' e1 in
          let kept : w1.db.tables ≡ w.db.tables =
            ap (λ (w : World S). w.db.tables) is ∙ is_enabled-Reads o.id_user enabled w.db db ran in
          let has = enabled_is state request o.id_user enabled w.db db ran in
          (
            same,
            (
              record { verification = verification; checked = checked; is_valid = v },
              elim second [
                | inl off ↦ inl (has ∙ off)
                | inr code ↦ inr (subst (CodeAccepted o mfa_code) kept code)
              ],
            ),
          )
