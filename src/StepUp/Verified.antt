-- ===== src/StepUp/Verified.antt =====
-- What the proof of identity in src/controllers/step_up.rs has established when it answers that the
-- administrator is verified.
use kraken_ui.Common.{
  ℕ, ◌≡◌, ◌⊎◌, refl, sym, ◌∙◌, ap, subst, Bool, true, false, ◌||◌, Option, none, some, Text, ltb,
  byte_len, is_empty, DbM, query, query-ok, select_one, if◌then◌else◌,
}
use kraken_ui.Models.{Operator, Tables}
use kraken_ui.Sessions.{user_id_field}
use kraken_ui.Operators.{has_id, find_by_id}
use kraken_ui.Handlers.{
  Request, AppState, World, go_on, return, in_db, in_session, secret_has_rejected_markup,
}
use kraken_ui.Handlers.Runs.{SessionView, bind-go_on, in_db-go_on, in_session-go_on}
use kraken_ui.Auth.{session_i64}
use kraken_ui.StepUp.{
  verified, rejected, authenticated_user_id, after_password, after_account, after_user, verify,
}
use kraken_ui.StepUp.Factors.{
  has_two_factors, CodeAccepted, PasswordGiven, not_rejected, after_password-verified,
}

module _ {S : Type 0} (state : AppState S) (request : Request) where
  -- The signed-in operator stands in the tables and has given its password, and its code where it has two factors.
  pub record Verified (o : Operator) (current_password mfa_code : Text) (id : ℕ) (t : Tables)
      : Type 0 where
    pub stands : select_one (has_id id) t.operators ≡ some o
    pub password : PasswordGiven state request o current_password
    pub second : (has_two_factors o t ≡ false) ⊎ CodeAccepted state request o mfa_code t

  after_account-verified :
      (o' : Operator) (current_password mfa_code : Text) (found : Option Operator) (id : ℕ)
      (w w' : World S)
      → select_one (has_id id) w.db.tables.operators ≡ found
      → after_account state request current_password mfa_code found w ≡ (go_on (verified o'), w')
      → Verified o' current_password mfa_code id w.db.tables
  unfolding after_account
  after_account-verified o' current_password mfa_code none id w w' stands e = cc
  after_account-verified o' current_password mfa_code (some o) id w w' stands e =
      go
        (is_empty current_password
          || (ltb 256 (byte_len current_password)
              || secret_has_rejected_markup state.clean_markup current_password))
        e
    where
      go :
          (b : Bool)
          → (if b
                then return (rejected "The current password is incorrect.")
                else after_password state request o mfa_code (
                    state.password_crypto.verify_password o.id_user o.encrypted_password_hash
                      current_password))
              w
            ≡ (go_on (verified o'), w')
          → Verified o' current_password mfa_code id w.db.tables
      go true e = absurd (not_rejected state request "The current password is incorrect." o' w w' e)
      go false e =
          let (same, (given, second)) =
            after_password-verified state request o o' current_password mfa_code
              (state.password_crypto.verify_password o.id_user o.encrypted_password_hash
                current_password)
              w w' refl e in
          subst (λ (x : Operator). Verified x current_password mfa_code id w.db.tables) same
            (record { stands = stands; password = given; second = second })

  after_user-verified :
      (o : Operator) (current_password mfa_code : Text) (found : Option ℕ) (w w' : World S)
      → after_user state request current_password mfa_code found w ≡ (go_on (verified o), w')
      → (id : ℕ) × (found ≡ some id) × Verified o current_password mfa_code id w.db.tables
  unfolding after_user find_by_id
  after_user-verified o current_password mfa_code none w w' e = cc
  after_user-verified o current_password mfa_code (some id) w w' e =
      let by_id : DbM Tables (Option Operator) = query (λ t. select_one (has_id id) t.operators) in
      let (found, w1, r1, e1) =
        bind-go_on (in_db by_id) (after_account state request current_password mfa_code) w e in
      let (db, asked, is) = in_db-go_on by_id w r1 in
      let (kept, got) = query-ok (λ t. select_one (has_id id) t.operators) w.db asked in
      let tables : w1.db.tables ≡ w.db.tables = ap (λ (w : World S). w.db.tables) is ∙ kept in
      (
        id,
        refl,
        subst (Verified o current_password mfa_code id) tables (
            after_account-verified o current_password mfa_code found id w1 w'
              (ap (λ (t : Tables). select_one (has_id id) t.operators) tables ∙ sym got) e1),
      )

  -- An operator that the step-up answers as verified is the one that the session names; it stands in
  -- the tables, has given its password, and has given an accepted code where it has a second factor.
  pub verify-Verified :
      (view : SessionView state.sessions) (o : Operator) (current_password mfa_code : Text)
      (w w' : World S)
      → verify state request current_password mfa_code w ≡ (go_on (verified o), w')
      → (id : ℕ) × (view.numbers w.session user_id_field ≡ some id)
        × Verified o current_password mfa_code id w.db.tables
  unfolding verify authenticated_user_id session_i64
  verify-Verified view o current_password mfa_code w w' e =
      let (found, w1, r1, e1) =
        bind-go_on (in_session (state.sessions.get_i64 user_id_field))
          (after_user state request current_password mfa_code) w e in
      let (s, ran, is) = in_session-go_on (state.sessions.get_i64 user_id_field) w r1 in
      let (got, numbers, texts) = view.get_i64-ok user_id_field w.session s found ran in
      let (id, there, proved) = after_user-verified o current_password mfa_code found w1 w' e1 in
      (
        id,
        sym got ∙ there,
        subst (Verified o current_password mfa_code id) (ap (λ (w : World S). w.db.tables) is)
            proved,
      )
