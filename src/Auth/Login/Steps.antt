-- ===== src/Auth/Login/Steps.antt =====
-- The steps of `login_submit` in src/controllers/auth.rs that let a request go on.
use kraken_ui.Common.{
  ℕ, ◌≡◌, refl, sym, ◌∙◌, ap, subst, Bool, true, false, Option, none, some, List, Text, ◌++◌,
  text_eq, codes, if◌then◌else◌, Result, ok, err, Db, DbM, query, query-ok, bind-ok, pure-ok,
  select_one,
}
use kraken_ui.Models.{Operator, TotpRow, Tables}
use kraken_ui.Operators.Epochs.{update_encrypted_password-totp}
use kraken_ui.Operators.{PasswordVerification, find_by_username, update_encrypted_password}
use kraken_ui.Mfa.{is_enabled, is_some, confirmed_only, of_user, totp_row}
use kraken_ui.Handlers.{
  World, Request, AppState, Response, csrf_error, login_invalid, Flow, go_on, return, answer, in_db,
  locked_for, record_login_success, persistent_login_retry_after, csrf_verify,
}
use kraken_ui.Handlers.Runs.{
  bind-go_on, return-go_on, in_db-go_on, persistent_login_retry_after-keeps,
}
use kraken_ui.Auth.{is_console_role}
use kraken_ui.Auth.Login.{
  stop_if, throttled, login_fails, register_login_failure, known_operator, valid_password,
  store_replacement, authenticate, admitted_to_console, checked_input, verified_csrf,
}

module _ {S : Type 0} (state : AppState S) (request : Request) where
  -- Nothing but the throttles has changed.
  pub record Kept (w w' : World S) : Type 0 where
    pub same_db : w'.db ≡ w.db
    pub same_session : w'.session ≡ w.session

  pub carried : (w w1 w2 : World S) → Kept w w1 → Kept w1 w2 → Kept w w2
  carried w w1 w2 a b = record {
    same_db = b.same_db ∙ a.same_db;
    same_session = b.same_session ∙ a.same_session;
  }

  unmoved : (w w' : World S) → w' ≡ w → Kept w w'
  unmoved w w' e = record {
    same_db = ap (λ (w : World S). w.db) e;
    same_session = ap (λ (w : World S). w.session) e;
  }

  stop_if-Kept :
      (locked : ℕ → Response) (found : Option ℕ) (w w' : World S) {u : Unit {0}}
      → stop_if state request locked found w ≡ (go_on u, w')
      → Kept w w'
  unfolding stop_if
  stop_if-Kept locked none w w' e = unmoved w w' cc
  stop_if-Kept locked (some remaining) w w' e = cc

  locked_for-Kept :
      (key : Text) (w w' : World S) {a : Option ℕ}
      → locked_for request.instant key w ≡ (go_on a, w')
      → Kept w w'
  unfolding locked_for
  locked_for-Kept key w w' e = record {
    same_db = sym (ap (λ (r : Flow (Option ℕ) × World S). r.1.db) e);
    same_session = sym (ap (λ (r : Flow (Option ℕ) × World S). r.1.session) e);
  }

  persistent-Kept :
      (key : Text) (w w' : World S) {a : Option ℕ}
      → persistent_login_retry_after request.now_us key w ≡ (go_on a, w')
      → Kept w w'
  persistent-Kept key w w' e =
      let (db, session) = persistent_login_retry_after-keeps request.now_us key w in
      record {
        same_db = sym (ap (λ (r : Flow (Option ℕ) × World S). r.1.db) e) ∙ db;
        same_session = sym (ap (λ (r : Flow (Option ℕ) × World S). r.1.session) e) ∙ session;
      }

  pub throttled-Kept :
      (locked : ℕ → Response) (key : Text) (w w' : World S) {u : Unit {0}}
      → throttled state request locked key w ≡ (go_on u, w')
      → Kept w w'
  unfolding throttled
  throttled-Kept locked key w w' e =
      let (a1, w1, r1, e1) = bind-go_on (locked_for request.instant key) _ w e in
      let (a2, w2, r2, e2) = bind-go_on (stop_if state request locked a1) _ w1 e1 in
      let (a3, w3, r3, e3) =
        bind-go_on (persistent_login_retry_after request.now_us (codes "login:" ++ key)) _ w2 e2 in
      carried w w1 w' (locked_for-Kept key w w1 r1) (
        carried w1 w2 w' (stop_if-Kept locked a1 w1 w2 r2) (
          carried w2 w3 w' (persistent-Kept (codes "login:" ++ key) w2 w3 r3)
            (stop_if-Kept locked a3 w3 w' e3)))

  pub verified_csrf-ok :
      (csrf_token : Text) (w w' : World S) {u : Unit {0}}
      → verified_csrf state request csrf_token w ≡ (go_on u, w')
      → (csrf_verify request csrf_token ≡ true) × Kept w w'
  unfolding verified_csrf
  verified_csrf-ok csrf_token w w' {u} e = go (csrf_verify request csrf_token) e
    where
      go :
          (b : Bool)
          → (if b then return tt else answer csrf_error) w ≡ (go_on u, w')
          → (b ≡ true) × Kept w w'
      go true e = (refl, unmoved w w' cc)
      go false e = cc

  -- A failed attempt ends the request.
  login_fails-ends :
      {A : Type 0} (username : Text) (w w' : World S) (a : A)
      → login_fails state request username w ≡ (go_on a, w')
      → ⊥
  unfolding login_fails
  login_fails-ends {A} username w w' a e =
      let (u, mid, ran, ended) =
        bind-go_on (register_login_failure state request username)
          (λ _. answer {A = A} login_invalid) w e in
      cc

  pub checked_input-Kept :
      (username password : Text) (w w' : World S) {u : Unit {0}}
      → checked_input state request username password w ≡ (go_on u, w')
      → Kept w w'
  unfolding checked_input
  checked_input-Kept username password w w' {u} e = go _ e
    where
      go :
          (b : Bool)
          → (if b then login_fails state request username else return tt) w ≡ (go_on u, w')
          → Kept w w'
      go true e = absurd (login_fails-ends username w w' u e)
      go false e = unmoved w w' cc

  known_operator-ok :
      (username : Text) (found : Option Operator) (w w' : World S) (o : Operator)
      → known_operator state request username found w ≡ (go_on o, w')
      → (found ≡ some o) × (w' ≡ w)
  unfolding known_operator
  known_operator-ok username none w w' o e = absurd (login_fails-ends username w w' o e)
  known_operator-ok username (some o') w w' o e = (cc, cc)

  valid_password-ok :
      (username : Text) (r : Result PasswordVerification) (w w' : World S)
      (v : PasswordVerification)
      → valid_password state request username r w ≡ (go_on v, w')
      → (r ≡ ok v) × (v.valid ≡ true) × (w' ≡ w)
  unfolding valid_password
  valid_password-ok username (err x) w w' v e = absurd (login_fails-ends username w w' v e)
  valid_password-ok username (ok v') w w' v e = go v'.valid refl e
    where
      go :
          (b : Bool)
          → v'.valid ≡ b
          → (if b then return v' else login_fails state request username) w ≡ (go_on v, w')
          → (ok v' ≡ ok v) × (v.valid ≡ true) × (w' ≡ w)
      go true p e =
          let same : v' ≡ v = cc in
          (ap ok same, ap (λ (v : PasswordVerification). v.valid) (sym same) ∙ p, cc)
      go false p e = absurd (login_fails-ends username w w' v e)

  -- The password was the account's.
  pub record Proved (username password : Text) (o : Operator) (t : Tables) : Type 0 where
    pub verification : PasswordVerification
    pub found : select_one (λ x. text_eq x.username username) t.operators ≡ some o
    pub verified :
        state.password_crypto.verify_password o.id_user o.encrypted_password_hash password
        ≡ ok verification
    pub is_valid : verification.valid ≡ true

  store_replacement-totp :
      (id : ℕ) (hash : Option Text) (w w' : World S) {u : Unit {0}}
      → store_replacement state request id hash w ≡ (go_on u, w')
      → (w'.db.tables.totp ≡ w.db.tables.totp) × (w'.session ≡ w.session)
  unfolding store_replacement
  store_replacement-totp id none w w' e = (
    ap (λ (r : Flow (Unit {0}) × World S). r.1.db.tables.totp) (sym e),
    ap (λ (r : Flow (Unit {0}) × World S). r.1.session) (sym e),
  )
  store_replacement-totp id (some hash) w w' {u} e =
      let (db, ran, is) = in_db-go_on (update_encrypted_password request.moment id hash) w e in
      (
        ap (λ (w : World S). w.db.tables.totp) is
            ∙ ap (λ (r : Result (Unit {0}) × Db Tables). r.1.tables.totp) (sym ran)
            ∙ update_encrypted_password-totp request.moment id hash w.db,
        ap (λ (w : World S). w.session) is,
      )

  pub authenticate-Proved :
      (username password : Text) (w w' : World S) (o : Operator)
      → authenticate state request username password w ≡ (go_on o, w')
      → Proved username password o w.db.tables
        × (w'.db.tables.totp ≡ w.db.tables.totp)
        × (w'.session ≡ w.session)
  unfolding authenticate find_by_username
  authenticate-Proved username password w w' o e =
      let by_name : DbM Tables (Option Operator) =
        query (λ t. select_one (λ x. text_eq x.username username) t.operators) in
      let (found, w1, r1, e1) = bind-go_on (in_db by_name) _ w e in
      let (db, asked, is) = in_db-go_on by_name w r1 in
      let (kept, got) =
        query-ok (λ t. select_one (λ x. text_eq x.username username) t.operators) w.db asked in
      let (o', w2, r2, e2) = bind-go_on (known_operator state request username found) _ w1 e1 in
      let (v, w3, r3, e3) =
        bind-go_on
          (valid_password state request username
            (state.password_crypto.verify_password o'.id_user o'.encrypted_password_hash password))
          _ w2 e2 in
      let (u, w4, r4, e4) =
        bind-go_on (store_replacement state request o'.id_user v.replacement_record) _ w3 e3 in
      let (here, same) = return-go_on o' w4 e4 in
      let (known, same2) = known_operator-ok username found w1 w2 o' r2 in
      let (verified, is_valid, same3) = valid_password-ok username _ w2 w3 v r3 in
      let totp : Tables → List TotpRow = λ t. t.totp in
      let (renewed, same_session) =
        store_replacement-totp o'.id_user v.replacement_record w3 w4 r4 in
      (
        subst (λ (x : Operator). Proved username password x w.db.tables) (sym same)
            (record {
              verification = v;
              found = sym got ∙ known;
              verified = verified;
              is_valid = is_valid;
            }),
        ap (λ (w : World S). w.db.tables.totp) here
            ∙ renewed
            ∙ ap (λ (w : World S). w.db.tables.totp) (same3 ∙ same2 ∙ is)
            ∙ ap totp kept,
        ap (λ (w : World S). w.session) here
            ∙ same_session
            ∙ ap (λ (w : World S). w.session) (same3 ∙ same2 ∙ is),
      )

  pub enabled_is :
      (id : ℕ) (b : Bool) (db db' : Db Tables)
      → is_enabled id db ≡ (ok b, db')
      → is_some (confirmed_only (select_one (of_user id) db.tables.totp)) ≡ b
  unfolding is_enabled totp_row
  enabled_is id b db db' e =
      let (found, mid, asked, answered) =
        bind-ok (query (λ t. select_one (of_user id) t.totp)) _ db e in
      let (kept, got) = query-ok (λ t. select_one (of_user id) t.totp) db asked in
      let (here, is) = pure-ok (is_some (confirmed_only found)) mid answered in
      sym (ap (λ (x : Option TotpRow). is_some (confirmed_only x)) got) ∙ sym is

  pub success-Kept :
      (key : Text) (w w' : World S) {u : Unit {0}}
      → record_login_success key w ≡ (go_on u, w')
      → Kept w w'
  unfolding record_login_success
  success-Kept key w w' e = record {
    same_db = sym (ap (λ (r : Flow (Unit {0}) × World S). r.1.db) e);
    same_session = sym (ap (λ (r : Flow (Unit {0}) × World S). r.1.session) e);
  }

  pub admitted-ok :
      (o : Operator) (w w' : World S) {u : Unit {0}}
      → admitted_to_console state request o w ≡ (go_on u, w')
      → (is_console_role o.operator_type ≡ true) × Kept w w'
  unfolding admitted_to_console
  admitted-ok o w w' {u} e = go (is_console_role o.operator_type) e
    where
      go :
          (b : Bool)
          → (if b then return tt else answer login_invalid) w ≡ (go_on u, w')
          → (b ≡ true) × Kept w w'
      go true e = (refl, unmoved w w' cc)
      go false e = cc
