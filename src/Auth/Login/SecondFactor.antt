-- ===== src/Auth/Login/SecondFactor.antt =====
-- What a request that is signed in by `mfa_verify` of src/controllers/auth.rs has shown.
use kraken_ui.Common.{
  ℕ, ◌+◌, ◌*◌, ◌≤◌, ◌≢◌, ◌≡◌, refl, sym, ◌∙◌, ap, subst, Bool, true, false, Option, none, some,
  Text, codes, if◌then◌else◌, ltb, byte_len, ok, Db, DbM, query, query-ok, select_one,
}
use kraken_ui.Models.{Operator, Tables}
use kraken_ui.Operators.{has_id, find_by_id, record_authenticated}
use kraken_ui.Mfa.Login.{verify_login_code}
use kraken_ui.Handlers.{
  World, Request, AppState, Response, redirect, csrf_error, mfa_challenge, mfa_locked, go_on,
  return, answer, ◌>>◌, in_db, try_session, record_login_failure, record_login_success, csrf_verify,
  plain_text,
}
use kraken_ui.Handlers.Runs.{SessionView, bind-go_on, return-go_on, in_db-go_on}
use kraken_ui.Auth.{
  is_console_role, establish_session, clear_mfa_pending, mfa_pending_user_id,
  mfa_pending_user_id_field, mfa_pending_at_field, admin_panel_path, login_path,
}
use kraken_ui.Auth.Established.{SignedIn, establish_session-SignedIn}
use kraken_ui.Auth.Login.{
  MfaCodeForm, throttle_key, throttled, verified_csrf, pending_user, known_pending, accept_code,
  code_rejected, second_factor_done, after_code, mfa_verify,
}
use kraken_ui.Auth.Login.Marker.{mfa_pending_user_id-db, mfa_pending_user_id-some}
use kraken_ui.Auth.Login.Steps.{throttled-Kept}

module _ {S : Type 0} (state : AppState S) (view : SessionView state.sessions)
    (request : Request) where
  -- The request had a valid CSRF token, and its session held a marker that was at most five minutes
  -- old; the repository accepted the code for the marked account, whose role may use the console; the
  -- session is bound to it.
  pub record Completed (form : MfaCodeForm) (w w' : World S) : Type 0 where
    pub id_user : ℕ
    pub since : ℕ
    pub account : Operator
    pub checked : Db Tables
    pub accepted : Db Tables
    pub csrf : csrf_verify request form.csrf_token ≡ true
    pub marker : view.numbers w.session mfa_pending_user_id_field ≡ some id_user
    pub marked_at : view.numbers w.session mfa_pending_at_field ≡ some since
    pub since_set : since ≢ 0
    pub not_run_out : request.moment.now ≤ since + 5 * 60
    pub stands : select_one (has_id id_user) w.db.tables.operators ≡ some account
    pub unchanged : checked.tables ≡ w.db.tables
    pub code_accepted :
        verify_login_code state.password_crypto state.otp request.moment id_user
          (plain_text state.clean_markup form.code)
          checked
        ≡ (ok true, accepted)
    pub console : is_console_role account.operator_type ≡ true
    pub signed_in : SignedIn state view request.moment.now account w'

  same_path : redirect login_path ≡ redirect admin_panel_path → ⊥
  same_path e = cc

  csrf_passed :
      (csrf_token : Text) (w w' : World S) {u : Unit {0}}
      → verified_csrf state request csrf_token w ≡ (go_on u, w')
      → (csrf_verify request csrf_token ≡ true) × (w' ≡ w)
  unfolding verified_csrf
  csrf_passed csrf_token w w' {u} e = go (csrf_verify request csrf_token) e
    where
      go :
          (b : Bool)
          → (if b then return tt else answer csrf_error) w ≡ (go_on u, w')
          → (b ≡ true) × (w' ≡ w)
      go true e = (refl, cc)
      go false e = cc

  pending_user-ok :
      (found : Option ℕ) (w w' : World S) (id : ℕ)
      → pending_user state request found w ≡ (go_on id, w')
      → (found ≡ some id) × (w' ≡ w)
  unfolding pending_user
  pending_user-ok none w w' id e = cc
  pending_user-ok (some i) w w' id e = (cc, cc)

  known_pending-ok :
      (found : Option Operator) (w w' : World S) (o : Operator)
      → known_pending state request found w ≡ (go_on o, w')
      → (found ≡ some o) × (w' ≡ w)
  unfolding known_pending try_session
  known_pending-ok none w w' o e = cc
  known_pending-ok (some i) w w' o e = (cc, cc)

  accept_code-ok :
      (id : ℕ) (code : Text) (w w' : World S)
      → accept_code state request id code w ≡ (go_on true, w')
      → (db : Db Tables) × (verify_login_code state.password_crypto state.otp request.moment id code
            w.db
          ≡ (ok true, db))
  unfolding accept_code
  accept_code-ok id code w w' e = go (ltb 32 (byte_len code)) e
    where
      go :
          (b : Bool)
          → (if b
                then return false
                else in_db
                    (verify_login_code state.password_crypto state.otp request.moment id code))
              w
            ≡ (go_on true, w')
          → (db : Db Tables) × (verify_login_code state.password_crypto state.otp request.moment id
                code w.db
              ≡ (ok true, db))
      go true e = cc
      go false e =
          let (db, ran, is) =
            in_db-go_on (verify_login_code state.password_crypto state.otp request.moment id code) w
              e in
          (db, ran)

  second_factor_done-SignedIn :
      (id : ℕ) (o : Operator) (w w' : World S) {r : Response}
      → second_factor_done state request id o w ≡ (go_on r, w')
      → SignedIn state view request.moment.now o w'
  unfolding second_factor_done
  second_factor_done-SignedIn id o w w' e =
      let (u1, w1, r1, e1) = bind-go_on (record_login_success (throttle_key request id)) _ w e in
      let (u2, w2, r2, e2) =
        bind-go_on (in_db (record_authenticated request.moment o.id_user)) _ w1 e1 in
      let (u3, w3, r3, e3) = bind-go_on (clear_mfa_pending state) _ w2 e2 in
      let (u4, w4, r4, e4) = bind-go_on (establish_session state request.moment.now o) _ w3 e3 in
      let (here, is) = return-go_on (redirect admin_panel_path) w4 e4 in
      subst (SignedIn state view request.moment.now o) (sym here)
        (establish_session-SignedIn state view request.moment.now o w3 w4 r4)

  after_code-ok :
      (id : ℕ) (o : Operator) (accepted : Bool) (w w' : World S)
      → after_code state request id o accepted w ≡ (go_on (redirect admin_panel_path), w')
      → (accepted ≡ true)
        × (is_console_role o.operator_type ≡ true)
        × SignedIn state view request.moment.now o w'
  unfolding after_code code_rejected
  after_code-ok id o false w w' e =
      let (u, mid, ran, answered) =
        bind-go_on (record_login_failure request.instant (throttle_key request id)) _ w e in
      let (here, is) =
        return-go_on (mfa_challenge (codes "Invalid or expired code")) mid answered in
      cc
  after_code-ok id o true w w' e = go (is_console_role o.operator_type) refl e
    where
      go :
          (b : Bool)
          → is_console_role o.operator_type ≡ b
          → (if b
                then second_factor_done state request id o
                else (try_session state.sessions.flush >> return (redirect login_path)))
              w
            ≡ (go_on (redirect admin_panel_path), w')
          → (true ≡ true)
            × (is_console_role o.operator_type ≡ true)
            × SignedIn state view request.moment.now o w'
      go true p e = (refl, p, second_factor_done-SignedIn id o w w' e)
      go false p e =
          let (u, mid, ran, answered) = bind-go_on (try_session state.sessions.flush) _ w e in
          let (here, is) = return-go_on (redirect login_path) mid answered in
          absurd (same_path (sym is))

  -- A request that answers the challenge and is sent on to the console had a valid CSRF token, and
  -- its session held the marker of an account, set at most five minutes earlier; the repository
  -- accepted its code for the marked account, which stands in the database with a console role; and
  -- the session is bound to that account and its epoch.
  pub mfa_verify-Completed :
      (form : MfaCodeForm) (w w' : World S)
      → mfa_verify state request form w ≡ (go_on (redirect admin_panel_path), w')
      → Completed form w w'
  unfolding mfa_verify find_by_id
  mfa_verify-Completed form w w' e =
      let (u1, w1, r1, e1) = bind-go_on (verified_csrf state request form.csrf_token) _ w e in
      let (csrf, same1) = csrf_passed form.csrf_token w w1 r1 in
      let (found, w2, r2, e2) = bind-go_on (mfa_pending_user_id state request.moment.now) _ w1 e1 in
      let (id, w3, r3, e3) = bind-go_on (pending_user state request found) _ w2 e2 in
      let (is_marked, same3) = pending_user-ok found w2 w3 id r3 in
      let (u4, w4, r4, e4) =
        bind-go_on (throttled state request mfa_locked (throttle_key request id)) _ w3 e3 in
      let by_id : DbM Tables (Option Operator) = query (λ t. select_one (has_id id) t.operators) in
      let (row, w5, r5, e5) = bind-go_on (in_db by_id) _ w4 e4 in
      let (db, asked, is) = in_db-go_on by_id w4 r5 in
      let (kept, got) = query-ok (λ t. select_one (has_id id) t.operators) w4.db asked in
      let (o, w6, r6, e6) = bind-go_on (known_pending state request row) _ w5 e5 in
      let (known, same6) = known_pending-ok row w5 w6 o r6 in
      let (b, w7, r7, e7) =
        bind-go_on (accept_code state request id (plain_text state.clean_markup form.code)) _ w6
          e6 in
      let (yes_code, console, signed) = after_code-ok id o b w7 w' e7 in
      let tables : World S → Tables = λ w. w.db.tables in
      let before : w4.db.tables ≡ w.db.tables =
        ap (λ (d : Db Tables). d.tables)
          ((throttled-Kept state request mfa_locked (throttle_key request id) w3 w4 r4).same_db
            ∙ ap (λ (w : World S). w.db) same3
            ∙ mfa_pending_user_id-db state request.moment.now w1 w2 r2
            ∙ ap (λ (w : World S). w.db) same1) in
      let unchanged : w6.db.tables ≡ w.db.tables = ap tables same6 ∙ ap tables is ∙ kept ∙ before in
      let (accepted, code_ran) =
        accept_code-ok id (plain_text state.clean_markup form.code) w6 w7
          (r7 ∙ ap (λ (c : Bool). (go_on c, w7)) yes_code) in
      let (marker, since, marked_at, set, within) =
        mfa_pending_user_id-some state view request.moment.now w w2 id (
          ap (mfa_pending_user_id state request.moment.now) (sym same1)
          ∙ r2
          ∙ ap (λ (a : Option ℕ). (go_on a, w2)) is_marked) in
      record {
        id_user = id;
        since = since;
        account = o;
        checked = w6.db;
        accepted = accepted;
        csrf = csrf;
        marker = marker;
        marked_at = marked_at;
        since_set = set;
        not_run_out = within;
        stands =
            ap (λ (t : Tables). select_one (has_id id) t.operators) (sym before) ∙ sym got ∙ known;
        unchanged = unchanged;
        code_accepted = code_ran;
        console = console;
        signed_in = signed;
      }
