-- ===== src/Auth/Login/SignIn.antt =====
-- What a request that passes the password step of `login_submit` in src/controllers/auth.rs has shown,
-- and what its session holds afterwards.
use kraken_ui.Common.{◌≡◌, Bool, true, false, select_one}
use kraken_ui.Models.{Operator, Tables}
use kraken_ui.Mfa.{is_some, confirmed_only, of_user}
use kraken_ui.Handlers.{World, Request, AppState, Response, redirect, csrf_verify}
use kraken_ui.Handlers.Runs.{SessionView}
use kraken_ui.Auth.{is_console_role, admin_panel_path, mfa_challenge_path}
use kraken_ui.Auth.Established.{SignedIn, Parked}
use kraken_ui.Auth.Login.{LoginForm, username_of}
use kraken_ui.Auth.Login.Steps.{Proved}

module _ {S : Type 0} (state : AppState S) (view : SessionView state.sessions)
    (request : Request) where
  -- The operator has an active second factor.
  abbrev pub has_second_factor : Operator → Tables → Bool
  has_second_factor o t = is_some (confirmed_only (select_one (of_user o.id_user) t.totp))

  -- How the password step ends: with a marker for the second factor, or with a session.
  pub data Ended (o : Operator) (r : Response) (w w' : World S) : Type 0 where
    parked :
        has_second_factor o w.db.tables ≡ true
        → r ≡ redirect mfa_challenge_path
        → Parked state view request.moment.now o w w'
        → Ended o r w w'
    signed_in :
        has_second_factor o w.db.tables ≡ false
        → r ≡ redirect admin_panel_path
        → SignedIn state view request.moment.now o w'
        → Ended o r w w'

  pub record Passed (form : LoginForm) (r : Response) (w w' : World S) : Type 0 where
    pub account : Operator
    pub csrf : csrf_verify request form.csrf_token ≡ true
    pub proved :
        Proved state request (username_of state request form) form.password account w.db.tables
    pub console : is_console_role account.operator_type ≡ true
    pub ended : Ended account r w w'
