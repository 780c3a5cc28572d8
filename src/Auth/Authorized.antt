-- ===== src/Auth/Authorized.antt =====
-- What the check of a guarded request in src/controllers/auth.rs and
-- src/middleware/authentication.rs has established when it lets the request through.
use kraken_ui.Common.{
  ℕ, ◌+◌, ◌<◌, ◌≡◌, refl, sym, ◌∙◌, ap, min, Bool, true, false, not, ◌||◌, Option, none, some, Text,
  arith, leb, ◌==◌, if◌then◌else◌, query, query-ok, select_one,
}
use kraken_ui.Models.{Operator, Tables}
use kraken_ui.Operators.{has_id, find_by_id}
use kraken_ui.Roles.{OperatorRole, admin, operator, auditor, role_eq, parse}
use kraken_ui.Sessions.{user_id_field}
use kraken_ui.Gcra.{i64_max}
use kraken_ui.Handlers.{World, AppState, go_on, return, ◌>>=◌, in_db, in_session, try_session}
use kraken_ui.Handlers.Runs.{SessionView, bind-go_on, return-go_on, in_db-go_on, in_session-go_on}
use kraken_ui.Auth.{
  authenticated_operator_type_field, authenticated_authz_version_field, authenticated_at_field,
  session_i64, authenticated_role, parse_option, flushed, with_current, with_operator, with_time,
  with_version, with_role, with_user, authorized_role, rotate_session_id_if_due,
}

same_role : (a b : OperatorRole) → role_eq a b ≡ true → a ≡ b
same_role admin admin e = refl
same_role operator operator e = refl
same_role auditor auditor e = refl
same_role admin operator e = cc
same_role admin auditor e = cc
same_role operator admin e = cc
same_role operator auditor e = cc
same_role auditor admin e = cc
same_role auditor operator e = cc

module _ {S : Type 0} (state : AppState S) (view : SessionView state.sessions) (now : ℕ) where
  -- The session names an operator that stands in the database with the session's role and epoch, and
  -- it was signed in less than the limit ago.
  pub record Authorized (role : OperatorRole) (w : World S) : Type 0 where
    pub id_user : ℕ
    pub account : Operator
    pub operator_type : Text
    pub authenticated_at : ℕ
    pub user : view.numbers w.session user_id_field ≡ some id_user
    pub session_type : view.texts w.session authenticated_operator_type_field ≡ some operator_type
    pub session_role : parse operator_type ≡ some role
    pub epoch :
        view.numbers w.session authenticated_authz_version_field ≡ some account.authz_version
    pub signed_in : view.numbers w.session authenticated_at_field ≡ some authenticated_at
    pub in_time : now < authenticated_at + min state.admin_session_time_limit_seconds i64_max
    pub stands : select_one (has_id id_user) w.db.tables.operators ≡ some account
    pub current_role : parse account.operator_type ≡ some role

  -- The session and the tables as they were at the start.
  record Same (w0 w : World S) : Type 0 where
    numbers : view.numbers w.session ≡ view.numbers w0.session
    texts : view.texts w.session ≡ view.texts w0.session
    tables : w.db.tables ≡ w0.db.tables

  chained : (w0 w w' : World S) → Same w0 w → Same w w' → Same w0 w'
  chained w0 w w' a b = record {
    numbers = b.numbers ∙ a.numbers;
    texts = b.texts ∙ a.texts;
    tables = b.tables ∙ a.tables;
  }

  read_number :
      (key : Text) (w w' : World S) (a : Option ℕ)
      → session_i64 state key w ≡ (go_on a, w')
      → (a ≡ view.numbers w.session key) × Same w w'
  unfolding session_i64
  read_number key w w' a e =
      let (s, ran, is) = in_session-go_on (state.sessions.get_i64 key) w e in
      let (got, numbers, texts) = view.get_i64-ok key w.session s a ran in
      (
        got,
        record {
          numbers = ap (λ (w : World S). view.numbers w.session) is ∙ numbers;
          texts = ap (λ (w : World S). view.texts w.session) is ∙ texts;
          tables = ap (λ (w : World S). w.db.tables) is;
        },
      )

  read_role :
      (w w' : World S) (a : Option OperatorRole)
      → authenticated_role state w ≡ (go_on a, w')
      → (a ≡ parse_option (view.texts w.session authenticated_operator_type_field)) × Same w w'
  unfolding authenticated_role
  read_role w w' a e =
      let key = authenticated_operator_type_field in
      let (text, mid, asked, answered) =
        bind-go_on (in_session (state.sessions.get_string key)) _ w e in
      let (s, ran, is) = in_session-go_on (state.sessions.get_string key) w asked in
      let (got, numbers, texts) = view.get_string-ok key w.session s text ran in
      let (there, same) = return-go_on (parse_option text) mid answered in
      (
        same ∙ ap parse_option got,
        record {
          numbers = ap (λ (w : World S). view.numbers w.session) (there ∙ is) ∙ numbers;
          texts = ap (λ (w : World S). view.texts w.session) (there ∙ is) ∙ texts;
          tables = ap (λ (w : World S). w.db.tables) (there ∙ is);
        },
      )

  -- A refusal answers with no role.
  flushed-none :
      (w w' : World S) (role : OperatorRole) → flushed state w ≡ (go_on (some role), w') → ⊥
  unfolding flushed try_session
  flushed-none w w' role e = cc

  with_current-ok :
      (role session_role : OperatorRole) (version : ℕ) (o : Operator) (found : Option OperatorRole)
      (w w' : World S)
      → with_current state now session_role version o found w ≡ (go_on (some role), w')
      → (found ≡ some role) × (role ≡ session_role) × (o.authz_version ≡ version)
  unfolding with_current
  with_current-ok role session_role version o none w w' e = absurd (flushed-none w w' role e)
  with_current-ok role session_role version o (some current) w w' e =
      go (role_eq current session_role) (o.authz_version == version) refl refl e
    where
      go :
          (a b : Bool)
          → role_eq current session_role ≡ a
          → (o.authz_version == version) ≡ b
          → (if not a || not b
                then flushed state
                else (rotate_session_id_if_due state now >>= λ _. return (some current)))
              w
            ≡ (go_on (some role), w')
          → (◌≡◌ {A = Option OperatorRole} (some current) (some role))
            × (role ≡ session_role)
            × (o.authz_version ≡ version)
      go true true p q e =
          let (u, mid, ran, answered) = bind-go_on (rotate_session_id_if_due state now) _ w e in
          let (there, is) = return-go_on {A = Option OperatorRole} (some current) mid answered in
          let same : role ≡ current = cc in
          (sym is, same ∙ same_role current session_role p, ground arith)
      go true false p q e = absurd (flushed-none w w' role e)
      go false true p q e = absurd (flushed-none w w' role e)
      go false false p q e = absurd (flushed-none w w' role e)

  -- What is left of a run that is authorized, once the session's values are known.
  module _ (w0 : World S) (role : OperatorRole) (id_user : ℕ)
      (user : view.numbers w0.session user_id_field ≡ some id_user) (operator_type : Text)
      (session_type : view.texts w0.session authenticated_operator_type_field ≡ some operator_type)
      (session_role : OperatorRole) (parsed : parse operator_type ≡ some session_role) (version : ℕ)
      (epoch : view.numbers w0.session authenticated_authz_version_field ≡ some version) where
    with_operator-ok :
        (authenticated_at : ℕ) (found : Option Operator) (w w' : World S)
        → view.numbers w0.session authenticated_at_field ≡ some authenticated_at
        → now < authenticated_at + min state.admin_session_time_limit_seconds i64_max
        → select_one (has_id id_user) w0.db.tables.operators ≡ found
        → with_operator state now session_role version found w ≡ (go_on (some role), w')
        → Authorized role w0
    unfolding with_operator
    with_operator-ok authenticated_at none w w' at_ time stands e =
        absurd (flushed-none w w' role e)
    with_operator-ok authenticated_at (some o) w w' at_ time stands e =
        let (current, same, same_version) =
          with_current-ok role session_role version o (parse o.operator_type) w w' e in
        record {
          id_user = id_user;
          account = o;
          operator_type = operator_type;
          authenticated_at = authenticated_at;
          user = user;
          session_type = session_type;
          session_role = parsed ∙ ap some (sym same);
          epoch = epoch ∙ ap some (sym same_version);
          signed_in = at_;
          in_time = time;
          stands = stands;
          current_role = current;
        }

    not_over : (a b : ℕ) → leb a b ≡ false → b < a
    not_over a b e = ground arith

    with_time-ok :
        (found : Option ℕ) (w w' : World S)
        → view.numbers w0.session authenticated_at_field ≡ found
        → w.db.tables ≡ w0.db.tables
        → with_time state now id_user session_role version found w ≡ (go_on (some role), w')
        → Authorized role w0
    unfolding with_time find_by_id
    with_time-ok none w w' at_ tables e = absurd (flushed-none w w' role e)
    with_time-ok (some authenticated_at) w w' at_ tables e =
        go (leb (authenticated_at + min state.admin_session_time_limit_seconds i64_max) now) refl e
      where
        go :
            (b : Bool)
            → leb (authenticated_at + min state.admin_session_time_limit_seconds i64_max) now ≡ b
            → (if b
                  then flushed state
                  else (in_db (query (λ t. select_one (has_id id_user) t.operators))
                      >>= with_operator state now session_role version))
                w
              ≡ (go_on (some role), w')
            → Authorized role w0
        go true p e = absurd (flushed-none w w' role e)
        go false p e =
            let (found, mid, asked, ran) =
              bind-go_on (in_db (query (λ t. select_one (has_id id_user) t.operators))) _ w e in
            let (db, read, is) =
              in_db-go_on (query (λ t. select_one (has_id id_user) t.operators)) w asked in
            let (kept, got) = query-ok (λ t. select_one (has_id id_user) t.operators) w.db read in
            with_operator-ok authenticated_at found mid w' at_ (not_over _ now p)
              (ap (λ (t : Tables). select_one (has_id id_user) t.operators) (sym tables) ∙ sym got)
              ran

  with_version-ok :
      (w0 : World S) (role : OperatorRole) (id_user : ℕ) (operator_type : Text)
      (session_role : OperatorRole) (found : Option ℕ) (w w' : World S)
      → view.numbers w0.session user_id_field ≡ some id_user
      → view.texts w0.session authenticated_operator_type_field ≡ some operator_type
      → parse operator_type ≡ some session_role
      → view.numbers w0.session authenticated_authz_version_field ≡ found
      → Same w0 w
      → with_version state now id_user session_role found w ≡ (go_on (some role), w')
      → Authorized role w0
  unfolding with_version
  with_version-ok w0 role id_user operator_type session_role none w w' user ty parsed epoch same e =
      absurd (flushed-none w w' role e)
  with_version-ok w0 role id_user operator_type session_role (some version) w w' user ty parsed
        epoch same e =
      let (found, mid, asked, ran) =
        bind-go_on (session_i64 state authenticated_at_field)
          (with_time state now id_user session_role version) w e in
      let (got, kept) = read_number authenticated_at_field w mid found asked in
      with_time-ok w0 role id_user user operator_type ty session_role parsed version epoch found mid
        w' (sym (ap (λ (f : Text → Option ℕ). f authenticated_at_field) same.numbers) ∙ sym got)
        (kept.tables ∙ same.tables) ran

  split_role :
      (found : Option Text) (r : OperatorRole)
      → parse_option found ≡ some r
      → (t : Text) × (found ≡ some t) × (parse t ≡ some r)
  split_role none r e = cc
  split_role (some t) r e = (t, refl, e)

  with_role-ok :
      (w0 : World S) (role : OperatorRole) (id_user : ℕ) (found : Option OperatorRole)
      (w w' : World S)
      → view.numbers w0.session user_id_field ≡ some id_user
      → parse_option (view.texts w0.session authenticated_operator_type_field) ≡ found
      → Same w0 w
      → with_role state now id_user found w ≡ (go_on (some role), w')
      → Authorized role w0
  unfolding with_role
  with_role-ok w0 role id_user none w w' user parsed same e = absurd (flushed-none w w' role e)
  with_role-ok w0 role id_user (some session_role) w w' user parsed same e =
      let (operator_type, ty, parses) = split_role _ session_role parsed in
      let (found, mid, asked, ran) =
        bind-go_on (session_i64 state authenticated_authz_version_field)
          (with_version state now id_user session_role) w e in
      let (got, kept) = read_number authenticated_authz_version_field w mid found asked in
      with_version-ok w0 role id_user operator_type session_role found mid w' user ty parses
        (sym (ap (λ (f : Text → Option ℕ). f authenticated_authz_version_field) same.numbers)
          ∙ sym got)
        (chained w0 w mid same kept) ran

  with_user-ok :
      (w0 : World S) (role : OperatorRole) (found : Option ℕ) (w w' : World S)
      → view.numbers w0.session user_id_field ≡ found
      → Same w0 w
      → with_user state now found w ≡ (go_on (some role), w')
      → Authorized role w0
  unfolding with_user
  with_user-ok w0 role none w w' user same e = cc
  with_user-ok w0 role (some id_user) w w' user same e =
      let (found, mid, asked, ran) =
        bind-go_on (authenticated_role state) (with_role state now id_user) w e in
      let (got, kept) = read_role w mid found asked in
      with_role-ok w0 role id_user found mid w' user
        (sym (
            ap (λ (f : Text → Option Text). parse_option (f authenticated_operator_type_field))
              same.texts)
          ∙ sym got)
        (chained w0 w mid same kept) ran

  -- A session that is let through names an operator that stands in the database, whose current role
  -- and epoch are those of the session, and it was signed in less than the absolute limit ago.
  pub authorized_role-Authorized :
      (role : OperatorRole) (w w' : World S)
      → authorized_role state now w ≡ (go_on (some role), w')
      → Authorized role w
  unfolding authorized_role
  authorized_role-Authorized role w w' e =
      let (found, mid, asked, ran) =
        bind-go_on (session_i64 state user_id_field) (with_user state now) w e in
      let (got, kept) = read_number user_id_field w mid found asked in
      with_user-ok w role found mid w' (sym got) kept ran
