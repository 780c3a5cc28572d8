-- ===== src/Acl/Remains.antt =====
-- However the requests of src/controllers/acl.rs follow one another, an administrator remains.
use kraken_ui.Common.{
  ℕ, ◌≡◌, refl, ◌∙◌, ap, subst, Bool, true, false, Option, none, some, List, [], ◌∷◌, Text, text_eq,
  ok, if◌then◌else◌,
}
use kraken_ui.Roles.{OperatorRole, admin, operator, auditor, contains, parse, all_roles}
use kraken_ui.Models.{Tables}
use kraken_ui.Sessions.{user_id_field}
use kraken_ui.Operators.Administrator.{IsAdministrator}
use kraken_ui.Handlers.{Request, AppState, World, Response, Flow, redirect, go_on, respond, failed}
use kraken_ui.Handlers.Runs.{SessionView}
use kraken_ui.Handlers.Leaves.{Kept, Left, Any}
use kraken_ui.Auth.{guard, guarded, authorized_role, session_rotated_at_field, login_path}
use kraken_ui.Auth.Authorized.{authorized_role-Authorized}
use kraken_ui.Auth.Leaving.{LetIn, authorized_role-Checks}
use kraken_ui.Acl.{insert_user_action, delete_user_action, update_user_action}
use kraken_ui.Acl.Password.{update_password_action}
use kraken_ui.Acl.Own.{insert-Ends, delete-Ends}
use kraken_ui.Acl.OwnUpdate.{update-Ends}
use kraken_ui.Acl.OwnPassword.{password-Keeps}
use kraken_ui.Acl.Requests.{
  Submission, inserts, deletes, updates, changes_password, Visit, answered, routed, visited,
  visited_all,
}

-- Some operator of the table is an administrator, and ids are below the counter.
abbrev pub HasAdministrator : Tables → Type 0
HasAdministrator t = (a : ℕ) × IsAdministrator a t

only_admin : (role : OperatorRole) → contains (admin ∷ []) role ≡ true → role ≡ admin
only_admin admin e = refl
only_admin operator e = cc
only_admin auditor e = cc

module _ {S : Type 0} (state : AppState S) (view : SessionView state.sessions) (now : ℕ) where
  module _ (a : ℕ) where
    number_named :
        (key : Text) (s s' : S) (x : Option ℕ)
        → view.numbers s user_id_field ≡ some a
        → state.sessions.get_i64 key s ≡ (ok x, s')
        → view.numbers s' user_id_field ≡ some a
    number_named key s s' x named e =
        let (got, numbers, texts) = view.get_i64-ok key s s' x e in
        ap (λ (n : Text → Option ℕ). n user_id_field) numbers ∙ named

    text_named :
        (key : Text) (s s' : S) (x : Option Text)
        → view.numbers s user_id_field ≡ some a
        → state.sessions.get_string key s ≡ (ok x, s')
        → view.numbers s' user_id_field ≡ some a
    text_named key s s' x named e =
        let (got, numbers, texts) = view.get_string-ok key s s' x e in
        ap (λ (n : Text → Option ℕ). n user_id_field) numbers ∙ named

    cycled_named :
        (s s' : S) (u : Unit {0})
        → view.numbers s user_id_field ≡ some a
        → state.sessions.cycle_id s ≡ (ok u, s')
        → view.numbers s' user_id_field ≡ some a
    cycled_named s s' u named e =
        let (numbers, texts) = view.cycle_id-ok s s' e in
        ap (λ (n : Text → Option ℕ). n user_id_field) numbers ∙ named

    rotated_named :
        (s s' : S) (u : Unit {0})
        → view.numbers s user_id_field ≡ some a
        → state.sessions.insert_i64 session_rotated_at_field now s ≡ (ok u, s')
        → view.numbers s' user_id_field ≡ some a
    unfolding text_eq
    rotated_named s s' u named e =
        let (numbers, texts) = view.insert_i64-ok session_rotated_at_field now s s' e in
        ap (λ (n : Text → Option ℕ). n user_id_field) numbers ∙ named

  -- A request that is let in keeps the identity of the session.
  let_in :
      (a : ℕ) (role : OperatorRole) (w mid : World S)
      → view.numbers w.session user_id_field ≡ some a
      → IsAdministrator a w.db.tables
      → authorized_role state now w ≡ (go_on (some role), mid)
      → (view.numbers mid.session user_id_field ≡ some a) × IsAdministrator a mid.db.tables
  let_in a role w mid named p e =
      subst
        (λ (r : Flow (Option OperatorRole) × World S).
          Left (IsAdministrator a)
            (LetIn state now (IsAdministrator a) (λ s. view.numbers s user_id_field ≡ some a)
              (number_named a) (text_named a) (cycled_named a) (rotated_named a))
            r)
        e
        (authorized_role-Checks state now (IsAdministrator a)
          (λ s. view.numbers s user_id_field ≡ some a) (number_named a) (text_named a)
          (cycled_named a) (rotated_named a) w (named, p))

  -- One that is not let in leaves the tables alone.
  kept_out :
      (P : Tables → Type 0) (w : World S)
      → P w.db.tables
      → P (authorized_role state now w).1.db.tables
  kept_out P w p = go (authorized_role state now w) (
      authorized_role-Checks state now P Any (λ key s s' x b e. tt) (λ key s s' x b e. tt)
        (λ s s' u b e. tt) (λ s s' u b e. tt) w (tt, p))
    where
      go :
          (r : Flow (Option OperatorRole) × World S)
          → Left P
              (LetIn state now P Any
                (λ key s s' x b e. tt)
                (λ key s s' x b e. tt)
                (λ s s' u b e. tt)
                (λ s s' u b e. tt))
              r
          → P r.1.db.tables
      go (go_on none, w) (b, p) = p
      go (go_on (some role), w) (b, p) = p
      go (respond x, w) p = p
      go (failed x, w) p = p

  administrator_let_in :
      (next : World S → Response × World S) (w : World S)
      → HasAdministrator w.db.tables
      → ((a : ℕ) (mid : World S)
          → view.numbers mid.session user_id_field ≡ some a
          → IsAdministrator a mid.db.tables
          → HasAdministrator (next mid).1.db.tables)
      → HasAdministrator (guard state now next (admin ∷ []) w).1.db.tables
  unfolding guard guarded
  administrator_let_in next w (b, (bounded, there)) runs = go (authorized_role state now w) refl
    where
      start : HasAdministrator (authorized_role state now w).1.db.tables
      start = kept_out HasAdministrator w (b, (bounded, there))

      go :
          (r : Flow (Option OperatorRole) × World S)
          → authorized_role state now w ≡ r
          → HasAdministrator (guarded state next (admin ∷ []) r).1.db.tables
      go (go_on none, mid) e =
          subst (λ (r : Flow (Option OperatorRole) × World S). HasAdministrator r.1.db.tables) e
            start
      go (respond x, mid) e =
          subst (λ (r : Flow (Option OperatorRole) × World S). HasAdministrator r.1.db.tables) e
            start
      go (failed x, mid) e =
          subst (λ (r : Flow (Option OperatorRole) × World S). HasAdministrator r.1.db.tables) e
            start
      go (go_on (some role), mid) e = pick (contains (admin ∷ []) role) refl
        where
          pick :
              (c : Bool)
              → contains (admin ∷ []) role ≡ c
              → HasAdministrator
                  (if◌then◌else◌ {A = Response × World S} c
                    (next mid)
                    (redirect login_path, mid)).1.db.tables
          pick false q =
              subst (λ (r : Flow (Option OperatorRole) × World S). HasAdministrator r.1.db.tables) e
                start
          pick true q =
              let auth = authorized_role-Authorized state view now role w mid e in
              let is_admin : parse auth.account.operator_type ≡ some admin =
                auth.current_role ∙ ap some (only_admin role q) in
              let (named, p) =
                let_in auth.id_user role w mid auth.user
                  (bounded, (auth.account, auth.stands, is_admin)) e in
              runs auth.id_user mid named p

  viewer_let_in :
      (next : World S → Response × World S) (allowed_roles : List OperatorRole) (w : World S)
      → HasAdministrator w.db.tables
      → ((a : ℕ) (mid : World S)
          → IsAdministrator a mid.db.tables
          → IsAdministrator a (next mid).1.db.tables)
      → HasAdministrator (guard state now next allowed_roles w).1.db.tables
  unfolding guard guarded
  viewer_let_in next allowed_roles w has runs =
      go (authorized_role state now w) (kept_out HasAdministrator w has)
    where
      go :
          (r : Flow (Option OperatorRole) × World S)
          → HasAdministrator r.1.db.tables
          → HasAdministrator (guarded state next allowed_roles r).1.db.tables
      go (go_on none, mid) p = p
      go (respond x, mid) p = p
      go (failed x, mid) p = p
      go (go_on (some role), mid) (a, p) = pick (contains allowed_roles role)
        where
          pick :
              (c : Bool)
              → HasAdministrator
                  (if◌then◌else◌ {A = Response × World S} c
                    (next mid)
                    (redirect login_path, mid)).1.db.tables
          pick true = (a, runs a mid p)
          pick false = (a, p)

  answered-tables :
      (a : ℕ) (B : S → Type 0) (r : Flow Response × World S)
      → Left (IsAdministrator a) (λ (x : Response). Kept (IsAdministrator a) B) r
      → IsAdministrator a (answered r).1.db.tables
  answered-tables a B (go_on r, w) (b, p) = p
  answered-tables a B (respond r, w) p = p
  answered-tables a B (failed e, w) p = p

module _ {S : Type 0} (state : AppState S) (view : SessionView state.sessions) where
  routed-HasAdministrator :
      (request : Request) (submission : Submission) (w : World S)
      → HasAdministrator w.db.tables
      → HasAdministrator (routed state request submission w).1.db.tables
  unfolding routed
  routed-HasAdministrator request (inserts form) w has =
      administrator_let_in state view request.moment.now _ w has (λ a mid named p. (
        a,
        answered-tables state view request.moment.now a Any
            (insert_user_action state request form mid)
            (insert-Ends state view request a form mid (named, p)),
      ))
  routed-HasAdministrator request (deletes form) w has =
      administrator_let_in state view request.moment.now _ w has (λ a mid named p. (
        a,
        answered-tables state view request.moment.now a Any
            (delete_user_action state request form mid)
            (delete-Ends state view request a form mid (named, p)),
      ))
  routed-HasAdministrator request (updates form) w has =
      administrator_let_in state view request.moment.now _ w has (λ a mid named p. (
        a,
        answered-tables state view request.moment.now a Any
            (update_user_action state request form mid)
            (update-Ends state view request a form mid (named, p)),
      ))
  routed-HasAdministrator request (changes_password form) w has =
      viewer_let_in state view request.moment.now _ all_roles w has (λ a mid p.
        answered-tables state view request.moment.now a Any
          (update_password_action state request form mid)
          (password-Keeps state view request a form mid (tt, p)))

  -- However many requests to create, remove or update an operator or to change the own password are
  -- served, one after the other, whoever sends them and however each of them ends, an administrator
  -- remains in the table if there was one. Ids are below the counter that gives them out.
  pub visited_all-HasAdministrator :
      (visits : List (Visit S)) (w : World S)
      → HasAdministrator w.db.tables
      → HasAdministrator (visited_all state visits w).db.tables
  unfolding visited_all visited
  visited_all-HasAdministrator [] w has = has
  visited_all-HasAdministrator (v ∷ visits) w has =
      visited_all-HasAdministrator visits _
        (routed-HasAdministrator v.request v.submission (record w { session = v.session }) has)
