-- ===== src/Auth/Leaving.antt =====
-- What the check of a guarded request in src/controllers/auth.rs leaves behind: the tables as they
-- were, and where it lets the request through what was known of the session.
use kraken_ui.Common.{
  ℕ, ◌+◌, ◌≡◌, min, not, ◌||◌, Option, none, some, Text, ◌==◌, leb, ltb, ok, query-Preserves,
}
use kraken_ui.Models.{Operator, Tables}
use kraken_ui.Operators.{find_by_id}
use kraken_ui.Roles.{OperatorRole, role_eq, parse}
use kraken_ui.Sessions.{user_id_field}
use kraken_ui.Gcra.{i64_max}
use kraken_ui.Handlers.{AppState, World, Handler, ◌>>=◌, in_db, in_session, try_session}
use kraken_ui.Handlers.Leaves.{
  Kept, Leaves, Any, bind-Leaves, in_db-Leaves, in_session-Leaves, branch-Leaves,
}
use kraken_ui.Auth.{
  authenticated_operator_type_field, authenticated_authz_version_field, authenticated_at_field,
  session_rotated_at_field, session_rotation_interval_seconds, session_i64, set_i64, cycle_id,
  authenticated_role, flushed, with_current, with_operator, with_time, with_version, with_role,
  with_user, authorized_role, rotate_from, rotate_session_id_if_due,
}

module _ {S : Type 0} (state : AppState S) (now : ℕ) (P : Tables → Type 0) (B : S → Type 0)
    (numbers : (key : Text) (s s' : S) (x : Option ℕ)
      → B s
      → state.sessions.get_i64 key s ≡ (ok x, s')
      → B s')
    (texts : (key : Text) (s s' : S) (x : Option Text)
      → B s
      → state.sessions.get_string key s ≡ (ok x, s')
      → B s')
    (cycles : (s s' : S) (u : Unit {0}) → B s → state.sessions.cycle_id s ≡ (ok u, s') → B s')
    (rotates : (s s' : S) (u : Unit {0})
      → B s
      → state.sessions.insert_i64 session_rotated_at_field now s ≡ (ok u, s')
      → B s') where
  -- No role: nothing is known of the session any more.
  abbrev pub LetIn : Option OperatorRole → World S → Type 0
  LetIn none = Kept P Any
  LetIn (some role) = Kept P B

  abbrev Goes : {A : Type 0} → Handler S A → Type 0
  Goes {A} m = Leaves P (Kept P B) m (λ (x : A). Kept P B)

  abbrev Checks : Handler S (Option OperatorRole) → Type 0
  Checks m = Leaves P (Kept P B) m LetIn

  then-Checks :
      {A : Type 0} (m : Handler S A) (f : A → Handler S (Option OperatorRole))
      → Goes m
      → ((x : A) → Checks (f x))
      → Checks (m >>= f)
  then-Checks {A} m f h k = bind-Leaves P (Kept P B) (λ (x : A). Kept P B) LetIn m f h k

  flushed-Checks : Checks (flushed state)
  unfolding flushed try_session
  flushed-Checks w (b, p) = (tt, p)

  number-Goes : (key : Text) → Goes (session_i64 state key)
  unfolding session_i64
  number-Goes key =
      in_session-Leaves P B (λ x. B) (state.sessions.get_i64 key)
        (λ s s' x b e. numbers key s s' x b e)

  rotated-Goes : Goes (set_i64 state session_rotated_at_field now)
  unfolding set_i64
  rotated-Goes =
      in_session-Leaves P B (λ x. B) (state.sessions.insert_i64 session_rotated_at_field now)
        rotates

  cycle-Goes : Goes (cycle_id state)
  unfolding cycle_id
  cycle-Goes = in_session-Leaves P B (λ x. B) state.sessions.cycle_id cycles

  rotate_from-Goes : (at_ : Option ℕ) → Goes (rotate_from state now at_)
  unfolding rotate_from
  rotate_from-Goes none = rotated-Goes
  rotate_from-Goes (some rotated_at) =
      branch-Leaves P (Kept P B) (λ (x : Unit {0}). Kept P B)
        (ltb now (rotated_at + session_rotation_interval_seconds)) _ _ (λ e w p. p)
        (λ e.
          bind-Leaves P (Kept P B) (λ (x : Unit {0}). Kept P B) (λ (x : Unit {0}). Kept P B)
            (cycle_id state) _ cycle-Goes (λ u. rotated-Goes))

  rotate-Goes : Goes (rotate_session_id_if_due state now)
  unfolding rotate_session_id_if_due
  rotate-Goes =
      bind-Leaves P (Kept P B) (λ (x : Option ℕ). Kept P B) (λ (x : Unit {0}). Kept P B)
        (session_i64 state session_rotated_at_field) _ (number-Goes session_rotated_at_field)
        rotate_from-Goes

  with_current-Checks :
      (session_role : OperatorRole) (version : ℕ) (o : Operator) (found : Option OperatorRole)
      → Checks (with_current state now session_role version o found)
  unfolding with_current
  with_current-Checks session_role version o none = flushed-Checks
  with_current-Checks session_role version o (some role) =
      branch-Leaves P (Kept P B) LetIn
        (not (role_eq role session_role) || not (o.authz_version == version)) _ _
        (λ e. flushed-Checks)
        (λ e. then-Checks (rotate_session_id_if_due state now) _ rotate-Goes (λ u w p. p))

  with_operator-Checks :
      (session_role : OperatorRole) (version : ℕ) (found : Option Operator)
      → Checks (with_operator state now session_role version found)
  unfolding with_operator
  with_operator-Checks session_role version none = flushed-Checks
  with_operator-Checks session_role version (some o) =
      with_current-Checks session_role version o (parse o.operator_type)

  with_time-Checks :
      (id_user : ℕ) (session_role : OperatorRole) (version : ℕ) (found : Option ℕ)
      → Checks (with_time state now id_user session_role version found)
  unfolding with_time find_by_id
  with_time-Checks id_user session_role version none = flushed-Checks
  with_time-Checks id_user session_role version (some authenticated_at) =
      branch-Leaves P (Kept P B) LetIn
        (leb (authenticated_at + min state.admin_session_time_limit_seconds i64_max) now) _ _
        (λ e. flushed-Checks)
        (λ e.
          then-Checks (in_db _) _ (in_db-Leaves P B _ (query-Preserves P _))
            (with_operator-Checks session_role version))

  with_version-Checks :
      (id_user : ℕ) (session_role : OperatorRole) (found : Option ℕ)
      → Checks (with_version state now id_user session_role found)
  unfolding with_version
  with_version-Checks id_user session_role none = flushed-Checks
  with_version-Checks id_user session_role (some version) =
      then-Checks (session_i64 state authenticated_at_field) _ (number-Goes authenticated_at_field)
        (with_time-Checks id_user session_role version)

  with_role-Checks :
      (id_user : ℕ) (found : Option OperatorRole) → Checks (with_role state now id_user found)
  unfolding with_role
  with_role-Checks id_user none = flushed-Checks
  with_role-Checks id_user (some session_role) =
      then-Checks (session_i64 state authenticated_authz_version_field) _
        (number-Goes authenticated_authz_version_field) (with_version-Checks id_user session_role)

  role-Goes : Goes (authenticated_role state)
  unfolding authenticated_role
  role-Goes =
      bind-Leaves P (Kept P B) (λ (x : Option Text). Kept P B)
        (λ (x : Option OperatorRole). Kept P B)
        (in_session (state.sessions.get_string authenticated_operator_type_field)) _
        (in_session-Leaves P B (λ x. B)
          (state.sessions.get_string authenticated_operator_type_field)
          (λ s s' x b e. texts authenticated_operator_type_field s s' x b e))
        (λ text w p. p)

  with_user-Checks : (found : Option ℕ) → Checks (with_user state now found)
  unfolding with_user
  with_user-Checks none = λ w p. (tt, p.1)
  with_user-Checks (some id_user) =
      then-Checks (authenticated_role state) _ role-Goes (with_role-Checks id_user)

  pub authorized_role-Checks : Checks (authorized_role state now)
  unfolding authorized_role
  authorized_role-Checks =
      then-Checks (session_i64 state user_id_field) _ (number-Goes user_id_field) with_user-Checks
