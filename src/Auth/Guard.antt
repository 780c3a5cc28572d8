-- ===== src/Auth/Guard.antt =====
-- The route guards of src/middleware/authentication.rs.
use kraken_ui.Common.{
  ℕ, ◌≡◌, refl, ◌⊎◌, inl, inr, Bool, true, false, Option, none, some, List, if◌then◌else◌,
}
use kraken_ui.Roles.{OperatorRole, contains}
use kraken_ui.Handlers.{World, AppState, Response, redirect, Flow, go_on, respond, failed}
use kraken_ui.Handlers.Runs.{SessionView}
use kraken_ui.Auth.{login_path, authorized_role, guard, guarded}
use kraken_ui.Auth.Authorized.{Authorized, authorized_role-Authorized}

module _ {S : Type 0} (state : AppState S) (view : SessionView state.sessions) (now : ℕ) where
  -- The guard either runs the route's handler, and then for an authorized operator with a role that
  -- the route allows, or sends the client to the login page without running it.
  pub guard_lem :
      (next : World S → Response × World S) (allowed_roles : List OperatorRole) (w : World S)
      → ((role : OperatorRole) × Authorized state view now role w
          × (contains allowed_roles role ≡ true)
          × (guard state now next allowed_roles w ≡ next (authorized_role state now w).1))
        ⊎ (guard state now next allowed_roles w
            ≡ (redirect login_path, (authorized_role state now w).1))
  unfolding guard guarded
  guard_lem next allowed_roles w = go (authorized_role state now w) refl
    where
      go :
          (r : Flow (Option OperatorRole) × World S)
          → authorized_role state now w ≡ r
          → ((role : OperatorRole) × Authorized state view now role w
              × (contains allowed_roles role ≡ true)
              × (guarded state next allowed_roles r ≡ next r.1))
            ⊎ (guarded state next allowed_roles r ≡ (redirect login_path, r.1))
      go (go_on (some role), mid) e = pick (contains allowed_roles role) refl
        where
          pick :
              (b : Bool)
              → contains allowed_roles role ≡ b
              → ((role : OperatorRole) × Authorized state view now role w
                  × (contains allowed_roles role ≡ true)
                  × ((if b then next mid else (redirect login_path, mid)) ≡ next mid))
                ⊎ ((if b then next mid else (redirect login_path, mid))
                    ≡ (redirect login_path, mid))
          pick true p = inl (role, authorized_role-Authorized state view now role w mid e, p, refl)
          pick false p = inr refl
      go (go_on none, mid) e = inr refl
      go (respond r, mid) e = inr refl
      go (failed x, mid) e = inr refl
