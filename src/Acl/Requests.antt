-- ===== src/Acl/Requests.antt =====
-- The requests that src/routes/mod.rs routes to the changes of src/controllers/acl.rs, behind their
-- guards, and runs of such requests, each with the session that it came with.
use kraken_ui.Common.{List, [], ◌∷◌}
use kraken_ui.Handlers.{
  Request, AppState, World, Response, internal_error, Flow, go_on, respond, failed,
}
use kraken_ui.Auth.{require_admin, require_console_viewer}
use kraken_ui.Acl.{
  OperatorForm, DeleteUserForm, UpdateUserForm, UpdatePasswordForm, insert_user_action,
  delete_user_action, update_user_action,
}
use kraken_ui.Acl.Password.{update_password_action}

pub data Submission : Type 0 where
  inserts : OperatorForm → Submission
  deletes : DeleteUserForm → Submission
  updates : UpdateUserForm → Submission
  changes_password : UpdatePasswordForm → Submission

pub record Visit (S : Type 0) : Type 0 where
  pub session : S
  pub request : Request
  pub submission : Submission

-- An error is answered by `AppError::into_response` of src/error.rs.
abbrev pub answered : {S : Type 0} → Flow Response × World S → Response × World S
answered (go_on r, w) = (r, w)
answered (respond r, w) = (r, w)
answered (failed e, w) = (internal_error, w)

module _ {S : Type 0} (state : AppState S) where
  -- The route of each submission.
  unfoldable pub routed : Request → Submission → World S → Response × World S
  routed request (inserts form) =
      require_admin state request.moment.now
        (λ w. answered (insert_user_action state request form w))
  routed request (deletes form) =
      require_admin state request.moment.now
        (λ w. answered (delete_user_action state request form w))
  routed request (updates form) =
      require_admin state request.moment.now
        (λ w. answered (update_user_action state request form w))
  routed request (changes_password form) =
      require_console_viewer state request.moment.now
        (λ w. answered (update_password_action state request form w))

  unfoldable pub visited : Visit S → World S → World S
  unfolding routed
  visited v w = (routed v.request v.submission (record w { session = v.session })).1

  unfoldable pub visited_all : List (Visit S) → World S → World S
  unfolding visited
  visited_all [] w = w
  visited_all (v ∷ visits) w = visited_all visits (visited v w)
