-- ===== src/Auth/Login/Marker.antt =====
-- The marker of a sign-in that waits for its second factor, as `mfa_pending_user_id` of
-- src/controllers/auth.rs reads it.
use kraken_ui.Common.{
  ℕ, ◌+◌, ◌*◌, ◌≤◌, ◌≢◌, Map, arith, ◌≡◌, refl, sym, ◌∙◌, ap, Bool, true, false, Option, none, some,
  if◌then◌else◌,
}
use kraken_ui.Handlers.{World, AppState, Flow, go_on, return, ◌>>=◌, in_session}
use kraken_ui.Handlers.Runs.{SessionView, bind-go_on, return-go_on, in_session-go_on}
use kraken_ui.Auth.{
  clear_mfa_pending, mfa_pending_user_id, pending_from, stale, or_zero, session_i64,
  mfa_pending_user_id_field, mfa_pending_at_field,
}

module _ {S : Type 0} (state : AppState S) where
  clear_mfa_pending-db :
      (w w' : World S) {u : Unit {0}} → clear_mfa_pending state w ≡ (go_on u, w') → w'.db ≡ w.db
  unfolding clear_mfa_pending
  clear_mfa_pending-db w w' e =
      let (u, w1, r1, e1) =
        bind-go_on (in_session (state.sessions.remove mfa_pending_user_id_field)) _ w e in
      let (s1, ran1, is1) =
        in_session-go_on (state.sessions.remove mfa_pending_user_id_field) w r1 in
      let (s2, ran2, is2) = in_session-go_on (state.sessions.remove mfa_pending_at_field) w1 e1 in
      ap (λ (w : World S). w.db) is2 ∙ ap (λ (w : World S). w.db) is1

  pending_from-db :
      (now : ℕ) (found : Option ℕ) (w w' : World S) {a : Option ℕ}
      → pending_from state now found w ≡ (go_on a, w')
      → w'.db ≡ w.db
  unfolding pending_from session_i64
  pending_from-db now none w w' e = sym (ap (λ (r : Flow (Option ℕ) × World S). r.1.db) e)
  pending_from-db now (some id) w w' {a} e =
      let (at_, w1, r1, e1) =
        bind-go_on (in_session (state.sessions.get_i64 mfa_pending_at_field)) _ w e in
      let (s1, ran1, is1) = in_session-go_on (state.sessions.get_i64 mfa_pending_at_field) w r1 in
      go _ w1 e1 ∙ ap (λ (w : World S). w.db) is1
    where
      go :
          (b : Bool) (w1 : World S)
          → (if b then (clear_mfa_pending state >>= λ _. return none) else return (some id)) w1
            ≡ (go_on a, w')
          → w'.db ≡ w1.db
      go true w1 e =
          let (u, w2, r2, e2) = bind-go_on (clear_mfa_pending state) _ w1 e in
          let (here, is) = return-go_on {A = Option ℕ} none w2 e2 in
          ap (λ (w : World S). w.db) here ∙ clear_mfa_pending-db w1 w2 r2
      go false w1 e = sym (ap (λ (r : Flow (Option ℕ) × World S). r.1.db) e)

  pub mfa_pending_user_id-db :
      (now : ℕ) (w w' : World S) {a : Option ℕ}
      → mfa_pending_user_id state now w ≡ (go_on a, w')
      → w'.db ≡ w.db
  unfolding mfa_pending_user_id session_i64
  mfa_pending_user_id-db now w w' e =
      let (found, w1, r1, e1) =
        bind-go_on (in_session (state.sessions.get_i64 mfa_pending_user_id_field)) _ w e in
      let (s1, ran1, is1) =
        in_session-go_on (state.sessions.get_i64 mfa_pending_user_id_field) w r1 in
      pending_from-db now found w1 w' e1 ∙ ap (λ (w : World S). w.db) is1

  not_stale :
      (now : ℕ) (found : Option ℕ)
      → stale state now (or_zero state found) ≡ false
      → (since : ℕ) × (found ≡ some since) × (since ≢ 0) × (now ≤ since + 5 * 60)
  not_stale now none e = cc
  not_stale now (some at_) e = (at_, refl, ground arith, ground arith)

module _ {S : Type 0} (state : AppState S) (view : SessionView state.sessions) where
  pending_from-some :
      (now : ℕ) (found : Option ℕ) (w w' : World S) (id : ℕ)
      → pending_from state now found w ≡ (go_on (some id), w')
      → (found ≡ some id)
        × (since : ℕ) × (view.numbers w.session mfa_pending_at_field ≡ some since)
        × (since ≢ 0)
        × (now ≤ since + 5 * 60)
  unfolding pending_from session_i64
  pending_from-some now none w w' id e = cc
  pending_from-some now (some i) w w' id e =
      let (at_, w1, r1, e1) =
        bind-go_on (in_session (state.sessions.get_i64 mfa_pending_at_field)) _ w e in
      let (s1, ran1, is1) = in_session-go_on (state.sessions.get_i64 mfa_pending_at_field) w r1 in
      let (read, same_numbers, same_texts) =
        view.get_i64-ok mfa_pending_at_field w.session s1 at_ ran1 in
      let (same, fresh) = go (stale state now (or_zero state at_)) w1 e1 in
      let (since, is, set, within) = not_stale state now at_ fresh in
      (same, since, sym read ∙ is, set, within)
    where
      go :
          (b : Bool) (w1 : World S)
          → (if b then (clear_mfa_pending state >>= λ _. return none) else return (some i)) w1
            ≡ (go_on (some id), w')
          → (◌≡◌ {A = Option ℕ} (some i) (some id)) × (b ≡ false)
      go true w1 e =
          let (u, w2, r2, e2) = bind-go_on (clear_mfa_pending state) _ w1 e in
          let (here, is) = return-go_on {A = Option ℕ} none w2 e2 in cc
      go false w1 e = (cc, refl)

  -- An account is answered only from a marker that was set, at most five minutes ago.
  pub mfa_pending_user_id-some :
      (now : ℕ) (w w' : World S) (id : ℕ)
      → mfa_pending_user_id state now w ≡ (go_on (some id), w')
      → (view.numbers w.session mfa_pending_user_id_field ≡ some id)
        × (since : ℕ) × (view.numbers w.session mfa_pending_at_field ≡ some since)
        × (since ≢ 0)
        × (now ≤ since + 5 * 60)
  unfolding mfa_pending_user_id session_i64
  mfa_pending_user_id-some now w w' id e =
      let (found, w1, r1, e1) =
        bind-go_on (in_session (state.sessions.get_i64 mfa_pending_user_id_field)) _ w e in
      let (s1, ran1, is1) =
        in_session-go_on (state.sessions.get_i64 mfa_pending_user_id_field) w r1 in
      let (read, same_numbers, same_texts) =
        view.get_i64-ok mfa_pending_user_id_field w.session s1 found ran1 in
      let (is, since, at_, set, within) = pending_from-some now found w1 w' id e1 in
      let kept : view.numbers w1.session ≡ view.numbers w.session =
        ap (λ (x : World S). view.numbers x.session) is1 ∙ same_numbers in
      (
        sym read ∙ is,
        since,
        ap (λ (n : Map ℕ). n mfa_pending_at_field) (sym kept) ∙ at_,
        set,
        within,
      )
