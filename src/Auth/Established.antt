-- ===== src/Auth/Established.antt =====
-- What establish_session of src/controllers/auth.rs, and the marker of a pending second factor, leave
-- in the session.
use kraken_ui.Common.{ℕ, ◌≡◌, refl, ◌∙◌, ap, some, Text, text_eq, Map, insert, remove, Db}
use kraken_ui.Models.{Operator, Tables}
use kraken_ui.Sessions.{user_id_field}
use kraken_ui.Handlers.{
  World, AppState, Response, redirect, go_on, Handler, return, ◌>>◌, plain_text,
}
use kraken_ui.Handlers.Runs.{SessionView, bind-go_on, return-go_on, in_session-go_on}
use kraken_ui.Auth.{
  authenticated_username_field, authenticated_operator_type_field,
  authenticated_authz_version_field, authenticated_at_field, reauthenticated_at_field,
  session_rotated_at_field, mfa_pending_user_id_field, mfa_pending_at_field, mfa_challenge_path,
  set_i64, set_string, cycle_id, sync_session_identity, establish_session,
}

module _ {S : Type 0} (state : AppState S) (view : SessionView state.sessions) where
  -- The session's values, and the tables, of a world.
  pub record Holds (numbers : Map ℕ) (texts : Map Text) (db : Db Tables) (w : World S)
      : Type 0 where
    pub has_numbers : view.numbers w.session ≡ numbers
    pub has_texts : view.texts w.session ≡ texts
    pub has_db : w.db ≡ db

  set_i64-Holds :
      (key : Text) (n : ℕ) (N : Map ℕ) (T : Map Text) (db : Db Tables) (w w' : World S)
      {u : Unit {0}}
      → Holds N T db w
      → set_i64 state key n w ≡ (go_on u, w')
      → Holds (insert key n N) (remove key T) db w'
  unfolding set_i64
  set_i64-Holds key n N T db w w' h e =
      let (s, ran, is) = in_session-go_on (state.sessions.insert_i64 key n) w e in
      let (numbers, texts) = view.insert_i64-ok key n w.session s ran in
      record {
        has_numbers =
            ap (λ (w : World S). view.numbers w.session) is
            ∙ numbers
            ∙ ap (insert key n) h.has_numbers;
        has_texts =
            ap (λ (w : World S). view.texts w.session) is ∙ texts ∙ ap (remove key) h.has_texts;
        has_db = ap (λ (w : World S). w.db) is ∙ h.has_db;
      }

  set_string-Holds :
      (key text : Text) (N : Map ℕ) (T : Map Text) (db : Db Tables) (w w' : World S) {u : Unit {0}}
      → Holds N T db w
      → set_string state key text w ≡ (go_on u, w')
      → Holds (remove key N) (insert key text T) db w'
  unfolding set_string
  set_string-Holds key text N T db w w' h e =
      let (s, ran, is) = in_session-go_on (state.sessions.insert_string key text) w e in
      let (numbers, texts) = view.insert_string-ok key text w.session s ran in
      record {
        has_numbers =
            ap (λ (w : World S). view.numbers w.session) is
            ∙ numbers
            ∙ ap (remove key) h.has_numbers;
        has_texts =
            ap (λ (w : World S). view.texts w.session) is
            ∙ texts
            ∙ ap (insert key text) h.has_texts;
        has_db = ap (λ (w : World S). w.db) is ∙ h.has_db;
      }

  pub cycle_id-Holds :
      (N : Map ℕ) (T : Map Text) (db : Db Tables) (w w' : World S) {u : Unit {0}}
      → Holds N T db w
      → cycle_id state w ≡ (go_on u, w')
      → Holds N T db w'
  unfolding cycle_id
  cycle_id-Holds N T db w w' h e =
      let (s, ran, is) = in_session-go_on state.sessions.cycle_id w e in
      let (numbers, texts) = view.cycle_id-ok w.session s ran in
      record {
        has_numbers = ap (λ (w : World S). view.numbers w.session) is ∙ numbers ∙ h.has_numbers;
        has_texts = ap (λ (w : World S). view.texts w.session) is ∙ texts ∙ h.has_texts;
        has_db = ap (λ (w : World S). w.db) is ∙ h.has_db;
      }

  -- The session is bound to the operator, to its epoch and to the time of the sign-in.
  pub record SignedIn (now : ℕ) (o : Operator) (w : World S) : Type 0 where
    pub user : view.numbers w.session user_id_field ≡ some o.id_user
    pub role :
        view.texts w.session authenticated_operator_type_field
        ≡ some (plain_text state.clean_markup o.operator_type)
    pub epoch : view.numbers w.session authenticated_authz_version_field ≡ some o.authz_version
    pub signed_in : view.numbers w.session authenticated_at_field ≡ some now

  pub establish_session-SignedIn :
      (now : ℕ) (o : Operator) (w w' : World S) {u : Unit {0}}
      → establish_session state now o w ≡ (go_on u, w')
      → SignedIn now o w'
  unfolding establish_session sync_session_identity text_eq
  establish_session-SignedIn now o w w' e =
      let set : Text → ℕ → Handler S (Unit {0}) = set_i64 state in
      let (u1, w1, r1, e1) = bind-go_on (cycle_id state) _ w e in
      let h1 =
        cycle_id-Holds _ _ _ w w1 (record { has_numbers = refl; has_texts = refl; has_db = refl })
          r1 in
      let (u2, w2, r2, e2) = bind-go_on (sync_session_identity state o) _ w1 e1 in
      let (a1, v1, s1, t1) = bind-go_on (set user_id_field o.id_user) _ w1 r2 in
      let k1 = set_i64-Holds user_id_field o.id_user _ _ _ w1 v1 h1 s1 in
      let (a2, v2, s2, t2) =
        bind-go_on
          (set_string state authenticated_username_field (plain_text state.clean_markup o.username))
          _ v1 t1 in
      let k2 =
        set_string-Holds authenticated_username_field (plain_text state.clean_markup o.username) _ _
          _ v1 v2 k1 s2 in
      let (a3, v3, s3, t3) =
        bind-go_on
          (set_string state authenticated_operator_type_field
            (plain_text state.clean_markup o.operator_type))
          _ v2 t2 in
      let k3 =
        set_string-Holds authenticated_operator_type_field
          (plain_text state.clean_markup o.operator_type) _ _ _ v2 v3 k2 s3 in
      let k4 = set_i64-Holds authenticated_authz_version_field o.authz_version _ _ _ v3 w2 k3 t3 in
      let (u3, w3, r3, e3) = bind-go_on (set authenticated_at_field now) _ w2 e2 in
      let h3 = set_i64-Holds authenticated_at_field now _ _ _ w2 w3 k4 r3 in
      let (u4, w4, r4, e4) = bind-go_on (set reauthenticated_at_field now) _ w3 e3 in
      let h4 = set_i64-Holds reauthenticated_at_field now _ _ _ w3 w4 h3 r4 in
      let h5 = set_i64-Holds session_rotated_at_field now _ _ _ w4 w' h4 e4 in
      record {
        user = ap (λ (f : Map ℕ). f user_id_field) h5.has_numbers;
        role = ap (λ (f : Map Text). f authenticated_operator_type_field) h5.has_texts;
        epoch = ap (λ (f : Map ℕ). f authenticated_authz_version_field) h5.has_numbers;
        signed_in = ap (λ (f : Map ℕ). f authenticated_at_field) h5.has_numbers;
      }

  -- The marker of the second factor is in the session; whoever it was bound to before stays so.
  pub record Parked (now : ℕ) (o : Operator) (w w' : World S) : Type 0 where
    pub pending : view.numbers w'.session mfa_pending_user_id_field ≡ some o.id_user
    pub since : view.numbers w'.session mfa_pending_at_field ≡ some now
    pub same_user : view.numbers w'.session user_id_field ≡ view.numbers w.session user_id_field
    pub same_role :
        view.texts w'.session authenticated_operator_type_field
        ≡ view.texts w.session authenticated_operator_type_field

  pub markers-Parked :
      (now : ℕ) (o : Operator) (w w' : World S) {r : Response}
      → (cycle_id state
            >> (set_i64 state mfa_pending_user_id_field o.id_user
                >> (set_i64 state mfa_pending_at_field now
                    >> return (redirect mfa_challenge_path))))
          w
        ≡ (go_on r, w')
      → Parked now o w w' × (r ≡ redirect mfa_challenge_path)
  unfolding text_eq
  markers-Parked now o w w' e =
      let (u1, w1, r1, e1) = bind-go_on (cycle_id state) _ w e in
      let h1 =
        cycle_id-Holds _ _ _ w w1 (record { has_numbers = refl; has_texts = refl; has_db = refl })
          r1 in
      let (u2, w2, r2, e2) =
        bind-go_on (set_i64 state mfa_pending_user_id_field o.id_user) _ w1 e1 in
      let h2 = set_i64-Holds mfa_pending_user_id_field o.id_user _ _ _ w1 w2 h1 r2 in
      let (u3, w3, r3, e3) = bind-go_on (set_i64 state mfa_pending_at_field now) _ w2 e2 in
      let h3 = set_i64-Holds mfa_pending_at_field now _ _ _ w2 w3 h2 r3 in
      let (here, is) = return-go_on (redirect mfa_challenge_path) w3 e3 in
      let numbers = ap (λ (w : World S). view.numbers w.session) here ∙ h3.has_numbers in
      let texts = ap (λ (w : World S). view.texts w.session) here ∙ h3.has_texts in
      (
        record {
          pending = ap (λ (f : Map ℕ). f mfa_pending_user_id_field) numbers;
          since = ap (λ (f : Map ℕ). f mfa_pending_at_field) numbers;
          same_user = ap (λ (f : Map ℕ). f user_id_field) numbers;
          same_role = ap (λ (f : Map Text). f authenticated_operator_type_field) texts;
        },
        is,
      )
