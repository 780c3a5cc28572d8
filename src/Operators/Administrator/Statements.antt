-- ===== src/Operators/Administrator/Statements.antt =====
-- The statements of src/models/operator_repository.rs leave an administrator one.
use kraken_ui.Common.{
  ℕ, ◌+◌, ◌<◌, ◌≡◌, ◌≢◌, refl, ◌∙◌, ap, subst, Bool, true, false, Option, none, some, [], ◌∷◌, ◌++◌,
  Text, arith, All-append, All-delete_where, Result, ok, ok_or, Db, lift, ◌>>=◌, statement, execute,
  statement-ok, Preserves, bind-Preserves, bind_known-Preserves, lift-Preserves,
  statement-Preserves, query-Preserves, transaction-Preserves, update_where, select_one-append,
  select_one-delete_spared,
}
use kraken_ui.Roles.{admin, parse}
use kraken_ui.Models.{Operator, Tables, Moment}
use kraken_ui.Operators.{
  PasswordCrypto, NewOperator, UpdateOperator, has_id, find_by_id, find_by_username, find_by_email,
  constrained, violates, pending_row, insert_pending, store_row, create, updated_row,
  encrypt_optional, update_statement, update, record_reauthenticated, delete_by_id, repassworded,
  update_password,
}
use kraken_ui.Operators.Administrator.{
  IsAdministrator, bounded_id, IsBounded-later, updated-IsAdministrator,
}

module _ (a : ℕ) where
  pub find_by_id-Preserves : (id : ℕ) → Preserves (IsAdministrator a) (find_by_id id)
  unfolding find_by_id
  find_by_id-Preserves id = query-Preserves (IsAdministrator a) _

  pub find_by_email-Preserves : (email : Text) → Preserves (IsAdministrator a) (find_by_email email)
  unfolding find_by_email
  find_by_email-Preserves email = query-Preserves (IsAdministrator a) _

  pub find_by_username-Preserves :
      (username : Text) → Preserves (IsAdministrator a) (find_by_username username)
  unfolding find_by_username
  find_by_username-Preserves username = query-Preserves (IsAdministrator a) _

  changes-Preserves :
      {A : Type 0} (f : Tables → Tables) (g : Tables → A)
      → ((t : Tables) → IsAdministrator a t → IsAdministrator a (f t))
      → Preserves (IsAdministrator a) (statement (λ t. ok (f t, g t)))
  changes-Preserves {A} f g h =
      statement-Preserves (IsAdministrator a) (λ t. ok (f t, g t))
        (λ t t' x e p. subst (IsAdministrator a) (moved t t' x e) (h t p))
    where
      moved :
          (t t' : Tables) (x : A)
          → ◌≡◌ {A = Result (Tables × A)} (ok (f t, g t)) (ok (t', x))
          → f t ≡ t'
      moved t t' x e = cc

  pub record_reauthenticated-Preserves :
      (m : Moment) (id : ℕ) → Preserves (IsAdministrator a) (record_reauthenticated m id)
  unfolding record_reauthenticated
  record_reauthenticated-Preserves m id =
      changes-Preserves _ (λ t. tt)
        (λ t p. updated-IsAdministrator a id _ t (λ o own. own) (λ o same role. role) p)

  pub delete_by_id-Preserves : (id : ℕ) → id ≢ a → Preserves (IsAdministrator a) (delete_by_id id)
  unfolding delete_by_id
  delete_by_id-Preserves id apart = changes-Preserves _ _ (λ t p.
      let (bounded, (o, stands, role)) = p in
      (
        All-delete_where (λ o. o.id_user < t.next_user) (has_id id) t.operators bounded,
        (o, select_one-delete_spared (has_id id) (has_id a) spared t.operators ∙ stands, role),
      ))
    where
      spared : (x : Operator) → has_id a x ≡ true → has_id id x ≡ false
      spared x e = ground (arith, apart)

  constrained-Preserves :
      {A : Type 0} (c : Tables → Bool) (f : Tables → Tables) (g : Tables → A)
      → ((t : Tables) → IsAdministrator a t → IsAdministrator a (f t))
      → Preserves (IsAdministrator a) (statement (λ t. constrained (c t) (f t, g t)))
  constrained-Preserves {A} c f g h =
      statement-Preserves (IsAdministrator a) (λ t. constrained (c t) (f t, g t))
        (λ t t' x e p. go (c t) t t' x e p)
    where
      go :
          (b : Bool) (t t' : Tables) (x : A)
          → constrained b (f t, g t) ≡ ok (t', x)
          → IsAdministrator a t
          → IsAdministrator a t'
      go true t t' x e p = cc
      go false t t' x e p = let moved : f t ≡ t' = cc in subst (IsAdministrator a) moved (h t p)

  appended :
      (input : NewOperator) (m : Moment) (t : Tables)
      → IsAdministrator a t
      → IsAdministrator a (record t {
        operators = t.operators ++ pending_row input m t.next_user ∷ [];
        next_user = t.next_user + 1;
      })
  appended input m t (bounded, (o, stands, role)) = (
    All-append (λ o. o.id_user < t.next_user + 1) t.operators _
        (IsBounded-later t.next_user t.operators bounded) (omega arith, tt),
    (o, select_one-append (has_id a) t.operators _ o stands, role),
  )

  insert_pending-Preserves :
      (input : NewOperator) (m : Moment) → Preserves (IsAdministrator a) (insert_pending input m)
  unfolding insert_pending
  insert_pending-Preserves input m = constrained-Preserves _ _ _ (appended input m)

  insert_pending-new :
      (input : NewOperator) (m : Moment) (db db' : Db Tables) (o : Operator)
      → IsAdministrator a db.tables
      → insert_pending input m db ≡ (ok o, db')
      → (o.id_user ≢ a) × IsAdministrator a db'.tables
  unfolding insert_pending
  insert_pending-new input m db db' o p e =
      go
        (violates db.tables.next_user input.username input.email input.operator_type
          db.tables.operators)
        (statement-ok _ db e)
    where
      go :
          (b : Bool)
          → constrained b (
            record db.tables {
              operators = db.tables.operators ++ pending_row input m db.tables.next_user ∷ [];
              next_user = db.tables.next_user + 1;
            },
            pending_row input m db.tables.next_user,
          )
            ≡ ok (db'.tables, o)
          → (o.id_user ≢ a) × IsAdministrator a db'.tables
      go true e = cc
      go false e =
          let row : pending_row input m db.tables.next_user ≡ o = cc in
          let tables : record db.tables {
            operators = db.tables.operators ++ pending_row input m db.tables.next_user ∷ [];
            next_user = db.tables.next_user + 1;
          }
              ≡ db'.tables =
            cc in
          let fresh = bounded_id a db.tables p in
          let id : db.tables.next_user ≡ o.id_user = ap (λ (o : Operator). o.id_user) row in
          (λ same. omega arith, subst (IsAdministrator a) tables (appended input m db.tables p))

  pub create-Preserves :
      (crypto : PasswordCrypto) (m : Moment) (input : NewOperator)
      → Preserves (IsAdministrator a) (create crypto m input)
  unfolding create
  create-Preserves crypto m input = transaction-Preserves (IsAdministrator a) _ (
      bind_known-Preserves (IsAdministrator a) (λ o. o.id_user ≢ a) (insert_pending input m) _
        (insert_pending-new input m) (insert_pending-Preserves input m)
        (λ pending fresh.
          bind-Preserves (IsAdministrator a)
            (lift (crypto.encrypt_password pending.id_user input.password)) _
            (lift-Preserves (IsAdministrator a)
              (crypto.encrypt_password pending.id_user input.password))
            (λ hash.
              bind-Preserves (IsAdministrator a)
                (execute (store_row (record pending { encrypted_password_hash = hash }))) _
                (changes-Preserves _ (λ t. tt)
                  (λ t p.
                    updated-IsAdministrator a pending.id_user _ t (λ o own. ground arith)
                      (λ o same role. absurd (fresh same)) p))
                (λ u db p. p))))

  updated_row-role :
      (input : UpdateOperator) (hash : Option Text) (m : Moment) (o : Operator)
      → (updated_row input hash m o).operator_type ≡ input.operator_type
  updated_row-role input none m o = refl
  updated_row-role input (some hash) m o = refl

  updated_row-id :
      (input : UpdateOperator) (hash : Option Text) (m : Moment) (o : Operator)
      → (updated_row input hash m o).id_user ≡ o.id_user
  updated_row-id input none m o = refl
  updated_row-id input (some hash) m o = refl

  found_back :
      (id : ℕ)
      → Preserves (IsAdministrator a) (
          find_by_id id >>= λ found.
          lift (ok_or "updated operator disappeared before commit" found))
  found_back id =
      bind-Preserves (IsAdministrator a) (find_by_id id) _ (find_by_id-Preserves id) (λ found.
        lift-Preserves (IsAdministrator a)
          (ok_or "updated operator disappeared before commit" found))

  -- An administrator stays one under an update of another, or one that makes it an administrator.
  pub update-Preserves :
      (crypto : PasswordCrypto) (m : Moment) (existing : Operator) (input : UpdateOperator)
      → (existing.id_user ≡ a → parse input.operator_type ≡ some admin)
      → Preserves (IsAdministrator a) (update crypto m existing input)
  unfolding update update_statement
  update-Preserves crypto m existing input own =
      bind-Preserves (IsAdministrator a)
        (lift (encrypt_optional crypto existing.id_user input.password)) _
        (lift-Preserves (IsAdministrator a)
          (encrypt_optional crypto existing.id_user input.password))
        (λ hash. transaction-Preserves (IsAdministrator a) _ (
          bind-Preserves (IsAdministrator a) (update_statement existing.id_user input hash m) _
            (constrained-Preserves _ _ _ (λ t p.
              updated-IsAdministrator a existing.id_user (updated_row input hash m) t
                (λ o own. rw (updated_row-id input hash m o) own)
                (λ o same role. rw (updated_row-role input hash m o) (own same)) p))
            (λ u. found_back existing.id_user)))

  pub update_password-Preserves :
      (crypto : PasswordCrypto) (m : Moment) (existing : Operator) (password : Text)
      → Preserves (IsAdministrator a) (update_password crypto m existing password)
  unfolding update_password
  update_password-Preserves crypto m existing password =
      bind-Preserves (IsAdministrator a) (lift (crypto.encrypt_password existing.id_user password))
        _ (lift-Preserves (IsAdministrator a) (crypto.encrypt_password existing.id_user password))
        (λ hash. transaction-Preserves (IsAdministrator a) _ (
          bind-Preserves (IsAdministrator a)
            (execute λ t. record t {
              operators = update_where (has_id existing.id_user) (repassworded hash m) t.operators;
            })
            _
            (changes-Preserves _ (λ t. tt)
              (λ t p.
                updated-IsAdministrator a existing.id_user (repassworded hash m) t (λ o own. own)
                  (λ o same role. role) p))
            (λ u. found_back existing.id_user)))
