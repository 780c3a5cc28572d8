-- ===== src/Operators/Epochs.antt =====
-- The epochs of src/models/operator_repository.rs: every change of an account's authority makes the
-- sessions that were bound to its earlier epoch stale.
use kraken_ui.Common.{
  err, Result, List, Preserves, bind-Preserves, query-Preserves, statement-Preserves, ℕ, ◌+◌, ◌≡◌,
  refl, sym, ◌∙◌, ap, Bool, true, false, Option, none, some, Text, ok, ok_or, Db, lift, ◌>>=◌,
  bind-ok, lift-ok, query, execute, statement-ok, query-ok, execute-ok, transaction-ok, select_one,
  update_where, select_one-update,
}
use kraken_ui.Models.{Operator, TotpRow, Tables, Moment}
use kraken_ui.Operators.{
  rehash_row, update_encrypted_password, store_row, PasswordCrypto, UpdateOperator, has_id,
  find_by_id, updated_row, encrypt_optional, update_statement, update, repassworded,
  update_password, constrained,
}

-- The operator with this id has that row.
abbrev pub HasOperator : ℕ → Operator → Tables → Type 0
HasOperator id o t = select_one (has_id id) t.operators ≡ some o

constrained-ok : {A : Type 0} (b : Bool) (r r' : Tables × A) → constrained b r ≡ ok r' → r ≡ r'
constrained-ok true r r' e = cc
constrained-ok false r r' e = cc

found_row :
    (found : Option Operator) (o : Operator)
    → ok_or "updated operator disappeared before commit" found ≡ ok o
    → found ≡ some o
found_row none o e = cc
found_row (some o') o e = cc

-- Reading the row back at the end of a transaction.
read_back :
    (id : ℕ) (db db' : Db Tables) (o : Operator)
    → (find_by_id id >>= λ found. lift (ok_or "updated operator disappeared before commit" found))
        db
      ≡ (ok o, db')
    → HasOperator id o db.tables × (db'.tables ≡ db.tables)
unfolding find_by_id
read_back id db db' o e =
    let (found, mid, asked, answered) =
      bind-ok (query (λ t. select_one (has_id id) t.operators)) _ db e in
    let (kept, is) = query-ok (λ t. select_one (has_id id) t.operators) db asked in
    let (here, row) =
      lift-ok (ok_or "updated operator disappeared before commit" found) mid answered in
    (sym is ∙ found_row found o row, ap (λ (d : Db Tables). d.tables) here ∙ kept)

keeps_id :
    (id : ℕ) (input : UpdateOperator) (hash : Option Text) (m : Moment) (o : Operator)
    → has_id id o ≡ true
    → has_id id (updated_row input hash m o) ≡ true
keeps_id id input none m o e = e
keeps_id id input (some hash) m o e = e

next_epoch :
    (input : UpdateOperator) (hash : Option Text) (m : Moment) (o : Operator)
    → (updated_row input hash m o).authz_version ≡ o.authz_version + 1
next_epoch input none m o = refl
next_epoch input (some hash) m o = refl

named :
    (input : UpdateOperator) (hash : Option Text) (m : Moment) (o : Operator)
    → ((updated_row input hash m o).username ≡ input.username)
      × ((updated_row input hash m o).operator_type ≡ input.operator_type)
named input none m o = (refl, refl)
named input (some hash) m o = (refl, refl)

-- The row that is read after an UPDATE by id is the updated one.
row_after :
    (id : ℕ) (f : Operator → Operator) (o o' : Operator) (before after : Tables)
    → ((x : Operator) → has_id id x ≡ true → has_id id (f x) ≡ true)
    → HasOperator id o before
    → after.operators ≡ update_where (has_id id) f before.operators
    → HasOperator id o' after
    → o' ≡ f o
row_after id f o o' before after keep at_ e now =
    let there = select_one-update (has_id id) f keep before.operators o at_ in
    let read : some o' ≡ some (f o) = sym now ∙ ap (select_one (has_id id)) e ∙ there in cc

-- An update of an operator that succeeds answers with the row that is stored, which has the new name
-- and role; its epoch is the one after that of the row that stood before.
pub update-authz_version :
    (crypto : PasswordCrypto) (m : Moment) (existing : Operator) (input : UpdateOperator)
    (o o' : Operator) (db db' : Db Tables)
    → HasOperator existing.id_user o db.tables
    → update crypto m existing input db ≡ (ok o', db')
    → HasOperator existing.id_user o' db'.tables
      × (o'.authz_version ≡ o.authz_version + 1)
      × (o'.username ≡ input.username)
      × (o'.operator_type ≡ input.operator_type)
unfolding update update_statement
update-authz_version crypto m existing input o o' db db' at_ e =
    let id = existing.id_user in
    let (hash, d1, sealed_now, ran) =
      bind-ok (lift (encrypt_optional crypto id input.password)) _ db e in
    let (here, opened) = lift-ok (encrypt_optional crypto id input.password) db sealed_now in
    let (from, to, start, body, same) = transaction-ok _ d1 ran in
    let (u, d2, wrote, read) = bind-ok (update_statement id input hash m) _ from body in
    let row = constrained-ok _ _ _ (statement-ok _ from wrote) in
    let (back, kept) = read_back id d2 to o' read in
    let begun : from.tables ≡ db.tables = start ∙ ap (λ (d : Db Tables). d.tables) here in
    let written : d2.tables.operators
        ≡ update_where (has_id id) (updated_row input hash m) db.tables.operators =
      sym (ap (λ (r : Tables × Unit {0}). r.0.operators) row)
      ∙ ap (λ (t : Tables). update_where (has_id id) (updated_row input hash m) t.operators)
          begun in
    let is =
      row_after id (updated_row input hash m) o o' db.tables d2.tables (keeps_id id input hash m)
        at_ written back in
    (
      ap (λ (t : Tables). select_one (has_id id) t.operators) (same ∙ kept) ∙ back,
      ap (λ (x : Operator). x.authz_version) is ∙ next_epoch input hash m o,
      ap (λ (x : Operator). x.username) is ∙ (named input hash m o).0,
      ap (λ (x : Operator). x.operator_type) is ∙ (named input hash m o).1,
    )

-- A change of the password that succeeds answers with the row that is stored, which has the
-- hash that the password service made; its epoch is the one after that of the row that stood
-- before.
pub update_password-authz_version :
    (crypto : PasswordCrypto) (m : Moment) (existing : Operator) (password : Text) (o o' : Operator)
    (db db' : Db Tables)
    → HasOperator existing.id_user o db.tables
    → update_password crypto m existing password db ≡ (ok o', db')
    → HasOperator existing.id_user o' db'.tables
      × (o'.authz_version ≡ o.authz_version + 1)
      × (crypto.encrypt_password existing.id_user password ≡ ok o'.encrypted_password_hash)
unfolding update_password
update_password-authz_version crypto m existing password o o' db db' at_ e =
    let id = existing.id_user in
    let (hash, d1, sealed_now, ran) = bind-ok (lift (crypto.encrypt_password id password)) _ db e in
    let (here, opened) = lift-ok (crypto.encrypt_password id password) db sealed_now in
    let (from, to, start, body, same) = transaction-ok _ d1 ran in
    let change : Tables → Tables =
      λ t. record t { operators = update_where (has_id id) (repassworded hash m) t.operators } in
    let (u, d2, wrote, read) = bind-ok (execute change) _ from body in
    let (back, kept) = read_back id d2 to o' read in
    let written =
      execute-ok change from wrote ∙ ap change (start ∙ ap (λ (d : Db Tables). d.tables) here) in
    let is =
      row_after id (repassworded hash m) o o' db.tables d2.tables (λ x h. h) at_
        (ap (λ (t : Tables). t.operators) written) back in
    (
      ap (λ (t : Tables). select_one (has_id id) t.operators) (same ∙ kept) ∙ back,
      ap (λ (x : Operator). x.authz_version) is,
      opened ∙ ap (λ (x : Operator). ok x.encrypted_password_hash) (sym is),
    )

totp_of : List TotpRow → Result (Tables × Unit {0}) → List TotpRow
totp_of d (ok (t, a)) = t.totp
totp_of d (err x) = d

rehash_row-totp :
    (m : Moment) (hash : Text) (rows : List TotpRow) (found : Option Operator)
    → Preserves (λ t. t.totp ≡ rows) (rehash_row m hash found)
unfolding rehash_row totp_of
rehash_row-totp m hash rows none = λ db p. p
rehash_row-totp m hash rows (some o) =
    statement-Preserves (λ t. t.totp ≡ rows) _ λ t t' a e p. kept t t' a e ∙ p
  where
    kept :
        (t t' : Tables) (a : Unit {0})
        → ◌≡◌ {A = Result (Tables × Unit {0})}
            (ok
              (store_row (record o { encrypted_password_hash = hash; updated_at = m.stamp }) t, tt))
            (ok (t', a))
        → t'.totp ≡ t.totp
    kept t t' a e = ap (totp_of t.totp) (sym e)

-- Renewing a stored hash touches no two-factor row.
pub update_encrypted_password-totp :
    (m : Moment) (id : ℕ) (hash : Text) (db : Db Tables)
    → (update_encrypted_password m id hash db).1.tables.totp ≡ db.tables.totp
unfolding update_encrypted_password find_by_id
update_encrypted_password-totp m id hash db =
    bind-Preserves (λ t. t.totp ≡ db.tables.totp) (query (λ t. select_one (has_id id) t.operators))
      (rehash_row m hash)
      (query-Preserves (λ t. t.totp ≡ db.tables.totp) (λ t. select_one (has_id id) t.operators))
      (rehash_row-totp m hash db.tables.totp) db refl
