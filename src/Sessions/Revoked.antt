-- ===== src/Sessions/Revoked.antt =====
-- What is left after a revocation in src/models/session_store.rs.
use kraken_ui.Common.{
  ℕ, ◌==◌, not, err, Bool-cases, ◌⊎◌, inl, inr, select_all, select_all-delete, ◌≡◌, ◌≢◌, refl, sym,
  ◌∙◌, ap, Bool, true, false, Option, none, some, [], ◌∷◌, Text, arith, text_eq, eq_of_text_eq,
  Result, ok, Db, pure, lift, bind-ok, pure-ok, lift-ok, query-ok, change-ok, select_one, query,
  delete_where, select_one-test, count_where, All-delete_where, All-select_one,
  All-delete_where_out,
}
use kraken_ui.Sessions.{
  SessionRecord, SessionRow, SessionFormat, SessionTable, has_key, live, owned_by, owned_elsewhere,
  delete_by_user_id, delete_by_user_id_except, authenticated_user_id, decoded, load,
}
use kraken_ui.Sessions.Mirror.{Mirrors, IsMirrored}

select_one-delete_apart :
    (p q : SessionRow → Bool)
    → ((x : SessionRow) → q x ≡ true → p x ≡ false)
    → (t : SessionTable) → select_one q (delete_where p t) ≡ select_one q t
unfolding select_one delete_where
select_one-delete_apart p q apart [] = refl
select_one-delete_apart p q apart (x ∷ t) =
    ground (arith, apart x, select_one-delete_apart p q apart t)

module _ {Json : Type 0} (format : SessionFormat Json) where
  decoded-ok :
      (found : Option SessionRow) (db db' : Db SessionTable) (s : SessionRecord Json)
      → decoded format found db ≡ (ok (some s), db')
      → (r : SessionRow) × (found ≡ some r) × (format.from_str r.encoded ≡ ok s)
  unfolding decoded
  decoded-ok none db db' s e = cc
  decoded-ok (some r) db db' s e =
      let (s', mid, read, answered) =
        bind-ok (lift (format.from_str r.encoded)) (λ x. pure (some x)) db e in
      let (here, is) = lift-ok (format.from_str r.encoded) db read in
      let (there, same) = pure-ok {A = Option (SessionRecord Json)} (some s') mid answered in
      (r, refl, cc)

  -- A session that is loaded stands in the table, under the id, and has not expired.
  load-ok :
      (now : ℕ) (id : Text) (db db' : Db SessionTable) (s : SessionRecord Json)
      → load format now id db ≡ (ok (some s), db')
      → (r : SessionRow) × (select_one (live id now) db.tables ≡ some r)
        × (format.from_str r.encoded ≡ ok s)
  unfolding load
  load-ok now id db db' s e =
      let (found, mid, asked, ran) =
        bind-ok (query (select_one (live id now))) (decoded format) db e in
      let (kept, is) = query-ok (select_one (live id now)) db asked in
      let (r, found_is, read) = decoded-ok found mid db' s ran in (r, sym is ∙ found_is, read)

  same_session :
      {s s' : SessionRecord Json} → ◌≡◌ {A = Result (SessionRecord Json)} (ok s) (ok s') → s ≡ s'
  same_session e = cc

  not_owner : (user : ℕ) (r : SessionRow) → owned_by user r ≡ false → r.user_id ≢ user
  not_owner user r out e = ground arith

  -- Once the sessions of an operator are revoked, no session that is loaded is one of that operator,
  -- whatever its id and at whatever time; the table mirrors its records before.
  pub delete_by_user_id-revoked :
      (user n now : ℕ) (id : Text) (s : SessionRecord Json) (db db' db'' : Db SessionTable)
      → IsMirrored format db.tables
      → delete_by_user_id user db ≡ (ok n, db')
      → load format now id db' ≡ (ok (some s), db'')
      → authenticated_user_id format s ≢ user
  unfolding delete_by_user_id
  delete_by_user_id-revoked user n now id s db db' db'' m e loaded is =
      let (left, count) =
        change-ok (delete_where (owned_by user)) (count_where (owned_by user)) db e in
      let (r, found, read) = load-ok now id db' db'' s loaded in
      let found' = ap (select_one (live id now)) (sym left) ∙ found in
      let mirror =
        All-select_one (Mirrors format) (live id now) _
          (All-delete_where (Mirrors format) (owned_by user) db.tables m) found' in
      let out =
        All-select_one (λ r. owned_by user r ≡ false) (live id now) _
          (All-delete_where_out (owned_by user) db.tables) found' in
      let same = same_session (sym mirror.read ∙ read) in
      not_owner user r out (sym mirror.same_user ∙ ap (authenticated_user_id format) same ∙ is)

  -- What a load may answer for an id after a revocation that spares one session.
  abbrev pub IsSpared : ℕ → Text → Text → Result (Option (SessionRecord Json)) → Type 0
  IsSpared user keep id (ok (some s)) = (authenticated_user_id format s ≢ user) ⊎ (id ≡ keep)
  IsSpared user keep id (ok none) = Unit {0}
  IsSpared user keep id (err e) = Unit {0}

  id_of_live : (now : ℕ) (id : Text) (r : SessionRow) → live id now r ≡ true → r.id ≡ id
  id_of_live now id r h = eq_of_text_eq r.id id (ground arith)

  -- A row that the revocation left and a load of the id finds.
  spared_row :
      (user now : ℕ) (keep id : Text) (r : SessionRow) (s : SessionRecord Json)
      → owned_elsewhere user keep r ≡ false
      → live id now r ≡ true
      → authenticated_user_id format s ≡ r.user_id
      → (authenticated_user_id format s ≢ user) ⊎ (id ≡ keep)
  spared_row user now keep id r s out h same = elim (Bool-cases (owned_by user r)) [
    | inl own ↦ inr (sym (id_of_live now id r h) ∙ eq_of_text_eq r.id keep (ground arith))
    | inr other ↦ inl λ is. not_owner user r other (sym same ∙ is)
  ]

  -- The revocation that spares one session leaves no other session of the operator that a load could
  -- give back, whatever its id and at whatever time; the row of the spared session, and every row of
  -- another operator, stands as before. The table mirrors its records before.
  pub delete_by_user_id_except-spares :
      (user n now : ℕ) (keep id : Text) (db db' : Db SessionTable)
      → IsMirrored format db.tables
      → delete_by_user_id_except user keep db ≡ (ok n, db')
      → IsSpared user keep id (load format now id db').0
        × (select_one (has_key keep) db'.tables ≡ select_one (has_key keep) db.tables)
        × (select_all (λ r. not (owned_by user r)) db'.tables
            ≡ select_all (λ r. not (owned_by user r)) db.tables)
  unfolding delete_by_user_id_except
  delete_by_user_id_except-spares user n now keep id db db' m e =
      let p = owned_elsewhere user keep in
      let (left, count) = change-ok (delete_where p) (count_where p) db e in
      (
        go (load format now id db') refl left,
        ap (select_one (has_key keep)) left
            ∙ select_one-delete_apart p (has_key keep)
                (λ (r : SessionRow) (h : text_eq r.id keep ≡ true). ground arith) db.tables,
        ap (select_all (λ r. not (owned_by user r))) left
            ∙ select_all-delete p (λ r. not (owned_by user r))
                (λ (r : SessionRow) (h : not (r.user_id == user) ≡ true). ground arith) db.tables,
      )
    where
      go :
          (r : Result (Option (SessionRecord Json)) × Db SessionTable)
          → load format now id db' ≡ r
          → db'.tables ≡ delete_where (owned_elsewhere user keep) db.tables
          → IsSpared user keep id r.0
      go (err x, db'') loaded left = tt
      go (ok none, db'') loaded left = tt
      go (ok (some s), db'') loaded left =
          let p = owned_elsewhere user keep in
          let (r, found, read) = load-ok now id db' db'' s loaded in
          let found' = ap (select_one (live id now)) (sym left) ∙ found in
          let mirror =
            All-select_one (Mirrors format) (live id now) _
              (All-delete_where (Mirrors format) p db.tables m) found' in
          let out =
            All-select_one (λ r. p r ≡ false) (live id now) _ (All-delete_where_out p db.tables)
              found' in
          let same = same_session (sym mirror.read ∙ read) in
          spared_row user now keep id r s out (select_one-test (live id now) _ found')
            (sym (ap (authenticated_user_id format) same) ∙ mirror.same_user)
