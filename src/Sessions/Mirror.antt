-- ===== src/Sessions/Mirror.antt =====
-- The columns of src/models/session_store.rs mirror the session record that a row holds, so
-- that a revocation by the column takes every session of the operator.
use kraken_ui.Common.{
  ℕ, ◌≡◌, refl, subst, Bool, Option, none, some, List, [], ◌∷◌, Text, any, if_elim, Result, ok, err,
  Db, lift, ◌>>=◌, statement, query, execute, delete_where, count_where, All, All-append,
  All-update_where, All-delete_where, Preserves, bind-Preserves, statement-Preserves,
  query-Preserves, branch-Preserves,
}
use kraken_ui.Sessions.{
  SessionRecord, SessionRow, SessionFormat, SessionTable, has_key, expired, owned_by,
  owned_elsewhere, delete_expired, id_exists, delete_by_user_id, delete_by_user_id_except, delete,
  authenticated_user_id, row_of, put_row, upsert, save, resolve_id, upsert_resolved, create,
}

module _ {Json : Type 0} (format : SessionFormat Json) where
  -- The row holds a session record, and its columns are those of the record.
  pub record Mirrors (r : SessionRow) : Type 0 where
    pub session : SessionRecord Json
    pub read : format.from_str r.encoded ≡ ok session
    pub same_id : session.id ≡ r.id
    pub same_expiry : format.unix_timestamp session.expiry_date ≡ r.expiry_utc
    pub same_user : authenticated_user_id format session ≡ r.user_id

  abbrev pub IsMirrored : SessionTable → Type 0
  IsMirrored t = All Mirrors t

  -- The calls that change the table.
  pub data StoreCall : Type 0 where
    saving : SessionRecord Json → StoreCall
    creating : ℕ → List Text → SessionRecord Json → StoreCall
    deleting : Text → StoreCall
    pruning : ℕ → StoreCall
    revoking : ℕ → StoreCall
    revoking_except : ℕ → Text → StoreCall

  abbrev pub run : StoreCall → Db SessionTable → Db SessionTable
  run (saving session) db = (save format session db).1
  run (creating now ids session) db = (create format now ids session db).1
  run (deleting id) db = (delete id db).1
  run (pruning now) db = (delete_expired now db).1
  run (revoking user) db = (delete_by_user_id user db).1
  run (revoking_except user keep) db = (delete_by_user_id_except user keep db).1

  delete_where-Preserves :
      {A : Type 0} (p : SessionRow → Bool) (h : SessionTable → A)
      → Preserves IsMirrored (statement (λ t. ok (delete_where p t, h t)))
  delete_where-Preserves {A} p h =
      statement-Preserves IsMirrored (λ t. ok (delete_where p t, h t))
        λ t t' a e m. subst IsMirrored (left t t' a e) (All-delete_where Mirrors p t m)
    where
      left :
          (t t' : SessionTable) (a : A)
          → ◌≡◌ {A = Result (SessionTable × A)} (ok (delete_where p t, h t)) (ok (t', a))
          → delete_where p t ≡ t'
      left t t' a e = cc

  put_row-IsMirrored :
      (row : SessionRow) (t : SessionTable)
      → Mirrors row
      → IsMirrored t
      → IsMirrored (put_row format row t)
  put_row-IsMirrored row t h m =
      if_elim IsMirrored (any (has_key row.id) t)
        (λ _. All-update_where Mirrors (has_key row.id) (λ r. row) (λ x _. h) t m)
        (λ _. All-append Mirrors t (row ∷ []) m (h, tt))

  module _
      (reads : (s : SessionRecord Json) (encoded : Text)
        → format.to_string s ≡ ok encoded
        → format.from_str encoded ≡ ok s) where
    upsert-Preserves : (s : SessionRecord Json) → Preserves IsMirrored (upsert format s)
    unfolding upsert
    upsert-Preserves s = go (format.to_string s) refl
      where
        wrote :
            (encoded : Text) (t t' : SessionTable) (a : Unit {0})
            → ◌≡◌ {A = Result (SessionTable × Unit {0})}
                (ok (put_row format (row_of format s encoded) t, tt))
                (ok (t', a))
            → put_row format (row_of format s encoded) t ≡ t'
        wrote encoded t t' a e = cc

        go :
            (r : Result Text)
            → format.to_string s ≡ r
            → Preserves IsMirrored
                (lift r >>= λ encoded. execute (put_row format (row_of format s encoded)))
        go (err x) e = λ db m. m
        go (ok encoded) e =
            statement-Preserves IsMirrored
              (λ t. ok (put_row format (row_of format s encoded) t, tt))
              λ t t' a w m. subst IsMirrored (wrote encoded t t' a w) (
                put_row-IsMirrored (row_of format s encoded) t
                  (record {
                    session = s;
                    read = reads s encoded e;
                    same_id = refl;
                    same_expiry = refl;
                    same_user = refl;
                  })
                  m)

    resolve_id-Preserves :
        (ids : List Text) (s : SessionRecord Json) → Preserves IsMirrored (resolve_id format ids s)
    unfolding resolve_id id_exists
    resolve_id-Preserves [] s =
        bind-Preserves IsMirrored (query (any (has_key s.id))) _
          (query-Preserves IsMirrored (any (has_key s.id))) (λ taken db m. m)
    resolve_id-Preserves (next ∷ ids) s =
        bind-Preserves IsMirrored (query (any (has_key s.id))) _
          (query-Preserves IsMirrored (any (has_key s.id)))
          λ taken.
            branch-Preserves IsMirrored taken _ _
              (λ _. resolve_id-Preserves ids (record s { id = next })) (λ _ db m. m)

    upsert_resolved-Preserves :
        (found : Option (SessionRecord Json)) → Preserves IsMirrored (upsert_resolved format found)
    unfolding upsert_resolved
    upsert_resolved-Preserves none = λ db m. m
    upsert_resolved-Preserves (some s) =
        bind-Preserves IsMirrored (upsert format s) _ (upsert-Preserves s) (λ u db m. m)

    -- Every call keeps the mirror, whether it succeeds or fails: the columns of each row are the id,
    -- the second of expiry and the operator of the session record that it holds. The format reads back
    -- what it writes.
    pub run-IsMirrored :
        (c : StoreCall) (db : Db SessionTable) → IsMirrored db.tables → IsMirrored (run c db).tables
    unfolding save delete delete_expired delete_by_user_id delete_by_user_id_except create
    run-IsMirrored (saving s) = upsert-Preserves s
    run-IsMirrored (creating now ids s) = λ db m.
        bind-Preserves IsMirrored (resolve_id format ids s) _ (resolve_id-Preserves ids s)
          upsert_resolved-Preserves (delete_expired now db).1
          (delete_where-Preserves (expired now) (count_where (expired now)) db m)
    run-IsMirrored (deleting id) = delete_where-Preserves (has_key id) (λ t. tt)
    run-IsMirrored (pruning now) = delete_where-Preserves (expired now) (count_where (expired now))
    run-IsMirrored (revoking user) =
        delete_where-Preserves (owned_by user) (count_where (owned_by user))
    run-IsMirrored (revoking_except user keep) =
        delete_where-Preserves (owned_elsewhere user keep) (count_where (owned_elsewhere user keep))
