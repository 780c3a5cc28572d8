-- ===== src/Sessions/Refinement.antt =====
-- The store of src/models/session_store.rs refines a map from ids to sessions, and the search for a
-- free id ends.
use kraken_ui.Common.{
  ℕ, ◌≡◌, refl, sym, ◌∙◌, ap, subst, Bool, true, false, Option, none, some, List, [], ◌∷◌, Text,
  arith, all, if◌then◌else◌, Result, ok, Db, pure, statement, delete_where, fun_ext, Bool-cases,
  inl, inr,
}
use kraken_ui.Sessions.{
  SessionRecord, SessionRow, SessionFormat, SessionTable, has_key, expired, owned_by,
  owned_elsewhere, delete_expired, delete_by_user_id, delete_by_user_id_except, delete, row_of,
  put_row, upsert, save, resolve_id, upsert_resolved, create,
}
use kraken_ui.Sessions.Mirror.{
  StoreCall, saving, creating, deleting, pruning, revoking, revoking_except, run,
}
use kraken_ui.Sessions.Abstract.{
  SessionMap, find, HasUniqueIds, drop_rows, put, has_row, any-find, find-delete_where,
  count_where-delete_where, find-put_row, put_row-HasUniqueIds,
}

-- A database that serves every statement.
abbrev pub served : SessionTable → Db SessionTable
served t = record { tables = t; outages = [] }

module _ {Json : Type 0} (format : SessionFormat Json) (encode : SessionRecord Json → Text)
    (encodes : (s : SessionRecord Json) → format.to_string s ≡ ok (encode s)) where
  abbrev stored : SessionRecord Json → SessionRow
  stored s = row_of format s (encode s)

  -- The first of the ids that no row of the map has.
  abbrev pub first_free : SessionMap → List Text → SessionRecord Json → Option (SessionRecord Json)
  first_free m [] s = if has_row (m s.id) then none else some s
  first_free m (next ∷ ids) s =
      let rest = first_free m ids (record s { id = next }) in
      if has_row (m s.id) then rest else some s

  abbrev put_found : SessionMap → Option (SessionRecord Json) → SessionMap
  put_found m none = m
  put_found m (some s) = put (stored s) m

  -- What a call does to the map.
  abbrev pub spec : StoreCall format → SessionMap → SessionMap
  spec (saving s) m = put (stored s) m
  spec (creating now ids s) m =
      let left = drop_rows (expired now) m in put_found left (first_free left ids s)
  spec (deleting id) m = drop_rows (has_key id) m
  spec (pruning now) m = drop_rows (expired now) m
  spec (revoking user) m = drop_rows (owned_by user) m
  spec (revoking_except user keep) m = drop_rows (owned_elsewhere user keep) m

  upsert_lem :
      (s : SessionRecord Json) (t : SessionTable)
      → upsert format s (served t) ≡ (ok tt, served (put_row format (stored s) t))
  unfolding upsert statement
  upsert_lem s t = rw (encodes s) refl

  resolve_id_lem :
      (ids : List Text) (s : SessionRecord Json) (t : SessionTable)
      → resolve_id format ids s (served t) ≡ (ok (first_free (find t) ids s), served t)
  unfolding resolve_id statement
  resolve_id_lem [] s t = rw (any-find s.id t) refl
  resolve_id_lem (next ∷ ids) s t =
      rw (any-find s.id t)
        (go (has_row (find t s.id)) (resolve_id_lem ids (record s { id = next }) t))
    where
      go :
          (b : Bool)
          → resolve_id format ids (record s { id = next }) (served t)
            ≡ (ok (first_free (find t) ids (record s { id = next })), served t)
          → (if b then resolve_id format ids (record s { id = next }) else pure (some s)) (served t)
            ≡ (
              ok (if b then first_free (find t) ids (record s { id = next }) else some s),
              served t,
            )
      go true ih = ih
      go false ih = refl

  upsert_resolved_lem :
      (found : Option (SessionRecord Json)) (t : SessionTable)
      → (to : SessionTable) × (upsert_resolved format found (served t) ≡ (ok found, served to))
        × ((id : Text) → find to id ≡ put_found (find t) found id)
        × (HasUniqueIds t → HasUniqueIds to)
  unfolding upsert_resolved
  upsert_resolved_lem none t = (t, refl, λ id. refl, λ u. u)
  upsert_resolved_lem (some s) t = (
    put_row format (stored s) t,
    rw (upsert_lem s t) refl,
    find-put_row format (stored s) t,
    put_row-HasUniqueIds format (stored s) t,
  )

  -- A creation, after the rows that have expired are gone.
  create_lem :
      (now : ℕ) (ids : List Text) (s : SessionRecord Json) (t : SessionTable)
      → create format now ids s (served t)
        ≡ upsert_resolved format
            (first_free (find (delete_where (expired now) t)) ids s)
            (served (delete_where (expired now) t))
  unfolding create delete_expired statement
  create_lem now ids s t = rw (resolve_id_lem ids s (delete_where (expired now) t)) refl

  deleted :
      (p : SessionRow → Bool) (t : SessionTable)
      → HasUniqueIds t
      → ((id : Text) → find (delete_where p t) id ≡ drop_rows p (find t) id)
        × HasUniqueIds (delete_where p t)
  deleted p t unique = (
    λ id. find-delete_where p t id (unique id),
    λ id. omega (arith, unique id, count_where-delete_where p (has_key id) t),
  )

  -- Every call of the store does to the table what its specification does to the map from ids to
  -- rows, and keeps one row for each id. The database serves the statements, and every session
  -- record can be written.
  pub run-refines :
      (c : StoreCall format) (t : SessionTable)
      → HasUniqueIds t
      → ((id : Text) → find (run format c (served t)).tables id ≡ spec c (find t) id)
        × HasUniqueIds (run format c (served t)).tables
  unfolding save delete delete_expired delete_by_user_id delete_by_user_id_except statement
  run-refines (saving s) t unique =
      rw (upsert_lem s t)
        (find-put_row format (stored s) t, put_row-HasUniqueIds format (stored s) t unique)
  run-refines (creating now ids s) t unique =
      let (same, left_unique) = deleted (expired now) t unique in
      let left = delete_where (expired now) t in
      let (to, ran, maps, keeps) = upsert_resolved_lem (first_free (find left) ids s) left in
      let is : (run format (creating now ids s) (served t)).tables ≡ to =
        ap (λ (r : Result (Option (SessionRecord Json)) × Db SessionTable). r.1.tables)
          (create_lem now ids s t ∙ ran) in
      subst
        (λ to'.
          ((id : Text) → find to' id ≡ spec (creating now ids s) (find t) id) × HasUniqueIds to')
        (sym is)
        (
          λ id. maps id ∙ ap (λ m. put_found m (first_free m ids s) id) (fun_ext same),
          keeps left_unique,
        )
  run-refines (deleting id) t unique = deleted (has_key id) t unique
  run-refines (pruning now) t unique = deleted (expired now) t unique
  run-refines (revoking user) t unique = deleted (owned_by user) t unique
  run-refines (revoking_except user keep) t unique = deleted (owned_elsewhere user keep) t unique

  none_of : (o : Option SessionRow) → has_row o ≡ false → o ≡ none
  none_of none e = refl
  none_of (some r) e = cc

  first_free-some :
      (m : SessionMap) (ids : List Text) (s : SessionRecord Json)
      → all (λ id. has_row (m id)) (s.id ∷ ids) ≡ false
      → (s' : SessionRecord Json) × (first_free m ids s ≡ some s')
        × (m s'.id ≡ none)
        × (s'.entries ≡ s.entries)
        × (s'.expiry_date ≡ s.expiry_date)
  first_free-some m [] s h = elim (Bool-cases (has_row (m s.id))) [
    | inl held ↦ absurd (clash (ground arith))
    | inr free ↦ (s, rw free refl, none_of (m s.id) free, refl, refl)
  ]
    where
      clash : true ≡ false → ⊥
      clash e = cc
  first_free-some m (next ∷ ids) s h = elim (Bool-cases (has_row (m s.id))) [
    | inl held ↦
        let (s', is, free, entries, expiry) =
          first_free-some m ids (record s { id = next }) (ground arith) in
        (s', rw held is, free, entries, expiry)
    | inr free ↦ (s, rw free refl, none_of (m s.id) free, refl, refl)
  ]

  -- A creation ends as soon as one of the ids drawn is free among the sessions that have not expired,
  -- and stores the session under a free one; no other session that has not expired is touched.
  pub create-fresh :
      (now : ℕ) (ids : List Text) (s : SessionRecord Json) (t : SessionTable)
      → HasUniqueIds t
      → all (λ id. has_row (drop_rows (expired now) (find t) id)) (s.id ∷ ids) ≡ false
      → (s' : SessionRecord Json) × (to : SessionTable) × (create format now ids s (served t)
          ≡ (ok (some s'), served to))
        × (drop_rows (expired now) (find t) s'.id ≡ none)
        × (s'.entries ≡ s.entries)
        × (s'.expiry_date ≡ s.expiry_date)
        × ((id : Text) → find to id ≡ put (stored s') (drop_rows (expired now) (find t)) id)
  create-fresh now ids s t unique h =
      let left = delete_where (expired now) t in
      let same : find left ≡ drop_rows (expired now) (find t) =
        fun_ext (deleted (expired now) t unique).0 in
      let (s', is, free, entries, expiry) =
        first_free-some (drop_rows (expired now) (find t)) ids s h in
      let (to, ran, maps, keeps) = upsert_resolved_lem (first_free (find left) ids s) left in
      let found : first_free (find left) ids s ≡ some s' = ap (λ m. first_free m ids s) same ∙ is in
      (
        s',
        to,
        create_lem now ids s t
            ∙ ran
            ∙ ap (λ (o : Option (SessionRecord Json)). (ok o, served to)) found,
        free,
        entries,
        expiry,
        λ id.
            maps id
            ∙ ap (λ o. put_found (find left) o id) found
            ∙ ap (λ m. put (stored s') m id) same,
      )
