-- ===== src/Sessions/RoundTrip.antt =====
-- A session that is saved by src/models/session_store.rs is the one that is loaded, until it expires.
use kraken_ui.Common.{
  ℕ, ◌≤◌, ◌≡◌, refl, sym, ◌∙◌, ap, Bool, true, false, Option, none, some, [], ◌∷◌, Text, arith,
  text_eq, ltb, leb, if◌then◌else◌, Result, ok, err, Db, pure, lift, ◌>>=◌, statement, select_one,
  count_where, dec_lt,
}
use kraken_ui.Sessions.{
  SessionRecord, SessionRow, SessionFormat, SessionTable, has_key, expired, live, row_of, put_row,
  upsert, save, decoded, load,
}
use kraken_ui.Sessions.Abstract.{
  find, HasUniqueIds, drop_rows, keep_row, find-put_row, put_row-HasUniqueIds,
}
use kraken_ui.Sessions.Refinement.{served}

none_live :
    (id : Text) (now : ℕ) (t : SessionTable)
    → count_where (has_key id) t ≡ 0
    → select_one (live id now) t ≡ none
unfolding select_one count_where
none_live id now [] h = refl
none_live id now (r ∷ t) h = ground (arith, none_live id now t)

-- Where ids are unique, a load finds the row of the id, if it has not expired.
find-live :
    (id : Text) (now : ℕ) (t : SessionTable)
    → count_where (has_key id) t ≤ 1
    → select_one (live id now) t ≡ drop_rows (expired now) (find t) id
unfolding select_one count_where
find-live id now [] h = refl
find-live id now (r ∷ t) h = ground (arith, find-live id now t, none_live id now t)

module _ {Json : Type 0} (format : SessionFormat Json) (s : SessionRecord Json) (encoded : Text)
    (written : format.to_string s ≡ ok encoded) (reads : format.from_str encoded ≡ ok s) where
  load_lem :
      (now : ℕ) (id : Text) (t : SessionTable)
      → HasUniqueIds t
      → load format now id (served t)
        ≡ decoded format (drop_rows (expired now) (find t) id) (served t)
  unfolding load statement
  load_lem now id t unique = rw (find-live id now t (unique id)) refl

  saved : SessionTable → SessionTable
  saved t = put_row format (row_of format s encoded) t

  save_lem : (t : SessionTable) → save format s (served t) ≡ (ok tt, served (saved t))
  unfolding save upsert statement saved
  save_lem t = rw written refl

  decoded_same :
      (o : Option SessionRow) (t t' : SessionTable)
      → (decoded format o (served t)).0 ≡ (decoded format o (served t')).0
  unfolding decoded
  decoded_same none t t' = refl
  decoded_same (some r) t t' = go (format.from_str r.encoded)
    where
      go :
          (r : Result (SessionRecord Json))
          → ((lift r >>= λ x. pure (some x)) (served t)).0
            ≡ ((lift r >>= λ x. pure (some x)) (served t')).0
      go (ok x) = refl
      go (err e) = refl

  load_row :
      (now : ℕ) (t : SessionTable)
      → (decoded format (keep_row (expired now) (some (row_of format s encoded))) (served t)).0
        ≡ ok (if ltb now (format.unix_timestamp s.expiry_date) then some s else none)
  unfolding decoded
  load_row now t = elim (dec_lt now (format.unix_timestamp s.expiry_date)) [
    | yes early ↦
        let a : ltb now (format.unix_timestamp s.expiry_date) ≡ true = ground arith in
        let b : leb (format.unix_timestamp s.expiry_date) now ≡ false = ground arith in
        rw (a, b, reads) refl
    | no late ↦
        let a : ltb now (format.unix_timestamp s.expiry_date) ≡ false = ground arith in
        let b : leb (format.unix_timestamp s.expiry_date) now ≡ true = ground arith in
        rw (a, b) refl
  ]

  -- After a session is saved, a load under its id gives it back until the second of its expiry and
  -- nothing from then on, and a load under any other id gives what it gave before. The database serves
  -- the statements, ids are unique, and the format reads back what it wrote.
  pub load-save :
      (now : ℕ) (id : Text) (t : SessionTable)
      → HasUniqueIds t
      → (load format now id (save format s (served t)).1).0 ≡ (
          if text_eq s.id id
          then ok (if ltb now (format.unix_timestamp s.expiry_date) then some s else none)
          else (load format now id (served t)).0)
  unfolding saved
  load-save now id t unique =
      ap (λ (r : Result (Unit {0}) × Db SessionTable). (load format now id r.1).0) (save_lem t)
      ∙ ap (λ (r : Result (Option (SessionRecord Json)) × Db SessionTable). r.0)
          (load_lem now id (saved t)
            (put_row-HasUniqueIds format (row_of format s encoded) t unique))
      ∙ ap (λ o. (decoded format (keep_row (expired now) o) (served (saved t))).0)
          (find-put_row format (row_of format s encoded) t id)
      ∙ go (text_eq s.id id)
    where
      go :
          (b : Bool)
          → (decoded format
              (keep_row (expired now) (if b then some (row_of format s encoded) else find t id))
              (served (saved t))).0
            ≡ (if b
                then ok (if ltb now (format.unix_timestamp s.expiry_date) then some s else none)
                else (load format now id (served t)).0)
      go true = load_row now (saved t)
      go false =
          decoded_same (drop_rows (expired now) (find t) id) (saved t) t
          ∙ sym (
              ap (λ (r : Result (Option (SessionRecord Json)) × Db SessionTable). r.0)
                (load_lem now id t unique))
