-- ===== src/Sessions/Tests.antt =====
-- The session store with a format that keeps the operator and the expiry, and the theorems at it.
use kraken_ui.Common.{
  ℕ, ◌/◌, not, ◌⊎◌, select_all, ◌≡◌, ◌≢◌, refl, sym, ap, ◌∙◌, if_elim, if◌then◌else◌, eq_of_text_eq,
  some, List, [], ◌∷◌, Text, codes, text_eq, Result, ok, err, Db, statement, select_one,
  count_where, delete_where,
}
use kraken_ui.Sessions.{
  SessionRecord, SessionRow, SessionFormat, SessionTable, user_id_field, has_key, owned_by,
  delete_by_user_id, delete_by_user_id_except, authenticated_user_id, load,
}
use kraken_ui.Sessions.Mirror.{Mirrors, IsMirrored, saving, run, run-IsMirrored}
use kraken_ui.Sessions.Revoked.{delete_by_user_id-revoked, delete_by_user_id_except-spares}

abbrev session_of : Text → ℕ → ℕ → SessionRecord ℕ
session_of id user expiry = record {
  id = id;
  entries = (user_id_field, user) ∷ [];
  expiry_date = expiry;
}

-- Only sessions that hold an operator and nothing else are written: the operator, the expiry, the id.
abbrev write : Text → ℕ → List (Text × ℕ) → Result Text
write id expiry [] = err "no operator"
write id expiry ((key, user) ∷ []) =
    if text_eq key user_id_field then ok (user ∷ expiry ∷ id) else err "no operator"
write id expiry ((key, user) ∷ entry ∷ entries) = err "more than an operator"

abbrev read_back : Text → Result (SessionRecord ℕ)
read_back [] = err "empty"
read_back (user ∷ []) = err "short"
read_back (user ∷ expiry ∷ id) = ok (session_of id user expiry)

abbrev format : SessionFormat ℕ
format = record {
  as_i64 = λ n. some n;
  unix_timestamp = λ nanoseconds. nanoseconds / 1000000000;
  to_string = λ s. write s.id s.expiry_date s.entries;
  from_str = read_back;
}

reads_parts :
    (id : Text) (expiry : ℕ) (entries : List (Text × ℕ)) (encoded : Text)
    → write id expiry entries ≡ ok encoded
    → read_back encoded ≡ ok (record { id = id; entries = entries; expiry_date = expiry })
reads_parts id expiry [] encoded e = cc
reads_parts id expiry ((key, user) ∷ entry ∷ entries) encoded e = cc
reads_parts id expiry ((key, user) ∷ []) encoded e =
    if_elim
      (λ r.
        r ≡ ok encoded
        → read_back encoded
          ≡ ok (record { id = id; entries = (key, user) ∷ []; expiry_date = expiry }))
      (text_eq key user_id_field) (λ same e. reads_one (eq_of_text_eq key user_id_field same) e)
      (λ _ e. cc) e
  where
    text_of : {a b : Text} → ◌≡◌ {A = Result Text} (ok a) (ok b) → a ≡ b
    text_of e = cc

    reads_one :
        key ≡ user_id_field
        → ◌≡◌ {A = Result Text} (ok (user ∷ expiry ∷ id)) (ok encoded)
        → read_back encoded
          ≡ ok (record { id = id; entries = (key, user) ∷ []; expiry_date = expiry })
    reads_one k e =
        ap read_back (sym (text_of e))
        ∙ ap (λ (k : Text). ok (record { id = id; entries = (k, user) ∷ []; expiry_date = expiry }))
            (sym k)

reads :
    (s : SessionRecord ℕ) (encoded : Text)
    → format.to_string s ≡ ok encoded
    → format.from_str encoded ≡ ok s
reads s encoded e = reads_parts s.id s.expiry_date s.entries encoded e

abbrev row : Text → ℕ → SessionRow
row id user = record {
  id = id;
  encoded = user ∷ 100000000000 ∷ id;
  expiry_utc = 100;
  user_id = user;
}

abbrev table : Db SessionTable
table = record {
  tables = row (codes "a") 5 ∷ row (codes "b") 5 ∷ row (codes "c") 6 ∷ [];
  outages = [];
}

mirrors : (id : Text) (user : ℕ) → Mirrors format (row id user)
unfolding text_eq
mirrors id user = record {
  session = session_of id user 100000000000;
  read = refl;
  same_id = refl;
  same_expiry = refl;
  same_user = refl;
}

table-IsMirrored : IsMirrored format table.tables
table-IsMirrored = (mirrors _ _, (mirrors _ _, (mirrors _ _, tt)))

run-IsMirrored_example :
    IsMirrored format (run format (saving (session_of (codes "d") 7 200000000000)) table).tables
run-IsMirrored_example =
    run-IsMirrored format reads (saving (session_of (codes "d") 7 200000000000)) table
      table-IsMirrored

abbrev revoked : Db SessionTable
revoked = (delete_by_user_id 5 table).1

delete_by_user_id-revoked_example :
    authenticated_user_id format (session_of (codes "c") 6 100000000000) ≢ 5
unfolding delete_by_user_id load statement select_one count_where delete_where text_eq
delete_by_user_id-revoked_example =
    delete_by_user_id-revoked format 5 2 9 (codes "c") (session_of (codes "c") 6 100000000000) table
      revoked (load format 9 (codes "c") revoked).1 table-IsMirrored refl refl

abbrev spared : Db SessionTable
spared = (delete_by_user_id_except 5 (codes "b") table).1

delete_by_user_id_except-spares_example :
    ((authenticated_user_id format (session_of (codes "b") 5 100000000000) ≢ 5)
      ⊎ (codes "b" ≡ codes "b"))
    × (select_one (has_key (codes "b")) spared.tables
        ≡ select_one (has_key (codes "b")) table.tables)
    × (select_all (λ r. not (owned_by 5 r)) spared.tables
        ≡ select_all (λ r. not (owned_by 5 r)) table.tables)
unfolding delete_by_user_id_except load statement select_one select_all count_where delete_where
    text_eq
delete_by_user_id_except-spares_example =
    delete_by_user_id_except-spares format 5 1 9 (codes "b") (codes "b") table spared
      table-IsMirrored refl
