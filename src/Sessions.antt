-- ===== src/Sessions.antt =====
-- `SeaOrmSessionStore` of src/models/session_store.rs over its table. The format of a session record
-- (the crates `tower_sessions` and `serde_json`), the seconds of a time (the crate `time`) and the
-- fresh ids are arguments.
pub mod Mirror
pub mod Abstract
pub mod Refinement
pub mod RoundTrip
pub mod Revoked
mod Tests
mod MapTests
use kraken_ui.Common.{
  ℕ, ◌+◌, Bool, true, false, not, ◌&&◌, Option, none, some, List, [], ◌∷◌, ◌++◌, ◌==◌, leb, ltb,
  any, if◌then◌else◌, Text, codes, text_eq, select_one, update_where, delete_where, count_where,
  Result, ok, err, Db, DbM, pure, lift, ◌>>=◌, ◌>>◌, statement, query, execute,
}

abbrev pub user_id_field : Text
user_id_field = codes "authenticated_user_id"

-- `tower_sessions::session::Record`, over the type of JSON values; its expiry is a time of the crate `time`.
pub record SessionRecord (Json : Type 0) : Type 0 where
  pub id : Text
  pub entries : List (Text × Json)
  pub expiry_date : ℕ

-- A row of `kraken_sessions`.
pub record SessionRow : Type 0 where
  pub id : Text
  pub encoded : Text
  pub expiry_utc : ℕ
  pub user_id : ℕ

pub record SessionFormat (Json : Type 0) : Type 0 where
  pub as_i64 : Json → Option ℕ
  pub unix_timestamp : ℕ → ℕ
  pub to_string : SessionRecord Json → Result Text
  pub from_str : Text → Result (SessionRecord Json)

abbrev pub SessionTable : Type 0
SessionTable = List SessionRow

abbrev pub has_key : Text → SessionRow → Bool
has_key id r = text_eq r.id id

abbrev pub expired : ℕ → SessionRow → Bool
expired now r = leb r.expiry_utc now

abbrev pub live : Text → ℕ → SessionRow → Bool
live id now r = text_eq r.id id && ltb now r.expiry_utc

abbrev pub owned_by : ℕ → SessionRow → Bool
owned_by user r = r.user_id == user

abbrev pub owned_elsewhere : ℕ → Text → SessionRow → Bool
owned_elsewhere user keep r = r.user_id == user && not (text_eq r.id keep)

unfoldable pub delete_expired : ℕ → DbM SessionTable ℕ
delete_expired now = statement λ t. ok (delete_where (expired now) t, count_where (expired now) t)

unfoldable pub id_exists : Text → DbM SessionTable Bool
id_exists id = query (any (has_key id))

-- A deletion reports how many sessions it took.
unfoldable pub delete_by_user_id : ℕ → DbM SessionTable ℕ
delete_by_user_id user =
    statement λ t. ok (delete_where (owned_by user) t, count_where (owned_by user) t)

unfoldable pub delete_by_user_id_except : ℕ → Text → DbM SessionTable ℕ
delete_by_user_id_except user keep =
    statement λ t.
      ok (delete_where (owned_elsewhere user keep) t, count_where (owned_elsewhere user keep) t)

unfoldable pub delete : Text → DbM SessionTable (Unit {0})
delete id = execute (delete_where (has_key id))

abbrev pub entry : {Json : Type 0} → Text → List (Text × Json) → Option Json
entry key [] = none
entry key ((k, value) ∷ entries) =
    let rest = entry key entries in if text_eq k key then some value else rest

module _ {Json : Type 0} (format : SessionFormat Json) where
  abbrev i64_or_zero : Option Json → ℕ
  i64_or_zero none = 0
  i64_or_zero (some value) = or_zero (format.as_i64 value)
    where
      or_zero : Option ℕ → ℕ
      or_zero none = 0
      or_zero (some n) = n

  abbrev pub authenticated_user_id : SessionRecord Json → ℕ
  authenticated_user_id session = i64_or_zero (entry user_id_field session.entries)

  abbrev pub row_of : SessionRecord Json → Text → SessionRow
  row_of session encoded = record {
    id = session.id;
    encoded = encoded;
    expiry_utc = format.unix_timestamp session.expiry_date;
    user_id = authenticated_user_id session;
  }

  -- INSERT … ON CONFLICT(id) DO UPDATE
  abbrev pub put_row : SessionRow → SessionTable → SessionTable
  put_row row t =
      if any (has_key row.id) t then update_where (has_key row.id) (λ r. row) t else t ++ row ∷ []

  unfoldable pub upsert : SessionRecord Json → DbM SessionTable (Unit {0})
  upsert session = do
    encoded ← lift (format.to_string session)
    execute (put_row (row_of session encoded))

  unfoldable pub save : SessionRecord Json → DbM SessionTable (Unit {0})
  unfolding upsert
  save session = upsert session

  -- The loop draws a new id while the last one is taken; `none` when the ids drawn are used up.
  unfoldable pub resolve_id :
      List Text → SessionRecord Json → DbM SessionTable (Option (SessionRecord Json))
  unfolding id_exists
  resolve_id [] session = do
    taken ← id_exists session.id
    pure (if taken then none else some session)
  resolve_id (next ∷ ids) session = do
    taken ← id_exists session.id
    let again : DbM SessionTable (Option (SessionRecord Json)) =
        resolve_id ids (record session { id = next })
    if taken then again else pure (some session)

  upsert_resolved : Option (SessionRecord Json) → DbM SessionTable (Option (SessionRecord Json))
  unfolding upsert
  upsert_resolved none = pure none
  upsert_resolved (some session) = upsert session >>= λ _. pure (some session)

  -- `let _ =`: a failure to prune is ignored.
  abbrev ignored : {A : Type 0} → DbM SessionTable A → DbM SessionTable (Unit {0})
  ignored m db = (ok tt, (m db).1)

  unfoldable pub create :
      ℕ → List Text → SessionRecord Json → DbM SessionTable (Option (SessionRecord Json))
  unfolding delete_expired resolve_id upsert_resolved
  create now ids session = do
    ignored (delete_expired now)
    found ← resolve_id ids session
    upsert_resolved found

  decoded : Option SessionRow → DbM SessionTable (Option (SessionRecord Json))
  decoded none = pure none
  decoded (some row) = lift (format.from_str row.encoded) >>= λ session. pure (some session)

  unfoldable pub load : ℕ → Text → DbM SessionTable (Option (SessionRecord Json))
  unfolding decoded
  load now id = do row ← query (select_one (live id now)); decoded row
