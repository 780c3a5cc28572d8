-- ===== src/Sessions/MapTests.antt =====
-- The store of src/models/session_store.rs as a map, at concrete sessions.
use kraken_ui.Common.{
  ℕ, ◌/◌, ◌≡◌, refl, none, some, [], ◌∷◌, Text, codes, arith, text_eq, if◌then◌else◌, ltb, Result,
  ok, err, select_one, count_where,
}
use kraken_ui.Sessions.{
  SessionRecord, SessionRow, SessionFormat, SessionTable, expired, save, load, create, row_of,
}
use kraken_ui.Sessions.Mirror.{creating, run}
use kraken_ui.Sessions.Abstract.{find, HasUniqueIds, drop_rows, put}
use kraken_ui.Sessions.Refinement.{served, spec, run-refines, create-fresh}
use kraken_ui.Sessions.RoundTrip.{load-save}

-- A session is written as its id and its expiry; it holds nothing else.
abbrev bare : Text → ℕ → SessionRecord ℕ
bare id expiry = record { id = id; entries = []; expiry_date = expiry }

abbrev read_bare : Text → Result (SessionRecord ℕ)
read_bare [] = err "empty"
read_bare (expiry ∷ id) = ok (bare id expiry)

abbrev write_bare : SessionRecord ℕ → Text
write_bare s = s.expiry_date ∷ s.id

abbrev format : SessionFormat ℕ
format = record {
  as_i64 = λ n. some n;
  unix_timestamp = λ nanoseconds. nanoseconds / 1000000000;
  to_string = λ s. ok (write_bare s);
  from_str = read_bare;
}

abbrev row : Text → ℕ → SessionRow
row id expiry = row_of format (bare id expiry) (write_bare (bare id expiry))

-- One session that has expired at 10, and one that has not.
abbrev table : SessionTable
table = row (codes "a") 5000000000 ∷ row (codes "b") 50000000000 ∷ []

unique : HasUniqueIds table
unfolding count_where text_eq
unique [] = omega arith
unique (c ∷ []) = ground arith
unique (c ∷ d ∷ id) = ground arith

run-refines_example :
    ((id : Text)
      → find
          (run format
            (creating 10 (codes "b" ∷ codes "c" ∷ []) (bare (codes "b") 90400000000))
            (served table)).tables
          id
        ≡ spec format write_bare
            (λ s. refl)
            (creating 10 (codes "b" ∷ codes "c" ∷ []) (bare (codes "b") 90400000000))
            (find table)
            id)
    × HasUniqueIds
        (run format
          (creating 10 (codes "b" ∷ codes "c" ∷ []) (bare (codes "b") 90400000000))
          (served table)).tables
run-refines_example =
    run-refines format write_bare (λ s. refl)
      (creating 10 (codes "b" ∷ codes "c" ∷ []) (bare (codes "b") 90400000000)) table unique

create-fresh_example :
    (s' : SessionRecord ℕ) × (to : SessionTable) × (create format 10
        (codes "b" ∷ codes "c" ∷ [])
        (bare (codes "b") 90400000000)
        (served table)
      ≡ (ok (some s'), served to))
    × (drop_rows (expired 10) (find table) s'.id ≡ none)
    × (s'.entries ≡ [])
    × (s'.expiry_date ≡ 90400000000)
    × ((id : Text)
        → find to id
          ≡ put (row_of format s' (write_bare s')) (drop_rows (expired 10) (find table)) id)
unfolding select_one text_eq
create-fresh_example =
    create-fresh format write_bare (λ s. refl) 10 (codes "b" ∷ codes "c" ∷ [])
      (bare (codes "b") 90400000000) table unique refl

load-save_example :
    (load format 60 (codes "b") (save format (bare (codes "b") 90400000000) (served table)).1).0 ≡ (
      if text_eq (codes "b") (codes "b")
      then ok (if ltb 60 90 then some (bare (codes "b") 90400000000) else none)
      else (load format 60 (codes "b") (served table)).0)
load-save_example =
    load-save format (bare (codes "b") 90400000000) (write_bare (bare (codes "b") 90400000000)) refl
      refl 60 (codes "b") table unique
