-- ===== src/Sessions/Abstract.antt =====
-- The store of src/models/session_store.rs as a map from ids to rows, which is what the primary key
-- of its table makes of it, and the statements as operations on the map.
use kraken_ui.Common.{
  ◌≤◌, ◌≡◌, refl, sym, ◌∙◌, Bool, true, false, Option, none, some, [], ◌∷◌, ◌++◌, Text, arith,
  text_eq, text_eq_refl, eq_of_text_eq, any, if◌then◌else◌, select_one, count_where, update_where,
  delete_where, ap, Bool-cases, inl, inr, select_one-update_other, count_where-update_same,
  count_where-append,
}
use kraken_ui.Sessions.{SessionRow, SessionTable, SessionFormat, has_key, put_row}

abbrev pub SessionMap : Type 0
SessionMap = Text → Option SessionRow

abbrev pub find : SessionTable → SessionMap
find t id = select_one (has_key id) t

-- PRIMARY KEY: no two rows have one id.
abbrev pub HasUniqueIds : SessionTable → Type 0
HasUniqueIds t = (id : Text) → count_where (has_key id) t ≤ 1

abbrev pub keep_row : (SessionRow → Bool) → Option SessionRow → Option SessionRow
keep_row p none = none
keep_row p (some r) = if p r then none else some r

-- The map without the rows that a test picks out.
abbrev pub drop_rows : (SessionRow → Bool) → SessionMap → SessionMap
drop_rows p m id = keep_row p (m id)

abbrev pub put : SessionRow → SessionMap → SessionMap
put row m id = if text_eq row.id id then some row else m id

abbrev pub has_row : Option SessionRow → Bool
has_row none = false
has_row (some r) = true

pub any-find : (id : Text) (t : SessionTable) → any (has_key id) t ≡ has_row (find t id)
unfolding select_one
any-find id [] = refl
any-find id (r ∷ t) = ground (arith, any-find id t)

none_left :
    (p : SessionRow → Bool) (id : Text) (t : SessionTable)
    → count_where (has_key id) t ≡ 0
    → find (delete_where p t) id ≡ none
unfolding select_one count_where delete_where
none_left p id [] h = refl
none_left p id (r ∷ t) h = ground (arith, none_left p id t)

pub find-delete_where :
    (p : SessionRow → Bool) (t : SessionTable) (id : Text)
    → count_where (has_key id) t ≤ 1
    → find (delete_where p t) id ≡ drop_rows p (find t) id
unfolding select_one count_where delete_where
find-delete_where p [] id h = refl
find-delete_where p (r ∷ t) id h = ground (arith, find-delete_where p t id, none_left p id t)

pub count_where-delete_where :
    (p q : SessionRow → Bool) (t : SessionTable)
    → count_where q (delete_where p t) ≤ count_where q t
unfolding count_where delete_where
count_where-delete_where p q [] = omega arith
count_where-delete_where p q (r ∷ t) = ground (arith, count_where-delete_where p q t)

-- A row with one id does not have another.
other_key :
    (id : Text) (row r : SessionRow)
    → text_eq row.id id ≡ false
    → has_key row.id r ≡ true
    → has_key id r ≡ false
other_key id row r apart same = elim (Bool-cases (has_key id r)) [
  | inl here ↦
      let e : row.id ≡ id = sym (eq_of_text_eq r.id row.id same) ∙ eq_of_text_eq r.id id here in
      let clash : text_eq row.id id ≡ true = rw e (text_eq_refl id) in cc
  | inr away ↦ away
]

find-update_self :
    (row : SessionRow) (t : SessionTable)
    → any (has_key row.id) t ≡ true
    → find (update_where (has_key row.id) (λ r. row) t) row.id ≡ some row
unfolding select_one update_where
find-update_self row [] h = cc
find-update_self row (r ∷ t) h = ground (arith, find-update_self row t, text_eq_refl row.id)

find-append :
    (row : SessionRow) (t : SessionTable) (id : Text)
    → find (t ++ row ∷ []) id ≡ (if has_row (find t id) then find t id else find (row ∷ []) id)
unfolding select_one
find-append row [] id = refl
find-append row (r ∷ t) id = ground (arith, find-append row t id)

-- INSERT … ON CONFLICT DO UPDATE writes the row under its id and changes no other.
pub find-put_row :
    {Json : Type 0} (format : SessionFormat Json) (row : SessionRow) (t : SessionTable) (id : Text)
    → find (put_row format row t) id ≡ put row (find t) id
unfolding select_one
find-put_row format row t id = elim (Bool-cases (text_eq row.id id)) [
  | inl same ↦ rw same (rw (← eq_of_text_eq row.id id same) (self (any (has_key row.id) t) refl))
  | inr apart ↦ rw apart (other apart (any (has_key row.id) t))
]
  where
    self :
        (b : Bool)
        → any (has_key row.id) t ≡ b
        → find (if b then update_where (has_key row.id) (λ r. row) t else t ++ row ∷ []) row.id
          ≡ some row
    self true e = find-update_self row t e
    self false e = ground (arith, find-append row t row.id, any-find row.id t, text_eq_refl row.id)

    other :
        text_eq row.id id ≡ false
        → (b : Bool)
        → find (if b then update_where (has_key row.id) (λ r. row) t else t ++ row ∷ []) id
          ≡ find t id
    other apart true =
        select_one-update_other (has_key row.id) (has_key id) (λ r. row)
          (λ r. other_key id row r apart) (λ r h. apart) t
    other apart false = ground (arith, find-append row t id)

none_of_any :
    (id : Text) (t : SessionTable) → any (has_key id) t ≡ false → count_where (has_key id) t ≡ 0
unfolding count_where
none_of_any id [] h = refl
none_of_any id (r ∷ t) h = ground (arith, none_of_any id t)

same_test :
    (id : Text) (row r : SessionRow) → has_key row.id r ≡ true → has_key id row ≡ has_key id r
same_test id row r h = ap (λ (x : Text). text_eq x id) (sym (eq_of_text_eq r.id row.id h))

pub put_row-HasUniqueIds :
    {Json : Type 0} (format : SessionFormat Json) (row : SessionRow) (t : SessionTable)
    → HasUniqueIds t
    → HasUniqueIds (put_row format row t)
unfolding count_where
put_row-HasUniqueIds format row t unique id = go (any (has_key row.id) t) refl
  where
    go :
        (b : Bool)
        → any (has_key row.id) t ≡ b
        → count_where
            (has_key id)
            (if b then update_where (has_key row.id) (λ r. row) t else t ++ row ∷ [])
          ≤ 1
    go true e =
        let same =
          count_where-update_same (has_key row.id) (has_key id) (λ r. row) (same_test id row) t in
        omega (arith, same, unique id)
    go false e = elim (Bool-cases (text_eq row.id id)) [
      | inl here ↦
          let absent : any (has_key id) t ≡ false = rw (← eq_of_text_eq row.id id here) e in
          ground (arith, count_where-append (has_key id) t (row ∷ []), none_of_any id t)
      | inr apart ↦ ground (arith, count_where-append (has_key id) t (row ∷ []), unique id)
    ]
