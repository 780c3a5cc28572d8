-- ===== src/Operators/Administrator.antt =====
-- What the statements of src/models/operator_repository.rs do to the row of an administrator.
pub mod Statements
use kraken_ui.Common.{
  ℕ, ◌+◌, ◌<◌, ◌≡◌, ◌≢◌, inl, inr, refl, sym, ◌∙◌, ap, subst, Bool, true, false, Option, none, some,
  List, [], ◌∷◌, ◌++◌, ◌==◌, Text, arith, All, All-append, All-delete_where, All-select_one,
  Bool-cases, Result, ok, ok_or, Db, lift, ◌>>=◌, statement, execute, statement-ok, Preserves,
  bind-Preserves, bind_known-Preserves, lift-Preserves, statement-Preserves, query-Preserves,
  transaction-Preserves, select_one, update_where, select_one-update, select_one-update_other,
  select_one-test, select_one-append, select_one-delete_spared, if_elim,
}
use kraken_ui.Roles.{admin, parse}
use kraken_ui.Models.{Operator, Tables, Moment}
use kraken_ui.Operators.{
  PasswordCrypto, NewOperator, UpdateOperator, has_id, find_by_id, find_by_username, find_by_email,
  constrained, violates, pending_row, insert_pending, store_row, create, updated_row,
  encrypt_optional, update_statement, update, record_reauthenticated, delete_by_id, repassworded,
  update_password,
}

-- Ids are below the counter that gives them out.
abbrev pub IsBounded : ℕ → List Operator → Type 0
IsBounded n operators = All (λ o. o.id_user < n) operators

-- The operator with this id is an administrator.
abbrev pub IsAdministrator : ℕ → Tables → Type 0
IsAdministrator a t =
    IsBounded t.next_user t.operators
    × ((o : Operator) × (select_one (has_id a) t.operators ≡ some o)
        × (parse o.operator_type ≡ some admin))

pub bounded_id : (a : ℕ) (t : Tables) → IsAdministrator a t → a < t.next_user
bounded_id a t (bounded, (o, stands, role)) =
    let below =
      All-select_one (λ o. o.id_user < t.next_user) (has_id a) t.operators {x = o} bounded stands in
    let own = select_one-test (has_id a) t.operators {x = o} stands in ground arith

IsBounded-update :
    (n id : ℕ) (f : Operator → Operator)
    → ((o : Operator) → has_id id o ≡ true → has_id id (f o) ≡ true)
    → (xs : List Operator) → IsBounded n xs
    → IsBounded n (update_where (has_id id) f xs)
unfolding update_where
IsBounded-update n id f keep [] h = tt
IsBounded-update n id f keep (x ∷ xs) (h, hs) = (
  if_elim (λ (o : Operator). o.id_user < n) (has_id id x) (λ own. moved x own h) (λ _. h),
  IsBounded-update n id f keep xs hs,
)
  where
    moved : (o : Operator) → has_id id o ≡ true → o.id_user < n → (f o).id_user < n
    moved o own below = ground (arith, keep o)

pub IsBounded-later : (n : ℕ) (xs : List Operator) → IsBounded n xs → IsBounded (n + 1) xs
IsBounded-later n [] h = tt
IsBounded-later n (x ∷ xs) (h, hs) = (omega arith, IsBounded-later n xs hs)

pub updated-IsAdministrator :
    (a id : ℕ) (f : Operator → Operator) (t : Tables)
    → ((o : Operator) → has_id id o ≡ true → has_id id (f o) ≡ true)
    → ((o : Operator)
        → id ≡ a
        → parse o.operator_type ≡ some admin
        → parse (f o).operator_type ≡ some admin)
    → IsAdministrator a t
    → IsAdministrator a (record t { operators = update_where (has_id id) f t.operators })
updated-IsAdministrator a id f t keep role (bounded, (o, stands, is_admin)) = (
  IsBounded-update t.next_user id f keep t.operators bounded,
  elim (Bool-cases (id == a)) [
    | inl e ↦ let same : id ≡ a = ground arith in (f o, own same, role o same is_admin)
    | inr e ↦ (o, other e, is_admin)
  ],
)
  where
    own : id ≡ a → select_one (has_id a) (update_where (has_id id) f t.operators) ≡ some (f o)
    own same =
        subst (λ k. select_one (has_id k) (update_where (has_id id) f t.operators) ≡ some (f o))
          same
          (select_one-update (has_id id) f keep t.operators o
            (subst (λ k. select_one (has_id k) t.operators ≡ some o) (sym same) stands))

    other :
        (id == a) ≡ false → select_one (has_id a) (update_where (has_id id) f t.operators) ≡ some o
    other apart =
        select_one-update_other (has_id id) (has_id a) f (λ x own. ground arith)
          (λ x own. ground (arith, keep x)) t.operators
        ∙ stands
