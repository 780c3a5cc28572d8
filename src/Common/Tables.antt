-- ===== src/Common/Tables.antt =====
-- A table of the database as the list of its rows: the statements SELECT, UPDATE, DELETE and COUNT
-- with a WHERE test. UPDATE and DELETE report how many rows they touched.
use Prim.Native.Nat.{ℕ, suc}
use mathlib.Core.Bool.{Bool}
use mathlib.Core.Option.{Option, none, some}
use mathlib.Core.List.{List, [], ◌∷◌}
use kraken_ui.Common.Tests.{if◌then◌else◌}

module _ {ℓ} {A : Type ℓ} where
  unfoldable pub select_one : (A → Bool) → List A → Option A
  select_one p [] = none
  select_one p (x ∷ xs) = if p x then some x else select_one p xs

  unfoldable pub select_all : (A → Bool) → List A → List A
  select_all p [] = []
  select_all p (x ∷ xs) = let rest = select_all p xs in if p x then x ∷ rest else rest

  unfoldable pub count_where : (A → Bool) → List A → ℕ
  count_where p [] = 0
  count_where p (x ∷ xs) = let rest = count_where p xs in if p x then suc rest else rest

  unfoldable pub update_where : (A → Bool) → (A → A) → List A → List A
  update_where p f [] = []
  update_where p f (x ∷ xs) = (if p x then f x else x) ∷ update_where p f xs

  unfoldable pub delete_where : (A → Bool) → List A → List A
  delete_where p [] = []
  delete_where p (x ∷ xs) = let rest = delete_where p xs in if p x then rest else x ∷ rest
