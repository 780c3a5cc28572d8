-- ===== src/Common/Selections.antt =====
-- What is selected of a table that has grown, or in which rows were updated or deleted.
use mathlib.Core.Path.{◌≡◌, refl, ap}
use mathlib.Core.Bool.{Bool, true}
use mathlib.Core.Option.{some}
use mathlib.Core.List.{List, [], ◌∷◌, ◌++◌}
use native.Mathlib.Omega.{arith}
use mathlib.Core.Logic.{inl, inr}
use kraken_ui.Common.Tests.{Bool-cases}
use kraken_ui.Common.Lists.{any}
use kraken_ui.Common.Tables.{select_one, select_all, update_where, delete_where}

module _ {A : Type 0} where
  pub append_assoc : (xs ys zs : List A) → (xs ++ ys) ++ zs ≡ xs ++ (ys ++ zs)
  append_assoc [] ys zs = refl
  append_assoc (x ∷ xs) ys zs = ap (◌∷◌ x) (append_assoc xs ys zs)

  pub append-nil : (xs : List A) → xs ++ [] ≡ xs
  append-nil [] = refl
  append-nil (x ∷ xs) = ap (◌∷◌ x) (append-nil xs)

  pub select_all-append :
      (p : A → Bool) (xs ys : List A) → select_all p (xs ++ ys) ≡ select_all p xs ++ select_all p ys
  unfolding select_all
  select_all-append p [] ys = refl
  select_all-append p (x ∷ xs) ys = ground (arith, select_all-append p xs ys)

  pub select_all-delete_same : (p : A → Bool) (xs : List A) → select_all p (delete_where p xs) ≡ []
  unfolding select_all delete_where
  select_all-delete_same p [] = refl
  select_all-delete_same p (x ∷ xs) = ground (arith, select_all-delete_same p xs)

  -- The row that one test finds is updated by another that it passes.
  pub select_one-update_found :
      (p q : A → Bool) (f : A → A)
      → ((x : A) → q (f x) ≡ q x)
      → (xs : List A) (x : A) → select_one q xs ≡ some x
      → p x ≡ true
      → select_one q (update_where p f xs) ≡ some (f x)
  unfolding select_one update_where
  select_one-update_found p q f same [] y e h = cc
  select_one-update_found p q f same (x ∷ xs) y e h =
      ground (arith, same x, h, select_one-update_found p q f same xs y)

  -- Whether a row passes is not changed by an UPDATE of those that do.
  pub any-update :
      (p : A → Bool) (f : A → A)
      → ((x : A) → p (f x) ≡ p x)
      → (xs : List A) → any p (update_where p f xs) ≡ any p xs
  unfolding update_where
  any-update p f same [] = refl
  any-update p f same (x ∷ xs) = ground (arith, same x, any-update p f same xs)

  pub select_one-any :
      (p : A → Bool) (xs : List A) → any p xs ≡ true → (x : A) × (select_one p xs ≡ some x)
  unfolding select_one
  select_one-any p [] e = cc
  select_one-any p (x ∷ xs) e = elim (Bool-cases (p x)) [
    | inl here ↦ (x, ground arith)
    | inr there ↦ let (y, is) = select_one-any p xs (ground arith) in (y, ground arith)
  ]
