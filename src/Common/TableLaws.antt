-- ===== src/Common/TableLaws.antt =====
-- What the statements on a table do to its counts and its searches.
use Prim.Native.Nat.{◌+◌, ◌≤◌}
use mathlib.Core.Bool.{Bool, true, false}
use mathlib.Core.Option.{none, some}
use mathlib.Core.Path.{◌≡◌, refl}
use mathlib.Core.List.{List, [], ◌∷◌, ◌++◌}
use native.Mathlib.Omega.{arith}
use kraken_ui.Common.Tables.{select_one, select_all, count_where, update_where, delete_where}

module _ {ℓ} {A : Type ℓ} (p q : A → Bool) (f : A → A) where
  -- Rows that no test picks out are still not picked out if the update keeps it so.
  pub count_where-update_zero :
      ((x : A) → p x ≡ true → q x ≡ false → q (f x) ≡ false)
      → (xs : List A) → count_where q xs ≡ 0
      → count_where q (update_where p f xs) ≡ 0
  unfolding count_where update_where
  count_where-update_zero keep [] h = refl
  count_where-update_zero keep (x ∷ xs) h = ground (arith, keep x, count_where-update_zero keep xs)

  -- An update that takes its rows out of `q` lowers the count by the rows that it touches.
  pub count_where-update_sub :
      ((x : A) → p x ≡ true → q x ≡ true)
      → ((x : A) → p x ≡ true → q (f x) ≡ false)
      → (xs : List A) → count_where q (update_where p f xs) + count_where p xs ≡ count_where q xs
  unfolding count_where update_where
  count_where-update_sub within out [] = omega arith
  count_where-update_sub within out (x ∷ xs) =
      ground (arith, within x, out x, count_where-update_sub within out xs)

  -- An update that keeps `q` as it is keeps the count.
  pub count_where-update_same :
      ((x : A) → p x ≡ true → q (f x) ≡ q x)
      → (xs : List A) → count_where q (update_where p f xs) ≡ count_where q xs
  unfolding count_where update_where
  count_where-update_same same [] = refl
  count_where-update_same same (x ∷ xs) = ground (arith, same x, count_where-update_same same xs)

  pub count_where-update_le :
      ((x : A) → p x ≡ true → q x ≡ false → q (f x) ≡ false)
      → (xs : List A) → count_where q (update_where p f xs) ≤ count_where q xs
  unfolding count_where update_where
  count_where-update_le keep [] = omega arith
  count_where-update_le keep (x ∷ xs) = ground (arith, keep x, count_where-update_le keep xs)

module _ {ℓ} {A : Type ℓ} where
  -- An update that takes its rows out of its own test leaves none.
  pub count_where-update_none :
      (p : A → Bool) (f : A → A)
      → ((x : A) → p x ≡ true → p (f x) ≡ false)
      → (xs : List A) → count_where p (update_where p f xs) ≡ 0
  unfolding count_where update_where
  count_where-update_none p f out [] = refl
  count_where-update_none p f out (x ∷ xs) =
      ground (arith, out x, count_where-update_none p f out xs)

  pub count_where-zero_of :
      (p q : A → Bool)
      → ((x : A) → q x ≡ true → p x ≡ true)
      → (xs : List A) → count_where p xs ≡ 0
      → count_where q xs ≡ 0
  unfolding count_where
  count_where-zero_of p q within [] h = refl
  count_where-zero_of p q within (x ∷ xs) h =
      ground (arith, within x, count_where-zero_of p q within xs)

  pub count_where-append :
      (p : A → Bool) (xs ys : List A)
      → count_where p (xs ++ ys) ≡ count_where p xs + count_where p ys
  unfolding count_where
  count_where-append p [] ys = omega arith
  count_where-append p (x ∷ xs) ys = ground (arith, count_where-append p xs ys)

  -- After a DELETE no row is left that the test picks out, and no other row is gone.
  pub count_where-delete :
      (p q : A → Bool)
      → ((x : A) → q x ≡ true → p x ≡ true)
      → (xs : List A) → count_where q (delete_where p xs) ≡ 0
  unfolding count_where delete_where
  count_where-delete p q within [] = refl
  count_where-delete p q within (x ∷ xs) =
      ground (arith, within x, count_where-delete p q within xs)

  pub select_all-delete :
      (p q : A → Bool)
      → ((x : A) → q x ≡ true → p x ≡ false)
      → (xs : List A) → select_all q (delete_where p xs) ≡ select_all q xs
  unfolding select_all delete_where
  select_all-delete p q apart [] = refl
  select_all-delete p q apart (x ∷ xs) = ground (arith, apart x, select_all-delete p q apart xs)

  pub select_all-update :
      (p q : A → Bool) (f : A → A)
      → ((x : A) → p x ≡ true → q x ≡ false)
      → ((x : A) → p x ≡ true → q (f x) ≡ false)
      → (xs : List A) → select_all q (update_where p f xs) ≡ select_all q xs
  unfolding select_all update_where
  select_all-update p q f apart out [] = refl
  select_all-update p q f apart out (x ∷ xs) =
      ground (arith, apart x, out x, select_all-update p q f apart out xs)

  -- An UPDATE by key that keeps the key finds the new row where the old one was.
  pub select_one-update :
      (p : A → Bool) (f : A → A)
      → ((x : A) → p x ≡ true → p (f x) ≡ true)
      → (xs : List A) (x : A) → select_one p xs ≡ some x
      → select_one p (update_where p f xs) ≡ some (f x)
  unfolding select_one update_where
  select_one-update p f keep [] y e = cc
  select_one-update p f keep (x ∷ xs) y e = ground (arith, keep x, select_one-update p f keep xs y)

  pub select_one-update_other :
      (p q : A → Bool) (f : A → A)
      → ((x : A) → p x ≡ true → q x ≡ false)
      → ((x : A) → p x ≡ true → q (f x) ≡ false)
      → (xs : List A) → select_one q (update_where p f xs) ≡ select_one q xs
  unfolding select_one update_where
  select_one-update_other p q f apart out [] = refl
  select_one-update_other p q f apart out (x ∷ xs) =
      ground (arith, apart x, out x, select_one-update_other p q f apart out xs)

  pub select_one-test : (p : A → Bool) (xs : List A) {x : A} → select_one p xs ≡ some x → p x ≡ true
  unfolding select_one
  select_one-test p [] e = cc
  select_one-test p (y ∷ xs) {x} e = ground (arith, select_one-test p xs {x = x})

  pub select_one-delete : (p : A → Bool) (xs : List A) → select_one p (delete_where p xs) ≡ none
  unfolding select_one delete_where
  select_one-delete p [] = refl
  select_one-delete p (x ∷ xs) = ground (arith, select_one-delete p xs)

  -- A row that another test finds is still found after a DELETE that spares it.
  pub select_one-delete_spared :
      (p q : A → Bool)
      → ((x : A) → q x ≡ true → p x ≡ false)
      → (xs : List A) → select_one q (delete_where p xs) ≡ select_one q xs
  unfolding select_one delete_where
  select_one-delete_spared p q apart [] = refl
  select_one-delete_spared p q apart (x ∷ xs) =
      ground (arith, apart x, select_one-delete_spared p q apart xs)

  pub select_one-append :
      (p : A → Bool) (xs ys : List A) (x : A)
      → select_one p xs ≡ some x
      → select_one p (xs ++ ys) ≡ some x
  unfolding select_one
  select_one-append p [] ys y e = cc
  select_one-append p (x ∷ xs) ys y e = ground (arith, select_one-append p xs ys y)
