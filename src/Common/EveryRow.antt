-- ===== src/Common/EveryRow.antt =====
-- What holds of every row of a table, through the statements on it.
use mathlib.Core.Bool.{Bool, false}
use mathlib.Core.Option.{some}
use mathlib.Core.Path.{◌≡◌, subst}
use mathlib.Core.List.{List, [], ◌∷◌, ◌++◌}
use kraken_ui.Common.Lists.{All}
use kraken_ui.Common.Tests.{if_elim}
use kraken_ui.Common.Tables.{select_one, update_where, delete_where}

same_some {ℓ} : {A : Type ℓ} {x x' : A} → some x ≡ some x' → x ≡ x'
same_some e = cc

module _ {ℓ κ} {A : Type ℓ} (P : A → Type κ) where
  pub All-append : (xs ys : List A) → All P xs → All P ys → All P (xs ++ ys)
  All-append [] ys hx hy = hy
  All-append (x ∷ xs) ys (h, hx) hy = (h, All-append xs ys hx hy)

  pub All-update_where :
      (p : A → Bool) (f : A → A)
      → ((x : A) → P x → P (f x))
      → (xs : List A) → All P xs
      → All P (update_where p f xs)
  unfolding update_where
  All-update_where p f keep [] h = tt
  All-update_where p f keep (x ∷ xs) (h, hs) =
      (if_elim P (p x) (λ _. keep x h) (λ _. h), All-update_where p f keep xs hs)

  pub All-delete_where : (p : A → Bool) (xs : List A) → All P xs → All P (delete_where p xs)
  unfolding delete_where
  All-delete_where p [] h = tt
  All-delete_where p (x ∷ xs) (h, hs) =
      if_elim (All P) (p x) (λ _. All-delete_where p xs hs) (λ _. (h, All-delete_where p xs hs))

  pub All-select_one :
      (p : A → Bool) (xs : List A) {x : A} → All P xs → select_one p xs ≡ some x → P x
  unfolding select_one
  All-select_one p [] h e = cc
  All-select_one p (y ∷ xs) {x} (h, hs) e =
      if_elim (λ o. o ≡ some x → P x) (p y) (λ _ e. subst P (same_some e) h)
        (λ _ e. All-select_one p xs hs e) e

-- After a DELETE every row fails its test.
pub All-delete_where_out {ℓ} :
    {A : Type ℓ} (p : A → Bool) (xs : List A) → All (λ x. p x ≡ false) (delete_where p xs)
unfolding delete_where
All-delete_where_out p [] = tt
All-delete_where_out p (x ∷ xs) =
    if_elim (All (λ x. p x ≡ false)) (p x) (λ _. All-delete_where_out p xs)
      (λ out. (out, All-delete_where_out p xs))
