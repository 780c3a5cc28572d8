-- ===== src/Concurrency/Rows.antt =====
-- Counting over the requests in flight of src/middleware/rate_limit.rs, where each has its own number.
use kraken_ui.Common.{
  ℕ, ◌+◌, ◌≤◌, ◌<◌, ◌≡◌, ◌≢◌, refl, sym, subst, Bool, false, some, List, [], ◌∷◌, arith, ◌==◌,
  if◌then◌else◌, select_one, select_one-test, count_where, update_where, delete_where, All,
}
use kraken_ui.Concurrency.{InFlight, holds_permit, is_request, strong_count, with_permit}

abbrev pub one_if : Bool → ℕ
one_if b = if b then 1 else 0

pub All-map {ℓ κ μ} :
    {A : Type ℓ} (P : A → Type κ) (Q : A → Type μ)
    → ((x : A) → P x → Q x)
    → (xs : List A) → All P xs
    → All Q xs
All-map P Q f [] h = tt
All-map P Q f (x ∷ xs) (h, hs) = (f x h, All-map P Q f xs hs)

pub All-both {ℓ κ μ ν} :
    {A : Type ℓ} (P : A → Type κ) (Q : A → Type μ) (R : A → Type ν)
    → ((x : A) → P x → Q x → R x)
    → (xs : List A) → All P xs
    → All Q xs
    → All R xs
All-both P Q R f [] h k = tt
All-both P Q R f (x ∷ xs) (h, hs) (k, ks) = (f x h k, All-both P Q R f xs hs ks)

more :
    (x : InFlight) (xs : List InFlight) (k : ℕ)
    → 0 < strong_count xs k
    → 0 < strong_count (x ∷ xs) k
unfolding count_where
more x xs k h = ground arith

-- The semaphore of a request in flight is referred to.
pub All-referred : (xs : List InFlight) → All (λ r. 0 < strong_count xs r.semaphore) xs
unfolding count_where
All-referred [] = tt
All-referred (x ∷ xs) = (
  ground arith,
  All-map (λ r. 0 < strong_count xs r.semaphore) (λ r. 0 < strong_count (x ∷ xs) r.semaphore)
      (λ r. more x xs r.semaphore) xs (All-referred xs),
)

no_change :
    (i k : ℕ) (xs : List InFlight)
    → count_where (is_request i) xs ≡ 0
    → count_where (holds_permit k) (update_where (is_request i) with_permit xs)
      ≡ count_where (holds_permit k) xs
unfolding count_where update_where
no_change i k [] h = refl
no_change i k (x ∷ xs) h = ground (arith, no_change i k xs)

pub permit_taken :
    (i k : ℕ) (xs : List InFlight) (r : InFlight)
    → count_where (is_request i) xs ≤ 1
    → select_one (is_request i) xs ≡ some r
    → r.permit ≡ false
    → count_where (holds_permit k) (update_where (is_request i) with_permit xs)
      ≡ count_where (holds_permit k) xs + one_if (r.semaphore == k)
unfolding count_where update_where select_one
permit_taken i k [] r u e p = cc
permit_taken i k (x ∷ xs) r u e p = ground (arith, permit_taken i k xs r, no_change i k xs)

nothing_left :
    (i : ℕ) (q : InFlight → Bool) (xs : List InFlight)
    → count_where (is_request i) xs ≡ 0
    → count_where q (delete_where (is_request i) xs) ≡ count_where q xs
unfolding count_where delete_where
nothing_left i q [] h = refl
nothing_left i q (x ∷ xs) h = ground (arith, nothing_left i q xs)

pub one_gone :
    (i : ℕ) (q : InFlight → Bool) (xs : List InFlight) (r : InFlight)
    → count_where (is_request i) xs ≤ 1
    → select_one (is_request i) xs ≡ some r
    → count_where q (delete_where (is_request i) xs) + one_if (q r) ≡ count_where q xs
unfolding count_where delete_where select_one
one_gone i q [] r u e = cc
one_gone i q (x ∷ xs) r u e = ground (arith, one_gone i q xs r, nothing_left i q xs)

pub no_number :
    (n : ℕ) (xs : List InFlight) → All (λ r. r.request < n) xs → count_where (is_request n) xs ≡ 0
unfolding count_where
no_number n [] h = refl
no_number n (x ∷ xs) (h, hs) = ground (arith, no_number n xs hs)

pub no_holder :
    (n : ℕ) (xs : List InFlight)
    → All (λ r. r.semaphore < n) xs
    → count_where (holds_permit n) xs ≡ 0
unfolding count_where
no_holder n [] h = refl
no_holder n (x ∷ xs) (h, hs) = ground (arith, no_holder n xs hs)

pub fewer :
    (i : ℕ) (q : InFlight → Bool) (xs : List InFlight)
    → count_where q (delete_where (is_request i) xs) ≤ count_where q xs
unfolding count_where delete_where
fewer i q [] = omega arith
fewer i q (x ∷ xs) = ground (arith, fewer i q xs)

pub same_numbers :
    (i j : ℕ) (xs : List InFlight)
    → count_where (is_request j) (update_where (is_request i) with_permit xs)
      ≡ count_where (is_request j) xs
unfolding count_where update_where
same_numbers i j [] = refl
same_numbers i j (x ∷ xs) = ground (arith, same_numbers i j xs)

pub select_one-delete_other :
    (i j : ℕ) (xs : List InFlight)
    → i ≢ j
    → select_one (is_request i) (delete_where (is_request j) xs) ≡ select_one (is_request i) xs
unfolding select_one delete_where
select_one-delete_other i j [] h = refl
select_one-delete_other i j (x ∷ xs) h = ground (arith, select_one-delete_other i j xs h)

pub own_number :
    (i : ℕ) (xs : List InFlight) (r : InFlight)
    → select_one (is_request i) xs ≡ some r
    → select_one (is_request r.request) xs ≡ some r
own_number i xs r e =
    let test = select_one-test (is_request i) xs {x = r} e in
    let is : r.request ≡ i = ground arith in
    subst (λ n. select_one (is_request n) xs ≡ some r) (sym is) e
