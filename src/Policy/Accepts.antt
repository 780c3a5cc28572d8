-- ===== src/Policy/Accepts.antt =====
-- Which passwords the policy of src/security/password.rs accepts.
use kraken_ui.Common.{
  ℕ, ◌+◌, Bool, not, any, is_ascii_uppercase, is_ascii_lowercase, is_ascii_digit,
  is_ascii_alphanumeric, ◌≤◌, ◌<◌, ◌≡◌, ◌↔◌, ◌⊎◌, inl, inr, refl, ◌∙◌, ap, ap₂, true, false, [],
  ◌∷◌, ◌++◌, length, Text, byte_len, to_ascii_lowercase, ok, arith, Bool-cases,
}
use kraken_ui.Policy.{one_if, character_classes, starts_with, found_in, validate}

starts_with-rest : (p s : Text) → starts_with p s ≡ true → (rest : Text) × (s ≡ p ++ rest)
unfolding starts_with
starts_with-rest [] s e = (s, refl)
starts_with-rest (c ∷ p) [] e = cc
starts_with-rest (c ∷ p) (d ∷ s) e =
    let same : d ≡ c = ground arith in
    let later : starts_with p s ≡ true = ground arith in
    let (rest, is) = starts_with-rest p s later in (rest, ap₂ ◌∷◌ same is)

starts_with-append : (p rest : Text) → starts_with p (p ++ rest) ≡ true
unfolding starts_with
starts_with-append [] rest = refl
starts_with-append (c ∷ p) rest = ground (arith, starts_with-append p rest)

-- One text stands in another.
abbrev pub Contains : Text → Text → Type 0
Contains text part = (before : Text) × (after : Text) × (text ≡ before ++ (part ++ after))

found_in-Contains : (part text : Text) → found_in part text ≡ true → Contains text part
unfolding found_in
found_in-Contains part [] e = let (rest, is) = starts_with-rest part [] e in ([], rest, is)
found_in-Contains part (d ∷ s) e = elim (Bool-cases (starts_with part (d ∷ s))) [
  | inl here ↦ let (rest, is) = starts_with-rest part (d ∷ s) here in ([], rest, is)
  | inr there ↦
      let later : found_in part s ≡ true = ground arith in
      let (before, after, is) = found_in-Contains part s later in (d ∷ before, after, ap (◌∷◌ d) is)
]

found_in-append : (part before after : Text) → found_in part (before ++ (part ++ after)) ≡ true
unfolding found_in
found_in-append part [] after = go (part ++ after) (starts_with-append part after)
  where
    go : (s : Text) → starts_with part s ≡ true → found_in part s ≡ true
    go [] e = e
    go (d ∷ s) e = ground arith
found_in-append part (d ∷ before) after = ground (arith, found_in-append part before after)

abbrev pub IsUpper : ℕ → Type 0
IsUpper c = (65 ≤ c) × (c ≤ 90)

abbrev pub IsLower : ℕ → Type 0
IsLower c = (97 ≤ c) × (c ≤ 122)

abbrev pub IsDigit : ℕ → Type 0
IsDigit c = (48 ≤ c) × (c ≤ 57)

-- Neither a letter nor a digit of ASCII.
abbrev pub IsSymbol : ℕ → Type 0
IsSymbol c = ¬ IsUpper c × ¬ IsLower c × ¬ IsDigit c

-- Some character of the text is of that kind.
abbrev pub Has : (ℕ → Type 0) → Text → Type 0
Has P [] = ⊥
Has P (c ∷ s) = P c ⊎ Has P s

-- The text has characters of at least three of the four classes.
abbrev pub IsVaried : Text → Type 0
IsVaried s =
    (Has IsUpper s × Has IsLower s × Has IsDigit s)
    ⊎ (Has IsUpper s × Has IsLower s × Has IsSymbol s)
    ⊎ (Has IsUpper s × Has IsDigit s × Has IsSymbol s)
    ⊎ (Has IsLower s × Has IsDigit s × Has IsSymbol s)

any-Has :
    (P : ℕ → Type 0) (p : ℕ → Bool)
    → ((c : ℕ) → p c ≡ true → P c)
    → (s : Text) → any p s ≡ true
    → Has P s
any-Has P p sound [] e = cc
any-Has P p sound (c ∷ s) e = elim (Bool-cases (p c)) [
  | inl here ↦ inl (sound c here)
  | inr there ↦ inr (any-Has P p sound s (ground arith))
]

Has-any :
    (P : ℕ → Type 0) (p : ℕ → Bool)
    → ((c : ℕ) → P c → p c ≡ true)
    → (s : Text) → Has P s
    → any p s ≡ true
Has-any P p complete [] none_of = absurd none_of
Has-any P p complete (c ∷ s) (inl here) = let yes_here = complete c here in ground arith
Has-any P p complete (c ∷ s) (inr there) = let later = Has-any P p complete s there in ground arith

is_ascii_uppercase_iff : (c : ℕ) → (is_ascii_uppercase c ≡ true) ↔ IsUpper c
is_ascii_uppercase_iff c = ground arith

is_ascii_lowercase_iff : (c : ℕ) → (is_ascii_lowercase c ≡ true) ↔ IsLower c
is_ascii_lowercase_iff c = ground arith

is_ascii_digit_iff : (c : ℕ) → (is_ascii_digit c ≡ true) ↔ IsDigit c
is_ascii_digit_iff c = ground arith

IsSymbol-iff : (c : ℕ) → (not (is_ascii_alphanumeric c) ≡ true) ↔ IsSymbol c
IsSymbol-iff c = ground arith

any_iff :
    {P : ℕ → Type 0} {p : ℕ → Bool}
    → ((c : ℕ) → (p c ≡ true) ↔ P c)
    → (s : Text) → (any p s ≡ true) ↔ Has P s
any_iff {P} {p} same s = (any-Has P p (λ c. (same c).0) s, Has-any P p (λ c. (same c).1) s)

three_of :
    (u l d s : Bool)
    → 3 ≤ one_if u + (one_if l + (one_if d + one_if s))
    → ((u ≡ true) × (l ≡ true) × (d ≡ true))
      ⊎ ((u ≡ true) × (l ≡ true) × (s ≡ true))
      ⊎ ((u ≡ true) × (d ≡ true) × (s ≡ true))
      ⊎ ((l ≡ true) × (d ≡ true) × (s ≡ true))
three_of u l d s e = ground arith

of_three :
    (u l d s : Bool)
    → ((u ≡ true) × (l ≡ true) × (d ≡ true))
      ⊎ ((u ≡ true) × (l ≡ true) × (s ≡ true))
      ⊎ ((u ≡ true) × (d ≡ true) × (s ≡ true))
      ⊎ ((l ≡ true) × (d ≡ true) × (s ≡ true))
    → 3 ≤ one_if u + (one_if l + (one_if d + one_if s))
of_three u l d s e = ground arith

-- The count of the source reaches three exactly for a text that is varied.
character_classes-IsVaried : (s : Text) → (3 ≤ character_classes s) ↔ IsVaried s
unfolding character_classes
character_classes-IsVaried s =
    let upper = any_iff is_ascii_uppercase_iff s in
    let lower = any_iff is_ascii_lowercase_iff s in
    let digit = any_iff is_ascii_digit_iff s in
    let symbol = any_iff IsSymbol-iff s in
    (
      λ e. elim (three_of _ _ _ _ e) [
        | inl (u, l, d) ↦ inl (upper.0 u, lower.0 l, digit.0 d)
        | inr (inl (u, l, y)) ↦ inr (inl (upper.0 u, lower.0 l, symbol.0 y))
        | inr (inr (inl (u, d, y))) ↦ inr (inr (inl (upper.0 u, digit.0 d, symbol.0 y)))
        | inr (inr (inr (l, d, y))) ↦ inr (inr (inr (lower.0 l, digit.0 d, symbol.0 y)))
      ],
      λ v. of_three _ _ _ _ elim v [
        | inl (u, l, d) ↦ inl (upper.1 u, lower.1 l, digit.1 d)
        | inr (inl (u, l, y)) ↦ inr (inl (upper.1 u, lower.1 l, symbol.1 y))
        | inr (inr (inl (u, d, y))) ↦ inr (inr (inl (upper.1 u, digit.1 d, symbol.1 y)))
        | inr (inr (inr (l, d, y))) ↦ inr (inr (inr (lower.1 l, digit.1 d, symbol.1 y)))
      ],
    )

-- A password is accepted for an identity exactly if it has at least 14 characters, has characters of
-- at least three of the kinds upper-case letter, lower-case letter, digit and other, and does not
-- contain, whatever the case of the ASCII letters, an identity of three bytes or more.
pub validate_iff :
    (password identity : Text)
    → (validate password identity ≡ ok tt) ↔ (
        (14 ≤ length password)
        × IsVaried password
        × ((byte_len identity < 3)
            ⊎ ¬ Contains (to_ascii_lowercase password) (to_ascii_lowercase identity)))
unfolding validate
validate_iff password identity = (
  λ e.
      let (long, classes, clean) = accepted e in
      (long, (character_classes-IsVaried password).0 classes, clean),
  λ (long, varied, clean). passes long ((character_classes-IsVaried password).1 varied) clean,
)
  where
    part : Text
    part = to_ascii_lowercase identity

    text : Text
    text = to_ascii_lowercase password

    absent : (found_in part text ≡ false) → ¬ Contains text part
    absent e (before, after, is) =
        let there = found_in-append part before after in
        let found : found_in part text ≡ true = ap (found_in part) is ∙ there in cc

    accepted :
        validate password identity ≡ ok tt
        → (14 ≤ length password)
          × (3 ≤ character_classes password)
          × ((byte_len identity < 3) ⊎ ¬ Contains text part)
    accepted e = elim (Bool-cases (found_in part text)) [
      | inl there ↦ (ground arith, ground arith, inl (ground arith))
      | inr apart ↦ (ground arith, ground arith, inr (absent apart))
    ]

    passes :
        14 ≤ length password
        → 3 ≤ character_classes password
        → (byte_len identity < 3) ⊎ ¬ Contains text part
        → validate password identity ≡ ok tt
    passes long classes (inl short) = ground arith
    passes long classes (inr clean) = elim (Bool-cases (found_in part text)) [
      | inl there ↦ absurd (clean (found_in-Contains part text there))
      | inr apart ↦ ground arith
    ]
