-- ===== src/Common/Strings.antt =====
-- Text as the list of its Unicode scalar values: what Rust's `chars` gives of a `str`.
use Prim.Native.Nat.{ℕ, ◌+◌, ◌-◌}
use Prim.Native.Char.{code}
use Prim.Native.String.{String}
use mathlib.Core.Path.{◌≡◌, refl, ap₂}
use mathlib.Core.Logic.{◌↔◌, ◌≢◌, inl, inr}
use mathlib.Core.Bool.{Bool, true, false, ◌&&◌, ◌||◌}
use mathlib.Core.List.{List, [], ◌∷◌, map, reverse}
use native.Mathlib.Omega.{arith}
use kraken_ui.Common.Tests.{ltb, leb, ◌==◌, if◌then◌else◌, Bool-cases}

abbrev pub Text : Type 0
Text = List ℕ

-- A literal of the source.
abbrev pub codes : String → Text
codes String.[] = []
codes (String.◌∷◌ c s) = code c ∷ codes s

unfoldable pub text_eq : Text → Text → Bool
text_eq [] [] = true
text_eq [] (d ∷ t) = false
text_eq (c ∷ s) [] = false
text_eq (c ∷ s) (d ∷ t) = (c == d) && text_eq s t

pub eq_of_text_eq : (s t : Text) → text_eq s t ≡ true → s ≡ t
unfolding text_eq
eq_of_text_eq [] [] h = refl
eq_of_text_eq [] (d ∷ t) h = cc
eq_of_text_eq (c ∷ s) [] h = cc
eq_of_text_eq (c ∷ s) (d ∷ t) h =
    let first : c ≡ d = ground arith in ap₂ ◌∷◌ first (eq_of_text_eq s t (ground arith))

pub text_eq_refl : (s : Text) → text_eq s s ≡ true
unfolding text_eq
text_eq_refl [] = refl
text_eq_refl (c ∷ s) = ground (arith, text_eq_refl s)

pub text_eq_iff : (s t : Text) → (text_eq s t ≡ true) ↔ (s ≡ t)
text_eq_iff s t = (eq_of_text_eq s t, λ e. rw e (text_eq_refl t))

-- The length of a text in bytes of UTF-8, which is what `str::len` counts.
abbrev pub utf8_width : ℕ → ℕ
utf8_width c = if ltb c 0x80 then 1 else if ltb c 0x800 then 2 else if ltb c 0x10000 then 3 else 4

unfoldable pub byte_len : Text → ℕ
byte_len [] = 0
byte_len (c ∷ s) = utf8_width c + byte_len s

abbrev pub is_ascii_uppercase : ℕ → Bool
is_ascii_uppercase c = leb b'A' c && leb c b'Z'

abbrev pub is_ascii_lowercase : ℕ → Bool
is_ascii_lowercase c = leb b'a' c && leb c b'z'

abbrev pub is_ascii_digit : ℕ → Bool
is_ascii_digit c = leb b'0' c && leb c b'9'

abbrev pub is_ascii_alphanumeric : ℕ → Bool
is_ascii_alphanumeric c = is_ascii_uppercase c || is_ascii_lowercase c || is_ascii_digit c

abbrev pub ascii_lower : ℕ → ℕ
ascii_lower c = if is_ascii_uppercase c then c + 32 else c

abbrev pub ascii_upper : ℕ → ℕ
ascii_upper c = if is_ascii_lowercase c then c - 32 else c

unfoldable pub to_ascii_lowercase : Text → Text
to_ascii_lowercase s = map ascii_lower s

pub text_eq_ne : (s t : Text) → s ≢ t → text_eq s t ≡ false
text_eq_ne s t h = elim (Bool-cases (text_eq s t)) [
  | inl e ↦ absurd (h (eq_of_text_eq s t e))
  | inr e ↦ e
]

-- `char::is_whitespace`: the Unicode property White_Space.
abbrev pub is_whitespace : ℕ → Bool
is_whitespace c =
    (leb 9 c && leb c 13)
    || (c == 0x20)
    || (c == 0x85)
    || (c == 0xa0)
    || (c == 0x1680)
    || (leb 0x2000 c && leb c 0x200a)
    || (c == 0x2028)
    || (c == 0x2029)
    || (c == 0x202f)
    || (c == 0x205f)
    || (c == 0x3000)

abbrev pub skip_while : (ℕ → Bool) → Text → Text
skip_while p [] = []
skip_while p (c ∷ s) = let rest = skip_while p s in if p c then rest else c ∷ s

-- `str::trim_matches`: both ends.
unfoldable pub trim_matches : (ℕ → Bool) → Text → Text
trim_matches p s = reverse (skip_while p (reverse (skip_while p s)))

unfoldable pub trim : Text → Text
unfolding trim_matches
trim s = trim_matches is_whitespace s

abbrev pub is_empty : Text → Bool
is_empty [] = true
is_empty (c ∷ s) = false
