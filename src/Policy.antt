-- ===== src/Policy.antt =====
-- The password policy of src/security/password.rs and the checks that src/controllers/acl.rs makes on
-- what an administrator types. Text is searched by code points, which finds what a search by the
-- bytes of UTF-8 finds.
pub mod Accepts
mod Tests
use Prim.Native.String.{String}
use kraken_ui.Common.{
  ℕ, zero, suc, ◌+◌, ◌-◌, ◌*◌, Bool, true, false, not, ◌&&◌, ◌||◌, Option, none, some, List, [],
  ◌∷◌, ◌==◌, ltb, leb, all, any, length, if◌then◌else◌, Text, codes, byte_len, is_empty, utf8_width,
  to_ascii_lowercase, is_ascii_uppercase, is_ascii_lowercase, is_ascii_digit, is_ascii_alphanumeric,
  Result, ok, err,
}
use kraken_ui.Roles.{OperatorRole, parse, as_str}
use kraken_ui.Handlers.{AppState, plain_text, secret_has_rejected_markup}

abbrev pub minimum_password_length : ℕ
minimum_password_length = 14

abbrev one_if : Bool → ℕ
one_if b = if b then 1 else 0

-- Bytes that are no letter or digit, those of a character that is not ASCII among them, are symbols.
unfoldable pub character_classes : Text → ℕ
character_classes password =
    one_if (any is_ascii_uppercase password)
    + (one_if (any is_ascii_lowercase password)
        + (one_if (any is_ascii_digit password)
            + one_if (any (λ c. not (is_ascii_alphanumeric c)) password)))

unfoldable pub starts_with : Text → Text → Bool
starts_with [] s = true
starts_with (c ∷ p) [] = false
starts_with (c ∷ p) (d ∷ s) = (d == c) && starts_with p s

-- `memmem::find(…).is_some()`
unfoldable pub found_in : Text → Text → Bool
found_in needle [] = starts_with needle []
found_in needle (d ∷ s) = let later = found_in needle s in starts_with needle (d ∷ s) || later

unfoldable pub validate : Text → Text → Result (Unit {0})
validate password identity =
    let contains_identity = found_in (to_ascii_lowercase identity) (to_ascii_lowercase password) in
    if ltb (length password) minimum_password_length
    then err "password must contain at least 14 characters"
    else if ltb (character_classes password) 3
    then err "password must include at least three character classes"
    else if leb 3 (byte_len identity) && contains_identity
    then err "password cannot contain the login identifier"
    else ok tt

abbrev is_username_symbol : ℕ → Bool
is_username_symbol c = is_ascii_alphanumeric c || (c == b'_' || (c == b'.' || c == b'-'))

unfoldable pub valid_username : Text → Bool
valid_username username =
    leb 3 (byte_len username) && (leb (byte_len username) 32 && all is_username_symbol username)

abbrev pub shifted : ℕ → Option ℕ → Option ℕ
shifted n none = none
shifted n (some k) = some (n + k)

-- The offset of the first such character, and of the last.
unfoldable pub memchr : ℕ → Text → Option ℕ
memchr c [] = none
memchr c (d ∷ s) =
    let later = shifted (utf8_width d) (memchr c s) in if d == c then some 0 else later

abbrev pub or_here : Bool → Option ℕ → Option ℕ
or_here b (some k) = some k
or_here b none = if b then some 0 else none

unfoldable pub memrchr : ℕ → Text → Option ℕ
memrchr c [] = none
memrchr c (d ∷ s) = or_here (d == c) (shifted (utf8_width d) (memrchr c s))

abbrev is_some_at : Option ℕ → Bool
is_some_at none = false
is_some_at (some k) = true

abbrev pub one_inside : ℕ → Option ℕ → Option ℕ → Bool
one_inside len (some first) (some last) = (first == last) && (ltb 0 first && ltb (first + 1) len)
one_inside len (some first) none = false
one_inside len none o = false

unfoldable pub valid_email : Text → Bool
valid_email email =
    if is_empty email || (ltb 128 (byte_len email) || is_some_at (memchr b' ' email))
    then false
    else one_inside (byte_len email) (memchr b'@' email) (memrchr b'@' email)

-- `split('@').next()`
unfoldable pub email_identity : Text → Text
email_identity [] = []
email_identity (c ∷ s) = let rest = email_identity s in if c == b'@' then [] else c ∷ rest

abbrev is_ok : Result (Unit {0}) → Bool
is_ok (ok _) = true
is_ok (err e) = false

-- `str::parse::<i32>`, whose value may be negative.
pub data ℤ : Type 0 where
  pos negsuc : ℕ → ℤ

abbrev digits_value : ℕ → Text → ℕ
digits_value acc [] = acc
digits_value acc (c ∷ s) = digits_value (acc * 10 + (c - b'0')) s

abbrev all_digits : Text → Bool
all_digits s = not (is_empty s) && all is_ascii_digit s

abbrev negated : ℕ → ℤ
negated zero = pos 0
negated (suc n) = negsuc n

parse_after : Bool → Text → Option ℤ
parse_after negative s =
    let n = digits_value 0 s in
    if not (all_digits s)
    then none
    else if negative
    then (if leb n 2147483648 then some (negated n) else none)
    else if leb n 2147483647
    then some (pos n)
    else none

unfoldable pub parse_i32 : Text → Option ℤ
unfolding parse_after
parse_i32 [] = none
parse_i32 (c ∷ s) =
    if c == b'-' then parse_after true s else parse_after false (if c == b'+' then s else c ∷ s)

pub record ValidatedOperator : Type 0 where
  pub username : Text
  pub email : Text
  pub operator_type : Text
  pub password : Option Text

abbrev pub password_example : String
password_example =
    "Weak password. Use at least 14 characters with upper- and lower-case letters, a number and a symbol. For example: More-Than-14!Characters9."

module _ {S : Type 0} (state : AppState S) where
  unfoldable pub password_is_acceptable : Text → Text → Text → Bool
  password_is_acceptable password username email =
      is_ok (state.password_policy password username)
      && is_ok (state.password_policy password (email_identity email))

  pub validated_password : Text → Text → Text → Bool → Result (Option Text)
  validated_password raw_password username email password_optional =
      if is_empty raw_password && password_optional
      then ok none
      else if secret_has_rejected_markup state.clean_markup raw_password
          || not (password_is_acceptable raw_password username email)
      then err password_example
      else ok (some raw_password)

  abbrev validated : Text → Text → OperatorRole → Result (Option Text) → Result ValidatedOperator
  validated username email role (err message) = err message
  validated username email role (ok password) = ok (record {
    username = username;
    email = email;
    operator_type = as_str role;
    password = password;
  })

  pub with_parsed : Text → Text → Text → Bool → Option OperatorRole → Result ValidatedOperator
  unfolding validated_password as_str
  with_parsed username email raw_password password_optional none = err "Invalid user type."
  with_parsed username email raw_password password_optional (some role) =
      validated username email role
        (validated_password raw_password username email password_optional)

  abbrev pub cleaned : Text → Text
  cleaned raw = to_ascii_lowercase (plain_text state.clean_markup raw)

  unfoldable pub validate_operator : Text → Text → Text → Text → Bool → Result ValidatedOperator
  unfolding with_parsed
  validate_operator raw_username raw_email raw_operator_type raw_password password_optional =
      if not (valid_username (cleaned raw_username))
      then err "The username must be 3 to 32 safe characters."
      else if not (valid_email (cleaned raw_email))
      then err "The email address is invalid or longer than 128 characters."
      else with_parsed (cleaned raw_username) (cleaned raw_email) raw_password password_optional
          (parse (cleaned raw_operator_type))
