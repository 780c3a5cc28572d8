-- ===== src/Policy/Tests.antt =====
-- Passwords and typed input at concrete values, and the theorem on passwords at one.
use kraken_ui.Common.{
  ◌≤◌, ◌<◌, ◌≡◌, ◌↔◌, ◌⊎◌, refl, true, false, none, some, codes, length, byte_len,
  to_ascii_lowercase, ok, err,
}
use kraken_ui.Policy.{
  character_classes, starts_with, found_in, validate, valid_username, valid_email, memchr, memrchr,
  email_identity, pos, negsuc, parse_i32,
}
use kraken_ui.Policy.Accepts.{Contains, IsVaried, validate_iff}

strong : validate (codes "Long&Random#Pass9") (codes "admin") ≡ ok tt
unfolding validate character_classes found_in starts_with to_ascii_lowercase byte_len
strong = refl

passphrase : validate (codes "correct horse battery 9") (codes "admin") ≡ ok tt
unfolding validate character_classes found_in starts_with to_ascii_lowercase byte_len
passphrase = refl

with_identity :
    validate (codes "Admin&Random#Pass9") (codes "admin")
    ≡ err "password cannot contain the login identifier"
unfolding validate character_classes found_in starts_with to_ascii_lowercase byte_len
with_identity = refl

validate_iff_example : (validate (codes "long-random-pass9") (codes "admin") ≡ ok tt) ↔ (
    (14 ≤ length (codes "long-random-pass9"))
    × IsVaried (codes "long-random-pass9")
    × ((byte_len (codes "admin") < 3)
        ⊎ ¬ Contains
            (to_ascii_lowercase (codes "long-random-pass9"))
            (to_ascii_lowercase (codes "admin"))))
validate_iff_example = validate_iff (codes "long-random-pass9") (codes "admin")

an_address : valid_email (codes "ann@example.test") ≡ true
unfolding valid_email memchr memrchr byte_len
an_address = refl

two_signs : valid_email (codes "a@b@c") ≡ false
unfolding valid_email memchr memrchr byte_len
two_signs = refl

local_part : email_identity (codes "ann@example.test") ≡ codes "ann"
unfolding email_identity
local_part = refl

a_name : valid_username (codes "ann.b-1") ≡ true
unfolding valid_username byte_len
a_name = refl

a_number : parse_i32 (codes "+2147483647") ≡ some (pos 2147483647)
unfolding parse_i32
a_number = refl

too_large : parse_i32 (codes "2147483648") ≡ none
unfolding parse_i32
too_large = refl

a_negative : parse_i32 (codes "-7") ≡ some (negsuc 6)
unfolding parse_i32
a_negative = refl
