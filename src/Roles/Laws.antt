-- ===== src/Roles/Laws.antt =====
-- The stored name of a role of src/models/operator.rs stands for that role alone.
use kraken_ui.Common.{◌≡◌, refl, ◌↔◌, some, arith, Text, codes, text_eq, text_eq_iff}
use kraken_ui.Roles.{OperatorRole, admin, operator, auditor, parse, as_str}

pub parse-as_str : (role : OperatorRole) → parse (as_str role) ≡ some role
unfolding parse as_str text_eq
parse-as_str admin = refl
parse-as_str operator = refl
parse-as_str auditor = refl

name_of_parse : (value : Text) (role : OperatorRole) → parse value ≡ some role → value ≡ as_str role
unfolding parse as_str
name_of_parse value admin e = ground (
  arith,
  text_eq_iff value (codes "admin"),
  text_eq_iff value (codes "operator"),
  text_eq_iff value (codes "auditor"),
)
name_of_parse value _ e = ground (
  arith,
  text_eq_iff value (codes "admin"),
  text_eq_iff value (codes "operator"),
  text_eq_iff value (codes "auditor"),
)

-- `parse` accepts exactly the names that `as_str` gives, each as its own role.
pub parse_iff :
    (value : Text) (role : OperatorRole) → (parse value ≡ some role) ↔ (value ≡ as_str role)
parse_iff value role = (name_of_parse value role, λ e. rw e (parse-as_str role))
