-- ===== src/Roles.antt =====
-- The console roles of src/models/operator.rs and the sets of roles that the route guards of
-- src/middleware/authentication.rs let in.
pub mod Laws
mod Tests
use kraken_ui.Common.{
  Bool, true, false, Option, none, some, List, [], ◌∷◌, if◌then◌else◌, Text, codes, text_eq, any,
}

pub data OperatorRole : Type 0 where
  admin operator auditor : OperatorRole

abbrev pub role_eq : OperatorRole → OperatorRole → Bool
role_eq admin admin = true
role_eq operator operator = true
role_eq auditor auditor = true
role_eq _ _ = false

abbrev pub all_roles : List OperatorRole
all_roles = admin ∷ operator ∷ auditor ∷ []

unfoldable pub parse : Text → Option OperatorRole
parse value =
    if text_eq value (codes "admin")
    then some admin
    else if text_eq value (codes "operator")
    then some operator
    else if text_eq value (codes "auditor")
    then some auditor
    else none

unfoldable pub as_str : OperatorRole → Text
as_str admin = codes "admin"
as_str operator = codes "operator"
as_str auditor = codes "auditor"

unfoldable pub can_use_console : OperatorRole → Bool
can_use_console role = true

unfoldable pub can_administer : OperatorRole → Bool
can_administer role = role_eq role admin

unfoldable pub can_manage_rules : OperatorRole → Bool
can_manage_rules admin = true
can_manage_rules operator = true
can_manage_rules _ = false

abbrev pub contains : List OperatorRole → OperatorRole → Bool
contains roles role = any (λ r. role_eq r role) roles
