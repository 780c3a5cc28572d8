-- ===== src/Roles/Tests.antt =====
-- The theorem on role names at a name.
use kraken_ui.Common.{◌≡◌, ◌↔◌, some, codes}
use kraken_ui.Roles.{admin, parse, as_str}
use kraken_ui.Roles.Laws.{parse_iff}

parse_iff_example : (parse (codes "admin") ≡ some admin) ↔ (codes "admin" ≡ as_str admin)
parse_iff_example = parse_iff (codes "admin") admin
