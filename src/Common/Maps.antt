-- ===== src/Common/Maps.antt =====
-- `HashMap<String, V>` as a function from keys. What the sources use of it are `get`, `insert` and
-- `entry`, `remove` and `retain`.
use mathlib.Core.Bool.{Bool}
use mathlib.Core.Option.{Option, none, some}
use kraken_ui.Common.Tests.{if◌then◌else◌}
use kraken_ui.Common.Strings.{Text, text_eq}

abbrev pub Map {ℓ} : Type ℓ → Type ℓ
Map V = Text → Option V

module _ {ℓ} {V : Type ℓ} where
  abbrev pub empty_map : Map V
  empty_map k = none

  abbrev pub insert : Text → V → Map V → Map V
  insert k v m j = if text_eq j k then some v else m j

  abbrev pub remove : Text → Map V → Map V
  remove k m j = if text_eq j k then none else m j

  abbrev pub keep : (V → Bool) → Option V → Option V
  keep p none = none
  keep p (some v) = if p v then some v else none

  abbrev pub retain : (V → Bool) → Map V → Map V
  retain p m j = keep p (m j)

  abbrev pub get_or : V → Option V → V
  get_or d none = d
  get_or d (some v) = v
