-- ===== src/Common/Results.antt =====
-- Fallible code: `anyhow::Result`, whose error is its message.
use Prim.Native.String.{String}
use mathlib.Core.Option.{Option, none, some}

pub data Result {ℓ} (A : Type ℓ) : Type ℓ where
  ok : A → Result A
  err : String → Result A

abbrev pub ok_or {ℓ} : {A : Type ℓ} → String → Option A → Result A
ok_or message none = err message
ok_or message (some a) = ok a
