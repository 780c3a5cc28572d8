-- ===== src/Monitor/Tests.antt =====
-- The theorems on the account monitor at concrete inputs.
use kraken_ui.Common.{◌≡◌, refl, none, codes, [], ◌∷◌, false, true, arith, text_eq}
use kraken_ui.Monitor.{AccountFailureMonitor, note_failure_at}
use kraken_ui.Monitor.Alerts.{note_run, alert_pattern, alert_once}

abbrev quiet : AccountFailureMonitor
quiet = record { entries = λ k. none; poisoned = false; window = 600; alert_threshold = 3 }

alerts_once :
    note_run quiet (codes "admin") (1 ∷ 2 ∷ 3 ∷ 4 ∷ []) ≡ false ∷ false ∷ true ∷ false ∷ []
unfolding note_run note_failure_at text_eq
alerts_once = refl

alert_once_example :
    note_run quiet (codes "admin") (1 ∷ 2 ∷ 3 ∷ 4 ∷ []) ≡ alert_pattern 3 0 (1 ∷ 2 ∷ 3 ∷ 4 ∷ [])
alert_once_example =
    alert_once quiet (codes "admin") 1 (2 ∷ 3 ∷ 4 ∷ []) refl (omega arith) (omega arith) refl
      (omega arith)
