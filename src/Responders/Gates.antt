-- ===== src/Responders/Gates.antt =====
-- The test on an alert's category and severity that the responders' `can_handle` share.
use sentinel_pi.Prelude.{
  ◌≤◌, ◌≡◌, String, Bool, true, false, none, some, List, string_key, elem, arith, if◌then◌else◌,
}
use sentinel_pi.Models.{Alert, Severity, severity_lt, parse_severity, category_value, rank}

-- `alert.category.value in categories`
unfoldable pub category_in : Alert → List String → Bool
category_in alert categories = elem (category_value alert.category) categories

-- `not alert.severity < Severity(text)`; a text that names no severity refuses.
unfoldable pub severity_at_least : Alert → String → Bool
severity_at_least alert text = elim (parse_severity text) [
  | none ↦ false
  | some threshold ↦ if severity_lt alert.severity threshold then false else true
]

pub severity_at_least_iff :
    (alert : Alert) (text : String) (threshold : Severity)
    → parse_severity text ≡ some threshold
    → (severity_at_least alert text ≡ true → rank threshold ≤ rank alert.severity)
      × (rank threshold ≤ rank alert.severity → severity_at_least alert text ≡ true)
unfolding severity_at_least severity_lt
severity_at_least_iff alert text threshold e = ((λ h. ground arith), (λ h. ground arith))
