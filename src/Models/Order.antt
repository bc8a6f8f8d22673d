-- ===== src/Models/Order.antt =====
-- The order of the severities, and reading an enumeration from its value.
use sentinel_pi.Prelude.{true, false, ◌≡◌, ◌⊎◌, refl, some, arith}
use sentinel_pi.Models.{
  Severity, info, rank, severity_lt, severity_value, parse_severity, AlertCategory, arp_anomaly,
  category_value, parse_category,
}

-- A severity is read back from its value.
pub parse_severity-value : (s : Severity) → parse_severity (severity_value s) ≡ some s
unfolding parse_severity severity_value
parse_severity-value info = refl
parse_severity-value _ = refl

-- A category is read back from its value.
pub parse_category-value : (c : AlertCategory) → parse_category (category_value c) ≡ some c
unfolding parse_category category_value
parse_category-value arp_anomaly = refl
parse_category-value _ = refl

rank-injective : (a b : Severity) → rank a ≡ rank b → a ≡ b
unfolding rank
rank-injective a b h = ground arith

-- `__lt__` is transitive, and holds one way round at most.
pub severity_lt_trans :
    (a b c : Severity)
    → severity_lt a b ≡ true
    → severity_lt b c ≡ true
    → (severity_lt a c ≡ true) × (severity_lt c a ≡ false)
unfolding severity_lt
severity_lt_trans a b c h k = ground arith

-- Any two severities compare, and only equal ones both ways.
pub severity_lt_total :
    (a b : Severity) → (severity_lt a b ≡ true) ⊎ ((a ≡ b) ⊎ (severity_lt b a ≡ true))
unfolding severity_lt
severity_lt_total a b = grind (arith, rank-injective a b)
