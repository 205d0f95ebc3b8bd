-- ===== src/Domain/Severity.antt =====
-- internal/core/domain/analysis.go: the severity enum. `Severity` is a Go string, so a value outside
-- the enum can occur and is normalised.
use observai_api.Base.{ℕ, String, Bool, Option, none, some, [], ◌∷◌, if◌then◌else◌, is_some}
use observai_api.Base.Dict.{Dict, lookup}
pub mod Laws

abbrev pub Severity : Type 0
Severity = String

abbrev pub severity_info : Severity
severity_info = "info"

abbrev pub severity_low : Severity
severity_low = "low"

abbrev pub severity_medium : Severity
severity_medium = "medium"

abbrev pub severity_high : Severity
severity_high = "high"

abbrev pub severity_critical : Severity
severity_critical = "critical"

abbrev pub severity_ranks : Dict ℕ
severity_ranks =
    (severity_info, 0)
    ∷ (severity_low, 1)
    ∷ (severity_medium, 2)
    ∷ (severity_high, 3)
    ∷ (severity_critical, 4)
    ∷ []

unfoldable pub is_valid_severity : Severity → Bool
unfolding lookup
is_valid_severity s = is_some (lookup s severity_ranks)

unfoldable pub normalize_severity : Severity → Severity
unfolding is_valid_severity
normalize_severity s = if is_valid_severity s then s else severity_info

-- A missing key reads as 0.
abbrev or_zero : Option ℕ → ℕ
or_zero none = 0
or_zero (some n) = n

unfoldable pub severity_rank : Severity → ℕ
unfolding lookup normalize_severity
severity_rank s = or_zero (lookup (normalize_severity s) severity_ranks)
