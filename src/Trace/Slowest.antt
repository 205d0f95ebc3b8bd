-- ===== src/Trace/Slowest.antt =====
-- internal/core/usecase/trace.go: SlowestSpansRule.
use observai_api.Base.{◌≢◌}
use observai_api.Base.Float.{nan}
use observai_api.Trace.{Span}

abbrev pub HasDuration : Span → Type 0
HasDuration s = s.duration_ms ≢ nan
