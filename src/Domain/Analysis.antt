-- ===== src/Domain/Analysis.antt =====
-- internal/core/domain/analysis.go and validation.go: requests, evidence and results.
-- A time.Time is the nanoseconds since Go's zero time (1 January of year 1, UTC), so that
-- `IsZero` is a test for 0 and `UTC()` changes nothing; earlier instants are not modelled.
use observai_api.Base.{ℕ, String, Bool, not, ◌&&◌, List, ◌==◌, ltb, if◌then◌else◌}
use observai_api.Base.Int.{ℤ}
use observai_api.Base.Float.{Float}
use observai_api.Base.Text.{trim_space, is_empty}
use observai_api.Base.Dict.{Dict}
use observai_api.Base.Errors.{Result, ok, err, error, invalid_analysis_request}
use observai_api.Domain.Severity.{Severity}

abbrev pub Time : Type 0
Time = ℕ

abbrev pub is_zero_time : Time → Bool
is_zero_time t = t == 0

abbrev pub SignalType : Type 0
SignalType = String

abbrev pub signal_traces : SignalType
signal_traces = "traces"

pub record TimeWindow : Type 0 where
  pub start : Time
  pub finish : Time

pub record AnalysisRequest : Type 0 where
  pub goal : String
  pub time_window : TimeWindow
  pub affected_services : List String
  pub signals : List SignalType
  pub context : String

pub record Evidence : Type 0 where
  pub id : String
  pub severity : Severity
  pub signal : SignalType
  pub service : String
  pub source : String
  pub name : String
  pub summary : String
  pub observed : Time
  pub score : Float
  pub confidence : Float
  pub unit : String
  pub reference : String
  pub provider : String
  pub query : String
  pub attributes : Dict String
  pub redacted_fields : List String

pub record RootCauseHypothesis : Type 0 where
  pub cause : String
  pub evidence : List String
  pub confidence : String

pub record Recommendation : Type 0 where
  pub action : String
  pub rationale : String
  pub priority : ℤ
  pub evidence_ids : List String

pub record AnalysisResult : Type 0 where
  pub id : String
  pub trace_id : String
  pub summary : String
  pub severity : Severity
  pub confidence : String
  pub affected_services : List String
  pub evidence : List Evidence
  pub detected_anomalies : List String
  pub possible_root_causes : List RootCauseHypothesis
  pub recommended_actions : List Recommendation
  pub code_level_insights : List String
  pub missing_evidence : List String
  pub created_at : Time

-- (AnalysisRequest).Validate
unfoldable pub validate : AnalysisRequest → Result (Unit {0})
unfolding trim_space
validate request =
    if is_empty (trim_space request.goal)
    then err (error invalid_analysis_request "invalid analysis request: goal is required")
    else if not (is_zero_time request.time_window.start)
        && not (is_zero_time request.time_window.finish)
        && ltb request.time_window.finish request.time_window.start
    then err (
        error invalid_analysis_request
          "invalid analysis request: time window end must be after start")
    else ok tt
