-- ===== src/Jobs/Types.antt =====
-- internal/core/domain/job.go, and the state that the use case and the repositories share.
use observai_api.Base.{ℕ, String, Bool, List, Option}
use observai_api.Base.Dict.{Dict}
use observai_api.Base.Errors.{Error, Result}
use observai_api.Domain.Severity.{Severity}
use observai_api.Domain.Analysis.{
  Time, AnalysisRequest, AnalysisResult, Evidence, Recommendation, RootCauseHypothesis,
}

pub data JobStatus : Type 0 where
  pending running completed failed canceled : JobStatus

pub data JobPhase : Type 0 where
  queued collecting_signals normalizing calling_llm persisting done : JobPhase

pub record AnalysisJob : Type 0 where
  pub id : String
  pub analysis_id : String
  pub status : JobStatus
  pub phase : JobPhase
  pub progress_percent : ℕ
  pub request : AnalysisRequest
  pub error_message : String
  pub attempt : ℕ
  pub created_at : Time
  pub started_at : Option Time
  pub phase_started_at : Option Time
  pub finished_at : Option Time

-- domain.AnalysisContext
pub record AnalysisContext : Type 0 where
  pub analysis_id : String
  pub summary : String
  pub severity : Severity
  pub confidence : String
  pub affected_services : List String
  pub evidence : List Evidence
  pub detected_anomalies : List String
  pub possible_root_causes : List RootCauseHypothesis
  pub recommended_actions : List Recommendation
  pub code_level_insights : List String
  pub missing_evidence : List String
  pub analysis_completed_at : Time

-- domain.NewAnalysisContext
unfoldable pub new_analysis_context : AnalysisResult → AnalysisContext
new_analysis_context r = record {
  analysis_id = r.id;
  summary = r.summary;
  severity = r.severity;
  confidence = r.confidence;
  affected_services = r.affected_services;
  evidence = r.evidence;
  detected_anomalies = r.detected_anomalies;
  possible_root_causes = r.possible_root_causes;
  recommended_actions = r.recommended_actions;
  code_level_insights = r.code_level_insights;
  missing_evidence = r.missing_evidence;
  analysis_completed_at = r.created_at;
}

-- A call of the AnalysisCompletionNotifier.
pub data Notification : Type 0 where
  notify_completed : AnalysisResult → Notification
  notify_failed : (job_id : String) → AnalysisRequest → (reason : String) → Notification
  notify_canceled : (job_id : String) → AnalysisRequest → Notification

-- What the goroutines of one process share. A context made by a run of RunAnalysisJob is that run's
-- number, and `canceled_runs` are those whose cancel function was called.
pub record World : Type 0 where
  pub time : Time
  pub jobs : Dict AnalysisJob
  pub analyses : Dict AnalysisResult
  pub contexts : Dict AnalysisContext
  pub active_cancels : Dict ℕ
  pub next_run : ℕ
  pub canceled_runs : List ℕ
  pub notifications : List Notification

-- The collaborators that the use case calls through ports. The Boolean is whether the context that
-- is passed has been cancelled; a failed `save` gives its error.
pub record Ports : Type 0 where
  pub collect : Bool → AnalysisRequest → Result (List Evidence)
  pub redact : List Evidence → List Evidence
  pub generate : Bool → AnalysisRequest → List Evidence → Result AnalysisResult
  pub save : Bool → AnalysisResult → Option Error

-- The places of RunAnalysisJob between which other goroutines can act.
pub data Point : Type 0 where
  before_find before_register before_running before_collect before_generate before_save
        before_finish :
      Point
