-- ===== src/Analyses/Types.antt =====
-- internal/core/domain/analysis.go: filters and pages of analyses, and chat messages.
use observai_api.Base.{ℕ, String, List}
use observai_api.Base.Int.{ℤ}
use observai_api.Base.Dict.{Dict}
use observai_api.Domain.Severity.{Severity}
use observai_api.Domain.Analysis.{Time, SignalType, AnalysisResult}

pub record AnalysisListFilter : Type 0 where
  pub limit : ℤ
  pub offset : ℤ
  pub severity : Severity
  pub service : String
  pub signal : SignalType
  pub provider : String
  pub from : Time
  pub to : Time
  pub query : String
  pub sort : String
  pub order : String

pub record AnalysisList : Type 0 where
  pub items : List AnalysisResult
  pub limit : ℤ
  pub offset : ℤ
  pub total : ℕ

pub record ChatCitation : Type 0 where
  pub evidence_id : String
  pub snippet : String

pub record ChatMessage : Type 0 where
  pub id : String
  pub analysis_id : String
  pub role : String
  pub content : String
  pub evidence : List String
  pub citations : List ChatCitation
  pub created_at : Time

pub record ChatHistoryFilter : Type 0 where
  pub before : Time
  pub limit : ℤ

-- The repository in memory, and the clock.
pub record AnalysisStore : Type 0 where
  pub time : Time
  pub analyses : Dict AnalysisResult
  pub messages : Dict (List ChatMessage)
  pub next_id : ℕ
