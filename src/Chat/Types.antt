-- ===== src/Chat/Types.antt =====
-- internal/core/domain/analysis.go: questions, answers and feedback; the state that the chat works on.
use observai_api.Base.{ℕ, String, Bool, List, Option}
use observai_api.Base.Dict.{Dict}
use observai_api.Base.Errors.{Error, Result}
use observai_api.Domain.Analysis.{Time}
use observai_api.Analyses.Types.{AnalysisStore, ChatCitation}
use observai_api.Jobs.Types.{AnalysisContext}

pub record ChatQuestion : Type 0 where
  pub analysis_id : String
  pub question : String

pub record ChatAnswer : Type 0 where
  pub analysis_id : String
  pub answer : String
  pub evidence : List String
  pub citations : List ChatCitation

pub record ChatFeedback : Type 0 where
  pub analysis_id : String
  pub message_id : String
  pub useful : Bool
  pub reason : String
  pub created_at : Time

-- cachedAnalysisContext
pub record CachedContext : Type 0 where
  pub context : AnalysisContext
  pub expires_at : Time

-- The repositories and the cache in memory; the clock is that of the store.
pub record ChatState : Type 0 where
  pub store : AnalysisStore
  pub contexts : Dict CachedContext
  pub feedbacks : Dict ChatFeedback

-- The collaborators: the responder, the outcome of waiting for the lock of an analysis, the time to
-- live in the cache, and unicode.IsLetter or unicode.IsNumber.
pub record ChatPorts : Type 0 where
  pub answer : AnalysisContext → ChatQuestion → Result ChatAnswer
  pub acquire : String → Option Error
  pub cache_ttl : ℕ
  pub is_letter_or_number : ℕ → Bool
