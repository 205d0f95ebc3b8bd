-- ===== src/Chat/Talk/Exchange.antt =====
-- internal/core/usecase/chat.go: an exchange that Ask has answered can be read back.
use observai_api.Base.{suc, List, [], ◌∷◌}
use observai_api.Analyses.Types.{ChatMessage, AnalysisStore}
use observai_api.Analyses.Repository.{numbered}

-- The two messages of an exchange, as they are stored.
abbrev pub stored_exchange : ChatMessage → ChatMessage → AnalysisStore → List ChatMessage
stored_exchange question answer store =
    numbered store.time (suc store.next_id) question
    ∷ numbered store.time (suc (suc store.next_id)) answer
    ∷ []
