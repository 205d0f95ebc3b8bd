-- ===== src/Chat/Memory.antt =====
-- internal/adapters/outbound/inmemory: analysis_context_cache.go and chat_feedback_repository.go, with
-- the analysis repository lifted to the state of the chat.
use Prim.Native.String.{◌++◌}
use observai_api.Base.{ℕ, ◌+◌, String, Option, none, some, ltb, if◌then◌else◌}
use observai_api.Base.Dict.{lookup, insert, delete}
use observai_api.Base.Errors.{Error, ok, err, error, analysis_context_not_found}
use observai_api.Base.Exec.{Exec}
use observai_api.Analyses.Types.{AnalysisStore}
use observai_api.Jobs.Types.{AnalysisContext}
use observai_api.Chat.Types.{CachedContext, ChatFeedback, ChatState}

abbrev pub missing_context : String → Error
missing_context id = error analysis_context_not_found ("analysis context not found: " ++ id)

-- (AnalysisContextCache).Save
unfoldable pub save_context : AnalysisContext → ℕ → ChatState → ChatState
save_context context ttl w =
    let entry : CachedContext = record { context = context; expires_at = w.store.time + ttl } in
    record w { contexts = insert context.analysis_id entry w.contexts }

abbrev pub cached : String → Option CachedContext → Exec ChatState AnalysisContext
cached id none w = (err (missing_context id), w)
cached id (some item) w =
    if ltb item.expires_at w.store.time
    then (err (missing_context id), record w { contexts = delete id w.contexts })
    else (ok item.context, w)

-- (AnalysisContextCache).Find
unfoldable pub find_context : String → Exec ChatState AnalysisContext
find_context id w = cached id (lookup id w.contexts) w

abbrev feedback_key : String → String → String
feedback_key analysis_id message_id = analysis_id ++ ("/" ++ message_id)

-- SaveFeedback
unfoldable pub save_feedback : ChatFeedback → ChatState → ChatState
save_feedback feedback w =
    let key = feedback_key feedback.analysis_id feedback.message_id in
    record w { feedbacks = insert key feedback w.feedbacks }

-- (ChatFeedbackRepository).Find
unfoldable pub find_feedback : String → String → ChatState → Option ChatFeedback
find_feedback analysis_id message_id w = lookup (feedback_key analysis_id message_id) w.feedbacks

-- A change of the store.
abbrev pub on_store : (AnalysisStore → AnalysisStore) → ChatState → ChatState
on_store f w = record w { store = f w.store }
