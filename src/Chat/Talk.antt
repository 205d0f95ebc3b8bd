-- ===== src/Chat/Talk.antt =====
-- internal/core/usecase/chat.go. Questions about one analysis wait for its lock; a call is one step here.
pub mod Laws
pub mod Exchange
use Prim.Native.String.{◌++◌}
use observai_api.Base.{
  ℕ, zero, suc, String, Bool, true, false, ◌||◌, ◌&&◌, not, List, [], ◌∷◌, Option, none, some, any,
  if◌then◌else◌,
}
use observai_api.Base.Int.{ℤ, pos, ltb_ℤ, leb_ℤ}
use observai_api.Base.Text.{trim_space, is_empty, str_eq}
use observai_api.Base.Errors.{
  Error, Result, ok, err, error, wrap, analysis_not_found, invalid_chat_question,
  chat_message_not_found,
}
use observai_api.Base.Exec.{
  ◌>>=◌, ◌>>◌, Exec, pure, fail, lift, gets, modify, ignore, attempt, wrapping,
}
use observai_api.Domain.Analysis.{AnalysisResult, is_zero_time, Time}
use observai_api.Jobs.Types.{AnalysisContext, new_analysis_context}
use observai_api.Analyses.Types.{ChatMessage, ChatHistoryFilter}
use observai_api.Analyses.Repository.{find, save_exchange, find_message, list_messages}
use observai_api.Chat.Types.{ChatQuestion, ChatAnswer, ChatFeedback, ChatState, ChatPorts}
use observai_api.Chat.Scope.{
  ChatScopeDecision, allows_active_analysis, default_chat_scope_policy, evaluate_scope,
}
use observai_api.Chat.Refusal.{new_out_of_scope_chat_answer}
use observai_api.Chat.Memory.{save_context, find_context, save_feedback, on_store}

abbrev pub role_user : String
role_user = "user"

abbrev pub role_assistant : String
role_assistant = "assistant"

abbrev pub no_analysis_id : Error
no_analysis_id = error analysis_not_found "analysis not found: analysis id is required"

abbrev pub no_question : Error
no_question = error invalid_chat_question "invalid chat question: question is required"

-- The repository's Find.
abbrev pub find_analysis : String → Exec ChatState AnalysisResult
find_analysis id = wrapping "find analysis" (λ w. (find id w.store, w))

abbrev pub question_message : ChatQuestion → Time → ChatMessage
question_message question now = record {
  id = "";
  analysis_id = question.analysis_id;
  role = role_user;
  content = question.question;
  evidence = [];
  citations = [];
  created_at = now;
}

abbrev pub answer_message : ChatAnswer → Time → ChatMessage
answer_message answer now = record {
  id = "";
  analysis_id = answer.analysis_id;
  role = role_assistant;
  content = answer.answer;
  evidence = answer.evidence;
  citations = answer.citations;
  created_at = now;
}

module _ (ports : ChatPorts) where
  -- findAnalysisContext, when the cache has no context.
  unfoldable pub load_context : String → Exec ChatState AnalysisContext
  unfolding find save_context new_analysis_context
  load_context id = do
    analysis ← find_analysis id
    let context : AnalysisContext = new_analysis_context analysis
    modify (save_context context ports.cache_ttl)
    pure context

  abbrev or_load : String → Result AnalysisContext → Exec ChatState AnalysisContext
  or_load id (ok context) = pure context
  or_load id (err e) = load_context id

  -- findAnalysisContext
  unfoldable pub find_analysis_context : String → Exec ChatState AnalysisContext
  unfolding load_context find_context
  find_analysis_context id = do hit ← attempt (find_context id); or_load id hit

  abbrev acquired : Option Error → Result (Unit {0})
  acquired none = ok tt
  acquired (some e) = err (wrap "acquire analysis chat lock" e)

  -- The answer of the responder, or the refusal.
  unfoldable pub answer_in_scope : AnalysisContext → ChatQuestion → Exec ChatState ChatAnswer
  unfolding evaluate_scope default_chat_scope_policy new_out_of_scope_chat_answer
  answer_in_scope context question =
      if allows_active_analysis (evaluate_scope default_chat_scope_policy question.question)
      then wrapping "answer analysis question" (lift (ports.answer context question))
      else pure (
          new_out_of_scope_chat_answer ports.is_letter_or_number context.analysis_id
            question.question)

  -- saveExchange; saving in memory does not fail.
  unfoldable pub record_exchange : ChatQuestion → ChatAnswer → ChatState → ChatState
  unfolding save_exchange
  record_exchange question answer w =
      on_store
        (save_exchange (question_message question w.store.time)
          (answer_message answer w.store.time))
        w

  -- Ask, from the context of the analysis on.
  unfoldable pub ask_about : AnalysisContext → ChatQuestion → Exec ChatState ChatAnswer
  unfolding answer_in_scope record_exchange save_context
  ask_about context question = do
    lift (acquired (ports.acquire question.analysis_id))
    answer ← answer_in_scope context question
    modify (record_exchange question answer)
    modify (save_context context ports.cache_ttl)
    pure answer

  abbrev trimmed : ChatQuestion → ChatQuestion
  trimmed question = record {
    analysis_id = trim_space question.analysis_id;
    question = trim_space question.question;
  }

  -- Ask
  unfoldable pub ask : ChatQuestion → Exec ChatState ChatAnswer
  unfolding find_analysis_context ask_about trim_space
  ask question =
      if is_empty (trim_space question.analysis_id)
      then fail no_analysis_id
      else if is_empty (trim_space question.question)
      then fail no_question
      else do
        context ← find_analysis_context (trim_space question.analysis_id)
        ask_about context (trimmed question)

  abbrev no_message : Error
  no_message = error chat_message_not_found "chat message not found"

  abbrev is_asked : String → ChatMessage → Bool
  is_asked analysis_id message =
      str_eq message.analysis_id analysis_id && str_eq message.role role_user

  -- Regenerate
  unfoldable pub regenerate : String → String → Exec ChatState ChatAnswer
  unfolding ask find_message trim_space
  regenerate analysis_id message_id =
      if is_empty (trim_space analysis_id) || is_empty (trim_space message_id)
      then fail (
          error chat_message_not_found
            "chat message not found: analysis and message id are required")
      else do
        message ← (λ w. (find_message (trim_space message_id) w.store, w))
        if not (is_asked (trim_space analysis_id) message)
            then fail no_message
            else ask (record { analysis_id = trim_space analysis_id; question = message.content })

abbrev pub bounded_history_limit : ℤ → ℤ
bounded_history_limit limit =
    let given = if leb_ℤ limit (pos 0) then pos 50 else limit in
    if ltb_ℤ (pos 200) given then pos 200 else given

-- normalizeChatHistoryFilter
unfoldable pub normalize_chat_history_filter : ChatHistoryFilter → ChatHistoryFilter
normalize_chat_history_filter wanted = record wanted { limit = bounded_history_limit wanted.limit }

-- History
unfoldable pub history : String → ChatHistoryFilter → Exec ChatState (List ChatMessage)
unfolding find list_messages normalize_chat_history_filter trim_space
history analysis_id wanted = if is_empty (trim_space analysis_id) then fail no_analysis_id else do
  found ← find_analysis (trim_space analysis_id)
  gets (λ w. list_messages (trim_space analysis_id) (normalize_chat_history_filter wanted) w.store)
