-- ===== src/Chat/Feedback.antt =====
-- internal/core/usecase/chat.go: SubmitFeedback, with a feedback repository attached, and AskStream.
use Prim.Native.String.{◌++◌}
use observai_api.Base.{
  String, Bool, not, ◌&&◌, List, [], ◌∷◌, ◌++◌ as append, Option, none, some, any, if◌then◌else◌,
}
use observai_api.Base.Int.{pos}
use observai_api.Base.Text.{trim_space, is_empty, str_eq}
use observai_api.Base.Errors.{Error, Result, ok, err, error, chat_message_not_found}
use observai_api.Base.Exec.{◌>>=◌, Exec, fail, gets, modify}
use observai_api.Domain.Analysis.{Time, is_zero_time}
use observai_api.Analyses.Repository.{find, list_messages}
use observai_api.Chat.Types.{ChatQuestion, ChatAnswer, ChatFeedback, ChatState, ChatPorts}
use observai_api.Chat.Memory.{save_feedback}
use observai_api.Chat.Talk.{role_assistant, no_analysis_id, find_analysis, ask}

-- messageBelongsToAnalysis; listing in memory does not fail.
unfoldable pub message_belongs_to_analysis : String → String → ChatState → Bool
unfolding list_messages
message_belongs_to_analysis analysis_id message_id w =
    any (λ message. str_eq message.id message_id && str_eq message.role role_assistant)
      (list_messages analysis_id (record { before = 0; limit = pos 200 }) w.store)

abbrev or_now : Time → Time → Time
or_now now t = if is_zero_time t then now else t

abbrev foreign_message : String → Error
foreign_message id = error chat_message_not_found ("chat message not found: " ++ id)

-- SubmitFeedback, once the identifiers are trimmed and not empty.
unfoldable pub submit_for : ChatFeedback → Exec ChatState (Unit {0})
unfolding find message_belongs_to_analysis save_feedback
submit_for feedback = do
  found ← find_analysis feedback.analysis_id
  belongs ← gets (message_belongs_to_analysis feedback.analysis_id feedback.message_id)
  if not belongs
      then fail (foreign_message feedback.message_id)
      else modify (λ w.
        save_feedback (record feedback { created_at = or_now w.store.time feedback.created_at }) w)

-- SubmitFeedback
unfoldable pub submit_feedback : ChatFeedback → Exec ChatState (Unit {0})
unfolding submit_for trim_space
submit_feedback feedback =
    let analysis_id = trim_space feedback.analysis_id in
    let message_id = trim_space feedback.message_id in
    if is_empty analysis_id
    then fail no_analysis_id
    else if is_empty message_id
    then fail (error chat_message_not_found "chat message not found: message id is required")
    else submit_for (record feedback { analysis_id = analysis_id; message_id = message_id })

-- ChatStreamEvent
pub data ChatStreamEvent : Type 0 where
  token_event : String → ChatStreamEvent
  evidence_cited : List String → ChatStreamEvent
  done_event : ChatStreamEvent

-- Sends the events in order until the sink refuses one; what was sent before, and the outcome. The sink
-- is asked with the events that it has accepted.
unfoldable pub send_all :
    (List ChatStreamEvent → ChatStreamEvent → Option Error)
    → List ChatStreamEvent
    → List ChatStreamEvent
    → Result (Unit {0}) × List ChatStreamEvent
send_all sink sent [] = (ok tt, sent)
send_all sink sent (event ∷ rest) =
    let later = send_all sink (append sent (event ∷ [])) rest in
    elim (sink sent event) [ none ↦ later | some e ↦ (err e, sent) ]

-- The events of an answer.
abbrev pub events_of : ChatAnswer → List ChatStreamEvent
events_of answer = token_event answer.answer ∷ cited answer.evidence
  where
    cited : List String → List ChatStreamEvent
    cited [] = done_event ∷ []
    cited (id ∷ ids) = evidence_cited (id ∷ ids) ∷ done_event ∷ []

abbrev streamed :
    (List ChatStreamEvent → ChatStreamEvent → Option Error)
    → Result ChatAnswer
    → Result (Unit {0}) × List ChatStreamEvent
streamed sink (err e) = (err e, [])
streamed sink (ok answer) = send_all sink [] (events_of answer)

-- AskStream: the outcome, the events that reached the sink, and the state after.
unfoldable pub ask_stream :
    ChatPorts
    → (List ChatStreamEvent → ChatStreamEvent → Option Error)
    → ChatQuestion
    → ChatState
    → (Result (Unit {0}) × List ChatStreamEvent) × ChatState
unfolding ask send_all
ask_stream ports sink question w = let (r, after) = ask ports question w in (streamed sink r, after)
