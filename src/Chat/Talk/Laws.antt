-- ===== src/Chat/Talk/Laws.antt =====
-- internal/core/usecase/chat.go: questions out of scope never reach the model, and an exchange can be read
-- back.
use observai_api.Base.{String, true, ltb, ◌≡◌, refl, Bool-cases, inl, inr}
use observai_api.Base.Text.{trim_space, is_empty, byte_length}
use observai_api.Base.Errors.{Result}
use observai_api.Base.Exec.{continue-agree}
use observai_api.Jobs.Types.{AnalysisContext}
use observai_api.Chat.Types.{ChatQuestion, ChatAnswer, ChatState, ChatPorts}
use observai_api.Chat.Scope.{
  default_chat_scope_policy, evaluate_scope, mentions_any, normalized_question, scope_denied,
}
use observai_api.Chat.Talk.{find_analysis_context, load_context, answer_in_scope, ask_about, ask}

-- A question that mentions one of the patterns of refusal is denied, whatever else it mentions.
evaluate_scope-refusal :
    (question : String)
    → mentions_any default_chat_scope_policy.refusal (normalized_question question) ≡ true
    → evaluate_scope default_chat_scope_policy question ≡ scope_denied
unfolding evaluate_scope
evaluate_scope-refusal question h =
    elim (Bool-cases
      (ltb (byte_length (normalized_question question)) default_chat_scope_policy.min_length)) [
        | inl short ↦ rw short refl
        | inr long ↦ rw (long, h) refl
      ]

-- A trimmed question is refused by the policy of scope because of a pattern of refusal.
abbrev pub IsRefused : String → Type 0
IsRefused question =
    mentions_any default_chat_scope_policy.refusal (normalized_question question) ≡ true

module _ (ports : ChatPorts) (other : AnalysisContext → ChatQuestion → Result ChatAnswer) where
  abbrev changed : ChatPorts
  changed = record ports { answer = other }

  ask_about-guarded :
      (context : AnalysisContext) (question : ChatQuestion) (w : ChatState)
      → IsRefused question.question
      → ask_about ports context question w ≡ ask_about changed context question w
  unfolding ask_about answer_in_scope
  ask_about-guarded context question w h = rw (evaluate_scope-refusal question.question h) refl

  -- The outcome of Ask and the state after it do not depend on what the model would answer, if the
  -- trimmed question mentions one of the patterns of refusal: such a question is refused without
  -- asking the model, even if it also mentions words that are in scope.
  pub ask-guarded :
      (question : ChatQuestion) (w : ChatState)
      → IsRefused (trim_space question.question)
      → ask ports question w ≡ ask changed question w
  unfolding ask find_analysis_context load_context
  ask-guarded question w h =
      let id = trim_space question.analysis_id in
      let asked : ChatQuestion = record {
        analysis_id = id;
        question = trim_space question.question;
      } in
      elim (Bool-cases (is_empty id)) [
        | inl no_id ↦ rw no_id refl
        | inr has_id ↦ elim (Bool-cases (is_empty (trim_space question.question))) [
          | inl no_question ↦ rw (has_id, no_question) refl
          | inr has_question ↦
              let loaded = find_analysis_context ports id w in
              rw (has_id, has_question)
                (continue-agree loaded.0 (λ context. ask_about ports context asked)
                  (λ context. ask_about changed context asked) loaded.1
                  (λ context. ask_about-guarded context asked loaded.1 h))
        ]
      ]
