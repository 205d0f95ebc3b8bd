-- ===== src/Chat/Refusal.antt =====
-- internal/core/usecase/chat_refusal.go: the answer to a question out of scope.
use Prim.Native.Char.{Char, code}
use observai_api.Base.{ℕ, String, Bool, true, false, List, [], ◌∷◌, any, if◌then◌else◌}
use observai_api.Base.Text.{trim_space, to_lower, contains, is_empty, str_eq}
use observai_api.Base.Text.Words.{contains_any, fields, join, map_chars}
use observai_api.Chat.Types.{ChatAnswer}

abbrev space : Char
space = Prim.Native.Char.char b' ' tt

module _ (is_letter_or_number : ℕ → Bool) where
  abbrev letter_or_space : Char → Char
  letter_or_space c = if is_letter_or_number (code c) then c else space

  -- normalizeChatQuestionLanguage
  unfoldable pub normalize_chat_question_language : String → String
  unfolding trim_space to_lower fields join
  normalize_chat_question_language question =
      join (fields (map_chars letter_or_space (to_lower (trim_space question)))) " "

  abbrev portuguese_words : List String
  portuguese_words =
      "qual" ∷ "quais" ∷ "quem" ∷ "quando" ∷ "onde" ∷ "porque" ∷ "como" ∷ "pode" ∷ "voce" ∷ "você"
      ∷ "sobre" ∷ "fora" ∷ "contexto" ∷ "receita" ∷ "bolo" ∷ "franca" ∷ "frança" ∷ "cidade" ∷ "pais"
      ∷ "país" ∷ "clima" ∷ []

  -- looksLikePortugueseQuestion
  unfoldable pub looks_like_portuguese_question : String → Bool
  unfolding normalize_chat_question_language contains_any contains
  looks_like_portuguese_question question =
      let normalized = normalize_chat_question_language question in
      let words = fields normalized in
      if is_empty normalized
      then false
      else if contains_any (to_lower question) "áàâãéêíóôõúç"
      then true
      else if any (λ candidate. any (str_eq candidate) words) portuguese_words
      then true
      else contains normalized "por que"

  -- outOfScopeChatMessage
  unfoldable pub out_of_scope_chat_message : String → String
  unfolding looks_like_portuguese_question
  out_of_scope_chat_message question =
      if looks_like_portuguese_question question
      then "Posso responder apenas sobre a análise ativa da ObservAI. Pergunte sobre evidências, hipóteses, serviços afetados ou próximos passos da investigação."
      else "I can only answer questions about the active ObservAI analysis. Ask about the evidence, hypotheses, affected services or recommended investigation steps."

  -- newOutOfScopeChatAnswer
  unfoldable pub new_out_of_scope_chat_answer : String → String → ChatAnswer
  unfolding out_of_scope_chat_message
  new_out_of_scope_chat_answer analysis_id question = record {
    analysis_id = analysis_id;
    answer = out_of_scope_chat_message question;
    evidence = [];
    citations = [];
  }
