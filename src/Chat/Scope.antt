-- ===== src/Chat/Scope.antt =====
-- internal/core/usecase/chat_scope_policy.go: which questions the chat answers.
use observai_api.Base.{ℕ, String, Bool, true, false, List, [], ◌∷◌, any, ltb, if◌then◌else◌}
use observai_api.Base.Text.{trim_space, to_lower, contains, str_eq, byte_length}
use observai_api.Base.Text.Words.{trim}

pub data ChatScopeDecision : Type 0 where
  scope_denied scope_allowed contextual_follow_up : ChatScopeDecision

-- AllowsActiveAnalysis
abbrev pub allows_active_analysis : ChatScopeDecision → Bool
allows_active_analysis scope_denied = false
allows_active_analysis scope_allowed = true
allows_active_analysis contextual_follow_up = true

-- compositeChatScopePolicy
pub record ChatScopePolicy : Type 0 where
  pub allowed : List String
  pub contextual : List String
  pub exact_contextual : List String
  pub refusal : List String
  pub min_length : ℕ

abbrev allowed_keywords : List String
allowed_keywords =
    "analysis" ∷ "análise" ∷ "analise" ∷ "evidence" ∷ "evidência" ∷ "evidencia" ∷ "hypothesis"
    ∷ "hipótese" ∷ "hipotese" ∷ "root cause" ∷ "causa raiz" ∷ "recommendation" ∷ "recomendação"
    ∷ "recomendacao" ∷ "service" ∷ "serviço" ∷ "servico" ∷ "log" ∷ "metric" ∷ "métrica" ∷ "metrica"
    ∷ "trace" ∷ "span" ∷ "apm" ∷ "latency" ∷ "latência" ∷ "latencia" ∷ "error" ∷ "erro" ∷ "incident"
    ∷ "incidente" ∷ "severity" ∷ "severidade" ∷ "confidence" ∷ "confiança" ∷ "confianca"
    ∷ "bottleneck" ∷ "gargalo" ∷ "deployment" ∷ "deploy" ∷ "signal" ∷ "sinal" ∷ "anomaly"
    ∷ "anomalia" ∷ "finding" ∷ "observation" ∷ []

abbrev contextual_patterns : List String
contextual_patterns =
    "e agora" ∷ "agora o que" ∷ "o que faço" ∷ "o que faco" ∷ "o que eu faço" ∷ "o que eu faco"
    ∷ "o que fazer" ∷ "como resolver" ∷ "como resolvo" ∷ "como corrigir" ∷ "como corrijo"
    ∷ "como mitigar" ∷ "como investigar" ∷ "por que isso" ∷ "por quê isso" ∷ "me explica"
    ∷ "explique melhor" ∷ "explica melhor" ∷ "detalhe" ∷ "detalhar" ∷ "continua" ∷ "continue"
    ∷ "próximo passo" ∷ "proximo passo" ∷ "próximos passos" ∷ "proximos passos" ∷ "isso é grave"
    ∷ "isso e grave" ∷ "qual prioridade" ∷ "qual o impacto" ∷ "tem risco" ∷ "devo" ∷ "what now"
    ∷ "what should i do" ∷ "what do i do" ∷ "next step" ∷ "next steps" ∷ "how to fix"
    ∷ "how do i fix" ∷ "how to solve" ∷ "how should i solve" ∷ "how to mitigate"
    ∷ "how to investigate" ∷ "why is that" ∷ "why did it" ∷ "explain better" ∷ "explain this"
    ∷ "tell me more" ∷ "go on" ∷ "is this critical" ∷ "is this serious" ∷ "what is the impact"
    ∷ "should i" ∷ []

abbrev exact_contextual_patterns : List String
exact_contextual_patterns = "por que" ∷ "por quê" ∷ "porque" ∷ "pq" ∷ "why" ∷ []

abbrev refusal_patterns : List String
refusal_patterns =
    "ignore previous" ∷ "ignore the previous" ∷ "ignore all previous" ∷ "ignore all instructions"
    ∷ "ignore the instructions" ∷ "disregard previous" ∷ "disregard the previous"
    ∷ "disregard the instructions" ∷ "forget previous" ∷ "forget the previous"
    ∷ "forget your instructions" ∷ "override your instructions" ∷ "system prompt"
    ∷ "reveal your prompt" ∷ "show your prompt" ∷ "jailbreak" ∷ "act as" ∷ "you are now"
    ∷ "pretend to be" ∷ "role play" ∷ "developer mode" ∷ "do anything now" ∷ "ignore the rules"
    ∷ "ignore the system" ∷ "ignore as regras" ∷ "ignore o sistema" ∷ "esqueça as instruções"
    ∷ "esqueca as instrucoes" ∷ "finja ser" ∷ "finja que" ∷ "aja como" ∷ []

unfoldable pub default_chat_scope_policy : ChatScopePolicy
default_chat_scope_policy = record {
  allowed = allowed_keywords;
  contextual = contextual_patterns;
  exact_contextual = exact_contextual_patterns;
  refusal = refusal_patterns;
  min_length = 3;
}

-- strings.ToLower(strings.TrimSpace(question))
unfoldable pub normalized_question : String → String
unfolding trim_space to_lower
normalized_question question = to_lower (trim_space question)

-- A loop over patterns that are looked for in the text.
abbrev pub mentions_any : List String → String → Bool
mentions_any patterns text = any (λ pattern. contains text pattern) patterns

-- Evaluate
unfoldable pub evaluate_scope : ChatScopePolicy → String → ChatScopeDecision
unfolding normalized_question contains byte_length trim
evaluate_scope policy question =
    let normalized = normalized_question question in
    if ltb (byte_length normalized) policy.min_length
    then scope_denied
    else if mentions_any policy.refusal normalized
    then scope_denied
    else if mentions_any policy.allowed normalized
    then scope_allowed
    else if any (str_eq (trim normalized " \t\n\r?!.,;:")) policy.exact_contextual
    then contextual_follow_up
    else if mentions_any policy.contextual normalized
    then contextual_follow_up
    else scope_denied
