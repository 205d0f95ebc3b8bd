-- ===== src/Jobs/Execute.antt =====
-- internal/core/usecase/analysis.go: executeAnalyze, from the request to the saved result.
pub mod Progress
pub mod Outcome
use Prim.Native.String.{◌++◌ as append}
use observai_api.Base.{
  ℕ, suc, String, Bool, true, not, ◌||◌, List, [], ◌∷◌, any, Option, none, some, ◌==◌,
  if◌then◌else◌,
}
use observai_api.Base.Int.{pos}
use observai_api.Base.Text.{trim_space, is_empty, str_eq, decimal}
use observai_api.Base.Dict.{lookup, insert}
use observai_api.Base.Errors.{Error, Result, ok, err, wrap, or_wrap}
use observai_api.Domain.Analysis.{
  AnalysisRequest, AnalysisResult, Evidence, signal_traces, validate,
}
use observai_api.Policy.Severity.{new_severity_policy, reconcile}
use observai_api.Policy.EvidenceSeverity.{new_evidence_severity_policy, apply_severity}
use observai_api.Policy.Evidence.{filter_evidence, relevant_evidence_specification}
use observai_api.Policy.Recommendation.{new_recommendation_policy, apply_recommendations}
use observai_api.Jobs.Types.{
  World, Ports, Point, before_collect, before_generate, before_save, collecting_signals,
  normalizing, calling_llm, persisting, new_analysis_context,
}
use observai_api.Base.Exec.{◌>>=◌, ◌>>◌, Exec, pure, lift, gets, modify, ignore}
use observai_api.Jobs.Repository.{mark_phase}

-- assignEvidenceIDs; `n` is the index of the first item.
unfoldable pub assign_evidence_ids : ℕ → List Evidence → List Evidence
unfolding decimal
assign_evidence_ids n [] = []
assign_evidence_ids n (e ∷ es) =
    (if is_empty e.id then record e { id = append "ev_" (decimal (suc n)) } else e)
    ∷ assign_evidence_ids (suc n) es

-- strings.TrimSpace(item.Attributes["traceId"]); a missing key reads as the empty text.
abbrev trace_attribute : Option String → String
trace_attribute none = ""
trace_attribute (some v) = trim_space v

unfoldable pub first_trace_id : (Evidence → Bool) → List Evidence → String
unfolding lookup
first_trace_id test [] = ""
first_trace_id test (e ∷ es) =
    let rest = first_trace_id test es in
    let trace_id = trace_attribute (lookup "traceId" e.attributes) in
    if not (test e) || is_empty trace_id then rest else trace_id

-- selectAnalysisTraceID
unfoldable pub select_analysis_trace_id : String → List Evidence → String
unfolding first_trace_id trim_space
select_analysis_trace_id current evidence =
    let cleaned = trim_space current in
    let from_traces = first_trace_id (λ e. str_eq e.signal signal_traces) evidence in
    if not (is_empty cleaned)
    then cleaned
    else if not (is_empty from_traces)
    then from_traces
    else first_trace_id (λ e. true) evidence

abbrev pub max_llm_evidence_items : ℕ
max_llm_evidence_items = 25

-- The evidence that reaches the model.
unfoldable pub relevant_evidence : Ports → AnalysisRequest → List Evidence → List Evidence
relevant_evidence ports request evidence = ports.redact (
    filter_evidence evidence (some (relevant_evidence_specification request))
      (pos max_llm_evidence_items))

-- The evidence as it is stored.
unfoldable pub classified_evidence : List Evidence → List Evidence
classified_evidence collected =
    apply_severity new_evidence_severity_policy (assign_evidence_ids 0 collected)

-- The result as it is stored, from what the model generated.
unfoldable pub finish_result :
    String → AnalysisRequest → List Evidence → ℕ → AnalysisResult → AnalysisResult
finish_result id request evidence now generated =
    let graded = record generated {
      id = id;
      evidence = evidence;
      trace_id = select_analysis_trace_id generated.trace_id evidence;
      severity =
          reconcile new_severity_policy generated.severity
            (record { request = request; evidence = evidence });
    } in
    record graded {
      recommended_actions =
          apply_recommendations new_recommendation_policy
            (record { request = request; evidence = evidence; result = graded });
      created_at = now;
    }

-- runCtx.Err() != nil
abbrev pub is_canceled : ℕ → World → Bool
is_canceled run w = any (λ r. r == run) w.canceled_runs

abbrev pub stored : Option Error → AnalysisResult → World → Result (Unit {0}) × World
stored (some e) result w = (err (wrap "save analysis" e), w)
stored none result w = (ok tt, record w { analyses = insert result.id result w.analyses })

abbrev pub cache_context : AnalysisResult → World → World
cache_context result w = record w {
  contexts = insert result.id (new_analysis_context result) w.contexts;
}

-- Save and, when it succeeds, the cache; `saving` is the answer of the repository.
abbrev pub store : Option Error → AnalysisResult → Exec World AnalysisResult
store saving result = do stored saving result; modify (cache_context result); pure result

-- executeAnalyze from the generated result on.
unfoldable pub save_generated :
    Ports
    → (Point → World → World)
    → ℕ
    → String
    → AnalysisRequest
    → List Evidence
    → AnalysisResult
    → Exec World AnalysisResult
save_generated ports others run id request evidence generated = do
  now ← gets (λ w. w.time)
  let result = finish_result id request evidence now generated
  ignore (mark_phase id persisting 85)
  modify (others before_save)
  stopped ← gets (is_canceled run)
  store (ports.save stopped result) result

-- executeAnalyze from the collected evidence on.
unfoldable pub generate_collected :
    Ports
    → (Point → World → World)
    → ℕ
    → String
    → AnalysisRequest
    → List Evidence
    → Exec World AnalysisResult
generate_collected ports others run id request collected = do
  ignore (mark_phase id normalizing 35)
  let evidence = classified_evidence collected
  ignore (mark_phase id calling_llm 55)
  modify (others before_generate)
  stopped ← gets (is_canceled run)
  generated ← lift (
      or_wrap "generate analysis"
        (ports.generate stopped request (relevant_evidence ports request evidence)))
  save_generated ports others run id request evidence generated

-- executeAnalyze with a reporter that records the phase of the job; `others` is what other
-- goroutines do at a point.
unfoldable pub execute_analyze :
    Ports → (Point → World → World) → ℕ → String → AnalysisRequest → Exec World AnalysisResult
execute_analyze ports others run id request = do
  lift (validate request)
  ignore (mark_phase id collecting_signals 10)
  modify (others before_collect)
  stopped ← gets (is_canceled run)
  collected ← lift (or_wrap "collect analysis evidence" (ports.collect stopped request))
  generate_collected ports others run id request collected
