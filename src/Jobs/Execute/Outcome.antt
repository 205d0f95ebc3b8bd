-- ===== src/Jobs/Execute/Outcome.antt =====
-- internal/core/usecase/analysis.go: what executeAnalyze returns and leaves of the job, when no other
-- goroutine acts.
use observai_api.Base.{
  ℕ, String, Bool, List, Option, none, some, ◌≡◌, refl, ap, ◌∙◌, ◌==◌, any, arith, subst,
}
use observai_api.Base.Dict.{lookup, insert, lookup-insert_self}
use observai_api.Base.Errors.{Error, Result, ok, err, wrap, or_wrap, ◌>>=◌, ◌>>◌}
use observai_api.Domain.Analysis.{AnalysisRequest, AnalysisResult, Evidence, validate}
use observai_api.Jobs.Types.{World, Ports, collecting_signals, normalizing, calling_llm, persisting}
use observai_api.Base.Exec.{continue}
use observai_api.Jobs.Repository.{mark_phase}
use observai_api.Jobs.Execute.{
  classified_evidence, relevant_evidence, finish_result, is_canceled, store, save_generated,
  generate_collected, execute_analyze,
}
use observai_api.Jobs.Execute.Progress.{
  alone, saved, finished, analyze, JobView, During, mark_phase-During, Executed,
}

value_or : AnalysisResult → Result AnalysisResult → AnalysisResult
value_or a (ok b) = b
value_or a (err e) = a

ok-injective : (a b : AnalysisResult) → ok a ≡ ok b → a ≡ b
unfolding value_or
ok-injective a b p = ap (value_or a) p

module _ (ports : Ports) (run : ℕ) (id : String) (request : AnalysisRequest) (v : JobView)
    (before : World) where
  abbrev Outcome : Result AnalysisResult → Result AnalysisResult × World → Type 0
  Outcome r after = (after.0 ≡ r) × Executed id v before r after.1

  failed_with : (e : Error) (w : World) → During id v before w → Outcome (err e) (err e, w)
  failed_with e w d = (refl, record { during = d; kept = λ a h. absurd (ground arith) })

  store-outcome :
      (o : Option Error) (result : AnalysisResult) (w : World)
      → result.id ≡ id
      → During id v before w
      → Outcome (saved o result) (store o result w)
  store-outcome none result w named d = (
    refl,
    record {
      during = record {
        job = d.job;
        found = d.found;
        viewed = d.viewed;
        time = d.time;
        canceled = d.canceled;
        registry = d.registry;
        notified = d.notified;
      };
      kept = λ a h.
          subst (λ x. (x.id ≡ id) × (lookup id (insert result.id result w.analyses) ≡ some x))
            (ok-injective result a h)
            (
              named,
              subst (λ k. lookup k (insert result.id result w.analyses) ≡ some result) named
                  (lookup-insert_self result.id result w.analyses),
            );
    },
  )
  store-outcome (some e) result w named d = failed_with (wrap "save analysis" e) w d

  save_generated-outcome :
      (evidence : List Evidence) (generated : AnalysisResult) (w : World)
      → During id v before w
      → Outcome
          (finished ports (is_canceled run before) id request before.time evidence generated)
          (save_generated ports alone run id request evidence generated w)
  unfolding save_generated finish_result
  save_generated-outcome evidence generated w d =
      let d' = mark_phase-During id v before w persisting 85 d in
      let now = d.time in
      let stopped = ap (λ l. any (λ r. r == run) l) d'.canceled in
      let after = save_generated ports alone run id request evidence generated w in
      subst (λ r. Outcome r after)
        (ap (λ s. finished ports s id request w.time evidence generated) stopped
          ∙ ap (λ t. finished ports (is_canceled run before) id request t evidence generated) now)
        (store-outcome
          (ports.save (is_canceled run (mark_phase id persisting 85 w).1)
            (finish_result id request evidence w.time generated))
          (finish_result id request evidence w.time generated) (mark_phase id persisting 85 w).1
          refl d')

  generated_outcome :
      (r : Result AnalysisResult) (evidence : List Evidence) (w : World)
      → During id v before w
      → Outcome
          (r >>= λ generated.
            finished ports (is_canceled run before) id request before.time evidence generated)
          (continue r (save_generated ports alone run id request evidence) w)
  generated_outcome (ok generated) evidence w d = save_generated-outcome evidence generated w d
  generated_outcome (err e) evidence w d = failed_with e w d

  -- `analyze` from the collected evidence on.
  abbrev generate_from : Bool → List Evidence → Result AnalysisResult
  generate_from stopped collected =
      let evidence = classified_evidence collected in
      or_wrap "generate analysis"
        (ports.generate stopped request (relevant_evidence ports request evidence))
      >>= finished ports (is_canceled run before) id request before.time evidence

  generate_collected-outcome :
      (collected : List Evidence) (w : World)
      → During id v before w
      → Outcome
          (generate_from (is_canceled run before) collected)
          (generate_collected ports alone run id request collected w)
  unfolding generate_collected
  generate_collected-outcome collected w d =
      let d' = mark_phase-During id v before w normalizing 35 d in
      let w' = (mark_phase id normalizing 35 w).1 in
      let d'' = mark_phase-During id v before w' calling_llm 55 d' in
      let w'' = (mark_phase id calling_llm 55 w').1 in
      let evidence = classified_evidence collected in
      subst (λ r. Outcome r (generate_collected ports alone run id request collected w))
        (ap (λ l. generate_from (any (λ r. r == run) l) collected) d''.canceled)
        (generated_outcome
          (or_wrap "generate analysis" (
            ports.generate (is_canceled run w'') request
              (relevant_evidence ports request evidence)))
          evidence w'' d'')

  collected_outcome :
      (r : Result (List Evidence)) (w : World)
      → During id v before w
      → Outcome
          (r >>= generate_from (is_canceled run before))
          (continue r (generate_collected ports alone run id request) w)
  collected_outcome (ok collected) w d = generate_collected-outcome collected w d
  collected_outcome (err e) w d = failed_with e w d

  abbrev collect : Bool → Result (List Evidence)
  collect stopped = or_wrap "collect analysis evidence" (ports.collect stopped request)

  validated_outcome :
      (r : Result (Unit {0})) (w : World)
      → During id v before w
      → Outcome
          (r >> (collect (is_canceled run before) >>= generate_from (is_canceled run before)))
          (continue r
            (λ u x.
              let x' = (mark_phase id collecting_signals 10 x).1 in
              continue
                (collect (is_canceled run x'))
                (generate_collected ports alone run id request)
                x')
            w)
  validated_outcome (err e) w d = failed_with e w d
  validated_outcome (ok u) w d =
      let d' = mark_phase-During id v before w collecting_signals 10 d in
      let w' = (mark_phase id collecting_signals 10 w).1 in
      subst
        (λ r. Outcome r (
          continue (collect (is_canceled run w')) (generate_collected ports alone run id request)
            w'))
        (ap (λ l. collect (any (λ r. r == run) l) >>= generate_from (is_canceled run before))
          d'.canceled)
        (collected_outcome (collect (is_canceled run w')) w' d')

  pub execute_analyze-outcome :
      (w : World)
      → During id v before w
      → Outcome
          (analyze ports (is_canceled run before) id request before.time)
          (execute_analyze ports alone run id request w)
  unfolding execute_analyze
  execute_analyze-outcome w d = validated_outcome (validate request) w d
