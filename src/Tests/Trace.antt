-- ===== src/Tests/Trace.antt =====
-- Runs of the theorems on traces.
use text.Mathlib.Text.{◌==◌}
use observai_api.Base.{ℕ, ◌≡◌, refl, arith, String, List, [], ◌∷◌, none, some, if◌then◌else◌}
use observai_api.Base.Float.{zero_float, one_float}
use observai_api.Trace.{Span, pick_root, longest_from, slowest_child, slowest_from, critical_path}
use observai_api.Trace.Path.{IsCriticalPath, critical_path_total}
use observai_api.Trace.Cycle.{critical_path_diverges}

abbrev span : String → String → Span
span id parent = record {
  trace_id = "t1";
  span_id = id;
  parent_span_id = parent;
  service = "checkout";
  operation = "pay";
  start_time = 100;
  duration_ms = one_float;
  self_time_ms = zero_float;
  status = "ok";
  attributes = [];
}

abbrev tree : List Span
tree = span "a" "" ∷ span "b" "a" ∷ span "c" "a" ∷ []

abbrev height : String → ℕ
height id = if id == "" then 2 else if id == "a" then 1 else 0

critical_path_total_example :
    (path : List String) × (critical_path 2 tree ≡ some path) × IsCriticalPath tree path
critical_path_total_example =
    critical_path_total height 2 tree (omega arith, (omega arith, (omega arith, tt)))
      (omega arith, (omega arith, (omega arith, tt)))

-- A span that is its own parent.
abbrev looped : Span
looped = span "a" "a"

critical_path_diverges_example : critical_path 1000 (looped ∷ []) ≡ none
unfolding pick_root longest_from slowest_child slowest_from one_float
critical_path_diverges_example =
    critical_path_diverges (λ id. id ≡ "a") 1000 looped [] looped
      (λ id e. rw e (looped, refl, refl)) refl refl refl
