-- ===== src/Trace.antt =====
-- internal/core/usecase/trace.go: the insights that are derived from the spans of a trace.
use observai_api.Base.{
  ℕ, zero, suc, ◌-◌, ◌^◌, String, Bool, true, false, not, ◌||◌, ◌&&◌, List, [], ◌∷◌, map, Option,
  none, some, length, take, filter, ltb, leb, if◌then◌else◌,
}
use observai_api.Base.Int.{ℤ, pos, negsuc}
use observai_api.Base.Float.{Float, val, lt_float}
use observai_api.Base.Sorting.{sort_stable}
use observai_api.Base.Text.{is_empty, str_eq}
use observai_api.Base.Dict.{Dict}
use observai_api.Domain.Analysis.{Time}
pub mod Slowest
pub mod Child
pub mod Path
pub mod Cycle

pub record Span : Type 0 where
  pub trace_id : String
  pub span_id : String
  pub parent_span_id : String
  pub service : String
  pub operation : String
  pub start_time : Time
  pub duration_ms : Float
  pub self_time_ms : Float
  pub status : String
  pub attributes : Dict String

abbrev pub slower : Span → Span → Bool
slower a b = lt_float b.duration_ms a.duration_ms

abbrev pub limit_of : ℤ → ℕ → ℕ
limit_of (negsuc n) size = size
limit_of (pos n) size = if leb n 0 || ltb size n then size else n

-- (SlowestSpansRule).Apply
unfoldable pub slowest_span_ids : ℤ → List Span → List String
slowest_span_ids top spans =
    map (λ s. s.span_id) (take (limit_of top (length spans)) (sort_stable slower spans))

-- children[id], in the order of the spans
abbrev pub children_of : List Span → String → List Span
children_of spans id = filter (λ s. str_eq s.parent_span_id id) spans

-- The loops of pickRoot: the first span of the greatest duration above `longest` among those that
-- pass the test, and its duration.
unfoldable pub longest_from : (Span → Bool) → Option Span → Float → List Span → Option Span × Float
longest_from test root longest [] = (root, longest)
longest_from test root longest (s ∷ spans) =
    let better = longest_from test (some s) s.duration_ms spans in
    let same = longest_from test root longest spans in
    if test s && lt_float longest s.duration_ms then better else same

-- -1.0
abbrev pub minus_one : Float
minus_one = val (negsuc (2 ^ 1074 - 1))

-- A zero Span has an empty identifier.
abbrev pub has_id : Option Span → Bool
has_id none = false
has_id (some s) = not (is_empty s.span_id)

-- pickRoot: the second loop goes on with the first one's longest duration and span.
unfoldable pub pick_root : List Span → Option Span
unfolding longest_from
pick_root spans =
    let (root, longest) = longest_from (λ s. is_empty s.parent_span_id) none minus_one spans in
    if has_id root then root else (longest_from (λ s. true) root longest spans).0

unfoldable pub slowest_from : Span → List Span → Span
slowest_from slowest [] = slowest
slowest_from slowest (c ∷ rest) = slowest_from (if slower c slowest then c else slowest) rest

-- slowestChild
unfoldable pub slowest_child : List Span → Option Span
unfolding slowest_from
slowest_child [] = none
slowest_child (c ∷ rest) = some (slowest_from c rest)

-- The loop that walks down from a span, on fuel; `none` means that the fuel ran out.
unfoldable pub walk : ℕ → List Span → String → Option (List String)
walk zero spans id = none
walk (suc fuel) spans id = elim (slowest_child (children_of spans id)) [
  | none ↦ some []
  | some next ↦ elim (walk fuel spans next.span_id) [
    | none ↦ none
    | some rest ↦ some (next.span_id ∷ rest)
  ]
]

abbrev pub prefixed : String → Option (List String) → Option (List String)
prefixed id none = none
prefixed id (some rest) = some (id ∷ rest)

abbrev pub path_from_root : ℕ → List Span → Option Span → Option (List String)
path_from_root fuel spans none = some []
path_from_root fuel spans (some root) =
    if is_empty root.span_id then some [] else prefixed root.span_id (walk fuel spans root.span_id)

-- (CriticalPathRule).Apply
unfoldable pub critical_path : ℕ → List Span → Option (List String)
critical_path fuel [] = some []
critical_path fuel (s ∷ spans) = path_from_root fuel (s ∷ spans) (pick_root (s ∷ spans))
