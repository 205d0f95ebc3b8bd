-- ===== src/Trace/Cycle.antt =====
-- internal/core/usecase/trace.go: the walk down a trace whose parent links form a cycle.
use observai_api.Base.{ℕ, zero, suc, ◌≡◌, refl, false, String, List, ◌∷◌, none, some}
use observai_api.Base.Text.{is_empty}
use observai_api.Trace.{Span, children_of, pick_root, slowest_child, walk, critical_path}

-- The walk never leaves the identifiers that satisfy `on_cycle`.
abbrev pub IsTrap : (String → Type 0) → List Span → Type 0
IsTrap on_cycle spans =
    (id : String)
    → on_cycle id
    → (next : Span) × (slowest_child (children_of spans id) ≡ some next) × on_cycle next.span_id

walk_trapped :
    (on_cycle : String → Type 0) (fuel : ℕ) (spans : List Span) (id : String)
    → IsTrap on_cycle spans
    → on_cycle id
    → walk fuel spans id ≡ none
unfolding walk
walk_trapped on_cycle zero spans id trap h = refl
walk_trapped on_cycle (suc fuel) spans id trap h =
    let (next, e, k) = trap id h in
    rw (e, walk) (rw (walk_trapped on_cycle fuel spans next.span_id trap k))

-- If the picked root has an identifier in a set that the slowest children never leave, such as a
-- span that is its own parent, the walk does not end: no amount of fuel gives a path.
pub critical_path_diverges :
    (on_cycle : String → Type 0) (fuel : ℕ) (s : Span) (spans : List Span) (root : Span)
    → IsTrap on_cycle (s ∷ spans)
    → pick_root (s ∷ spans) ≡ some root
    → is_empty root.span_id ≡ false
    → on_cycle root.span_id
    → critical_path fuel (s ∷ spans) ≡ none
unfolding critical_path
critical_path_diverges on_cycle fuel s spans root trap p named h =
    rw p (rw named (rw (walk_trapped on_cycle fuel (s ∷ spans) root.span_id trap h)))
