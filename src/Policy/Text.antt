-- ===== src/Policy/Text.antt =====
-- internal/core/policy/severity.go: what the rules look for in the text of an evidence item.
use observai_api.Base.{String, Bool, false, ◌&&◌, ◌||◌, List, [], ◌∷◌, any, if◌then◌else◌}
use observai_api.Base.Float.{lt_float, zero_float}
use observai_api.Base.Text.{trim_space, to_lower, equal_fold, contains, is_empty, str_eq}
use observai_api.Base.Dict.{Dict}
use observai_api.Domain.Analysis.{AnalysisRequest, Evidence}

abbrev pub any_value : (String → Bool) → Dict String → Bool
any_value p [] = false
any_value p ((k, v) ∷ m) = p v || any_value p m

abbrev names_error : String → Bool
names_error value =
    let lower = to_lower value in
    contains lower "error" || contains lower "exception" || contains lower "5xx"

abbrev attribute_names_error : String → Bool
attribute_names_error value =
    let lower = to_lower value in contains lower "error" || contains lower "exception"

-- mentionsError; whether some attribute matches does not depend on the order of the map.
unfoldable pub mentions_error : Evidence → Bool
unfolding equal_fold contains to_lower
mentions_error e =
    (equal_fold e.unit "errors" && lt_float zero_float e.score)
    || any names_error (e.name ∷ e.summary ∷ e.signal ∷ [])
    || any_value attribute_names_error e.attributes

-- `services[trimmed] = struct{}{}`, for a set that is a list without repetitions.
unfoldable pub add_service : List String → String → List String
unfolding trim_space
add_service services raw =
    let trimmed = trim_space raw in
    if is_empty trimmed || any (str_eq trimmed) services then services else trimmed ∷ services

unfoldable pub add_services : List String → List String → List String
unfolding add_service
add_services services [] = services
add_services services (s ∷ rest) = add_services (add_service services s) rest

unfoldable pub add_evidence_services : List String → List Evidence → List String
unfolding add_service
add_evidence_services services [] = services
add_evidence_services services (e ∷ rest) =
    add_evidence_services (add_service services e.service) rest

-- distinctServices
unfoldable pub distinct_services : AnalysisRequest → List Evidence → List String
unfolding add_services add_evidence_services
distinct_services request evidence =
    add_evidence_services (add_services [] request.affected_services) evidence
