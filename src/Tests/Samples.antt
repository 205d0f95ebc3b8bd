-- ===== src/Tests/Samples.antt =====
-- Sample data for the concrete runs.
use observai_api.Base.{String, List, [], ◌∷◌}
use observai_api.Base.Float.{zero_float, one_float}
use observai_api.Domain.Severity.{severity_info, severity_low}
use observai_api.Domain.Analysis.{AnalysisRequest, AnalysisResult, Evidence, Recommendation}
use observai_api.Base.Int.{pos}
use observai_api.Policy.Severity.{SeverityInput}
use observai_api.Policy.Recommendation.{RecommendationInput}

abbrev pub outage : AnalysisRequest
outage = record {
  goal = "why does checkout fail";
  time_window = record { start = 100; finish = 200 };
  affected_services = "checkout" ∷ [];
  signals = "logs" ∷ "traces" ∷ [];
  context = "";
}

abbrev pub item : String → String → Evidence
item id summary = record {
  id = id;
  severity = severity_info;
  signal = "logs";
  service = "checkout";
  source = "loki";
  name = "lines";
  summary = summary;
  observed = 150;
  score = one_float;
  confidence = one_float;
  unit = "";
  reference = "";
  provider = "loki";
  query = "";
  attributes = ("traceId", "t1") ∷ [];
  redacted_fields = [];
}

abbrev pub calm : Evidence
calm = item "e1" "all is well"

abbrev pub failing : Evidence
failing = record (item "e2" "error: card refused") { score = zero_float }

abbrev pub items : List Evidence
items = calm ∷ failing ∷ []

abbrev pub suggestion : Recommendation
suggestion = record {
  action = " Restart the gateway";
  rationale = "";
  priority = pos 3;
  evidence_ids = [];
}

abbrev pub generated : AnalysisResult
generated = record {
  id = "";
  trace_id = "";
  summary = "card refused";
  severity = severity_low;
  confidence = "high";
  affected_services = [];
  evidence = [];
  detected_anomalies = [];
  possible_root_causes = [];
  recommended_actions = suggestion ∷ [];
  code_level_insights = [];
  missing_evidence = [];
  created_at = 0;
}

abbrev pub severity_input : SeverityInput
severity_input = record { request = outage; evidence = items }

abbrev pub recommendation_input : RecommendationInput
recommendation_input = record { request = outage; evidence = items; result = generated }
