-- ===== src/Analyses/Repository.antt =====
-- internal/adapters/outbound/inmemory/analysis_repository.go. Each method holds the repository's lock, so
-- it is one step.
use Prim.Native.String.{◌++◌}
use observai_api.Base.{
  ℕ, suc, ◌-◌, String, not, ◌&&◌, List, [], ◌∷◌, ◌++◌ as append, map, Option, none, some, length,
  take, drop, filter, ltb, leb, if◌then◌else◌,
}
use observai_api.Base.Int.{ℤ, pos, negsuc, ◌+ℤ◌, min_ℤ}
use observai_api.Base.Text.{str_eq, decimal}
use observai_api.Base.Dict.{Dict, lookup, insert}
use observai_api.Base.Errors.{Result, ok, err, error, analysis_not_found, chat_message_not_found}
use observai_api.Domain.Analysis.{AnalysisResult, Time, is_zero_time}
use observai_api.Analyses.Types.{
  AnalysisListFilter, AnalysisList, ChatMessage, ChatHistoryFilter, AnalysisStore,
}
use observai_api.Analyses.Filter.{matches_analysis_filter}
use observai_api.Analyses.Order.{sort_analyses}

-- Save
unfoldable pub save : AnalysisResult → AnalysisStore → AnalysisStore
save result w = record w { analyses = insert result.id result w.analyses }

abbrev or_not_found : String → Option AnalysisResult → Result AnalysisResult
or_not_found id none = err (error analysis_not_found ("analysis not found: " ++ id))
or_not_found id (some result) = ok result

-- Find
unfoldable pub find : String → AnalysisStore → Result AnalysisResult
find id w = or_not_found id (lookup id w.analyses)

-- The new slice with a copy of items[start:end]; none stands for the panic on bounds out of order.
abbrev pub slice {ℓ} : {A : Type ℓ} → ℤ → ℤ → List A → Option (List A)
slice (pos start) (pos end) items =
    if leb start end && leb end (length items)
    then some (take (end - start) (drop start items))
    else none
slice _ _ items = none

abbrev pub values : Dict AnalysisResult → List AnalysisResult
values analyses = map (λ entry. entry.1) analyses

-- The analyses that the filter selects, in its order.
unfoldable pub selected : Dict AnalysisResult → AnalysisListFilter → List AnalysisResult
unfolding matches_analysis_filter sort_analyses
selected analyses wanted =
    sort_analyses (filter (λ result. matches_analysis_filter result wanted) (values analyses))
      wanted

abbrev pub page_of : AnalysisListFilter → ℕ → Option (List AnalysisResult) → Option AnalysisList
page_of wanted total none = none
page_of wanted total (some items) =
    some (record { items = items; limit = wanted.limit; offset = wanted.offset; total = total })

-- ListAnalyses
unfoldable pub list_analyses : AnalysisListFilter → AnalysisStore → Option AnalysisList
unfolding selected
list_analyses wanted w =
    let filtered = selected w.analyses wanted in
    let total = length filtered in
    let start = min_ℤ wanted.offset (pos total) in
    let end = min_ℤ (start +ℤ wanted.limit) (pos total) in
    page_of wanted total (slice start end filtered)

abbrev or_now : Time → Time → Time
or_now now t = if is_zero_time t then now else t

abbrev pub numbered : Time → ℕ → ChatMessage → ChatMessage
numbered now id message = record message {
  id = decimal id;
  created_at = or_now now message.created_at;
}

-- A missing key reads as the empty slice.
abbrev pub or_empty : Option (List ChatMessage) → List ChatMessage
or_empty none = []
or_empty (some messages) = messages

-- SaveExchange
unfoldable pub save_exchange : ChatMessage → ChatMessage → AnalysisStore → AnalysisStore
unfolding decimal
save_exchange question answer w =
    let first = suc w.next_id in
    let second = suc first in
    let stored = numbered w.time first question in
    let key = stored.analysis_id in
    record w {
      next_id = second;
      messages =
          insert key
            (append (or_empty (lookup key w.messages))
              (stored ∷ numbered w.time second answer ∷ []))
            w.messages;
    }

abbrev first_with_id : String → List ChatMessage → Option ChatMessage
first_with_id id [] = none
first_with_id id (message ∷ rest) =
    let later = first_with_id id rest in if str_eq message.id id then some message else later

abbrev or_else : Option ChatMessage → Option ChatMessage → Option ChatMessage
or_else none later = later
or_else (some message) later = some message

-- The loops of FindMessage.
unfoldable pub message_with_id : String → Dict (List ChatMessage) → Option ChatMessage
message_with_id id [] = none
message_with_id id ((key, messages) ∷ rest) =
    or_else (first_with_id id messages) (message_with_id id rest)

abbrev or_no_message : Option ChatMessage → Result ChatMessage
or_no_message none = err (error chat_message_not_found "chat message not found")
or_no_message (some message) = ok message

-- FindMessage
unfoldable pub find_message : String → AnalysisStore → Result ChatMessage
unfolding message_with_id
find_message id w = or_no_message (message_with_id id w.messages)

-- The last messages, where the limit is positive and there are more.
abbrev pub last_messages : ℤ → List ChatMessage → List ChatMessage
last_messages (negsuc n) messages = messages
last_messages (pos n) messages =
    if ltb 0 n && ltb n (length messages) then drop (length messages - n) messages else messages

-- List
unfoldable pub list_messages : String → ChatHistoryFilter → AnalysisStore → List ChatMessage
list_messages analysis_id wanted w = last_messages wanted.limit (
    filter
      (λ message.
        not (not (is_zero_time wanted.before) && not (ltb message.created_at wanted.before)))
      (or_empty (lookup analysis_id w.messages)))
