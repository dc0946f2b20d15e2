-- ===== src/Api/Handlers.antt =====
-- api/grpc.go: the handlers of the query service.
use Prim.Native.String.{String}
use text.Mathlib.Text.{◌==◌ as str_eq}
use qmdsr.Prelude.{
  ℕ, ◌-◌, ◌/◌, ◌⊎◌, inl, inr, Bool, true, false, not, ◌||◌, List, [], ◌∷◌, if◌then◌else◌,
}
use qmdsr.Prelude.Int.{ℤ}
use qmdsr.Types.{Score, Document}
use qmdsr.Config.{Config}
use qmdsr.Orchestrator.Tiers.{Orchestrator}
use qmdsr.Api.Convert.{
  Mode, ServedMode, Hit, requested_mode_from_proto, allow_fallback_from_proto, served_mode_to_proto,
  to_proto_hits,
}
use qmdsr.Api.Request.{SearchCoreRequest, Surroundings}
use qmdsr.Api.Core.{SearchCoreResult, failed, execute_search_core}
use qmdsr.Api.Fetch.{SearchAndGetCoreRequest, SearchAndGetResult, execute_search_and_get_core}
use qmdsr.Api.Errors.{ErrorTexts, StatusError, map_search_error}

-- `qmdsrv1.SearchRequest`, but for the timeout, which the context of the backend carries.
pub record SearchRequest : Type 0 where
  pub query : String
  pub requested_mode : Mode
  pub collections : List String
  pub allow_fallback : Bool
  pub top_k : ℤ
  pub min_score : Score
  pub explain : Bool
  pub files_only : Bool
  pub files_all : Bool
  pub confirm : Bool

pub record SearchResponse : Type 0 where
  pub hits : List Hit
  pub served_mode : ServedMode
  pub degraded : Bool
  pub degrade_reason : String
  pub latency_ms : ℕ
  pub trace_id : String
  pub route_log : List String
  pub formatted_text : String

pub record SearchAndGetRequest : Type 0 where
  pub query : String
  pub requested_mode : Mode
  pub collections : List String
  pub allow_fallback : Bool
  pub top_k : ℤ
  pub min_score : Score
  pub max_get_docs : ℤ
  pub max_get_bytes : ℤ
  pub confirm : Bool

pub record SearchAndGetResponse : Type 0 where
  pub file_hits : List Hit
  pub documents : List Document
  pub formatted_text : String
  pub served_mode : ServedMode
  pub degraded : Bool
  pub degrade_reason : String
  pub latency_ms : ℕ
  pub trace_id : String

-- What the handlers use besides: upper case, and the texts of errors.
pub record Service : Type 0 where
  pub surroundings : Surroundings
  pub upper : String → String
  pub errors : ErrorTexts
  pub get_document : String → String ⊎ String

-- The values of `x-trace-id` in the metadata of a call, and the identifier that would be generated.
unfoldable pub trace_id_from_context : (String → String) → String → List String → String
trace_id_from_context trim generated [] = generated
trace_id_from_context trim generated (value ∷ values) =
    if str_eq (trim value) "" then generated else trim value

unfoldable pub to_proto_search_response : Service → SearchCoreResult → SearchResponse
to_proto_search_response v r =
    let strings = v.surroundings.strings in
    record {
      hits = to_proto_hits r.results;
      served_mode = served_mode_to_proto strings.lower strings.trim r.meta.served_mode;
      degraded = r.meta.degraded;
      degrade_reason = v.upper r.meta.degrade_reason;
      latency_ms = r.meta.latency_ms;
      trace_id = r.meta.trace_id;
      route_log = r.route_log;
      formatted_text = r.formatted_text;
    }

unfoldable pub to_proto_search_and_get_response :
    Service → SearchAndGetResult → SearchAndGetResponse
to_proto_search_and_get_response v r =
    let strings = v.surroundings.strings in
    record {
      file_hits = to_proto_hits r.file_hits;
      documents = r.documents;
      formatted_text = r.formatted_text;
      served_mode = served_mode_to_proto strings.lower strings.trim r.meta.served_mode;
      degraded = r.meta.degraded;
      degrade_reason = v.upper r.meta.degrade_reason;
      latency_ms = r.meta.latency_ms;
      trace_id = r.meta.trace_id;
    }

unfoldable pub core_request : Config → SearchRequest → String → SearchCoreRequest
core_request cfg req trace_id =
    let requested = requested_mode_from_proto req.requested_mode in
    record {
      query = req.query;
      requested_mode = requested;
      collections = req.collections;
      allow_fallback =
          allow_fallback_from_proto req.allow_fallback requested cfg.search.fallback_enabled;
      top_k = req.top_k;
      min_score = req.min_score;
      explain = req.explain;
      files_only = req.files_only;
      files_all = req.files_all;
      trace_id = trace_id;
      confirm = req.confirm;
    }

unfoldable pub handle_search :
    Service
    → Config
    → List String
    → SearchRequest
    → Orchestrator
    → Orchestrator × (SearchResponse ⊎ StatusError)
handle_search v cfg metadata req o =
    let s = v.surroundings in
    let trace_id = trace_id_from_context s.strings.trim s.generated_id metadata in
    let (o', result) = execute_search_core s cfg (core_request cfg req trace_id) o in
    (
      o',
      elim result [
        | inl r ↦ inl (to_proto_search_response v r)
        | inr err ↦ inr (map_search_error v.errors err)
      ],
    )

-- The handler writes the tests of `allow_fallback_from_proto` out.
unfoldable pub core_get_request : Config → SearchAndGetRequest → String → SearchAndGetCoreRequest
core_get_request cfg req trace_id =
    let requested = requested_mode_from_proto req.requested_mode in
    record {
      query = req.query;
      requested_mode = requested;
      collections = req.collections;
      allow_fallback =
          if not req.allow_fallback
          then if str_eq requested "deep" || str_eq requested "broad"
            then true
            else if str_eq requested "core"
            then false
            else cfg.search.fallback_enabled
          else req.allow_fallback;
      top_k = req.top_k;
      min_score = req.min_score;
      max_get_docs = req.max_get_docs;
      max_get_bytes = req.max_get_bytes;
      trace_id = trace_id;
      confirm = req.confirm;
    }

unfoldable pub handle_search_and_get :
    Service
    → Config
    → List String
    → SearchAndGetRequest
    → Orchestrator
    → Orchestrator × (SearchAndGetResponse ⊎ StatusError)
handle_search_and_get v cfg metadata req o =
    let s = v.surroundings in
    let trace_id = trace_id_from_context s.strings.trim s.generated_id metadata in
    let request = core_get_request cfg req trace_id in
    let (o', result) = execute_search_and_get_core s v.get_document cfg request o in
    (
      o',
      elim result [
        | inl r ↦ inl (to_proto_search_and_get_response v r)
        | inr err ↦ inr (map_search_error v.errors err)
      ],
    )

pub record GetResponse : Type 0 where
  pub content : String
  pub trace_id : String
  pub latency_ms : ℕ

-- `Get`: `answer` is what the executor answers for the reference of a document and its options.
unfoldable pub handle_get :
    Service
    → (String → Bool → Bool → String ⊎ String)
    → List String
    → String
    → Bool
    → Bool
    → GetResponse ⊎ StatusError
handle_get v answer metadata doc_ref full line_numbers =
    let s = v.surroundings in
    elim (answer doc_ref full line_numbers) [
      | inr err ↦ inr (map_search_error v.errors (failed err))
      | inl content ↦ inl (record {
        content = content;
        trace_id = trace_id_from_context s.strings.trim s.generated_id metadata;
        latency_ms = (s.finished_at - s.started_at) / 1_000_000;
      })
    ]

pub record MultiGetResponse : Type 0 where
  pub documents : List Document
  pub trace_id : String
  pub latency_ms : ℕ

unfoldable pub handle_multi_get :
    Service
    → (String → ℤ → List Document ⊎ String)
    → List String
    → String
    → ℤ
    → MultiGetResponse ⊎ StatusError
handle_multi_get v answer metadata pattern max_bytes =
    let s = v.surroundings in
    elim (answer pattern max_bytes) [
      | inr err ↦ inr (map_search_error v.errors (failed err))
      | inl docs ↦ inl (record {
        documents = docs;
        trace_id = trace_id_from_context s.strings.trim s.generated_id metadata;
        latency_ms = (s.finished_at - s.started_at) / 1_000_000;
      })
    ]
