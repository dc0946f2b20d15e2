-- ===== src/Api/Examples.antt =====
-- Requests to a service over one collection of diaries.
use Prim.Native.String.{String}
use text.Mathlib.Text.{◌==◌ as str_eq}
use qmdsr.Prelude.{
  ◌+◌, ◌≤◌, min, ◌≡◌, refl, ◌≢◌, ◌↔◌, ◌⊎◌, inl, inr, true, false, some, [], ◌∷◌, if◌then◌else◌,
  length, take, exists, All, count,
}
use qmdsr.Prelude.Int.{pos, is_pos}
use qmdsr.Cache
use qmdsr.Textutil.{clean_snippet}
use qmdsr.Searchutil.{key_of, dedup, is_crowded, count_file, diversify, dedup_sort_limit}
use qmdsr.Searchutil.Sorting.{insert, insertion_sort}
use qmdsr.Orchestrator.Negative.{join}
use qmdsr.Orchestrator.Exclude.{filter_exclude}
use qmdsr.Orchestrator.Results.{
  filter_min_score, enforce_from, enforce_max_chars, clean_result_snippets, finalize_results,
}
use qmdsr.Orchestrator.Routing.{resolve_mode, wanted_mode}
use qmdsr.Orchestrator.Search
use qmdsr.Orchestrator.Tiers.{
  search_opts, effective_coarse_k, format_bool, make_cache_key, exec_search, finalized,
  find_collection,
}
use qmdsr.Orchestrator.Search.{
  entry_of, cache_and_build, is_guarded, of_collection, search_single, with_defaults, search_fresh,
  search,
}
use qmdsr.Orchestrator.Search.Examples.{settings, hit, world, orch, orch-IsCoherent, orch_enabled}
use qmdsr.Api.Convert.{
  mode_auto, mode_deep, served_unspecified, served_core, served_deep, normalize_requested_mode,
  requested_mode_to_orchestrator_mode, collect_names, add_to_set, sorted_keys,
  normalize_collections, derive_served_mode, normalize_trace_id, to_proto_hits,
  requested_mode_from_proto, allow_fallback_from_proto, served_mode_to_proto,
}
use qmdsr.Api.Format.{
  Printer, concat, preferred_hit_uri, hit_line, hit_lines, render_formatted_text,
}
use qmdsr.Api.Request.{
  SearchCoreRequest, Surroundings, effective_top_k, effective_min_score, requested_mode_of,
  collections_of_request, gate_rejects, guarded_mode, final_mode, escalation_disabled,
  pre_degrade_reason, lookup_params, search_params,
}
use qmdsr.Api.Core.{
  SearchCoreResult, critical_overload_shed, failed, all_cached, nothing_combined, add_searched,
  combine_answer, combine, search_each, or_reason, is_capped, build_result, conclude, search_all,
  execute_search_core,
}
use qmdsr.Api.Core.Shedding.{is_unstored, shed_iff}
use qmdsr.Api.Core.Outcome.{IsAnswer, search_all_lem}
use qmdsr.Api.Core.Answers.{answers, is_success, first_error, of_some}
use qmdsr.Api.Fetch.{SearchAndGetCoreRequest, max_get_docs, max_get_bytes, targets_of, fetch}
use qmdsr.Api.Fetch.Budget.{total_bytes, fails, fetch_lem}
use qmdsr.Api.Handlers.{
  SearchRequest, SearchResponse, Service, trace_id_from_context, to_proto_search_response,
  core_request, handle_search,
}
use qmdsr.Heartbeat.{SystemHealthTracker, fresh, get_health}
use qmdsr.Api.Health.{build_health_response}
use qmdsr.Api.Health.Reports.{is_known, reports, build_health_response_lem}
use qmdsr.Api.Honesty.{KeepsModes, answers_of, has_query, handle_search_lem}

program : Unit {0}
unfolding Cache.new Cache.lookup Cache.get Cache.put Cache.push Cache.is_full Cache.stamp
    insertion_sort insert key_of dedup is_crowded count_file diversify dedup_sort_limit
    clean_snippet join filter_exclude filter_min_score enforce_from enforce_max_chars
    clean_result_snippets finalize_results resolve_mode wanted_mode search_opts effective_coarse_k
    format_bool make_cache_key exec_search finalized find_collection entry_of Search.served
    cache_and_build is_guarded of_collection search_single with_defaults search_fresh search
    normalize_requested_mode requested_mode_to_orchestrator_mode collect_names add_to_set
    sorted_keys normalize_collections derive_served_mode normalize_trace_id concat preferred_hit_uri
    hit_line hit_lines render_formatted_text effective_top_k effective_min_score requested_mode_of
    collections_of_request gate_rejects guarded_mode final_mode escalation_disabled
    pre_degrade_reason lookup_params search_params all_cached nothing_combined add_searched
    combine_answer combine search_each or_reason is_capped build_result conclude search_all
    execute_search_core trace_id_from_context to_proto_search_response core_request handle_search
    to_proto_hits requested_mode_from_proto allow_fallback_from_proto served_mode_to_proto
program = tt

abbrev printer : Printer
printer = record {
  trim = λ s. s;
  lines = λ s. s ∷ [];
  contains = λ s t. false;
  json_valid = λ s. false;
  show = λ n. "1";
  show_score = λ n. "0.50";
}

abbrev pub surroundings : Surroundings
surroundings = record {
  strings = (world 10).strings;
  tools = (world 10).library.tools;
  printer = printer;
  sort_texts = λ names. names;
  show = λ n. "1";
  overloaded = true;
  critical = true;
  at_lookup = λ c. world 10;
  at_search = λ c. world 10;
  generated_id = "id";
  started_at = 10;
  finished_at = 20;
}

abbrev pub request : SearchCoreRequest
request = record {
  query = "q";
  requested_mode = "core";
  collections = "diaries" ∷ [];
  allow_fallback = true;
  top_k = pos 8;
  min_score = pos 300_000;
  explain = false;
  files_only = false;
  files_all = false;
  trace_id = "t";
  confirm = true;
}

some_hits : is_pos (effective_top_k settings request) ≡ true
unfolding program
some_hits = refl

mode_kept : final_mode surroundings settings request ≡ guarded_mode surroundings request
unfolding program gate_rejects
mode_kept = refl

shed_iff_example :
    (execute_search_core surroundings settings request orch).1 ≡ inr critical_overload_shed
    ↔ (str_eq "q" "" ≡ false)
      × (true ≡ true)
      × (exists
            (is_unstored surroundings settings request orch)
            (collections_of_request surroundings request)
          ≡ true)
shed_iff_example =
    shed_iff surroundings settings request orch (orch-IsCoherent, orch_enabled) (λ c p. refl)
      some_hits mode_kept

search_all_lem_example :
    let found =
      (answers surroundings settings request
        (collections_of_request surroundings request)
        orch).1 in
    ((count is_success found ≡ 0)
      × ((e : String) × (first_error found ≡ some e)
          × ((search_all surroundings settings request orch).1 ≡ inr (failed e))))
    ⊎ ((1 ≤ count is_success found)
        × ((r : SearchCoreResult) × ((search_all surroundings settings request orch).1 ≡ inl r)
            × IsAnswer surroundings settings request found r))
search_all_lem_example = search_all_lem surroundings settings request orch

abbrev get_request : SearchAndGetCoreRequest
get_request = record {
  query = "q";
  requested_mode = "core";
  collections = "diaries" ∷ [];
  allow_fallback = true;
  top_k = pos 8;
  min_score = pos 300_000;
  max_get_docs = pos 0;
  max_get_bytes = pos 10;
  trace_id = "t";
  confirm = true;
}

abbrev content_of : String → String ⊎ String
content_of uri = if str_eq uri "a.md" then inl "dear diary" else inr "no such file"

fetch_lem_example :
    let hits = hit ∷ record hit { file = "b.md" } ∷ [] in
    let (docs, truncated) = fetch printer content_of get_request hits in
    let targets = targets_of printer (take (min (max_get_docs get_request) 2) hits) in
    (total_bytes docs ≤ max_get_bytes get_request)
    × (length docs ≤ max_get_docs get_request)
    × (length docs + length truncated + count (fails content_of) targets ≡ length targets)
    × All (λ d. content_of d.file ≡ inl d.content) docs
    × All (λ uri. fails content_of uri ≡ false) truncated
fetch_lem_example =
    fetch_lem content_of printer get_request (hit ∷ record hit { file = "b.md" } ∷ [])

abbrev service : Service
service = record {
  surroundings = record surroundings { critical = false };
  upper = λ s. s;
  errors = record { lower = λ s. s; contains = λ s t. false; is_deadline = λ s. false };
  get_document = content_of;
}

abbrev search_request : SearchRequest
search_request = record {
  query = "q";
  requested_mode = mode_auto;
  collections = "diaries" ∷ [];
  allow_fallback = true;
  top_k = pos 8;
  min_score = pos 300_000;
  explain = false;
  files_only = true;
  files_all = false;
  confirm = true;
}

abbrev response : SearchResponse
response = record {
  hits =
      record {
        uri = "a.md";
        title = "t";
        snippet = "dear diary";
        score = pos 500_000;
        collection = "diaries";
      }
      ∷ [];
  served_mode = served_core;
  degraded = true;
  degrade_reason = "CPU_OVERLOAD_PROTECT";
  latency_ms = 0;
  trace_id = "id";
  route_log = [];
  formatted_text = "## 相关文件 (1 hits)\n\na.md (0.50)\n";
}

served_core_only : (handle_search service settings [] search_request orch).1 ≡ inl response
unfolding program
served_core_only = refl

service-KeepsModes : KeepsModes service
service-KeepsModes = record { deep = refl; broad = refl; core = refl }

handle_search_lem_example :
    let request = core_request settings search_request (
      trace_id_from_context service.surroundings.strings.trim service.surroundings.generated_id
        []) in
    let found = answers_of service.surroundings settings request orch in
    (response.served_mode ≢ served_unspecified)
    × ((response.served_mode ≡ served_deep) ↔ (has_query found ≡ true))
    × (response.served_mode ≡ served_core → of_some (λ m. m.fallback_triggered) found ≡ false)
    × (true ≡ true → response.degraded ≡ true)
    × (mode_auto ≡ mode_deep → response.degraded ≡ false → response.served_mode ≡ served_deep)
handle_search_lem_example =
    handle_search_lem service settings [] search_request orch response service-KeepsModes
      served_core_only

abbrev tracker : SystemHealthTracker
tracker = record { components = ("cache", fresh "cache") ∷ []; started_at = 0 }

build_health_response_lem_example :
    let r = build_health_response (λ names. names) str_eq false true tracker 5 in
    ((name : String) → is_known name tracker.components ≡ true → reports name r.components ≡ true)
    × (false ≡ true → r.status ≡ "unhealthy")
    × (true ≡ true → r.status ≢ "healthy")
    × (false ≡ false → true ≡ false → r.status ≡ (get_health tracker 5).overall_str)
build_health_response_lem_example =
    build_health_response_lem (λ names. names) str_eq false true tracker 5 (λ p xs. refl) refl
