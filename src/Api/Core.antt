-- ===== src/Api/Core.antt =====
-- api/core.go: a search over several collections, and the reading of the documents that it finds.
pub mod Shedding
pub mod Answers
pub mod Outcome
use Prim.Native.String.{String}
use text.Mathlib.Text.{◌==◌ as str_eq}
use qmdsr.Prelude.{
  ℕ, ◌+◌, ◌-◌, ◌/◌, ◌⊎◌, inl, inr, Bool, true, false, not, ◌&&◌, ◌||◌, Option, none, some, List, [],
  ◌∷◌, ◌++◌, ltb, ◌==◌, if◌then◌else◌, length, take,
}
use qmdsr.Prelude.Int.{ℤ, pos, pos_part, is_nonpos, is_pos}
use qmdsr.Types.{Score, SearchResult, SearchMeta}
use qmdsr.Config.{Config}
use qmdsr.Router.{Strings}
use qmdsr.Searchutil.{Tools, dedup_sort_limit}
use qmdsr.Orchestrator.Routing.{allow_auto_deep_query}
use qmdsr.Orchestrator.Tiers.{SearchParams, Served, World, Orchestrator}
use qmdsr.Orchestrator.Search.{search, has_cached_result}
use qmdsr.Api.Convert.{
  requested_mode_to_orchestrator_mode, normalize_requested_mode, add_to_set, sorted_keys,
  normalize_collections, derive_served_mode, build_route_log, normalize_trace_id,
}
use qmdsr.Api.Format.{Printer, render_formatted_text}
use qmdsr.Api.Request.{
  SearchCoreRequest, Surroundings, collections_of_request, effective_min_score, effective_top_k,
  escalation_disabled, final_mode, gate_rejects, guarded_mode, lookup_params, pre_degrade_reason,
  requested_mode_of, search_params,
}

-- `model.SearchResponse` with the route log.
pub record SearchCoreResult : Type 0 where
  pub results : List SearchResult
  pub meta : SearchMeta
  pub formatted_text : String
  pub route_log : List String

-- `errCriticalOverloadShed`, or an error by its text.
pub data ApiError : Type 0 where
  critical_overload_shed : ApiError
  failed : String → ApiError

-- The loop of lookups: it stops at the first collection that is not cached.
unfoldable pub all_cached :
    Surroundings → Config → SearchCoreRequest → List String → Orchestrator → Orchestrator × Bool
all_cached s cfg req [] o = (o, true)
all_cached s cfg req (c ∷ cs) o =
    let (o', hit) = has_cached_result (s.at_lookup c) cfg.search (lookup_params s cfg req c) o in
    let rest = all_cached s cfg req cs o' in if hit then rest else (o', false)

-- The variables of the loop of searches.
pub record Combined : Type 0 where
  pub results : List SearchResult
  pub searched : List String
  pub mode_used : String
  pub fallback_triggered : Bool
  pub cache_hit : Bool
  pub degraded : Bool
  pub degrade_reason : String
  pub first_err : Option String
  pub success_count : ℕ

unfoldable pub nothing_combined : Combined
nothing_combined = record {
  results = [];
  searched = [];
  mode_used = "";
  fallback_triggered = false;
  cache_hit = false;
  degraded = false;
  degrade_reason = "";
  first_err = none;
  success_count = 0;
}

unfoldable pub add_searched : List String → List String → List String
add_searched set [] = set
add_searched set (c ∷ cs) = add_searched (if str_eq c "" then set else add_to_set c set) cs

unfoldable pub combine_error : Combined → String → Combined
combine_error acc err = record acc {
  first_err = elim acc.first_err [ none ↦ some err | some e ↦ some e ];
}

unfoldable pub combine_answer : Combined → String → Served → Combined
combine_answer acc collection r = record {
  results = acc.results ++ r.results;
  searched = add_searched acc.searched (
      if length r.meta.collections_searched == 0
      then collection ∷ []
      else r.meta.collections_searched);
  mode_used =
      if str_eq r.meta.mode_used "query" || str_eq acc.mode_used ""
      then r.meta.mode_used
      else acc.mode_used;
  fallback_triggered = acc.fallback_triggered || r.meta.fallback_triggered;
  cache_hit = acc.cache_hit || r.meta.cache_hit;
  degraded = acc.degraded || r.meta.degraded;
  degrade_reason =
      if str_eq acc.degrade_reason "" && not (str_eq r.meta.degrade_reason "")
      then r.meta.degrade_reason
      else acc.degrade_reason;
  first_err = acc.first_err;
  success_count = acc.success_count + 1;
}

unfoldable pub combine : Combined → String → Served ⊎ String → Combined
combine acc collection (inl r) = combine_answer acc collection r
combine acc collection (inr err) = combine_error acc err

-- The loop of searches.
unfoldable pub search_each :
    Surroundings
    → Config
    → SearchCoreRequest
    → List String
    → Combined
    → Orchestrator
    → Orchestrator × Combined
search_each s cfg req [] acc o = (o, acc)
search_each s cfg req (c ∷ cs) acc o =
    let (o', answer) = search (s.at_search c) cfg (search_params s cfg req c) o in
    search_each s cfg req cs (combine acc c answer) o'

unfoldable pub or_reason : Bool → String → Bool × String → Bool × String
or_reason on reason (degraded, given) =
    if on then (true, if str_eq given "" then reason else given) else (degraded, given)

unfoldable pub is_capped : Config → SearchCoreRequest → List SearchResult → Bool
is_capped cfg req results =
    req.files_only
    && req.files_all
    && is_pos cfg.search.files_all_max_hits
    && ltb (pos_part cfg.search.files_all_max_hits) (length results)

-- What is made of the searches that succeeded.
unfoldable pub build_result :
    Surroundings → Config → SearchCoreRequest → Combined → SearchCoreResult
build_result s cfg req acc =
    let requested = requested_mode_of s req in
    let mode_used = if str_eq acc.mode_used "" then "search" else acc.mode_used in
    let combined = dedup_sort_limit s.tools acc.results (effective_top_k cfg req) in
    let capped = is_capped cfg req combined in
    let hits =
      if capped then take (pos_part cfg.search.files_all_max_hits) combined else combined in
    let served = derive_served_mode requested mode_used acc.fallback_triggered acc.degraded in
    let pre = pre_degrade_reason s cfg req in
    let (degraded, reason) = or_reason capped "FILES_ALL_CAPPED" (
      or_reason (not (str_eq pre "")) pre (
        or_reason (str_eq requested "deep" && not (str_eq served "deep")) "DEEP_GATE_REJECTED"
          (acc.degraded, acc.degrade_reason))) in
    let meta : SearchMeta = record {
      mode_used = mode_used;
      served_mode = served;
      collections_searched = sorted_keys s.sort_texts acc.searched;
      fallback_triggered = acc.fallback_triggered;
      cache_hit = acc.cache_hit;
      degraded = degraded;
      degrade_reason = reason;
      trace_id = normalize_trace_id s.strings.trim s.generated_id req.trace_id;
      latency_ms = (s.finished_at - s.started_at) / 1_000_000;
    } in
    record {
      results = hits;
      meta = meta;
      formatted_text = render_formatted_text s.printer hits meta req.files_only;
      route_log =
          if req.explain
          then build_route_log s.show requested req.allow_fallback (final_mode s cfg req) meta
              (length (collections_of_request s req)) (length hits)
          else [];
    }

-- The end of the handler, after the loop of searches.
unfoldable pub conclude :
    Surroundings → Config → SearchCoreRequest → Combined → SearchCoreResult ⊎ ApiError
conclude s cfg req acc =
    if acc.success_count == 0
    then elim acc.first_err [ some e ↦ inr (failed e) | none ↦ inr (failed "search failed") ]
    else inl (build_result s cfg req acc)

unfoldable pub search_all :
    Surroundings
    → Config
    → SearchCoreRequest
    → Orchestrator
    → Orchestrator × (SearchCoreResult ⊎ ApiError)
search_all s cfg req o =
    let (o', acc) = search_each s cfg req (collections_of_request s req) nothing_combined o in
    (o', conclude s cfg req acc)

unfoldable pub execute_search_core :
    Surroundings
    → Config
    → SearchCoreRequest
    → Orchestrator
    → Orchestrator × (SearchCoreResult ⊎ ApiError)
execute_search_core s cfg req o =
    let (o', cached) = all_cached s cfg req (collections_of_request s req) o in
    if str_eq (s.strings.trim req.query) ""
    then (o, inr (failed "query is required"))
    else if not s.critical
    then search_all s cfg req o
    else if cached
    then search_all s cfg req o'
    else (o', inr critical_overload_shed)
