-- ===== src/Orchestrator/Search.antt =====
-- orchestrator/orchestrator.go: `Search`, with its ways to fall back, as a function of the cache, the
-- deep-negative cache and the answers of the backend.
pub mod Answers
pub mod Safety
pub mod Examples
use Prim.Native.String.{String}
use text.Mathlib.Text.{◌==◌ as str_eq}
use text.Mathlib.TextEquality.{eq_iff}
use qmdsr.Prelude.{
  ℕ, zero, suc, ◌+◌, ◌-◌, ◌*◌, ◌/◌, ◌%◌, ◌^◌, ◌≤◌, ◌<◌, min, max, ◌≡◌, refl, sym, ap, ◌∙◌, ◌≢◌, ◌↔◌,
  ◌⊎◌, inl, inr, Bool, true, false, not, ◌&&◌, ◌||◌, Option, none, some, List, [], ◌∷◌, ◌++◌, map,
  arith, ltb, leb, ◌==◌, if◌then◌else◌, ltb→lt, lt→ltb, leb→le, Bool-cases, pick_true, pick_false,
  Option-cases, length, take, replicate, select, exists, All, count, count_hit, count_miss,
  length-append, length-take, length-select-le, All-append, All-take,
}
use qmdsr.Prelude.Int.{
  ℤ, pos, negsuc, pos_part, neg_part, sub_ℕ, ◌≤ℤ◌, ltb_ℤ, leb_ℤ, is_zero, is_nonpos, is_pos,
}
use Prim.Native.String.{◌++◌ as str_append}
use qmdsr.Types.{Score, SearchResult, SearchMeta}
use qmdsr.Cache
use qmdsr.Cache.{Cache, Entry}
use qmdsr.Config.{Config, CollectionCfg, SearchConfig}
use qmdsr.Router.{Strings}
use qmdsr.Orchestrator.Negative
use qmdsr.Orchestrator.Negative.{Texts, DeepNeg, join}
use qmdsr.Orchestrator.Exclude.{Paths, filter_exclude}
use qmdsr.Orchestrator.Results.{Library, filter_min_score, finalize_results}
use qmdsr.Orchestrator.Routing.{resolve_mode, allow_auto_deep_query}
use qmdsr.Orchestrator.Tiers.{
  Answer, Orchestrator, SearchOpts, SearchParams, Served, World, collections_by_tier,
  effective_coarse_k, exec_search, finalized, find_collection, format_bool, make_cache_key,
  search_broad_all, search_deep_tier1, search_opts, search_primary, search_tier_from,
  search_tier_parallel,
}

unfoldable pub entry_of :
    String → List SearchResult → String → List String → Bool → Bool → String → Entry
entry_of key results mode searched fallback_triggered degraded reason = record {
  results = results;
  index_version = "";
  created_at = 0;
  query = key;
  mode = mode;
  collection = join "," searched;
  fallback_triggered = fallback_triggered;
  degraded = degraded;
  degrade_reason = reason;
}

unfoldable pub served :
    World → List SearchResult → String → List String → Bool → Bool → Bool → String → Served
served w results mode searched fallback_triggered cache_hit degraded reason = record {
  results = results;
  meta = record {
    mode_used = mode;
    served_mode = "";
    collections_searched = searched;
    fallback_triggered = fallback_triggered;
    cache_hit = cache_hit;
    degraded = degraded;
    degrade_reason = reason;
    trace_id = "";
    latency_ms = (w.now - w.started_at) / 1_000_000;
  };
}

abbrev pub Outcome : Type 0
Outcome = Orchestrator × (Served ⊎ String)

-- `cacheAndBuildSearchResult`.
unfoldable pub cache_and_build :
    World
    → Orchestrator
    → String
    → List SearchResult
    → String
    → List String
    → Bool
    → Bool
    → String
    → Outcome
cache_and_build w o key results mode searched fallback_triggered degraded reason =
    let entry = entry_of key results mode searched fallback_triggered degraded reason in
    (
      record o { cache = Cache.put o.cache key entry w.now },
      inl (served w results mode searched fallback_triggered false degraded reason),
    )

unfoldable pub is_guarded : CollectionCfg → SearchParams → Bool
is_guarded c p = c.require_explicit && c.safety_prompt && not p.confirm

unfoldable pub not_found_error : World → String → String
not_found_error w collection =
    str_append "collection " (str_append (w.quote collection) " not found")

unfoldable pub confirm_error : World → String → String
confirm_error w collection =
    str_append "collection " (str_append (w.quote collection) " requires confirm=true")

-- What a search of one collection does with the results.
unfoldable pub of_collection :
    World → Config → SearchParams → CollectionCfg → List SearchResult → List SearchResult
of_collection w cfg p c results =
    finalized w cfg p (filter_min_score (filter_exclude w.paths c results) p.min_score)

-- `searchSingleCollection`.
unfoldable pub search_single :
    World → Config → SearchParams → String → String → Orchestrator → Outcome
search_single w cfg p mode key o = elim (find_collection p.collection cfg.collections) [
  | none ↦ (o, inr (not_found_error w p.collection))
  | some c ↦
      if is_guarded c p
      then (o, inr (confirm_error w p.collection))
      else elim (exec_search w cfg.search mode p.collection p) [
        | inr err ↦ (o, inr err)
        | inl results ↦
            cache_and_build w o key (of_collection w cfg p c results) mode (p.collection ∷ []) false
              false ""
      ]
]

-- The results of a plain search of a collection beside a deep one, none if it fails.
unfoldable pub broad_of : World → Config → SearchParams → CollectionCfg → List SearchResult
broad_of w cfg p c = elim (exec_search w cfg.search "search" p.collection p) [
  | inr err ↦ of_collection w cfg p c []
  | inl results ↦ of_collection w cfg p c results
]

unfoldable pub mark_failed : World → Config → String → String → Orchestrator → Orchestrator
mark_failed w cfg query scope o = record o {
  deep_neg = Negative.mark w.texts cfg.runtime query scope w.now o.deep_neg;
}

-- `searchSingleCollectionWithDeepFallback`.
unfoldable pub search_single_deep : World → Config → SearchParams → String → Orchestrator → Outcome
search_single_deep w cfg p key o = elim (find_collection p.collection cfg.collections) [
  | none ↦ (o, inr (not_found_error w p.collection))
  | some c ↦
      if is_guarded c p
      then (o, inr (confirm_error w p.collection))
      else let (neg, skip, reason) =
          Negative.should_skip w.texts cfg.runtime p.query p.collection w.now o.deep_neg in
        let o' = record o { deep_neg = neg } in
        let broad = broad_of w cfg p c in
        let searched = p.collection ∷ [] in
        if skip
        then cache_and_build w o' key broad "search" searched false true reason
        else elim (exec_search w cfg.search "query" p.collection p) [
          | inr err ↦
              cache_and_build w (mark_failed w cfg p.query p.collection o') key broad "search"
                searched false true "deep_failed_fallback_broad"
          | inl found ↦
              let deep = of_collection w cfg p c found in
              if length deep == 0
              then cache_and_build w o' key broad "search" searched false true
                  "deep_empty_fallback_broad"
              else cache_and_build w o' key deep "query" searched false false ""
        ]
]

-- `searchWithDeepFallback`.
unfoldable pub search_deep : World → Config → SearchParams → String → Orchestrator → Outcome
search_deep w cfg p key o =
    let (neg, skip, reason) =
      Negative.should_skip w.texts cfg.runtime p.query "all" w.now o.deep_neg in
    let o' = record o { deep_neg = neg } in
    let (broad, searched, fallback) = search_broad_all w cfg p in
    if skip
    then cache_and_build w o' key broad "search" searched fallback true reason
    else elim (search_deep_tier1 w cfg p) [
      | inr err ↦
          cache_and_build w (mark_failed w cfg p.query "all" o') key broad "search" searched
            fallback true "deep_failed_fallback_broad"
      | inl (found, deep_searched) ↦
          let deep = finalized w cfg p (filter_min_score found p.min_score) in
          if length deep == 0
          then cache_and_build w o' key broad "search" searched fallback true
              "deep_empty_fallback_broad"
          else cache_and_build w o' key deep "query" deep_searched false false ""
    ]

-- `searchWithFallback`.
unfoldable pub may_escalate : World → Config → SearchParams → String → List SearchResult → Bool
may_escalate w cfg p mode filtered =
    not p.disable_deep_escalation
    && str_eq mode "search"
    && length filtered == 0
    && w.has_capability "deep_query"
    && not w.overloaded
    && allow_auto_deep_query w.strings cfg.runtime p.query

unfoldable pub search_fallback :
    World → Config → SearchParams → String → String → Orchestrator → Outcome
search_fallback w cfg p mode key o =
    let (filtered, searched, fallback) = search_primary w cfg p mode in
    let (neg, skip, reason) =
      Negative.should_skip w.texts cfg.runtime p.query "all" w.now o.deep_neg in
    let o' = record o { deep_neg = neg } in
    let plain = finalized w cfg p filtered in
    if not (may_escalate w cfg p mode filtered)
    then cache_and_build w o key plain mode searched fallback false ""
    else if skip
    then cache_and_build w o' key plain mode searched fallback true reason
    else elim (search_deep_tier1 w cfg p) [
      | inr err ↦
          cache_and_build w (mark_failed w cfg p.query "all" o') key plain mode searched fallback
            true "deep_failed_fallback_broad"
      | inl (found, deep_searched) ↦
          let deep = filter_min_score found p.min_score in
          if length deep == 0
          then cache_and_build w o' key plain mode searched fallback true
              "deep_empty_fallback_broad"
          else cache_and_build w o' key (finalized w cfg p deep) "query" deep_searched fallback
              false ""
    ]

-- The collections of an entry: `strings.Split` gives the text itself where it has no comma.
unfoldable pub collections_of : World → String → List String
collections_of w collection = elim (w.split collection) [
  | [] ↦ collection ∷ []
  | c ∷ [] ↦ collection ∷ []
  | c ∷ d ∷ cs ↦ select (λ s. not (str_eq s "")) (map w.strings.trim (c ∷ d ∷ cs))
]

-- The parameters with the defaults of the configuration.
unfoldable pub with_defaults : SearchConfig → SearchParams → SearchParams
with_defaults cfg p = record p {
  n = if is_nonpos p.n then cfg.top_k else p.n;
  min_score = if is_nonpos p.min_score then cfg.min_score else p.min_score;
}

-- `Search` after a miss.
unfoldable pub search_fresh : World → Config → SearchParams → String → Orchestrator → Outcome
search_fresh w cfg p key o =
    let mode = resolve_mode w.strings cfg.runtime w.has_capability w.overloaded p.mode p.query in
    if not (str_eq p.collection "")
    then (if str_eq mode "query"
        then search_single_deep w cfg p key o
        else search_single w cfg p mode key o)
    else if str_eq mode "query"
    then search_deep w cfg p key o
    else search_fallback w cfg p mode key o

unfoldable pub search : World → Config → SearchParams → Orchestrator → Outcome
search w cfg params o =
    let p = with_defaults cfg.search params in
    let key = make_cache_key w p in
    let (cache, hit) = Cache.get o.cache key w.started_at in
    let o' = record o { cache = cache } in
    let fresh = search_fresh w cfg p key o' in
    elim hit [
      | none ↦ fresh
      | some e ↦ (
        o',
        inl (
            served w e.results e.mode (collections_of w e.collection) e.fallback_triggered true
              e.degraded e.degrade_reason),
      )
    ]

-- The cache key under which `HasCachedResult` looks.
unfoldable pub lookup_key : World → SearchConfig → SearchParams → String
lookup_key w cfg params =
    let n =
      if is_nonpos params.n
      then (if params.files_only && params.files_all then pos 0 else cfg.top_k)
      else params.n in
    make_cache_key w (record (with_defaults cfg params) { n = n })

abbrev pub is_found : Option Entry → Bool
is_found none = false
is_found (some e) = true

-- `HasCachedResult`, with the cache that its lookup leaves.
unfoldable pub has_cached_result :
    World → SearchConfig → SearchParams → Orchestrator → Orchestrator × Bool
has_cached_result w cfg params o =
    let (cache, hit) = Cache.get o.cache (lookup_key w cfg params) w.now in
    (record o { cache = cache }, is_found hit)
