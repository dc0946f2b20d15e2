-- ===== src/Orchestrator/Search/Examples.antt =====
-- A collection of diaries that must be confirmed, and the theorems about searches of it.
use text.Mathlib.Text.{◌==◌ as str_eq}
use qmdsr.Prelude.{
  ℕ, ◌≤◌, ◌≡◌, refl, inl, inr, Bool, true, false, none, some, [], ◌∷◌, ◌&&◌, arith, if◌then◌else◌,
  length,
}
use qmdsr.Prelude.Int.{pos, pos_part, sub_ℕ, ◌≤ℤ◌, is_zero, is_nonpos, is_pos}
use qmdsr.Types.{SearchResult}
use qmdsr.Cache
use qmdsr.Cache.{Cache, Entry}
use qmdsr.Cache.Coherence.{IsCoherent}
use qmdsr.Config.{Config, CollectionCfg}
use qmdsr.Orchestrator.Negative
use qmdsr.Orchestrator.Negative.{DeepNeg}
use qmdsr.Orchestrator.Results.{filter_min_score}
use qmdsr.Orchestrator.Tiers.{
  SearchParams, Served, World, Orchestrator, make_cache_key, exec_search, finalized,
  find_collection,
}
use qmdsr.Orchestrator.Search
use qmdsr.Orchestrator.Search.{
  entry_of, served, cache_and_build, is_guarded, of_collection, search_single, with_defaults,
  search_fresh, search, lookup_key, has_cached_result,
}
use qmdsr.Config.{RuntimeConfig}
use qmdsr.Cache.Coherence.{IsCoherent}
use qmdsr.Cache.Elements.{handle_of}
use qmdsr.Searchutil.{key_of, dedup, is_crowded, count_file, diversify, dedup_sort_limit}
use qmdsr.Searchutil.Sorting.{insert, insertion_sort, insertion_sort-IsSort}
use qmdsr.Textutil.{clean_snippet}
use qmdsr.Orchestrator.Negative.{Texts, join}
use qmdsr.Orchestrator.Exclude.{filter_exclude}
use qmdsr.Orchestrator.Results.{
  filter_min_score, enforce_from, enforce_max_chars, clean_result_snippets, finalize_results,
}
use qmdsr.Orchestrator.Results.Budget.{total_chars}
use qmdsr.Orchestrator.Routing.{resolve_mode, wanted_mode}
use qmdsr.Orchestrator.Tiers.{search_opts, effective_coarse_k, format_bool}
use qmdsr.Orchestrator.Search.{confirm_error}
use qmdsr.Orchestrator.Search.Safety.{search_bounded, search_again, search_guarded}

program : Unit {0}
unfolding Cache.new Cache.lookup Cache.get Cache.put handle_of key_of dedup is_crowded count_file
    diversify dedup_sort_limit insert insertion_sort clean_snippet join filter_exclude
    filter_min_score enforce_from enforce_max_chars clean_result_snippets finalize_results
    resolve_mode wanted_mode search_opts effective_coarse_k format_bool make_cache_key exec_search
    finalized find_collection entry_of served cache_and_build is_guarded of_collection search_single
    with_defaults search_fresh search lookup_key has_cached_result Cache.push Cache.is_full
    Cache.stamp
program = tt

abbrev pub runtime : RuntimeConfig
runtime = record {
  low_resource_mode = true;
  allow_cpu_deep_query = true;
  allow_cpu_vsearch = false;
  smart_routing = true;
  cpu_deep_min_words = pos 8;
  cpu_deep_min_chars = pos 16;
  cpu_deep_max_words = pos 28;
  cpu_deep_max_chars = pos 180;
  cpu_deep_max_abstract_cues = pos 2;
  query_max_concurrency = pos 1;
  query_timeout = pos 45_000_000_000;
  deep_fail_timeout = pos 12_000_000_000;
  deep_negative_ttl = pos 600;
  deep_negative_scope_cooldown = pos 900;
  cpu_overload_protect = true;
  cpu_overload_threshold = pos 90;
  cpu_overload_sustain = pos 10;
  cpu_recover_threshold = pos 75;
  cpu_recover_sustain = pos 10;
  cpu_critical_threshold = pos 95;
  cpu_critical_sustain = pos 5;
  overload_max_concurrent_search = pos 2;
  cpu_sample_interval = pos 1;
}

abbrev diaries : CollectionCfg
diaries = record {
  name = "diaries";
  path = "/srv/diaries";
  mask = "";
  exclude = [];
  context = "";
  tier = pos 2;
  embed = false;
  require_explicit = true;
  safety_prompt = true;
}

abbrev pub settings : Config
settings = record {
  qmd = record { bin = "/usr/bin/qmd"; index_db = ""; mcp_port = pos 8181 };
  server = record { grpc_listen = ""; security_model = "" };
  collections = diaries ∷ [];
  search = record {
    default_mode = "auto";
    coarse_k = pos 20;
    top_k = pos 8;
    min_score = pos 300_000;
    max_chars = pos 4500;
    files_all_max_hits = pos 200;
    fallback_enabled = true;
  };
  cache = record {
    enabled = true;
    ttl = pos 100;
    max_entries = pos 5;
    cleanup_interval = pos 1;
    version_aware = true;
  };
  scheduler = record {
    index_refresh = pos 1;
    embed_refresh = pos 1;
    embed_full_refresh = pos 1;
    cache_cleanup = pos 1;
  };
  guardian = record { check_interval = pos 1; timeout = pos 1; restart_max_retries = pos 3 };
  logging = record { level = ""; file = ""; max_size = ""; max_backups = pos 0 };
  runtime = runtime;
}

abbrev pub hit : SearchResult
hit = record {
  title = "t";
  file = "a.md";
  collection = "diaries";
  score = pos 500_000;
  snippet = "dear diary";
  doc_id = "a1";
}

abbrev pub world : ℕ → World
world now = record {
  strings = record {
    trim = λ s. s;
    lower = λ s. s;
    fields = λ s. s ∷ [];
    has_prefix = λ s p. str_eq s p;
    contains = λ s w. str_eq s w;
    has_quotation = λ s. false;
  };
  texts = record { trim = λ s. s; lower = λ s. s; fields = λ s. s ∷ []; sha1_hex = λ s. s };
  library = record {
    tools = record { trim = λ s. s; render = λ r. r.title; sort_desc = insertion_sort };
    strip = λ s. s;
  };
  has_capability = λ name. str_eq name "deep_query";
  search = λ query opts. inl (hit ∷ []);
  vsearch = λ query opts. inr "no vectors";
  deep_query = λ query opts. inr "no model";
  token_error = λ mode collection. none;
  schedule = λ cs. cs;
  paths = record {
    clean = λ s. s;
    dir = λ s. ".";
    matches = λ pattern path. str_eq pattern path;
    has_prefix = λ s p. false;
    has_suffix = λ s p. false;
    trim_prefix = λ s p. s;
    trim_suffix = λ s p. s;
  };
  overloaded = false;
  quote = λ s. s;
  format_score = λ s. "0.300000";
  format_int = λ n. if is_zero n then "0" else "8";
  started_at = now;
  now = now;
  split = λ s. s ∷ [];
}

abbrev asked : Bool → SearchParams
asked confirm = record {
  query = "q";
  mode = "search";
  collection = "diaries";
  n = pos 8;
  min_score = pos 300_000;
  fallback = true;
  files_only = false;
  files_all = false;
  disable_deep_escalation = true;
  confirm = confirm;
}

abbrev pub orch : Orchestrator
orch = record { cache = Cache.new settings.cache; deep_neg = Negative.empty }

pub orch-IsCoherent : IsCoherent orch.cache
unfolding program
orch-IsCoherent = record { index = λ k. refl; listed = tt; distinct = tt; fresh = tt }

pub orch_enabled : orch.cache.enabled ≡ true
unfolding program
orch_enabled = refl

orch_young : sub_ℕ 15 10 ≤ℤ orch.cache.ttl
unfolding program
orch_young = omega arith

orch_misses :
    (confirm : Bool)
    → (Cache.get orch.cache
        (make_cache_key (world 10) (with_defaults settings.search (asked confirm)))
        10).1
      ≡ none
unfolding program
orch_misses confirm = refl

diaries_found : find_collection "diaries" settings.collections ≡ some diaries
unfolding program
diaries_found = refl

diaries_unconfirmed : (with_defaults settings.search (asked false)).confirm ≡ false
unfolding program
diaries_unconfirmed = refl

diaries_named : str_eq (with_defaults settings.search (asked false)).collection "" ≡ false
unfolding program
diaries_named = refl

search_guarded_example : search (world 10) settings (asked false) orch ≡ (
  record orch {
    cache =
        (Cache.get orch.cache
          (make_cache_key (world 10) (with_defaults settings.search (asked false)))
          10).0;
  },
  inr (confirm_error (world 10) (with_defaults settings.search (asked false)).collection),
)
search_guarded_example =
    search_guarded (world 10) settings (asked false) orch diaries diaries_named
      (unfold program in diaries_found) refl refl diaries_unconfirmed (orch_misses false)

abbrev answer : Served
answer = record {
  results = hit ∷ [];
  meta = record {
    mode_used = "search";
    served_mode = "";
    collections_searched = "diaries" ∷ [];
    fallback_triggered = false;
    cache_hit = false;
    degraded = false;
    degrade_reason = "";
    trace_id = "";
    latency_ms = 0;
  };
}

confirmed : (search (world 10) settings (asked true) orch).1 ≡ inl answer
unfolding program
confirmed = refl

same_key :
    make_cache_key (world 15) (with_defaults settings.search (asked true))
    ≡ make_cache_key (world 10) (with_defaults settings.search (asked true))
unfolding program
same_key = refl

search_again_example :
    (s' : Served) × ((search
        (world 15)
        settings
        (asked true)
        (search (world 10) settings (asked true) orch).0).1
      ≡ inl s')
    × (s'.meta.cache_hit ≡ true)
    × (s'.results ≡ answer.results)
    × (s'.meta.mode_used ≡ answer.meta.mode_used)
    × (s'.meta.degrade_reason ≡ answer.meta.degrade_reason)
search_again_example =
    search_again (world 10) (world 15) settings (asked true) (asked true) orch answer
      orch-IsCoherent orch_enabled (orch_misses true) same_key refl orch_young confirmed

-- A search without `confirm` is answered with what a confirmed one left in the cache.
unconfirmed_hit :
    (search (world 15) settings (asked false) (search (world 10) settings (asked true) orch).0).1
    ≡ inl (record answer { meta = record answer.meta { cache_hit = true } })
unfolding program Cache.get_handle Cache.element Cache.get_element Cache.is_expired
    Cache.version_mismatch Search.collections_of
unconfirmed_hit = refl

limit_positive : is_pos (with_defaults settings.search (asked true)).n ≡ true
unfolding program
limit_positive = refl

some_files :
    (with_defaults settings.search (asked true)).files_only
      && (with_defaults settings.search (asked true)).files_all
    ≡ false
unfolding program
some_files = refl

search_bounded_example :
    let p = with_defaults settings.search (asked true) in
    (length answer.results ≤ pos_part p.n)
    × (p.files_only ≡ false
        → is_nonpos settings.search.max_chars ≡ false
        → total_chars answer.results ≤ pos_part settings.search.max_chars)
search_bounded_example =
    search_bounded (world 10) settings (asked true) orch answer insertion_sort-IsSort some_files
      limit_positive (orch_misses true) confirmed

-- An answer of all files is stored under the default limit, and looked for under none.
abbrev all_files : SearchParams
all_files = record (asked true) { n = pos 0; files_only = true; files_all = true }

all_files_missed :
    (has_cached_result
      (world 15)
      settings.search
      all_files
      (search (world 10) settings all_files orch).0).1
    ≡ false
unfolding program
all_files_missed = refl
