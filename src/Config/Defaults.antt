-- ===== src/Config/Defaults.antt =====
-- config/config.go: `normalize`, the defaults of what a configuration file leaves out.
use Prim.Native.String.{String}
use text.Mathlib.Text.{◌==◌ as str_eq}
use qmdsr.Prelude.{
  ℕ, ◌*◌, ◌⊎◌, inl, inr, Bool, true, ◌&&◌, Option, none, some, List, [], ◌∷◌, ◌==◌, if◌then◌else◌,
}
use qmdsr.Prelude.Int.{ℤ, pos, is_zero, is_nonpos}
use Prim.Native.Char.{code}
use qmdsr.Config.{
  Platform, QmdConfig, ServerConfig, CollectionCfg, SearchConfig, SchedulerConfig, GuardianConfig,
  LoggingConfig, RuntimeConfig, Config,
}
use qmdsr.Cache.{CacheConfig}

abbrev pub ms : ℕ
ms = 1_000_000

abbrev pub second : ℕ
second = 1_000_000_000

abbrev pub minute : ℕ
minute = 60 * second

abbrev pub hour : ℕ
hour = 60 * minute

-- `if x == 0 { x = d }`, `if x <= 0 { x = d }` and `if x == "" { x = d }`.
unfoldable pub or_int : ℤ → ℕ → ℤ
or_int x d = if is_zero x then pos d else x

unfoldable pub or_pos : ℤ → ℕ → ℤ
or_pos x d = if is_nonpos x then pos d else x

unfoldable pub or_text : String → String → String
or_text x d = if str_eq x "" then d else x

module _ (os : Platform) where
  open os use {expand_env, home_dir, join, clean}

  -- The home directory stands for a leading `~/`, whose rest is `rest`.
  unfoldable pub expand_home : String → String
  expand_home (String.◌∷◌ a (String.◌∷◌ b rest)) =
      let p = String.◌∷◌ a (String.◌∷◌ b rest) in
      if code a == b'~' && code b == b'/'
      then elim home_dir [ none ↦ p | some home ↦ join home rest ]
      else p
  expand_home p = p

  unfoldable pub expand_path : String → String
  unfolding expand_home
  expand_path p = clean (expand_home (expand_env p))

  unfoldable pub expand_clean : String → String
  expand_clean p = if str_eq p "" then "" else expand_path p

  unfoldable pub normalize_collections : List CollectionCfg → List CollectionCfg
  normalize_collections [] = []
  normalize_collections (c ∷ cs) =
      record c { path = expand_clean c.path } ∷ normalize_collections cs

  unfoldable pub normalize_qmd : QmdConfig → QmdConfig
  normalize_qmd q = record {
    bin = expand_clean q.bin;
    index_db = expand_clean q.index_db;
    mcp_port = or_int q.mcp_port 8181;
  }

  unfoldable pub normalize_logging : LoggingConfig → LoggingConfig
  normalize_logging l = record l { file = expand_clean l.file; level = or_text l.level "info" }

unfoldable pub normalize_server : ServerConfig → ServerConfig
normalize_server s = record {
  grpc_listen = or_text s.grpc_listen "127.0.0.1:19091";
  security_model = or_text s.security_model "loopback_trust";
}

unfoldable pub normalize_search : SearchConfig → SearchConfig
normalize_search s = record s {
  default_mode = or_text s.default_mode "auto";
  coarse_k = or_int s.coarse_k 20;
  top_k = or_int s.top_k 8;
  min_score = or_int s.min_score 300_000;
  max_chars = or_int s.max_chars 4500;
  files_all_max_hits = or_int s.files_all_max_hits 200;
}

unfoldable pub normalize_cache : CacheConfig → CacheConfig
normalize_cache c = record c {
  ttl = or_int c.ttl (30 * minute);
  max_entries = or_int c.max_entries 500;
  cleanup_interval = or_int c.cleanup_interval hour;
}

unfoldable pub normalize_scheduler : SchedulerConfig → SchedulerConfig
normalize_scheduler s = record {
  index_refresh = or_int s.index_refresh (30 * minute);
  embed_refresh = or_int s.embed_refresh (24 * hour);
  embed_full_refresh = or_int s.embed_full_refresh (7 * 24 * hour);
  cache_cleanup = or_int s.cache_cleanup hour;
}

unfoldable pub normalize_guardian : GuardianConfig → GuardianConfig
normalize_guardian g = record {
  check_interval = or_int g.check_interval (60 * second);
  timeout = or_int g.timeout (5 * second);
  restart_max_retries = or_int g.restart_max_retries 3;
}

-- The four settings that the low-resource profile chooses anew where the file leaves them out.
pub record Unset : Type 0 where
  pub query_timeout : Bool
  pub query_concurrency : Bool
  pub deep_fail_timeout : Bool
  pub deep_negative_ttl : Bool

unfoldable pub unset : RuntimeConfig → Unset
unset r = record {
  query_timeout = is_zero r.query_timeout;
  query_concurrency = is_zero r.query_max_concurrency;
  deep_fail_timeout = is_zero r.deep_fail_timeout;
  deep_negative_ttl = is_zero r.deep_negative_ttl;
}

unfoldable pub runtime_defaults : RuntimeConfig → RuntimeConfig
runtime_defaults r = record r {
  query_timeout = or_int r.query_timeout (120 * second);
  query_max_concurrency = or_int r.query_max_concurrency 2;
  deep_fail_timeout = or_int r.deep_fail_timeout (15 * second);
  deep_negative_ttl = or_int r.deep_negative_ttl (10 * minute);
  deep_negative_scope_cooldown = or_pos r.deep_negative_scope_cooldown (10 * minute);
  cpu_overload_threshold = or_int r.cpu_overload_threshold 90;
  cpu_overload_sustain = or_int r.cpu_overload_sustain (10 * second);
  cpu_recover_threshold = or_int r.cpu_recover_threshold 75;
  cpu_recover_sustain = or_int r.cpu_recover_sustain (12 * second);
  cpu_critical_threshold = or_int r.cpu_critical_threshold 95;
  cpu_critical_sustain = or_int r.cpu_critical_sustain (5 * second);
  overload_max_concurrent_search = or_int r.overload_max_concurrent_search 2;
  cpu_sample_interval = or_int r.cpu_sample_interval second;
}

unfoldable pub apply_low_resource_profile : Unset → RuntimeConfig → RuntimeConfig
apply_low_resource_profile u r = record r {
  smart_routing = true;
  cpu_deep_min_words = or_int r.cpu_deep_min_words 10;
  cpu_deep_min_chars = or_int r.cpu_deep_min_chars 24;
  cpu_deep_max_words = or_int r.cpu_deep_max_words 28;
  cpu_deep_max_chars = or_int r.cpu_deep_max_chars 160;
  cpu_deep_max_abstract_cues = or_int r.cpu_deep_max_abstract_cues 2;
  query_max_concurrency = if u.query_concurrency then pos 1 else r.query_max_concurrency;
  query_timeout = if u.query_timeout then pos (45 * second) else r.query_timeout;
  deep_fail_timeout = if u.deep_fail_timeout then pos (12 * second) else r.deep_fail_timeout;
  deep_negative_ttl = if u.deep_negative_ttl then pos (15 * minute) else r.deep_negative_ttl;
}

unfoldable pub apply_runtime_defaults : RuntimeConfig → RuntimeConfig
apply_runtime_defaults r =
    let r' = runtime_defaults r in
    if r.low_resource_mode && r.allow_cpu_deep_query
    then apply_low_resource_profile (unset r) r'
    else r'

unfoldable pub normalize : Platform → Config → Config
normalize os c = record {
  qmd = normalize_qmd os c.qmd;
  server = normalize_server c.server;
  collections = normalize_collections os c.collections;
  search = normalize_search c.search;
  cache = normalize_cache c.cache;
  scheduler = normalize_scheduler c.scheduler;
  guardian = normalize_guardian c.guardian;
  logging = normalize_logging os c.logging;
  runtime = apply_runtime_defaults c.runtime;
}

pub data ConfigError : Type 0 where
  bin_required collections_required name_required : ConfigError
  bin_not_found path_required tier_required : String → ConfigError

unfoldable pub validate_collection : CollectionCfg → Option ConfigError
validate_collection c =
    if str_eq c.name ""
    then some name_required
    else if str_eq c.path ""
    then some (path_required c.name)
    else if is_zero c.tier
    then some (tier_required c.name)
    else none

unfoldable pub validate_collections : List CollectionCfg → Option ConfigError
validate_collections [] = none
validate_collections (c ∷ cs) =
    let rest = validate_collections cs in
    elim (validate_collection c) [ some e ↦ some e | none ↦ rest ]

-- `none` where the source returns `nil`.
unfoldable pub validate : Platform → Config → Option ConfigError
validate os c =
    if str_eq c.qmd.bin ""
    then some bin_required
    else if os.stat_ok c.qmd.bin
    then elim c.collections [
      | [] ↦ some collections_required
      | d ∷ ds ↦ validate_collections (d ∷ ds)
    ]
    else some (bin_not_found c.qmd.bin)

-- `Load`, from the configuration that the YAML reader returns, to a configuration or an error.
unfoldable pub load : Platform → Config → Config ⊎ ConfigError
load os c = let c' = normalize os c in elim (validate os c') [ none ↦ inl c' | some e ↦ inr e ]
