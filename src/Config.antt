-- ===== src/Config.antt =====
-- config/config.go: the configuration as a record of records, and `Load` after the YAML is read.
-- Durations are nanoseconds; `min_score` is in millionths, as every score. The environment, the
-- home directory and the path functions of the platform are a parameter.
pub mod Defaults
pub mod Complete
pub mod Loading
mod Examples
use Prim.Native.String.{String}
use text.Mathlib.Text.{◌==◌ as str_eq}
use text.Mathlib.TextEquality.{eq_iff}
use qmdsr.Prelude.{
  ℕ, zero, suc, ◌+◌, ◌-◌, ◌*◌, ◌/◌, ◌%◌, ◌^◌, ◌≤◌, ◌<◌, min, max, ◌≡◌, refl, sym, ap, ◌∙◌, ◌≢◌, ◌↔◌,
  ◌⊎◌, inl, inr, Bool, true, false, not, ◌&&◌, ◌||◌, Option, none, some, List, [], ◌∷◌, ◌++◌, map,
  arith, ltb, leb, ◌==◌, if◌then◌else◌, ltb→lt, lt→ltb, leb→le, Bool-cases, Option-cases, length,
  take, replicate, select, exists, All, length-append, length-take, length-select-le, All-append,
  All-take,
}
use qmdsr.Prelude.Int.{
  ℤ, pos, negsuc, pos_part, neg_part, sub_ℕ, ◌≤ℤ◌, ltb_ℤ, leb_ℤ, is_zero, is_nonpos, is_pos,
}
use qmdsr.Types.{Score}
use qmdsr.Cache.{CacheConfig}

-- What `expandPath` and `validate` ask of the operating system.
pub record Platform : Type 0 where
  pub expand_env : String → String
  pub home_dir : Option String
  pub join : String → String → String
  pub clean : String → String
  pub stat_ok : String → Bool

pub record QmdConfig : Type 0 where
  pub bin : String
  pub index_db : String
  pub mcp_port : ℤ

pub record ServerConfig : Type 0 where
  pub grpc_listen : String
  pub security_model : String

pub record CollectionCfg : Type 0 where
  pub name : String
  pub path : String
  pub mask : String
  pub exclude : List String
  pub context : String
  pub tier : ℤ
  pub embed : Bool
  pub require_explicit : Bool
  pub safety_prompt : Bool

pub record SearchConfig : Type 0 where
  pub default_mode : String
  pub coarse_k : ℤ
  pub top_k : ℤ
  pub min_score : Score
  pub max_chars : ℤ
  pub files_all_max_hits : ℤ
  pub fallback_enabled : Bool

pub record SchedulerConfig : Type 0 where
  pub index_refresh : ℤ
  pub embed_refresh : ℤ
  pub embed_full_refresh : ℤ
  pub cache_cleanup : ℤ

pub record GuardianConfig : Type 0 where
  pub check_interval : ℤ
  pub timeout : ℤ
  pub restart_max_retries : ℤ

pub record LoggingConfig : Type 0 where
  pub level : String
  pub file : String
  pub max_size : String
  pub max_backups : ℤ

pub record RuntimeConfig : Type 0 where
  pub low_resource_mode : Bool
  pub allow_cpu_deep_query : Bool
  pub allow_cpu_vsearch : Bool
  pub smart_routing : Bool
  pub cpu_deep_min_words : ℤ
  pub cpu_deep_min_chars : ℤ
  pub cpu_deep_max_words : ℤ
  pub cpu_deep_max_chars : ℤ
  pub cpu_deep_max_abstract_cues : ℤ
  pub query_max_concurrency : ℤ
  pub query_timeout : ℤ
  pub deep_fail_timeout : ℤ
  pub deep_negative_ttl : ℤ
  pub deep_negative_scope_cooldown : ℤ
  pub cpu_overload_protect : Bool
  pub cpu_overload_threshold : ℤ
  pub cpu_overload_sustain : ℤ
  pub cpu_recover_threshold : ℤ
  pub cpu_recover_sustain : ℤ
  pub cpu_critical_threshold : ℤ
  pub cpu_critical_sustain : ℤ
  pub overload_max_concurrent_search : ℤ
  pub cpu_sample_interval : ℤ

pub record Config : Type 0 where
  pub qmd : QmdConfig
  pub server : ServerConfig
  pub collections : List CollectionCfg
  pub search : SearchConfig
  pub cache : CacheConfig
  pub scheduler : SchedulerConfig
  pub guardian : GuardianConfig
  pub logging : LoggingConfig
  pub runtime : RuntimeConfig
