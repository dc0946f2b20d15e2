-- ===== src/Config/Examples.antt =====
-- A configuration file that leaves almost everything out, and the theorems about it.
use qmdsr.Prelude.{◌≡◌, refl, ◌↔◌, inl, inr, true, false, none, [], ◌∷◌}
use qmdsr.Prelude.Int.{pos, negsuc}
use qmdsr.Config.{Platform, RuntimeConfig, Config}
use qmdsr.Config.Defaults.{
  or_int, or_pos, or_text, expand_home, expand_path, expand_clean, normalize_collections,
  normalize_qmd, normalize_logging, normalize_server, normalize_search, normalize_cache,
  normalize_scheduler, normalize_guardian, unset, runtime_defaults, apply_low_resource_profile,
  apply_runtime_defaults, normalize, ConfigError, validate_collection, validate_collections,
  validate, load,
}
use qmdsr.Config.Loading.{IsLoadable, load_iff}

program : Unit {0}
unfolding or_int or_pos or_text expand_home expand_path expand_clean normalize_collections
    normalize_qmd normalize_logging normalize_server normalize_search normalize_cache
    normalize_scheduler normalize_guardian unset runtime_defaults apply_low_resource_profile
    apply_runtime_defaults normalize validate_collection validate_collections validate load
program = tt

-- A platform whose paths are clean and that has no home directory.
abbrev plain : Platform
plain = record {
  expand_env = λ p. p;
  home_dir = none;
  join = λ p q. p;
  clean = λ p. p;
  stat_ok = λ p. true;
}

abbrev runtime : RuntimeConfig
runtime = record {
  low_resource_mode = true;
  allow_cpu_deep_query = true;
  allow_cpu_vsearch = false;
  smart_routing = false;
  cpu_deep_min_words = pos 0;
  cpu_deep_min_chars = pos 0;
  cpu_deep_max_words = pos 0;
  cpu_deep_max_chars = pos 0;
  cpu_deep_max_abstract_cues = pos 0;
  query_max_concurrency = pos 0;
  query_timeout = pos 7;
  deep_fail_timeout = pos 0;
  deep_negative_ttl = pos 0;
  deep_negative_scope_cooldown = negsuc 4;
  cpu_overload_protect = true;
  cpu_overload_threshold = pos 0;
  cpu_overload_sustain = pos 0;
  cpu_recover_threshold = pos 0;
  cpu_recover_sustain = pos 0;
  cpu_critical_threshold = pos 0;
  cpu_critical_sustain = pos 0;
  overload_max_concurrent_search = pos 0;
  cpu_sample_interval = pos 0;
}

abbrev file : Config
file = record {
  qmd = record { bin = "/usr/bin/qmd"; index_db = ""; mcp_port = pos 0 };
  server = record { grpc_listen = ""; security_model = "" };
  collections =
      record {
        name = "notes";
        path = "/srv/notes";
        mask = "";
        exclude = [];
        context = "";
        tier = pos 1;
        embed = false;
        require_explicit = false;
        safety_prompt = false;
      }
      ∷ [];
  search = record {
    default_mode = "";
    coarse_k = pos 0;
    top_k = pos 0;
    min_score = pos 0;
    max_chars = pos 0;
    files_all_max_hits = pos 0;
    fallback_enabled = true;
  };
  cache = record {
    enabled = true;
    ttl = pos 0;
    max_entries = pos 0;
    cleanup_interval = pos 0;
    version_aware = true;
  };
  scheduler = record {
    index_refresh = pos 0;
    embed_refresh = pos 0;
    embed_full_refresh = pos 0;
    cache_cleanup = pos 0;
  };
  guardian = record { check_interval = pos 0; timeout = pos 0; restart_max_retries = pos 0 };
  logging = record { level = ""; file = ""; max_size = ""; max_backups = pos 0 };
  runtime = runtime;
}

load_iff_example :
    ((load plain file ≡ inl (normalize plain file)) ↔ IsLoadable plain (normalize plain file))
    × (¬ IsLoadable plain (normalize plain file) → (e : ConfigError) × (load plain file ≡ inr e))
load_iff_example = load_iff plain file

loads : load plain file ≡ inl (normalize plain file)
unfolding program
loads = refl
