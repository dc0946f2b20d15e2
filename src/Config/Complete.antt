-- ===== src/Config/Complete.antt =====
-- config/config.go: what `normalize` guarantees.
use Prim.Native.String.{String}
use text.Mathlib.Text.{◌==◌ as str_eq}
use qmdsr.Prelude.{ℕ, ◌*◌, ◌≡◌, Bool, true, false, ◌&&◌, arith, ◌==◌, if◌then◌else◌}
use qmdsr.Prelude.Int.{ℤ, pos, is_zero, is_pos}
use qmdsr.Config.{RuntimeConfig, Config}
use qmdsr.Config.Defaults.{
  second, minute, or_int, unset, runtime_defaults, apply_low_resource_profile,
  apply_runtime_defaults,
}

-- Every setting of the runtime with a default has a value.
pub record IsRuntimeComplete (r : RuntimeConfig) : Type 0 where
  pub query_timeout : is_zero r.query_timeout ≡ false
  pub query_max_concurrency : is_zero r.query_max_concurrency ≡ false
  pub deep_fail_timeout : is_zero r.deep_fail_timeout ≡ false
  pub deep_negative_ttl : is_zero r.deep_negative_ttl ≡ false
  pub cpu_overload_threshold : is_zero r.cpu_overload_threshold ≡ false
  pub cpu_overload_sustain : is_zero r.cpu_overload_sustain ≡ false
  pub cpu_recover_threshold : is_zero r.cpu_recover_threshold ≡ false
  pub cpu_recover_sustain : is_zero r.cpu_recover_sustain ≡ false
  pub cpu_critical_threshold : is_zero r.cpu_critical_threshold ≡ false
  pub cpu_critical_sustain : is_zero r.cpu_critical_sustain ≡ false
  pub overload_max_concurrent_search : is_zero r.overload_max_concurrent_search ≡ false
  pub cpu_sample_interval : is_zero r.cpu_sample_interval ≡ false
  pub deep_negative_scope_cooldown : is_pos r.deep_negative_scope_cooldown ≡ true
  pub routed :
      r.low_resource_mode ≡ true
      → r.allow_cpu_deep_query ≡ true
      → (r.smart_routing ≡ true)
        × (is_zero r.cpu_deep_min_words ≡ false)
        × (is_zero r.cpu_deep_min_chars ≡ false)
        × (is_zero r.cpu_deep_max_words ≡ false)
        × (is_zero r.cpu_deep_max_chars ≡ false)
        × (is_zero r.cpu_deep_max_abstract_cues ≡ false)

-- Every setting with a default has a value.
pub record IsComplete (c : Config) : Type 0 where
  pub mcp_port : is_zero c.qmd.mcp_port ≡ false
  pub grpc_listen : str_eq c.server.grpc_listen "" ≡ false
  pub security_model : str_eq c.server.security_model "" ≡ false
  pub default_mode : str_eq c.search.default_mode "" ≡ false
  pub level : str_eq c.logging.level "" ≡ false
  pub top_k : is_zero c.search.top_k ≡ false
  pub coarse_k : is_zero c.search.coarse_k ≡ false
  pub min_score : is_zero c.search.min_score ≡ false
  pub max_chars : is_zero c.search.max_chars ≡ false
  pub files_all_max_hits : is_zero c.search.files_all_max_hits ≡ false
  pub ttl : is_zero c.cache.ttl ≡ false
  pub max_entries : is_zero c.cache.max_entries ≡ false
  pub cleanup_interval : is_zero c.cache.cleanup_interval ≡ false
  pub index_refresh : is_zero c.scheduler.index_refresh ≡ false
  pub embed_refresh : is_zero c.scheduler.embed_refresh ≡ false
  pub embed_full_refresh : is_zero c.scheduler.embed_full_refresh ≡ false
  pub cache_cleanup : is_zero c.scheduler.cache_cleanup ≡ false
  pub check_interval : is_zero c.guardian.check_interval ≡ false
  pub timeout : is_zero c.guardian.timeout ≡ false
  pub restart_max_retries : is_zero c.guardian.restart_max_retries ≡ false
  pub runtime : IsRuntimeComplete c.runtime

-- The value of a setting that the low-resource profile and the usual profile default differently.
abbrev pub chosen : Bool → ℤ → ℕ → ℕ → ℤ
chosen low x profile usual = if is_zero x then pos (if low then profile else usual) else x

-- A timeout or a bound that the file sets is kept; one that it leaves out has the value of the
-- low-resource profile in low-resource mode with deep queries, and else the usual default.
pub apply_runtime_defaults_lem :
    (r : RuntimeConfig)
    → let low = r.low_resource_mode && r.allow_cpu_deep_query in
      let r' = apply_runtime_defaults r in
      (r'.query_timeout ≡ chosen low r.query_timeout (45 * second) (120 * second))
      × (r'.query_max_concurrency ≡ chosen low r.query_max_concurrency 1 2)
      × (r'.deep_fail_timeout ≡ chosen low r.deep_fail_timeout (12 * second) (15 * second))
      × (r'.deep_negative_ttl ≡ chosen low r.deep_negative_ttl (15 * minute) (10 * minute))
unfolding apply_runtime_defaults apply_low_resource_profile runtime_defaults unset or_int
apply_runtime_defaults_lem r = ground arith
