-- ===== src/Orchestrator/Routing/Examples.antt =====
-- A query asked for in deep mode, and the theorems about it.
use Prim.Native.String.{String}
use text.Mathlib.Text.{◌==◌ as str_eq}
use qmdsr.Prelude.{◌≡◌, refl, ◌⊎◌, Bool, true, false, [], ◌∷◌}
use qmdsr.Prelude.Int.{pos}
use qmdsr.Config.{RuntimeConfig}
use qmdsr.Router.{Strings}
use qmdsr.Orchestrator.Routing.{allow_auto_deep_query, is_auto, wanted_mode, resolve_mode}
use qmdsr.Orchestrator.Routing.Modes.{resolve_mode_lem}

abbrev strings : Strings
strings = record {
  trim = λ s. s;
  lower = λ s. s;
  fields = λ s. s ∷ [];
  has_prefix = λ s p. str_eq s p;
  contains = λ s w. str_eq s w;
  has_quotation = λ s. false;
}

abbrev runtime : RuntimeConfig
runtime = record {
  low_resource_mode = true;
  allow_cpu_deep_query = true;
  allow_cpu_vsearch = false;
  smart_routing = true;
  cpu_deep_min_words = pos 8;
  cpu_deep_min_chars = pos 16;
  cpu_deep_max_words = pos 28;
  cpu_deep_max_chars = pos 180;
  cpu_deep_max_abstract_cues = pos 2;
  query_max_concurrency = pos 1;
  query_timeout = pos 45_000_000_000;
  deep_fail_timeout = pos 12_000_000_000;
  deep_negative_ttl = pos 600;
  deep_negative_scope_cooldown = pos 900;
  cpu_overload_protect = true;
  cpu_overload_threshold = pos 90;
  cpu_overload_sustain = pos 10;
  cpu_recover_threshold = pos 75;
  cpu_recover_sustain = pos 10;
  cpu_critical_threshold = pos 95;
  cpu_critical_sustain = pos 5;
  overload_max_concurrent_search = pos 2;
  cpu_sample_interval = pos 1;
}

abbrev capable : String → Bool
capable name = str_eq name "deep_query"

resolve_mode_lem_example :
    let mode = resolve_mode strings runtime capable true "query" "why" in
    (true ≡ true → mode ≡ "search")
    × (mode ≡ "query"
        → (capable "deep_query" ≡ true)
          × (is_auto "query" ≡ true → allow_auto_deep_query strings runtime "why" ≡ true))
    × (mode ≡ "vsearch" → capable "vector" ≡ true)
    × (mode ≡ "search" ⊎ (mode ≡ wanted_mode strings capable "query" "why"))
resolve_mode_lem_example = resolve_mode_lem strings runtime capable true "query" "why"

served_deep : resolve_mode strings runtime capable false "query" "why" ≡ "query"
unfolding resolve_mode wanted_mode
served_deep = refl

served_plain : resolve_mode strings runtime capable false "vsearch" "why" ≡ "search"
unfolding resolve_mode wanted_mode
served_plain = refl
