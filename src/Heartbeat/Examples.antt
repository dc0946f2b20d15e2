-- ===== src/Heartbeat/Examples.antt =====
-- A tracker with two components, and the theorems about it.
use Prim.Native.String.{String}
use text.Mathlib.Text.{◌==◌ as str_eq}
use qmdsr.Prelude.{ℕ, ◌≤◌, ◌≡◌, refl, ◌⊎◌, List, [], ◌∷◌, if◌then◌else◌, All}
use qmdsr.Types.{HealthLevel, healthy, degraded, unhealthy, critical, rank}
use qmdsr.Heartbeat.{
  SystemHealthTracker, find, store, fresh, or_fresh, assess, update, get_component_level,
  overall_from, mode_of, get_health, Answer, run_checks, check_index_db,
}
use qmdsr.Heartbeat.Tracking.{get_component_level-update, HasLevel, get_health_worst}

program : Unit {0}
unfolding find store fresh or_fresh assess update get_component_level overall_from mode_of
    get_health run_checks check_index_db
program = tt

abbrev tracker : SystemHealthTracker
tracker = record { components = []; started_at = 0 }

abbrev answers : List Answer
answers = ("index_db", critical, "gone") ∷ ("cache", healthy, "") ∷ []

get_component_level-update_example :
    get_component_level (update tracker "cache" unhealthy "slow" 3) "cache"
    ≡ (if str_eq "cache" "cache" then unhealthy else get_component_level tracker "cache")
get_component_level-update_example =
    get_component_level-update tracker "cache" "cache" unhealthy "slow" 3

get_health_worst_example :
    let s = (run_checks answers 3 tracker).0 in
    All (λ p. rank p.1.level ≤ rank (get_health s 9).overall) s.components
    × (((get_health s 9).overall ≡ healthy) ⊎ HasLevel (get_health s 9).overall s.components)
get_health_worst_example = get_health_worst (run_checks answers 3 tracker).0 9

worst_is_critical : (get_health (run_checks answers 3 tracker).0 9).mode ≡ "critical"
unfolding program
worst_is_critical = refl

abbrev history : List (HealthLevel × String × ℕ)
history = (unhealthy, "", 1) ∷ (healthy, "", 2) ∷ (degraded, "", 3) ∷ (critical, "", 4) ∷ []
