-- ===== src/Orchestrator/Negative/Examples.antt =====
-- A runtime with deep queries, and the theorems about its deep-negative cache.
use Prim.Native.String.{String}
use text.Mathlib.Text.{◌==◌ as str_eq}
use text.Mathlib.TextEquality.{eq_iff}
use qmdsr.Prelude.{
  ℕ, ◌≤◌, ◌≡◌, refl, ◌≢◌, inl, inr, true, false, none, some, [], ◌∷◌, arith, if◌then◌else◌,
  Bool-cases, exists,
}
use qmdsr.Prelude.Int.{pos}
use qmdsr.Config.{RuntimeConfig}
use qmdsr.Orchestrator.Negative.{
  Texts, DeepNeg, is_past, empty, assign, join, exact_key, scope_of, scope_cooldown_key, skip_scope,
  should_skip, mark_scope_cooldown, mark, cleanup_expiries, cleanup_fails, cleanup_deep_negative,
}
use qmdsr.Orchestrator.Negative.Skips.{held, skips, should_skip_iff}
use qmdsr.Orchestrator.Negative.Cooldown.{should_skip-mark, three_failures}
use qmdsr.Orchestrator.Negative.Expiry.{past_count, IsDistinct, cleanup_deep_negative_lem}

program : Unit {0}
unfolding empty assign join exact_key scope_of scope_cooldown_key skip_scope should_skip
    mark_scope_cooldown mark cleanup_expiries cleanup_fails cleanup_deep_negative held skips
    past_count IsDistinct
program = tt

abbrev texts : Texts
texts = record { trim = λ s. s; lower = λ s. s; fields = λ s. s ∷ []; sha1_hex = λ s. s }

abbrev runtime : RuntimeConfig
runtime = record {
  low_resource_mode = true;
  allow_cpu_deep_query = true;
  allow_cpu_vsearch = false;
  smart_routing = true;
  cpu_deep_min_words = pos 8;
  cpu_deep_min_chars = pos 16;
  cpu_deep_max_words = pos 28;
  cpu_deep_max_chars = pos 180;
  cpu_deep_max_abstract_cues = pos 2;
  query_max_concurrency = pos 1;
  query_timeout = pos 45_000_000_000;
  deep_fail_timeout = pos 12_000_000_000;
  deep_negative_ttl = pos 600;
  deep_negative_scope_cooldown = pos 900;
  cpu_overload_protect = true;
  cpu_overload_threshold = pos 90;
  cpu_overload_sustain = pos 10;
  cpu_recover_threshold = pos 75;
  cpu_recover_sustain = pos 10;
  cpu_critical_threshold = pos 95;
  cpu_critical_sustain = pos 5;
  overload_max_concurrent_search = pos 2;
  cpu_sample_interval = pos 1;
}

should_skip_iff_example :
    (should_skip texts runtime "q" "all" 5 empty).1 ≡ skips texts runtime "q" "all" 5 empty
should_skip_iff_example = should_skip_iff texts runtime "q" "all" 5 empty

apart : str_eq (scope_cooldown_key texts (scope_of texts "all")) (exact_key texts "q" "all") ≡ false
unfolding program
apart = refl

should_skip-mark_example :
    (should_skip texts runtime "q" "all" 610 (mark texts runtime "q" "all" 10 empty)).1 ≡ true
should_skip-mark_example =
    should_skip-mark texts runtime "q" "all" 10 610 empty refl apart (omega arith)

no_failures : empty.scope_fails (scope_of texts "all") ≡ []
unfolding program
no_failures = refl

stable : scope_of texts (scope_of texts "all") ≡ scope_of texts "all"
unfolding program
stable = refl

three_failures_example :
    let s1 = mark texts runtime "a" "all" 10 empty in
    let s2 = mark texts runtime "b" "all" 20 s1 in
    let s3 = mark texts runtime "c" "all" 30 s2 in
    (should_skip texts runtime "q" "all" 930 s3).1 ≡ true
three_failures_example =
    three_failures texts runtime "a" "b" "c" "q" "all" 10 20 30 930 empty refl refl refl no_failures
      stable (omega arith) (omega arith) (omega arith) (omega arith)

-- Two failures leave other queries of the scope alone.
two_failures :
    (should_skip texts runtime "q" "all" 25
      (mark texts runtime "b" "all" 20 (mark texts runtime "a" "all" 10 empty))).1
    ≡ false
unfolding program
two_failures = refl

abbrev stored : DeepNeg
stored = record empty {
  expiries = λ k. if str_eq "x" k then some 5 else if str_eq "y" k then some 50 else none;
}

keys-IsDistinct : IsDistinct ("y" ∷ "x" ∷ [])
unfolding program
keys-IsDistinct = (refl, (refl, tt))

keys_all : (k : String) → stored.expiries k ≢ none → exists (str_eq k) ("y" ∷ "x" ∷ []) ≡ true
keys_all k h = elim (Bool-cases (str_eq "x" k)) [
  | inl a ↦ ground (arith, a, eq_iff "x" k, eq_iff k "x")
  | inr a ↦ elim (Bool-cases (str_eq "y" k)) [
    | inl b ↦ ground (arith, b, eq_iff "y" k, eq_iff k "y")
    | inr b ↦ absurd (h (rw (a, b) refl))
  ]
]

cleanup_deep_negative_lem_example :
    let (s', removed) = cleanup_deep_negative ("y" ∷ "x" ∷ []) [] 10 stored in
    (removed ≡ past_count 10 stored.expiries ("y" ∷ "x" ∷ []))
    × ((k : String) → is_past 10 (s'.expiries k) ≡ false)
    × ((query scope : String) (later : ℕ)
        → 10 ≤ later
        → (should_skip texts runtime query scope later s').1
          ≡ (should_skip texts runtime query scope later stored).1)
cleanup_deep_negative_lem_example =
    cleanup_deep_negative_lem texts runtime ("y" ∷ "x" ∷ []) [] 10 stored keys-IsDistinct keys_all
