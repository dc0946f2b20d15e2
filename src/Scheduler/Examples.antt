-- ===== src/Scheduler/Examples.antt =====
-- A task that fails twice, and the theorems about it.
use Prim.Native.String.{String}
use text.Mathlib.Text.{◌==◌ as str_eq}
use qmdsr.Prelude.{
  ℕ, ◌+◌, ◌≤◌, ◌≡◌, refl, true, false, Option, none, some, List, [], ◌∷◌, ltb, if◌then◌else◌,
  exists,
}
use qmdsr.Prelude.Int.{pos, sub_ℕ, ◌≤ℤ◌}
use qmdsr.Cache
use qmdsr.Cache.{CacheConfig}
use qmdsr.Cache.Coherence.{IsCoherent}
use qmdsr.Cache.Elements.{handle_of}
use qmdsr.Scheduler.{
  begin_task, end_task, retry_from, retry, attempt, run_task, Sched, task_reindex,
  task_cache_cleanup,
}
use qmdsr.Orchestrator.Negative
use qmdsr.Orchestrator.Negative.{cleanup_deep_negative, cleanup_expiries, cleanup_fails}
use qmdsr.Scheduler.Retries.{Tried, run_task_lem}
use qmdsr.Scheduler.Exclusion.{Event, begin, end, step, steps, count, drop_one, steps_exclusive}
use qmdsr.Scheduler.Versions.{task_reindex_lem}

program : Unit {0}
unfolding Cache.new Cache.lookup handle_of begin_task end_task retry_from retry attempt run_task
    task_reindex task_cache_cleanup Cache.cleanup cleanup_deep_negative cleanup_expiries
    cleanup_fails Negative.assign step steps count drop_one
program = tt

-- A task that counts its calls and succeeds at the third.
abbrev flaky : ℕ → ℕ × Option String
flaky n = (n + 1, if ltb n 2 then some "busy" else none)

run_task_lem_example :
    (exists (str_eq "index_refresh") ("cache_cleanup" ∷ []) ≡ true
      → ((run_task "index_refresh" flaky ("cache_cleanup" ∷ [], 0)).0 ≡ ("cache_cleanup" ∷ [], 0))
        × ((run_task "index_refresh" flaky ("cache_cleanup" ∷ [], 0)).1 ≡ none))
    × (exists (str_eq "index_refresh") ("cache_cleanup" ∷ []) ≡ false
        → ((run_task "index_refresh" flaky ("cache_cleanup" ∷ [], 0)).0.0 ≡ "cache_cleanup" ∷ [])
          × Tried flaky 4 0
              (run_task "index_refresh" flaky ("cache_cleanup" ∷ [], 0)).0.1
              (run_task "index_refresh" flaky ("cache_cleanup" ∷ [], 0)).1)
run_task_lem_example = run_task_lem flaky "index_refresh" ("cache_cleanup" ∷ []) 0

flaky_test : run_task "a" flaky ([], 0) ≡ (([], 3), none)
unfolding program
flaky_test = refl

flaky_delays : (retry flaky 3 1).2 ≡ 1 ∷ 4 ∷ []
unfolding program
flaky_delays = refl

abbrev history : List Event
history = begin "a" ∷ begin "a" ∷ begin "b" ∷ end "a" ∷ begin "a" ∷ []

steps_exclusive_example :
    let r = steps (record { names = []; calls = [] }) history in
    (count "a" r.calls ≤ 1) × (exists (str_eq "a") r.names ≡ exists (str_eq "a") r.calls)
steps_exclusive_example = steps_exclusive history "a"

history_test : count "a" (steps (record { names = []; calls = [] }) history).calls ≡ 1
unfolding program
history_test = refl

abbrev settings : CacheConfig
settings = record {
  enabled = true;
  ttl = pos 100;
  max_entries = pos 5;
  cleanup_interval = pos 1;
  version_aware = true;
}

abbrev sched : Sched
sched = record {
  cache = Cache.new settings;
  deep_neg = record Negative.empty { expiries = λ key. if str_eq key "q" then some 5 else none };
  cleanup_deep_negative = some (cleanup_deep_negative ("q" ∷ []) []);
  last_embed = 0;
  last_full = 0;
}

-- The cleanup of the cache drops what no longer holds of the failed deep searches, too.
cleanup_both : ((task_cache_cleanup {E = String} 9 sched).0).deep_neg.expiries "q" ≡ none
unfolding program
cleanup_both = refl

abbrev answer : Cache.Entry
answer = record {
  results = [];
  index_version = "v2";
  created_at = 7;
  query = "q";
  mode = "search";
  collection = "notes";
  fallback_triggered = false;
  degraded = false;
  degrade_reason = "";
}

sched-IsCoherent : IsCoherent sched.cache
unfolding program
sched-IsCoherent = record { index = λ k. refl; listed = tt; distinct = tt; fresh = tt }

aware : sched.cache.version_aware ≡ true
unfolding program
aware = refl

task_reindex_lem_example :
    let s' = (task_reindex {E = String} none "v2" sched).0 in
    ((Cache.get s'.cache "k" 9).1 ≡ some answer
      → (answer.index_version ≡ "v2") × (sub_ℕ 9 answer.created_at ≤ℤ sched.cache.ttl))
    × (task_reindex {E = String} (some "locked") "v2" sched ≡ (sched, some "locked"))
task_reindex_lem_example =
    task_reindex_lem {E = String} "v2" sched "locked" "k" 9 {hit = answer} sched-IsCoherent aware
