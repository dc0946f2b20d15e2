-- ===== src/Scheduler.antt =====
-- scheduler/scheduler.go: tasks that run one at a time under their name, with retries. A task is a
-- function of the state `S` that it works on, to the new state and its error, if any.
pub mod Retries
pub mod Exclusion
pub mod Versions
mod Examples
use Prim.Native.String.{String}
use text.Mathlib.Text.{◌==◌ as str_eq}
use text.Mathlib.TextEquality.{eq_iff}
use qmdsr.Prelude.{
  ℕ, zero, suc, ◌+◌, ◌-◌, ◌*◌, ◌/◌, ◌%◌, ◌^◌, ◌≤◌, ◌<◌, min, max, ◌≡◌, refl, sym, ap, ◌∙◌, ◌≢◌, ◌↔◌,
  ◌⊎◌, inl, inr, Bool, true, false, not, ◌&&◌, ◌||◌, Option, none, some, List, [], ◌∷◌, ◌++◌, map,
  arith, ltb, leb, ◌==◌, if◌then◌else◌, ltb→lt, lt→ltb, leb→le, Bool-cases, Option-cases, length,
  take, replicate, select, exists, All, length-append, length-take, length-select-le, All-append,
  All-take,
}
use qmdsr.Prelude.Int.{
  ℤ, pos, negsuc, pos_part, neg_part, sub_ℕ, ◌≤ℤ◌, ltb_ℤ, leb_ℤ, is_zero, is_nonpos, is_pos,
}
use qmdsr.Cache
use qmdsr.Cache.{Cache}
use qmdsr.Config.{RuntimeConfig}
use qmdsr.Orchestrator.Negative.{DeepNeg}

-- `runTask` up to `fn()`: the new map of running tasks, if the name is not in it.
unfoldable pub begin_task : String → List String → Option (List String)
begin_task name running = if exists (str_eq name) running then none else some (name ∷ running)

-- The deferred `delete(s.running, name)`.
unfoldable pub end_task : String → List String → List String
end_task name running = select (λ n. not (str_eq name n)) running

abbrev pub Task : Type 0 → Type 0 → Type 0
Task S E = S → S × Option E

module _ {S E : Type 0} where
  -- The loop of `retry` from round `i` with `left` rounds left: the state, the error that it returns,
  -- and the delays that it slept, in seconds.
  unfoldable pub retry_from : Task S E → ℕ → ℕ → Option E → S → S × Option E × List ℕ
  retry_from fn zero i last s = (s, last, [])
  retry_from fn (suc left) i last s =
      let (s', err) = fn s in
      let (s'', last', delays) = retry_from fn left (i + 1) err s' in
      elim err [ none ↦ (s', none, (i * i) ∷ []) | some e ↦ (s'', last', (i * i) ∷ delays) ]

  unfoldable pub retry : Task S E → ℕ → S → S × Option E × List ℕ
  retry fn max_retries s = retry_from fn max_retries 1 none s

  -- `fn()`, and the retries if it fails.
  unfoldable pub attempt : Task S E → S → S × Option E × List ℕ
  attempt fn s =
      let (s', err) = fn s in
      let again = retry fn 3 s' in elim err [ none ↦ (s', none, []) | some e ↦ again ]

  unfoldable pub run_task : String → Task S E → List String × S → (List String × S) × Option E
  run_task name fn (running, s) = elim (begin_task name running) [
    | none ↦ ((running, s), none)
    | some running' ↦ let (s', err, delays) = attempt fn s in ((end_task name running', s'), err)
  ]

-- The state that the tasks change. `cleanup_deep_negative` is none where the field is nil; it answers
-- how many entries it removed.
pub record Sched : Type 0 where
  pub cache : Cache
  pub deep_neg : DeepNeg
  pub cleanup_deep_negative : Option (ℕ → DeepNeg → DeepNeg × ℕ)
  pub last_embed : ℕ
  pub last_full : ℕ

module _ {E : Type 0} where
  -- `taskReindex`: the answer of `Update`, and the version string of the time.
  unfoldable pub task_reindex : Option E → String → Sched → Sched × Option E
  task_reindex update_err version s = elim update_err [
    | some e ↦ (s, some e)
    | none ↦ (record s { cache = Cache.set_version s.cache version }, none)
  ]

  unfoldable pub task_embed : Option E → ℕ → Sched → Sched × Option E
  task_embed embed_err now s = (record s { last_embed = now }, embed_err)

  unfoldable pub task_embed_full : Option E → ℕ → Sched → Sched × Option E
  task_embed_full embed_err now s = (record s { last_full = now }, embed_err)

  -- `taskCacheCleanup`: the cache first, then the deep-negative entries, if the task was given their
  -- cleanup. What they removed goes to the log only.
  unfoldable pub task_cache_cleanup : ℕ → Sched → Sched × Option E
  task_cache_cleanup now s =
      let cache = (Cache.cleanup s.cache now).0 in
      let deep_neg : DeepNeg = elim s.cleanup_deep_negative [
        | none ↦ s.deep_neg
        | some cleanup ↦ (cleanup now s.deep_neg).0
      ] in
      (record s { cache = cache; deep_neg = deep_neg }, none)

-- Embedding is worth its cost: not in low-resource mode, or some CPU mode needs it.
unfoldable pub embed_enabled : RuntimeConfig → Bool
embed_enabled r = not r.low_resource_mode || r.allow_cpu_vsearch || r.allow_cpu_deep_query

-- The loops that `Start` starts.
unfoldable pub loops : RuntimeConfig → List String
loops r =
    "index_refresh"
    ∷ ((if embed_enabled r then "embed_refresh" ∷ "embed_full_refresh" ∷ [] else [])
        ++ "cache_cleanup" ∷ [])

module _ {E : Type 0} where
  unfoldable pub trigger_reindex :
      Option E → String → List String × Sched → (List String × Sched) × Option E
  trigger_reindex update_err version = run_task "index_refresh" (task_reindex update_err version)

  unfoldable pub trigger_embed :
      RuntimeConfig → Bool → Option E → ℕ → List String × Sched → (List String × Sched) × Option E
  trigger_embed r force embed_err now w =
      if r.low_resource_mode && not (r.allow_cpu_vsearch || r.allow_cpu_deep_query)
      then (w, none)
      else if force
      then run_task "embed_full_refresh" (task_embed_full embed_err now) w
      else run_task "embed_refresh" (task_embed embed_err now) w
