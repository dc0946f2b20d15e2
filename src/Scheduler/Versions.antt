-- ===== src/Scheduler/Versions.antt =====
-- scheduler/scheduler.go with cache/cache.go: what a reindex does to the answers that are cached.
use Prim.Native.String.{String}
use qmdsr.Prelude.{ℕ, ◌≡◌, refl, true, none, some}
use qmdsr.Prelude.Int.{sub_ℕ, ◌≤ℤ◌}
use qmdsr.Cache
use qmdsr.Cache.{Cache}
use qmdsr.Cache.Coherence.{IsCoherent, set_version-IsCoherent}
use qmdsr.Cache.Methods.{get_fresh}
use qmdsr.Scheduler.{Sched, task_reindex}

-- After a reindex that succeeds, a coherent, version aware cache returns nothing that was stored under
-- another version than the new one, at any later time; and nothing older than the time to live. A
-- reindex that fails changes nothing.
pub task_reindex_lem :
    {E : Type 0} (version : String) (s : Sched) (e : E) (key : String) (now : ℕ) {hit : Cache.Entry}
    → IsCoherent s.cache
    → s.cache.version_aware ≡ true
    → let s' = (task_reindex {E = E} none version s).0 in
      ((Cache.get s'.cache key now).1 ≡ some hit
        → (hit.index_version ≡ version) × (sub_ℕ now hit.created_at ≤ℤ s.cache.ttl))
      × ((task_reindex (some e) version s) ≡ (s, some e))
unfolding task_reindex
task_reindex_lem version s e key now {hit} g aware = (
  λ found.
      let fresh =
        get_fresh (Cache.set_version s.cache version) key now
          (set_version-IsCoherent s.cache version g) found in
      (unfold Cache.set_version in fresh.1 aware, unfold Cache.set_version in fresh.0),
  refl,
)
