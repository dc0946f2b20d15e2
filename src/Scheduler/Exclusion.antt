-- ===== src/Scheduler/Exclusion.antt =====
-- scheduler/scheduler.go: a task never runs twice at once, whatever the order in which tasks begin and end.
use Prim.Native.String.{String}
use text.Mathlib.Text.{◌==◌ as str_eq}
use text.Mathlib.TextEquality.{eq_iff}
use qmdsr.Prelude.{
  ℕ, suc, ◌+◌, ◌≤◌, ◌<◌, ◌≡◌, refl, sym, inl, inr, true, false, not, ◌&&◌, none, some, List, [],
  ◌∷◌, arith, if◌then◌else◌, Bool-cases, exists,
}
use qmdsr.Scheduler.{begin_task, end_task}

-- What the goroutines do: `runTask` is called for a name, or the call that runs a name ends.
pub data Event : Type 0 where
  begin : String → Event
  end : String → Event

-- The names in the map, and one entry for each call of `fn` in progress.
pub record Running : Type 0 where
  pub names : List String
  pub calls : List String

unfoldable pub drop_one : String → List String → List String
drop_one name [] = []
drop_one name (n ∷ ns) = if str_eq name n then ns else n ∷ drop_one name ns

-- A name begins if `runTask` lets it; a call ends only if it is in progress.
unfoldable pub step : Running → Event → Running
step r (begin name) = elim (begin_task name r.names) [
  | none ↦ r
  | some names ↦ record { names = names; calls = name ∷ r.calls }
]
step r (end name) =
    if exists (str_eq name) r.calls
    then record { names = end_task name r.names; calls = drop_one name r.calls }
    else r

unfoldable pub steps : Running → List Event → Running
steps r [] = r
steps r (e ∷ es) = steps (step r e) es

unfoldable pub count : String → List String → ℕ
count name [] = 0
count name (n ∷ ns) = if str_eq name n then suc (count name ns) else count name ns

running_after :
    (m name : String) (names : List String)
    → exists (str_eq m) (end_task name names) ≡ not (str_eq name m) && exists (str_eq m) names
unfolding end_task
running_after m name [] = ground arith
running_after m name (n ∷ ns) =
    ground (arith, running_after m name ns, eq_iff m n, eq_iff name n, eq_iff name m)

count_other :
    (m name : String) (ns : List String)
    → str_eq name m ≡ false
    → count m (drop_one name ns) ≡ count m ns
unfolding count drop_one
count_other m name [] h = refl
count_other m name (n ∷ ns) h =
    ground (arith, count_other m name ns h, eq_iff m n, eq_iff name n, eq_iff name m)

count_same :
    (m : String) (ns : List String)
    → exists (str_eq m) ns ≡ true
    → count m ns ≡ count m (drop_one m ns) + 1
unfolding count drop_one
count_same m [] h = ground arith
count_same m (n ∷ ns) h = elim (Bool-cases (str_eq m n)) [
  | inl q ↦ ground arith
  | inr q ↦ ground (arith, count_same m ns)
]

count_present : (m : String) (ns : List String) → exists (str_eq m) ns ≡ true → 0 < count m ns
unfolding count
count_present m [] h = ground arith
count_present m (n ∷ ns) h = ground (arith, count_present m ns)

count_absent :
    (name : String) (ns : List String) → exists (str_eq name) ns ≡ false → count name ns ≡ 0
unfolding count
count_absent name [] h = refl
count_absent name (n ∷ ns) h = ground (arith, count_absent name ns)

-- The map holds a name just while one call of it runs, and never two calls run.
pub IsExclusive : Running → Type 0
IsExclusive r = (m : String) → count m r.calls ≡ (if exists (str_eq m) r.names then 1 else 0)

step_refused :
    (r : Running) (name : String) → exists (str_eq name) r.names ≡ true → step r (begin name) ≡ r
unfolding step begin_task
step_refused r name busy = rw (busy, step)

step_begun :
    (r : Running) (name : String)
    → exists (str_eq name) r.names ≡ false
    → step r (begin name) ≡ record { names = name ∷ r.names; calls = name ∷ r.calls }
unfolding step begin_task
step_begun r name free = rw (free, step)

begun-IsExclusive :
    (r : Running) (name : String)
    → exists (str_eq name) r.names ≡ false
    → IsExclusive r
    → IsExclusive (record { names = name ∷ r.names; calls = name ∷ r.calls })
unfolding IsExclusive count
begun-IsExclusive r name free h m =
    let e : count m r.calls ≡ (if exists (str_eq m) r.names then 1 else 0) = h m in
    ground (arith, eq_iff m name, e)

ended-IsExclusive :
    (r : Running) (name : String)
    → exists (str_eq name) r.calls ≡ true
    → IsExclusive r
    → IsExclusive (record { names = end_task name r.names; calls = drop_one name r.calls })
unfolding IsExclusive
ended-IsExclusive r name running h m =
    let e : count m r.calls ≡ (if exists (str_eq m) r.names then 1 else 0) = h m in
    elim (Bool-cases (str_eq name m)) [
      | inl same ↦
          let q : name ≡ m = (eq_iff name m).0 same in
          let running' : exists (str_eq m) r.calls ≡ true = rw (sym q) running in
          rw (running_after m name r.names) (ground (arith, count_same m r.calls running', e, q))
      | inr other ↦
          rw (running_after m name r.names, count_other m name r.calls other) (ground (arith, e))
    ]

step-IsExclusive : (r : Running) (e : Event) → IsExclusive r → IsExclusive (step r e)
step-IsExclusive r (begin name) h = elim (Bool-cases (exists (str_eq name) r.names)) [
  | inl busy ↦ rw (step_refused r name busy) h
  | inr free ↦ rw (step_begun r name free) (begun-IsExclusive r name free h)
]
step-IsExclusive r (end name) h = elim (Bool-cases (exists (str_eq name) r.calls)) [
  | inl running ↦ unfold step in rw running (ended-IsExclusive r name running h)
  | inr idle ↦ unfold step in rw idle h
]

steps-IsExclusive : (r : Running) (es : List Event) → IsExclusive r → IsExclusive (steps r es)
unfolding steps
steps-IsExclusive r [] h = h
steps-IsExclusive r (e ∷ es) h = steps-IsExclusive (step r e) es (step-IsExclusive r e h)

-- From no task running, after any sequence of calls of `runTask` and of ends of its calls: the map
-- holds exactly the names of the calls in progress, and each has only one.
pub steps_exclusive :
    (es : List Event) (name : String)
    → let r = steps (record { names = []; calls = [] }) es in
      (count name r.calls ≤ 1) × (exists (str_eq name) r.names ≡ exists (str_eq name) r.calls)
unfolding IsExclusive
steps_exclusive es name =
    let r = steps (record { names = []; calls = [] }) es in
    let e : count name r.calls ≡ (if exists (str_eq name) r.names then 1 else 0) =
      steps-IsExclusive (record { names = []; calls = [] }) es (λ m. unfold count in refl) name in
    elim (Bool-cases (exists (str_eq name) r.calls)) [
      | inl q ↦ ground (arith, count_present name r.calls q, e)
      | inr q ↦ ground (arith, count_absent name r.calls q, e)
    ]
