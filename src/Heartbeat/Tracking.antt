-- ===== src/Heartbeat/Tracking.antt =====
-- heartbeat/heartbeat.go: what the tracker reports after updates.
use Prim.Native.String.{String}
use text.Mathlib.Text.{◌==◌ as str_eq}
use text.Mathlib.TextEquality.{eq_iff}
use qmdsr.Prelude.{
  ℕ, ◌+◌, ◌≤◌, ◌≡◌, refl, sym, ap, ◌∙◌, ◌⊎◌, inl, inr, some, List, [], ◌∷◌, arith, if◌then◌else◌,
  All,
}
use qmdsr.Types.{HealthLevel, healthy, degraded, unhealthy, critical, rank, level_gt}
use qmdsr.Heartbeat.{
  ComponentHealth, SystemHealthTracker, Components, find, store, or_fresh, assess, update,
  get_component_level, overall_from, get_health, Answer, same_level, run_checks,
}

find-store :
    (name k : String) (c : ComponentHealth) (cs : Components)
    → find k (store name c cs) ≡ (if str_eq name k then some c else find k cs)
unfolding find store
find-store name k c [] = refl
find-store name k c ((n, d) ∷ cs) =
    ground (arith, eq_iff name k, eq_iff n name, eq_iff n k, find-store name k c cs)

assess-level :
    (c : ComponentHealth) (l : HealthLevel) (msg : String) (now : ℕ)
    → (assess c l msg now).level ≡ l
unfolding assess
assess-level c healthy msg now = refl
assess-level c _ msg now = refl

-- An update sets the level of its component and of no other.
pub get_component_level-update :
    (s : SystemHealthTracker) (name k : String) (level : HealthLevel) (msg : String) (now : ℕ)
    → get_component_level (update s name level msg now) k
      ≡ (if str_eq name k then level else get_component_level s k)
unfolding get_component_level update
get_component_level-update s name k level msg now =
    let c = assess (or_fresh name (find name s.components)) level msg now in
    ground (
      arith,
      find-store name k c s.components,
      assess-level (or_fresh name (find name s.components)) level msg now,
    )

abbrev IsBelow : HealthLevel → Components → Type 0
IsBelow top = All (λ p. rank p.1.level ≤ rank top)

abbrev worse : HealthLevel → HealthLevel → HealthLevel
worse l acc = if level_gt l acc then l else acc

worse-ge : (l acc : HealthLevel) → (rank acc ≤ rank (worse l acc)) × (rank l ≤ rank (worse l acc))
worse-ge l acc = (ground arith, ground arith)

worse_one : (l acc : HealthLevel) → (worse l acc ≡ acc) ⊎ (worse l acc ≡ l)
worse_one l acc = ground arith

overall_from-ge :
    (acc : HealthLevel) (cs : Components)
    → (rank acc ≤ rank (overall_from acc cs)) × IsBelow (overall_from acc cs) cs
unfolding overall_from
overall_from-ge acc [] = (omega arith, tt)
overall_from-ge acc ((n, c) ∷ cs) =
    let (a, b) = overall_from-ge (worse c.level acc) cs in
    let (p, q) = worse-ge c.level acc in (omega arith, (omega arith, b))

-- Some component has the level.
pub HasLevel : HealthLevel → Components → Type 0
HasLevel l [] = ⊥
HasLevel l ((n, c) ∷ cs) = (c.level ≡ l) ⊎ HasLevel l cs

overall_from-attained :
    (acc : HealthLevel) (cs : Components)
    → (overall_from acc cs ≡ acc) ⊎ HasLevel (overall_from acc cs) cs
unfolding overall_from HasLevel
overall_from-attained acc [] = inl refl
overall_from-attained acc ((n, c) ∷ cs) = elim (overall_from-attained (worse c.level acc) cs) [
  | inr h ↦ inr (inr h)
  | inl e ↦ elim (worse_one c.level acc) [
    | inl old ↦ inl (e ∙ old)
    | inr here ↦ inr (inl (sym (e ∙ here)))
  ]
]

-- The overall level is the worst of the components: none is worse, and if it is not healthy then
-- some component has it.
pub get_health_worst :
    (s : SystemHealthTracker) (now : ℕ)
    → All (λ p. rank p.1.level ≤ rank (get_health s now).overall) s.components
      × (((get_health s now).overall ≡ healthy) ⊎ HasLevel (get_health s now).overall s.components)
unfolding get_health
get_health_worst s now =
    ((overall_from-ge healthy s.components).1, overall_from-attained healthy s.components)

-- The updates of one component, oldest first.
unfoldable pub updates :
    SystemHealthTracker → String → List (HealthLevel × String × ℕ) → SystemHealthTracker
updates s name [] = s
updates s name ((level, msg, now) ∷ us) = updates (update s name level msg now) name us

-- The answers since the last healthy one, after `n` before the first.
unfoldable pub failing_since : ℕ → List (HealthLevel × String × ℕ) → ℕ
failing_since n [] = n
failing_since n ((healthy, msg, now) ∷ us) = failing_since 0 us
failing_since n ((level, msg, now) ∷ us) = failing_since (n + 1) us

abbrev pub fail_count_of : SystemHealthTracker → String → ℕ
fail_count_of s name = (or_fresh name (find name s.components)).fail_count

assess-fail_count :
    (c : ComponentHealth) (l : HealthLevel) (msg : String) (now : ℕ)
    → (assess c l msg now).fail_count ≡ (if same_level l healthy then 0 else c.fail_count + 1)
unfolding assess
assess-fail_count c healthy msg now = refl
assess-fail_count c _ msg now = refl

fail_count-update :
    (s : SystemHealthTracker) (name : String) (level : HealthLevel) (msg : String) (now : ℕ)
    → fail_count_of (update s name level msg now) name
      ≡ (if same_level level healthy then 0 else fail_count_of s name + 1)
unfolding update or_fresh
fail_count-update s name level msg now =
    let old = or_fresh name (find name s.components) in
    let c = assess old level msg now in
    let found : find name (store name c s.components) ≡ some c =
      find-store name name c s.components
      ∙ ap (λ b. if b then some c else find name s.components) ((eq_iff name name).1 refl) in
    ap (λ o. (or_fresh name o).fail_count) found ∙ assess-fail_count old level msg now

-- A component's failure count is the number of its answers since the last healthy one.
pub fail_count-updates :
    (s : SystemHealthTracker) (name : String) (us : List (HealthLevel × String × ℕ))
    → fail_count_of (updates s name us) name ≡ failing_since (fail_count_of s name) us
unfolding updates failing_since
fail_count-updates s name [] = refl
fail_count-updates s name ((healthy, msg, now) ∷ us) =
    fail_count-updates (update s name healthy msg now) name us
    ∙ ap (λ n. failing_since n us) (fail_count-update s name healthy msg now)
fail_count-updates s name ((degraded, msg, now) ∷ us) =
    fail_count-updates (update s name degraded msg now) name us
    ∙ ap (λ n. failing_since n us) (fail_count-update s name degraded msg now)
fail_count-updates s name ((unhealthy, msg, now) ∷ us) =
    fail_count-updates (update s name unhealthy msg now) name us
    ∙ ap (λ n. failing_since n us) (fail_count-update s name unhealthy msg now)
fail_count-updates s name ((critical, msg, now) ∷ us) =
    fail_count-updates (update s name critical msg now) name us
    ∙ ap (λ n. failing_since n us) (fail_count-update s name critical msg now)

-- The level of a name in the answers, the last one counting; else what it was.
unfoldable pub answered : HealthLevel → String → List Answer → HealthLevel
answered level name [] = level
answered level name ((n, l, msg) ∷ answers) =
    answered (if str_eq n name then l else level) name answers

-- After a round of checks each component has the level that its checker answered, and the others
-- have kept theirs.
pub get_component_level-run_checks :
    (answers : List Answer) (now : ℕ) (s : SystemHealthTracker) (name : String)
    → get_component_level (run_checks answers now s).0 name
      ≡ answered (get_component_level s name) name answers
unfolding run_checks answered
get_component_level-run_checks [] now s name = refl
get_component_level-run_checks ((n, l, msg) ∷ answers) now s name =
    get_component_level-run_checks answers now (update s n l msg now) name
    ∙ ap (λ x. answered x name answers) (get_component_level-update s n name l msg now)
