-- ===== src/Heartbeat.antt =====
-- heartbeat/heartbeat.go and heartbeat/selfheal.go: the health of the components, and the checks.
-- The map of components is a list of pairs with one entry to a name.
pub mod Tracking
mod Examples
use Prim.Native.String.{String, ◌++◌ as str_append}
use text.Mathlib.Text.{◌==◌ as str_eq}
use text.Mathlib.TextEquality.{eq_iff}
use qmdsr.Prelude.{
  ℕ, zero, suc, ◌+◌, ◌-◌, ◌*◌, ◌/◌, ◌%◌, ◌^◌, ◌≤◌, ◌<◌, min, max, ◌≡◌, refl, sym, ap, ◌∙◌, ◌≢◌, ◌↔◌,
  ◌⊎◌, inl, inr, Bool, true, false, not, ◌&&◌, ◌||◌, Option, none, some, List, [], ◌∷◌, ◌++◌, map,
  arith, ltb, leb, ◌==◌, if◌then◌else◌, ltb→lt, lt→ltb, leb→le, Bool-cases, Option-cases, length,
  take, replicate, select, exists, All, length-append, length-take, length-select-le, All-append,
  All-take,
}
use qmdsr.Prelude.Int.{
  ℤ, pos, negsuc, pos_part, neg_part, sub_ℕ, ◌≤ℤ◌, ltb_ℤ, leb_ℤ, is_zero, is_nonpos, is_pos,
}
use qmdsr.Types.{HealthLevel, healthy, degraded, unhealthy, critical, rank, level_gt, level_string}

pub record ComponentHealth : Type 0 where
  pub name : String
  pub level : HealthLevel
  pub level_str : String
  pub last_check : ℕ
  pub last_healthy : ℕ
  pub message : String
  pub fail_count : ℕ

pub record SystemHealthTracker : Type 0 where
  pub components : List (String × ComponentHealth)
  pub started_at : ℕ

pub record SystemHealth : Type 0 where
  pub overall : HealthLevel
  pub overall_str : String
  pub components : List (String × ComponentHealth)
  pub started_at : ℕ
  pub uptime_sec : ℕ
  pub mode : String

abbrev pub Components : Type 0
Components = List (String × ComponentHealth)

unfoldable pub find : String → Components → Option ComponentHealth
find name [] = none
find name ((n, c) ∷ cs) = if str_eq n name then some c else find name cs

unfoldable pub store : String → ComponentHealth → Components → Components
store name c [] = (name, c) ∷ []
store name c ((n, d) ∷ cs) = if str_eq n name then (n, c) ∷ cs else (n, d) ∷ store name c cs

-- `&model.ComponentHealth{Name: name}`.
unfoldable pub fresh : String → ComponentHealth
fresh name = record {
  name = name;
  level = healthy;
  level_str = "";
  last_check = 0;
  last_healthy = 0;
  message = "";
  fail_count = 0;
}

unfoldable pub or_fresh : String → Option ComponentHealth → ComponentHealth
or_fresh name none = fresh name
or_fresh name (some c) = c

-- The assignments of `Update` to a component.
unfoldable pub assess : ComponentHealth → HealthLevel → String → ℕ → ComponentHealth
assess c healthy msg now = record c {
  level = healthy;
  level_str = level_string healthy;
  last_check = now;
  message = msg;
  last_healthy = now;
  fail_count = 0;
}
assess c level msg now = record c {
  level = level;
  level_str = level_string level;
  last_check = now;
  message = msg;
  fail_count = c.fail_count + 1;
}

unfoldable pub update :
    SystemHealthTracker → String → HealthLevel → String → ℕ → SystemHealthTracker
update s name level msg now = record s {
  components =
      store name (assess (or_fresh name (find name s.components)) level msg now) s.components;
}

unfoldable pub get_component_level : SystemHealthTracker → String → HealthLevel
get_component_level s name = elim (find name s.components) [ some c ↦ c.level | none ↦ healthy ]

-- The loop of `GetHealth`.
unfoldable pub overall_from : HealthLevel → Components → HealthLevel
overall_from acc [] = acc
overall_from acc ((n, c) ∷ cs) = overall_from (if level_gt c.level acc then c.level else acc) cs

unfoldable pub mode_of : HealthLevel → String
mode_of healthy = "normal"
mode_of degraded = "cli_fallback"
mode_of unhealthy = "degraded"
mode_of critical = "critical"

unfoldable pub get_health : SystemHealthTracker → ℕ → SystemHealth
get_health s now =
    let overall = overall_from healthy s.components in
    record {
      overall = overall;
      overall_str = level_string overall;
      components = s.components;
      started_at = s.started_at;
      uptime_sec = (now - s.started_at) / 1_000_000_000;
      mode = mode_of overall;
    }

-- A name, and what its checker answers.
abbrev pub Answer : Type 0
Answer = String × HealthLevel × String

-- The transitions that `logTransition` reports: a name, and the levels before and after.
abbrev pub Transition : Type 0
Transition = String × HealthLevel × HealthLevel

abbrev pub same_level : HealthLevel → HealthLevel → Bool
same_level a b = rank a == rank b

-- `runChecks`, over the answers in the order in which the map yields the checkers.
unfoldable pub run_checks :
    List Answer → ℕ → SystemHealthTracker → SystemHealthTracker × List Transition
run_checks [] now s = (s, [])
run_checks ((name, level, msg) ∷ answers) now s =
    let prev = get_component_level s name in
    let (s', log) = run_checks answers now (update s name level msg now) in
    (s', if same_level prev level then log else (name, prev, level) ∷ log)

-- `CheckQMDCLI`: `version_ok` tells whether `Version` succeeds, `bin_exists` what `os.Stat` finds.
unfoldable pub check_qmd_cli : Bool → Bool → String → String → HealthLevel × String
check_qmd_cli version_ok bin_exists bin err =
    if version_ok
    then (healthy, "")
    else if bin_exists
    then (unhealthy, str_append "qmd cli not responding: " err)
    else (critical, str_append "qmd binary not found: " bin)

-- `CheckIndexDB`: the size that `os.Stat` finds, if the file is there.
unfoldable pub check_index_db : String → Option ℕ → HealthLevel × String
check_index_db index_db size = if str_eq index_db "" then (healthy, "") else elim size [
  | none ↦ (critical, str_append "index database not found: " index_db)
  | some zero ↦ (critical, str_append "index database is empty: " index_db)
  | some (suc n) ↦ (healthy, "")
]

-- `CheckEmbeddings`: the number of vectors that `Status` reports, or its error.
unfoldable pub check_embeddings : Bool → Bool → ℤ ⊎ String → HealthLevel × String
check_embeddings low_resource has_status status =
    if low_resource
    then (healthy, "embeddings check disabled in low_resource_mode")
    else if has_status
    then elim status [
      | inr err ↦ (degraded, str_append "cannot check embeddings: " err)
      | inl vectors ↦
          if is_zero vectors
          then (degraded, "no embeddings found, vsearch/query may not work")
          else (healthy, "")
    ]
    else (healthy, "status capability not available, skipping embed check")
