-- ===== src/CpuGuard.antt =====
-- internal/resourceguard/cpu_monitor.go: the overload guard. A tick of the sampling loop is a function
-- of the loop state, the monitor and the reading of /proc/stat; `time.Now()` is its argument `now`.
-- `usage` is the pair of the busy and of all jiffies between two readings, and a comparison of the
-- percentage with a threshold is the comparison of the products.
mod Samples
mod Settings
mod Windows
mod Examples
use Prim.Native.String.{String}
use text.Mathlib.Text.{◌==◌ as str_eq}
use text.Mathlib.TextEquality.{eq_iff}
use qmdsr.Prelude.{
  ℕ, zero, suc, ◌+◌, ◌-◌, ◌*◌, ◌/◌, ◌%◌, ◌^◌, ◌≤◌, ◌<◌, min, max, ◌≡◌, refl, sym, ap, ◌∙◌, ◌≢◌, ◌↔◌,
  ◌⊎◌, inl, inr, Bool, true, false, not, ◌&&◌, ◌||◌, Option, none, some, List, [], ◌∷◌, ◌++◌, map,
  arith, ltb, leb, ◌==◌, if◌then◌else◌, ltb→lt, lt→ltb, leb→le, Bool-cases, Option-cases, length,
  take, replicate, select, exists, All, length-append, length-take, length-select-le, All-append,
  All-take,
}
use qmdsr.Prelude.Int.{
  ℤ, pos, negsuc, pos_part, neg_part, sub_ℕ, ◌≤ℤ◌, ltb_ℤ, leb_ℤ, is_zero, is_nonpos, is_pos,
}

pub record CpuMonitorConfig : Type 0 where
  pub enabled : Bool
  pub sample_interval : ℤ
  pub overload_percent : ℤ
  pub overload_sustain : ℤ
  pub recover_percent : ℤ
  pub recover_sustain : ℤ
  pub critical_percent : ℤ
  pub critical_sustain : ℤ

-- Jiffies not idle, and all jiffies, between two samples.
pub record Usage : Type 0 where
  pub busy : ℕ
  pub total : ℕ

pub record CpuMonitor : Type 0 where
  pub cfg : CpuMonitorConfig
  pub overloaded : Bool
  pub critical : Bool
  pub usage_pct : Usage
  pub updated_at : ℕ

-- A second, in nanoseconds.
abbrev pub second : ℕ
second = 1_000_000_000

-- `if x <= 0 { x = d }`.
abbrev pub default_pos : ℤ → ℕ → ℤ
default_pos x d = if is_nonpos x then pos d else x

abbrev with_defaults : CpuMonitorConfig → CpuMonitorConfig
with_defaults cfg = record cfg {
  sample_interval = default_pos cfg.sample_interval second;
  overload_percent = default_pos cfg.overload_percent 90;
  overload_sustain = default_pos cfg.overload_sustain (10 * second);
  recover_percent = default_pos cfg.recover_percent 75;
  recover_sustain = default_pos cfg.recover_sustain (12 * second);
  critical_percent = default_pos cfg.critical_percent 95;
  critical_sustain = default_pos cfg.critical_sustain (5 * second);
}

abbrev cap_critical : CpuMonitorConfig → CpuMonitorConfig
cap_critical cfg =
    if ltb_ℤ cfg.critical_percent cfg.overload_percent
    then record cfg { critical_percent = cfg.overload_percent }
    else cfg

unfoldable pub new_cpu_monitor : CpuMonitorConfig → CpuMonitor
new_cpu_monitor cfg = record {
  cfg = cap_critical (with_defaults cfg);
  overloaded = false;
  critical = false;
  usage_pct = record { busy = 0; total = 0 };
  updated_at = 0;
}

-- Go's `duration / interval` truncates toward zero; it is reached with both positive.
unfoldable pub required_samples : ℤ → ℤ → ℕ
required_samples (pos (suc d)) (pos (suc i)) =
    let n = suc d / suc i in
    let n' = if (suc d % suc i) == 0 then n else n + 1 in if ltb n' 1 then 1 else n'
required_samples _ _ = 1

-- The counters of `loop`, and the readings that it compares with.
pub record LoopState : Type 0 where
  pub prev_idle : ℕ
  pub prev_total : ℕ
  pub above_count : ℕ
  pub below_count : ℕ
  pub critical_above_count : ℕ
  pub critical_below_count : ℕ

-- The state at the first reading, which starts the loop.
unfoldable pub loop_start : ℕ → ℕ → LoopState
loop_start idle total = record {
  prev_idle = idle;
  prev_total = total;
  above_count = 0;
  below_count = 0;
  critical_above_count = 0;
  critical_below_count = 0;
}

-- `usage >= float64(p)` and `usage <= float64(p)`.
unfoldable pub at_least : Usage → ℤ → Bool
at_least u (pos p) = leb (p * u.total) (100 * u.busy)
at_least u (negsuc p) = true

unfoldable pub at_most : Usage → ℤ → Bool
at_most u (pos p) = leb (100 * u.busy) (p * u.total)
at_most u (negsuc p) = false

unfoldable pub set_usage : CpuMonitor → Usage → ℕ → CpuMonitor
set_usage m usage now = record m { usage_pct = usage; updated_at = now }

unfoldable pub set_overloaded : CpuMonitor → Bool → Usage → ℕ → CpuMonitor
set_overloaded m on usage now = record m { overloaded = on; usage_pct = usage; updated_at = now }

unfoldable pub set_critical : CpuMonitor → Bool → Usage → ℕ → CpuMonitor
set_critical m on usage now = record m { critical = on; usage_pct = usage; updated_at = now }

abbrev need_above : CpuMonitorConfig → ℕ
need_above cfg = required_samples cfg.overload_sustain cfg.sample_interval

abbrev need_below : CpuMonitorConfig → ℕ
need_below cfg = required_samples cfg.recover_sustain cfg.sample_interval

abbrev need_critical : CpuMonitorConfig → ℕ
need_critical cfg = required_samples cfg.critical_sustain cfg.sample_interval

-- The first `switch` of a tick.
unfoldable pub overload_switch : LoopState → CpuMonitor → Usage → ℕ → LoopState × CpuMonitor
unfolding set_overloaded
overload_switch l m usage now =
    if at_least usage m.cfg.overload_percent
    then (
      record l { above_count = l.above_count + 1; below_count = 0 },
      if leb (need_above m.cfg) (l.above_count + 1) then set_overloaded m true usage now else m,
    )
    else if at_most usage m.cfg.recover_percent
    then (
      record l { above_count = 0; below_count = l.below_count + 1 },
      if leb (need_below m.cfg) (l.below_count + 1) then set_overloaded m false usage now else m,
    )
    else (record l { above_count = 0; below_count = 0 }, m)

-- The second `switch`: recovery is measured against the overload threshold and sustain window.
unfoldable pub critical_switch : LoopState → CpuMonitor → Usage → ℕ → LoopState × CpuMonitor
unfolding set_critical
critical_switch l m usage now =
    if at_least usage m.cfg.critical_percent
    then (
      record l { critical_above_count = l.critical_above_count + 1; critical_below_count = 0 },
      if leb (need_critical m.cfg) (l.critical_above_count + 1)
          then set_critical m true usage now
          else m,
    )
    else if at_most usage m.cfg.overload_percent
    then (
      record l { critical_above_count = 0; critical_below_count = l.critical_below_count + 1 },
      if leb (need_below m.cfg) (l.critical_below_count + 1)
          then set_critical m false usage now
          else m,
    )
    else (record l { critical_above_count = 0; critical_below_count = 0 }, m)

-- What a tick does with a usage once it is measured.
unfoldable pub observe : LoopState → CpuMonitor → Usage → ℕ → LoopState × CpuMonitor
observe l m usage now =
    let (l', m') = overload_switch l (set_usage m usage now) usage now in
    critical_switch l' m' usage now

-- `uint64` subtraction wraps.
abbrev pub sub_u64 : ℕ → ℕ → ℕ
sub_u64 a b = (a + 2 ^ 64 - b) % 2 ^ 64

-- The `ticker.C` case: a failed reading changes nothing, an unchanged total only the readings.
unfoldable pub tick : LoopState → CpuMonitor → Option (ℕ × ℕ) → ℕ → LoopState × CpuMonitor
tick l m none now = (l, m)
tick l m (some (idle, total)) now =
    let d_idle = sub_u64 idle l.prev_idle in
    let d_total = sub_u64 total l.prev_total in
    let l' = record l { prev_idle = idle; prev_total = total } in
    if d_total == 0
    then (l', m)
    else observe l' m (record { busy = sub_u64 d_total d_idle; total = d_total }) now

-- `Snapshot` and the two queries.
abbrev pub is_overloaded : CpuMonitor → Bool
is_overloaded m = m.overloaded

abbrev pub is_critical_overloaded : CpuMonitor → Bool
is_critical_overloaded m = m.critical
