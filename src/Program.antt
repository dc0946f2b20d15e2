-- ===== src/Program.antt =====
-- main.go, and New in orchestrator/orchestrator.go: how the parts are put together.
pub mod OffGpu
mod Examples
use Prim.Native.String.{String}
use text.Mathlib.Text.{◌==◌ as str_eq}
use text.Mathlib.TextEquality.{eq_iff}
use qmdsr.Prelude.{
  ℕ, zero, suc, ◌+◌, ◌-◌, ◌*◌, ◌/◌, ◌%◌, ◌^◌, ◌≤◌, ◌<◌, min, max, ◌≡◌, refl, sym, ap, ◌∙◌, ◌≢◌, ◌↔◌,
  ◌⊎◌, inl, inr, Bool, true, false, not, ◌&&◌, ◌||◌, Option, none, some, List, [], ◌∷◌, ◌++◌, map,
  arith, ltb, leb, ◌==◌, if◌then◌else◌, ltb→lt, lt→ltb, leb→le, Bool-cases, pick_true, pick_false,
  Option-cases, length, take, replicate, select, exists, All, count, count_hit, count_miss,
  length-append, length-take, length-select-le, All-append, All-take,
}
use qmdsr.Prelude.Int.{
  ℤ, pos, negsuc, pos_part, neg_part, sub_ℕ, ◌≤ℤ◌, ltb_ℤ, leb_ℤ, is_zero, is_nonpos, is_pos,
}
use qmdsr.Cache
use qmdsr.Config.{Config, RuntimeConfig}
use qmdsr.CpuGuard.{CpuMonitorConfig, CpuMonitor, new_cpu_monitor}
use qmdsr.Guardian
use qmdsr.Guardian.{Guardian}
use qmdsr.Orchestrator.Negative
use qmdsr.Orchestrator.Tiers.{SearchOpts, World, Orchestrator}
use qmdsr.Executor.{Cli, Processes, HelpTexts, has_capability, new_cli}
use qmdsr.Executor.Parse.{Formats}
use qmdsr.Executor.Commands
use qmdsr.Executor.Commands.{Printers}
use qmdsr.Api.Request.{Surroundings}

-- The levels of the log.
pub data LogLevel : Type 0 where
  level_debug level_info level_warn level_error : LogLevel

-- The level that `setupLogger` sets.
unfoldable pub log_level : String → LogLevel
log_level level =
    if str_eq level "debug"
    then level_debug
    else if str_eq level "warn"
    then level_warn
    else if str_eq level "error"
    then level_error
    else level_info

-- The settings of the overload guard.
unfoldable pub monitor_config : RuntimeConfig → CpuMonitorConfig
monitor_config r = record {
  enabled = r.cpu_overload_protect;
  sample_interval = r.cpu_sample_interval;
  overload_percent = r.cpu_overload_threshold;
  overload_sustain = r.cpu_overload_sustain;
  recover_percent = r.cpu_recover_threshold;
  recover_sustain = r.cpu_recover_sustain;
  critical_percent = r.cpu_critical_threshold;
  critical_sustain = r.cpu_critical_sustain;
}

-- The parts, as they are before a request comes.
pub record Program : Type 0 where
  pub config : Config
  pub cli : Cli
  pub orchestrator : Orchestrator
  pub monitor : CpuMonitor
  pub guardian : Guardian
  pub log : LogLevel

unfoldable pub assemble : Config → Cli → Program
assemble cfg cli = record {
  config = cfg;
  cli = cli;
  orchestrator = record { cache = Cache.new cfg.cache; deep_neg = Negative.empty };
  monitor = new_cpu_monitor (monitor_config cfg.runtime);
  guardian = Guardian.new;
  log = log_level cfg.logging.level;
}

-- What becomes of `main` before it waits for a signal: the version is printed, it exits with an error,
-- or the service is ready.
pub data Startup : Type 0 where
  version_printed : Startup
  exited : String → Startup
  ready : Program → Startup

-- `main`, with the answers of `config.Load`, of the probes and of the listening socket.
unfoldable pub start_program :
    Bool → Config ⊎ String → HelpTexts → Processes → Option String → Startup
start_program show_version loaded t p listen_err =
    if show_version then version_printed else elim loaded [
      | inr err ↦ exited err
      | inl cfg ↦ elim (new_cli t cfg.runtime p) [
        | inr err ↦ exited err
        | inl cli ↦ elim listen_err [ some err ↦ exited err | none ↦ ready (assemble cfg cli) ]
      ]
    ]

-- The backend of a search is the executor: what its processes do is `p`, and `slot_err` is the error
-- of the queue for a deep query.
unfoldable pub backed_world :
    Formats → Printers → Cli → Processes → (String → SearchOpts → Option String) → World → World
backed_world f pr e p slot_err w = record w {
  has_capability = has_capability e;
  search = Commands.search f pr e p;
  vsearch = Commands.vsearch f pr e p;
  deep_query = λ query opts. Commands.query f pr e p (slot_err query opts) query opts;
}

unfoldable pub backed :
    Formats
    → Printers
    → Cli
    → Processes
    → (String → SearchOpts → Option String)
    → Surroundings
    → Surroundings
backed f pr e p slot_err s = record s {
  at_search = λ c. backed_world f pr e p slot_err (s.at_search c);
}
