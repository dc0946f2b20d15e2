-- ===== src/Program/Examples.antt =====
-- A service that starts where every command of `qmd` works.
use Prim.Native.String.{String}
use text.Mathlib.Text.{◌==◌ as str_eq}
use qmdsr.Prelude.{
  ◌≡◌, refl, ap, ◌⊎◌, inl, inr, Bool, true, false, ◌||◌, none, List, [], ◌∷◌, if◌then◌else◌,
}
use qmdsr.Prelude.Int.{pos}
use qmdsr.Orchestrator.Search.Examples.{settings, orch}
use qmdsr.Executor.{
  Cli, Processes, ended, ended_badly, output_of, should_disable_vulkan, run,
  context_remove_subcommand, probe, probe_caps, new_cli,
}
use qmdsr.Executor.Examples.{formats, printers, helps, fine}
use qmdsr.Api.Core.{execute_search_core}
use qmdsr.Api.Examples.{surroundings, request}
use qmdsr.Program.{ready, assemble, start_program, backed}
use qmdsr.Program.OffGpu.{AgreeOnCpu, service_off_gpu}

program : Unit {0}
unfolding output_of should_disable_vulkan run context_remove_subcommand probe probe_caps new_cli
    start_program
program = tt

abbrev cli : Cli
cli = record {
  caps = record { vector = false; deep_query = true; mcp = true; status = true };
  low_resource = true;
  cpu_deep = true;
  cpu_vsearch = false;
  query_timeout = pos 45_000_000_000;
  context_remove_cmd = "";
}

up : start_program false (inl settings) helps fine none ≡ ready (assemble settings cli)
unfolding program
up = refl

abbrev is_plain : List String → Bool
is_plain [] = false
is_plain (arg ∷ args) = str_eq arg "search"

-- Where a process that may use the GPU fails.
abbrev no_gpu : Processes
no_gpu i c =
    if is_plain c.args || c.disable_vulkan
    then ended "ok"
    else ended_badly "" "exit status 1" "no device"

agree : AgreeOnCpu fine no_gpu
agree = record {
  off = λ i c off. either (is_plain c.args) c.disable_vulkan (inr off);
  plain = λ i c args e. either (is_plain c.args) c.disable_vulkan (inl (ap is_plain e));
}
  where
    either :
        (a b : Bool)
        → (a ≡ true) ⊎ (b ≡ true)
        → ended "ok" ≡ (if a || b then ended "ok" else ended_badly "" "exit status 1" "no device")
    either a b (inl h) = rw h refl
    either true b (inr h) = refl
    either false b (inr h) = rw h refl

service_off_gpu_example :
    execute_search_core
      (backed formats printers (assemble settings cli).cli fine (λ query opts. none) surroundings)
      (assemble settings cli).config
      request
      orch
    ≡ execute_search_core
        (backed formats printers
          (assemble settings cli).cli
          no_gpu
          (λ query opts. none)
          surroundings)
        (assemble settings cli).config
        request
        orch
service_off_gpu_example =
    service_off_gpu formats printers helps settings fine (assemble settings cli) refl up fine no_gpu
      agree (λ query opts. none) surroundings request orch
