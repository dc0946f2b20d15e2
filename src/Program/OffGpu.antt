-- ===== src/Program/OffGpu.antt =====
-- main.go: on a machine without a GPU to rely on, the whole service answers a search without one.
use Prim.Native.String.{String}
use qmdsr.Prelude.{
  ℕ, ◌≡◌, refl, sym, ap, ◌∙◌, ◌⊎◌, inl, inr, Bool, true, false, Option, none, List, ◌∷◌,
}
use mathlib.Core.Bool.{true≢false}
use mathlib.Core.Path.{fun_ext}
use qmdsr.Config.{Config}
use qmdsr.Orchestrator.Tiers.{SearchOpts, Answer, Orchestrator}
use qmdsr.Executor.{Cli, Call, Processes, HelpTexts, run, output_of, has_capability, new_cli}
use qmdsr.Executor.Parse.{Formats}
use qmdsr.Executor.Commands
use qmdsr.Executor.Commands.{
  Printers, search_args, append_search_args, exec_search, read_results, default_timeout,
}
use qmdsr.Executor.LowResource.{AgreeOffGpu, searches_off_gpu}
use qmdsr.Api.Request.{SearchCoreRequest, Surroundings}
use qmdsr.Api.Core.{execute_search_core}
use qmdsr.Program.{
  Program, Startup, version_printed, exited, ready, assemble, start_program, backed_world, backed,
}

-- Two worlds in which the same becomes of every process that has the GPU turned off, and of every
-- plain search, which does not use it.
pub record AgreeOnCpu (q r : Processes) : Type 0 where
  pub off : AgreeOffGpu q r
  pub plain : (i : ℕ) (c : Call) (args : List String) → c.args ≡ "search" ∷ args → q i c ≡ r i c

search-agrees :
    (f : Formats) (pr : Printers) (e : Cli) (q r : Processes) (text : String) (opts : SearchOpts)
    → AgreeOnCpu q r
    → Commands.search f pr e q text opts ≡ Commands.search f pr e r text opts
unfolding Commands.search search_args append_search_args exec_search run
search-agrees f pr e q r text opts agree =
    ap (λ x. read_results f pr (output_of (search_args f pr "search" text opts) x))
      (agree.plain 0 _ _ refl)

program_of : Startup → Program → Program
program_of version_printed other = other
program_of (exited err) other = other
program_of (ready pg) other = pg

is_ready : Startup → Bool
is_ready version_printed = false
is_ready (exited err) = false
is_ready (ready pg) = true

ready_of :
    (cfg : Config) (answer : Cli ⊎ String) (pg : Program)
    → Path Startup
        (elim answer [ inr err ↦ exited err | inl cli ↦ ready (assemble cfg cli) ])
        (ready pg)
    → (answer ≡ inl pg.cli) × (pg.config ≡ cfg)
unfolding assemble is_ready program_of
ready_of cfg (inr err) pg q = absurd (true≢false (sym (ap is_ready q)))
ready_of cfg (inl cli) pg q =
    let same : assemble cfg cli ≡ pg = ap (λ x. program_of x pg) q in
    (ap (λ x. inl x.cli) same, sym (ap (λ x. x.config) same))

start_program_ready :
    (cfg : Config) (t : HelpTexts) (p : Processes) (pg : Program)
    → start_program false (inl cfg) t p none ≡ ready pg
    → (new_cli t cfg.runtime p ≡ inl pg.cli) × (pg.config ≡ cfg)
unfolding start_program
start_program_ready cfg t p pg q = ready_of cfg (new_cli t cfg.runtime p) pg q

abbrev Backend : Type 0
Backend = String → SearchOpts → Answer

abbrev deep_of :
    Formats → Printers → Cli → Processes → (String → SearchOpts → Option String) → Backend
deep_of f pr e p slot_err query opts = Commands.query f pr e p (slot_err query opts) query opts

abbrev rebuilt : Cli → Surroundings → Backend → Backend → Backend → Surroundings
rebuilt e s plain vector deep = record s {
  at_search = λ c. record (s.at_search c) {
    has_capability = has_capability e;
    search = plain;
    vsearch = vector;
    deep_query = deep;
  };
}

backed-agrees :
    (f : Formats) (pr : Printers) (t : HelpTexts) (cfg : Config) (p : Processes) (e : Cli)
    → cfg.runtime.low_resource_mode ≡ true
    → new_cli t cfg.runtime p ≡ inl e
    → (q r : Processes) → AgreeOnCpu q r
    → (slot_err : String → SearchOpts → Option String) (s : Surroundings)
    → backed f pr e q slot_err s ≡ backed f pr e r slot_err s
unfolding backed backed_world new_cli
backed-agrees f pr t cfg p e low probed q r agree slot_err s =
    let plain : Commands.search f pr e q ≡ Commands.search f pr e r =
      fun_ext (λ text. fun_ext (λ opts. search-agrees f pr e q r text opts agree)) in
    let off = λ (slot : Option String) (text : String) (opts : SearchOpts).
      searches_off_gpu f pr t _ p e low probed q r agree.off slot text opts in
    let vector : Commands.vsearch f pr e q ≡ Commands.vsearch f pr e r =
      fun_ext (λ text. fun_ext (λ opts. (off none text opts).1)) in
    let deep : deep_of f pr e q slot_err ≡ deep_of f pr e r slot_err =
      fun_ext (λ text. fun_ext (λ opts. (off (slot_err text opts) text opts).0)) in
    ap (λ x. rebuilt e s x (Commands.vsearch f pr e q) (deep_of f pr e q slot_err)) plain
    ∙ ap (λ x. rebuilt e s (Commands.search f pr e r) x (deep_of f pr e q slot_err)) vector
    ∙ ap (λ x. rebuilt e s (Commands.search f pr e r) (Commands.vsearch f pr e r) x) deep

-- If the service starts in low-resource mode and is ready, its searches use no process with the GPU
-- on: every request, with the same surroundings but for the processes, gets the same answer and
-- leaves the same state in all worlds that agree on the processes with the GPU off and on the plain
-- searches.
pub service_off_gpu :
    (f : Formats) (pr : Printers) (t : HelpTexts) (cfg : Config) (p : Processes) (pg : Program)
    → cfg.runtime.low_resource_mode ≡ true
    → start_program false (inl cfg) t p none ≡ ready pg
    → (q r : Processes) → AgreeOnCpu q r
    → (slot_err : String → SearchOpts → Option String) (s : Surroundings) (req : SearchCoreRequest)
      (o : Orchestrator)
    → execute_search_core (backed f pr pg.cli q slot_err s) pg.config req o
      ≡ execute_search_core (backed f pr pg.cli r slot_err s) pg.config req o
service_off_gpu f pr t cfg p pg low is_up q r agree slot_err s req o =
    let (probed, same) = start_program_ready cfg t p pg is_up in
    ap (λ x. execute_search_core x pg.config req o)
      (backed-agrees f pr t cfg p pg.cli low probed q r agree slot_err s)
