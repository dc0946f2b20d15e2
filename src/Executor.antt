-- ===== src/Executor.antt =====
-- executor/cli.go: the command line of `qmd`, and the probe that finds out what it can do.
pub mod Parse
pub mod Commands
pub mod LowResource
pub mod Slots
pub mod Examples
use Prim.Native.String.{String}
use text.Mathlib.Text.{◌==◌ as str_eq}
use text.Mathlib.TextEquality.{eq_iff}
use qmdsr.Prelude.{
  ℕ, zero, suc, ◌+◌, ◌-◌, ◌*◌, ◌/◌, ◌%◌, ◌^◌, ◌≤◌, ◌<◌, min, max, ◌≡◌, refl, sym, ap, ◌∙◌, ◌≢◌, ◌↔◌,
  ◌⊎◌, inl, inr, Bool, true, false, not, ◌&&◌, ◌||◌, Option, none, some, List, [], ◌∷◌, ◌++◌, map,
  arith, ltb, leb, ◌==◌, if◌then◌else◌, ltb→lt, lt→ltb, leb→le, Bool-cases, pick_true, pick_false,
  Option-cases, length, take, replicate, select, exists, All, count, count_hit, count_miss,
  length-append, length-take, length-select-le, All-append, All-take,
}
use qmdsr.Prelude.Int.{
  ℤ, pos, negsuc, pos_part, neg_part, sub_ℕ, ◌≤ℤ◌, ltb_ℤ, leb_ℤ, is_zero, is_nonpos, is_pos,
}
use Prim.Native.String.{◌++◌ as str_append}
use qmdsr.Config.{RuntimeConfig}
use qmdsr.Orchestrator.Negative.{join}

pub record Capabilities : Type 0 where
  pub vector : Bool
  pub deep_query : Bool
  pub mcp : Bool
  pub status : Bool

-- `CLIExecutor`, but for the channel of query tokens.
pub record Cli : Type 0 where
  pub caps : Capabilities
  pub low_resource : Bool
  pub cpu_deep : Bool
  pub cpu_vsearch : Bool
  pub query_timeout : ℤ
  pub context_remove_cmd : String

-- A process that is started: its arguments, the longest time that it is given in nanoseconds, and
-- whether the variables that turn the GPU off are added to its environment.
pub record Call : Type 0 where
  pub args : List String
  pub timeout : ℤ
  pub disable_vulkan : Bool

-- What becomes of a process: it does not start; it ends well, with its output; it fails; or it is
-- killed when its time is over or its caller goes away. Errors and error outputs are texts.
pub data Exit : Type 0 where
  not_started : String → Exit
  ended : String → Exit
  ended_badly : String → String → String → Exit
  killed : String → String → String → Exit

-- The processes of one operation: what becomes of the first, the second and so on.
abbrev pub Processes : Type 0
Processes = ℕ → Call → Exit

-- What `run` returns: the output, and the text of the error, if there is one.
pub record Output : Type 0 where
  pub out : String
  pub err : Option String

unfoldable pub should_disable_vulkan : Cli → List String → Bool
should_disable_vulkan e [] = false
should_disable_vulkan e (arg ∷ args) =
    if not e.low_resource
    then false
    else if str_eq arg "query"
    then e.cpu_deep
    else if str_eq arg "vsearch"
    then e.cpu_vsearch
    else if str_eq arg "embed" || str_eq arg "mcp"
    then e.cpu_deep || e.cpu_vsearch
    else false

-- The error `fmt.Errorf("qmd %s: %w: %s", ...)`, and the one of a process that does not start.
unfoldable pub run_error : List String → String → String
run_error args err = str_append "qmd " (str_append (join " " args) (str_append ": " err))

unfoldable pub output_of : List String → Exit → Output
output_of args (not_started err) = record { out = ""; err = some (run_error args err) }
output_of args (ended stdout) = record { out = stdout; err = none }
output_of args (ended_badly stdout err stderr) = record {
  out = stdout;
  err = some (run_error args (str_append err (str_append ": " stderr)));
}
output_of args (killed stdout err stderr) = record {
  out = stdout;
  err = some (run_error args (str_append err (str_append ": " stderr)));
}

-- `run`, for process number `i` of an operation.
unfoldable pub run : Cli → Processes → ℕ → ℤ → List String → Output
run e p i timeout args =
    output_of args (
      p i
        (record { args = args; timeout = timeout; disable_vulkan = should_disable_vulkan e args }))

abbrev pub succeeds : Output → Bool
succeeds o = elim o.err [ none ↦ true | some err ↦ false ]

abbrev pub error_text : Output → String
error_text o = elim o.err [ none ↦ "" | some err ↦ err ]

unfoldable pub has_capability : Cli → String → Bool
has_capability e cap =
    if str_eq cap "vector"
    then e.caps.vector
    else if str_eq cap "deep_query"
    then e.caps.deep_query
    else if str_eq cap "mcp"
    then e.caps.mcp
    else if str_eq cap "status"
    then e.caps.status
    else false

-- `strings.ToLower` and `Contains`, the text first.
pub record HelpTexts : Type 0 where
  pub lower : String → String
  pub contains : String → String → Bool

unfoldable pub context_remove_subcommand : HelpTexts → Output → String
context_remove_subcommand t o =
    let lower = t.lower o.out in
    if not (succeeds o)
    then ""
    else if t.contains lower "context rm"
    then "rm"
    else if t.contains lower "context remove"
    then "remove"
    else if t.contains lower " rm "
    then "rm"
    else if t.contains lower " remove "
    then "remove"
    else ""

abbrev pub probe_timeout : ℤ
probe_timeout = pos 10_000_000_000

-- The capabilities that a probe finds: in low-resource mode those that need a GPU are kept only if the
-- CPU may stand in for it.
unfoldable pub probe_caps : Cli → Processes → Capabilities
probe_caps e p =
    let found =
      λ (i : ℕ) (command : String). succeeds (run e p i probe_timeout (command ∷ "--help" ∷ [])) in
    record {
      vector = (not e.low_resource || e.cpu_vsearch) && found 2 "vsearch";
      deep_query = (not e.low_resource || e.cpu_deep) && found 3 "query";
      mcp = found 4 "mcp";
      status = found 5 "status";
    }

-- `probe`: the executor with what was found, or the error that there is no `qmd`.
unfoldable pub probe : HelpTexts → Cli → Processes → Cli ⊎ String
probe t e p =
    let version = run e p 0 probe_timeout ("--version" ∷ []) in
    let help = run e p 1 probe_timeout ("--help" ∷ []) in
    if not (succeeds version) && not (succeeds help)
    then inr (
        join "" (
          "qmd not available (version check failed: "
          ∷ error_text version
          ∷ "; help check failed: "
          ∷ error_text help
          ∷ ")"
          ∷ []))
    else inl (record e {
      caps = probe_caps e p;
      context_remove_cmd =
          context_remove_subcommand t (run e p 6 probe_timeout ("context" ∷ "--help" ∷ []));
    })

-- `NewCLI`, but for the channel of query tokens.
unfoldable pub new_cli : HelpTexts → RuntimeConfig → Processes → Cli ⊎ String
new_cli t r p =
    probe t
      (record {
        caps = record { vector = false; deep_query = false; mcp = false; status = false };
        low_resource = r.low_resource_mode;
        cpu_deep = r.allow_cpu_deep_query;
        cpu_vsearch = r.allow_cpu_vsearch;
        query_timeout = r.query_timeout;
        context_remove_cmd = "";
      })
      p
