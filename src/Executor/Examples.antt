-- ===== src/Executor/Examples.antt =====
-- Runs of an executor on a `qmd` that knows every command.
use text.Mathlib.Text.{◌==◌ as str_eq}
use qmdsr.Prelude.{
  ltb, ◌+◌, ◌≤◌, ◌≡◌, refl, inl, inr, true, false, ◌&&◌, none, some, List, [], ◌∷◌, ◌==◌,
  if◌then◌else◌, length,
}
use qmdsr.Prelude.Int.{pos, negsuc}
use qmdsr.Types.{CollectionInfo, IndexStatus}
use qmdsr.Orchestrator.Negative.{join}
use qmdsr.Orchestrator.Tiers.{SearchOpts}
use qmdsr.Executor.{
  Cli, ended, Processes, HelpTexts, run_error, output_of, should_disable_vulkan, run,
  context_remove_subcommand, probe, probe_caps,
}
use qmdsr.Executor.Parse.{Formats}
use qmdsr.Executor.Parse.Names.{
  has_name, add_name, on_last, number_after, set_files, set_mask, read_list_line, read_list,
  parse_collection_list_text, parse_status_text,
}
use qmdsr.Executor.Parse.Distinct.{IsNamed, parse_text-IsNamed}
use qmdsr.Executor.Commands.{Printers, append_search_args}
use qmdsr.Executor.Commands.Arguments.{Reader, read_args, blank, read_args-append_search_args}
use qmdsr.Executor.Slots.{query_tokens, enter, leave, slot_step, run_slots, no_slots, slots_lem}

program : Unit {0}
unfolding join run_error output_of should_disable_vulkan run context_remove_subcommand probe
    probe_caps has_name add_name on_last number_after set_files set_mask read_list_line read_list
    parse_collection_list_text
program = tt

abbrev pub formats : Formats
formats = record {
  trim = λ s. s;
  lines = λ s. "notes (qmd://" ∷ "Files:" ∷ "notes (qmd://" ∷ [];
  fields = λ s. s ∷ [];
  has_prefix = λ s t. str_eq s t;
  has_suffix = λ s t. true;
  contains = λ s t. str_eq s "notes (qmd://" && str_eq t " (qmd://";
  trim_prefix = λ s t. "12";
  split_at = λ s t. some ("notes", t);
  base = λ s. s;
  atoi = λ s. some (pos 12);
  parse_float = λ s. inl (pos 0);
  read_csv = λ s. inr "no row";
  json_results = λ s. none;
  json_collections = λ s. none;
  json_wrapped_collections = λ s. none;
  json_status = λ s. none;
  json_wrapped_status = λ s. none;
  json_is_object = λ s. false;
  json_vectors = λ s. none;
  json_documents_vectors = λ s. none;
}

abbrev pub printers : Printers
printers = record {
  show = λ n. elim n [ pos m ↦ (if m == 5 then "5" else "other") | negsuc m ↦ "negative" ];
  show_score = λ s. "0.30";
  shorten = λ s. s;
  json_documents = λ s. inl [];
  json_contexts = λ s. inl [];
}

abbrev notes : CollectionInfo
notes = record { name = "notes"; path = ""; mask = ""; files = pos 12 }

-- A collection that is named twice is listed once.
listed : parse_collection_list_text formats "" ≡ inl (notes ∷ [])
unfolding program
listed = refl

parse_text-IsNamed_example :
    ((cols : List CollectionInfo)
      → parse_collection_list_text formats "" ≡ inl cols
      → IsNamed cols × (1 ≤ length cols))
    × ((st : IndexStatus) → parse_status_text formats "" ≡ inl st → IsNamed st.collections)
parse_text-IsNamed_example = parse_text-IsNamed formats ""

abbrev pub helps : HelpTexts
helps = record { lower = λ s. s; contains = λ s t. false }

abbrev cli : Cli
cli = record {
  caps = record { vector = false; deep_query = false; mcp = false; status = false };
  low_resource = true;
  cpu_deep = true;
  cpu_vsearch = false;
  query_timeout = pos 45_000_000_000;
  context_remove_cmd = "";
}

abbrev pub fine : Processes
fine i c = ended "ok"

abbrev probed : Cli
probed = record cli {
  caps = record { vector = false; deep_query = true; mcp = true; status = true };
}

probe-fine : probe helps cli fine ≡ inl probed
unfolding program
probe-fine = refl

abbrev options : SearchOpts
options = record {
  collection = "notes";
  n = pos 5;
  min_score = pos 300_000;
  full = true;
  files_only = true;
  all = false;
}

abbrev reader : Reader
reader = record {
  number = λ s. if str_eq s "5" then pos 5 else pos 0;
  score = λ s. if str_eq s "0.30" then pos 300_000 else pos 0;
}

read_args-append_search_args_example :
    read_args reader (append_search_args formats printers [] options) none blank ≡ record {
      collection = "notes";
      n = pos 5;
      min_score = pos 300_000;
      full = true;
      files_only = true;
      all = false;
    }
read_args-append_search_args_example =
    read_args-append_search_args reader formats printers options refl refl

slots_lem_example :
    let s = run_slots (query_tokens (pos 1)) (enter ∷ enter ∷ leave ∷ enter ∷ []) no_slots in
    (s.running ≤ 1)
    × ((slot_step (query_tokens (pos 1)) enter s).running
        ≡ (if ltb s.running 1 then s.running + 1 else s.running))
slots_lem_example = slots_lem (pos 1) (enter ∷ enter ∷ leave ∷ enter ∷ []) refl
