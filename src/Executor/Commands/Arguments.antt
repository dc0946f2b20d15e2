-- ===== src/Executor/Commands/Arguments.antt =====
-- executor/cli.go: the arguments of a search say what its options say.
use Prim.Native.String.{String}
use text.Mathlib.Text.{◌==◌ as str_eq}
use text.Mathlib.TextEquality.{eq_iff}
use qmdsr.Prelude.{
  ◌≡◌, refl, ◌∙◌, Bool, true, false, not, ◌&&◌, ◌||◌, Option, none, some, List, [], ◌∷◌, ◌++◌,
  arith, if◌then◌else◌,
}
use qmdsr.Prelude.Int.{ℤ, pos, is_pos}
use qmdsr.Orchestrator.Tiers.{SearchOpts}
use qmdsr.Executor.Parse.{Formats}
use qmdsr.Executor.Commands.{Printers, append_search_args}

-- A reader of the arguments: how it reads numbers and scores.
pub record Reader : Type 0 where
  pub number : String → ℤ
  pub score : String → ℤ

abbrev pub blank : SearchOpts
blank = record {
  collection = "";
  n = pos 0;
  min_score = pos 0;
  full = false;
  files_only = false;
  all = false;
}

-- Whether an option takes the argument after it as its value.
abbrev pub takes_value : String → Bool
takes_value arg = str_eq arg "--collection" || str_eq arg "-n" || str_eq arg "--min-score"

abbrev pub set_flag : String → SearchOpts → SearchOpts
set_flag arg o =
    if str_eq arg "--files"
    then record o { files_only = true }
    else if str_eq arg "--all"
    then record o { all = true }
    else if str_eq arg "--full"
    then record o { full = true }
    else o

module _ (r : Reader) where
  abbrev pub set_value : String → String → SearchOpts → SearchOpts
  set_value option value o =
      if str_eq option "--collection"
      then record o { collection = value }
      else if str_eq option "-n"
      then record o { n = r.number value }
      else if str_eq option "--min-score"
      then record o { min_score = r.score value }
      else o

  -- The option that waits for its value after an argument.
  abbrev pub waiting : Option String → String → Option String
  waiting none arg = if takes_value arg then some arg else none
  waiting (some option) arg = none

  abbrev pub read_arg : Option String → String → SearchOpts → SearchOpts
  read_arg none arg o = set_flag arg o
  read_arg (some option) arg o = set_value option arg o

  -- The options that a list of arguments gives, from the left.
  abbrev pub read_args : List String → Option String → SearchOpts → SearchOpts
  read_args [] wait o = o
  read_args (arg ∷ args) wait o = read_args args (waiting wait arg) (read_arg wait arg o)

  read_value :
      (b : Bool) (option value : String) (rest : List String) (o : SearchOpts)
      → takes_value option ≡ true
      → set_flag option o ≡ o
      → read_args ((if b then option ∷ value ∷ [] else []) ++ rest) none o
        ≡ read_args rest none (if b then set_value option value o else o)
  read_value true option value rest o takes same = rw (takes, same) refl
  read_value false option value rest o takes same = refl

  read_flags :
      (b c : Bool) (rest : List String) (o : SearchOpts)
      → read_args ((if b then "--files" ∷ (if c then "--all" ∷ [] else []) else []) ++ rest) none o
        ≡ read_args rest none (record o { files_only = b || o.files_only; all = b && c || o.all })
  read_flags true true rest o = refl
  read_flags true false rest o = refl
  read_flags false c rest o = refl

  read_full :
      (b : Bool) (o : SearchOpts)
      → read_args (if b then "--full" ∷ [] else []) none o ≡ record o { full = b || o.full }
  read_full true o = refl
  read_full false o = refl

  -- With a reader that undoes the printing of the number and of the score at hand: the arguments of a
  -- search give its options back, but that "all" counts only for lists of files, and that a number
  -- of hits is left out if it is not positive or all are wanted, and a score if it is not positive.
  pub read_args-append_search_args :
      (f : Formats) (pr : Printers) (opts : SearchOpts)
      → r.number (pr.show opts.n) ≡ opts.n
      → r.score (pr.show_score opts.min_score) ≡ opts.min_score
      → read_args (append_search_args f pr [] opts) none blank ≡ record {
        collection = opts.collection;
        n = if is_pos opts.n && not opts.all then opts.n else pos 0;
        min_score = if is_pos opts.min_score then opts.min_score else pos 0;
        full = opts.full;
        files_only = opts.files_only;
        all = opts.files_only && opts.all;
      }
  unfolding append_search_args
  read_args-append_search_args f pr opts number score =
      let wants_n = is_pos opts.n && not opts.all in
      read_value (not (str_eq opts.collection "")) "--collection" opts.collection _ blank refl refl
      ∙ read_flags opts.files_only opts.all _ _
      ∙ read_value wants_n "-n" (pr.show opts.n) _ _ refl refl
      ∙ read_value (is_pos opts.min_score) "--min-score" (pr.show_score opts.min_score) _ _ refl
          refl
      ∙ read_full opts.full _
      ∙ ground (arith, eq_iff opts.collection "", number, score)
