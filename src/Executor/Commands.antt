-- ===== src/Executor/Commands.antt =====
-- executor/cli.go: the operations, each as the processes that it runs and what it makes of them.
pub mod Arguments
use Prim.Native.String.{String}
use text.Mathlib.Text.{◌==◌ as str_eq}
use text.Mathlib.TextEquality.{eq_iff}
use qmdsr.Prelude.{
  ℕ, zero, suc, ◌+◌, ◌-◌, ◌*◌, ◌/◌, ◌%◌, ◌^◌, ◌≤◌, ◌<◌, min, max, ◌≡◌, refl, sym, ap, ◌∙◌, ◌≢◌, ◌↔◌,
  ◌⊎◌, inl, inr, Bool, true, false, not, ◌&&◌, ◌||◌, Option, none, some, List, [], ◌∷◌, ◌++◌, map,
  arith, ltb, leb, ◌==◌, if◌then◌else◌, ltb→lt, lt→ltb, leb→le, Bool-cases, pick_true, pick_false,
  Option-cases, length, take, replicate, select, exists, All, count, count_hit, count_miss,
  length-append, length-take, length-select-le, All-append, All-take,
}
use qmdsr.Prelude.Int.{
  ℤ, pos, negsuc, pos_part, neg_part, sub_ℕ, ◌≤ℤ◌, ltb_ℤ, leb_ℤ, is_zero, is_nonpos, is_pos,
}
use Prim.Native.String.{◌++◌ as str_append}
use qmdsr.Types.{SearchResult, Document, CollectionInfo, PathContext, IndexStatus}
use qmdsr.Orchestrator.Tiers.{SearchOpts}
use qmdsr.Executor.{Cli, Processes, Output, run, succeeds, error_text}
use qmdsr.Executor.Parse.{
  Formats, parse_search_output, parse_collection_list_json, parse_status_json,
}
use qmdsr.Executor.Parse.Names.{parse_collection_list_text, parse_status_text}

-- `strconv.Itoa`, the format of a score with two decimals, the first 200 runes of an output, and
-- `json.Unmarshal` into lists of documents and of contexts.
pub record Printers : Type 0 where
  pub show : ℤ → String
  pub show_score : ℤ → String
  pub shorten : String → String
  pub json_documents : String → List Document ⊎ String
  pub json_contexts : String → List PathContext ⊎ String

abbrev pub seconds : ℕ → ℤ
seconds n = pos (n * 1_000_000_000)

abbrev pub default_timeout : ℤ
default_timeout = seconds 30

-- The error of a command of which only that is of interest.
abbrev pub Failure : Type 0
Failure = Option String

module _ (f : Formats) (pr : Printers) where
  unfoldable pub append_search_args : List String → SearchOpts → List String
  append_search_args args opts =
      let collection =
        if not (str_eq opts.collection "") then "--collection" ∷ opts.collection ∷ [] else [] in
      let files =
        if opts.files_only then "--files" ∷ (if opts.all then "--all" ∷ [] else []) else [] in
      let n = if is_pos opts.n && not opts.all then "-n" ∷ pr.show opts.n ∷ [] else [] in
      let min_score =
        if is_pos opts.min_score then "--min-score" ∷ pr.show_score opts.min_score ∷ [] else [] in
      let full = if opts.full then "--full" ∷ [] else [] in
      args ++ (collection ++ (files ++ (n ++ (min_score ++ full))))

  -- The end of `execSearch`.
  unfoldable pub read_results : Output → List SearchResult ⊎ String
  read_results o = elim o.err [
    | some err ↦ inr err
    | none ↦ elim (parse_search_output f o.out) [
      | inl results ↦ inl results
      | inr err ↦ inr (
          str_append "parse search results: "
            (str_append err (str_append " (output: " (str_append (pr.shorten o.out) ")"))))
    ]
  ]

  unfoldable pub exec_search : Cli → Processes → List String → ℤ → List SearchResult ⊎ String
  exec_search e p args timeout = read_results (run e p 0 timeout args)

  unfoldable pub search_args : String → String → SearchOpts → List String
  search_args command query opts = append_search_args (command ∷ query ∷ "--json" ∷ []) opts

  unfoldable pub search : Cli → Processes → String → SearchOpts → List SearchResult ⊎ String
  search e p query opts = exec_search e p (search_args "search" query opts) default_timeout

  unfoldable pub vsearch : Cli → Processes → String → SearchOpts → List SearchResult ⊎ String
  vsearch e p query opts =
      if not e.caps.vector
      then inr "vsearch not available"
      else exec_search e p (search_args "vsearch" query opts) default_timeout

  unfoldable pub query_limit : Cli → ℤ
  query_limit e = if is_nonpos e.query_timeout then seconds 120 else e.query_timeout

  unfoldable pub after_queue :
      Option String → List SearchResult ⊎ String → List SearchResult ⊎ String
  after_queue (some err) answer = inr err
  after_queue none answer = answer

  -- `Query`, with the error of the queue for a slot, if it has one.
  unfoldable pub query :
      Cli → Processes → Option String → String → SearchOpts → List SearchResult ⊎ String
  query e p slot_err text opts =
      let answer = exec_search e p (search_args "query" text opts) (query_limit e) in
      if not e.caps.deep_query then inr "query not available" else after_queue slot_err answer

  unfoldable pub get : Cli → Processes → String → Bool → Bool → String ⊎ String
  get e p doc_ref full line_numbers =
      let o = run e p 0 default_timeout (
        ("get" ∷ doc_ref ∷ [])
        ++ ((if full then "--full" ∷ [] else [])
            ++ (if line_numbers then "--line-numbers" ∷ [] else []))) in
      elim o.err [ some err ↦ inr err | none ↦ inl o.out ]

  unfoldable pub multi_get : Cli → Processes → String → ℤ → List Document ⊎ String
  multi_get e p pattern max_bytes =
      let o = run e p 0 default_timeout (
        ("multi-get" ∷ pattern ∷ "--json" ∷ [])
        ++ (if is_pos max_bytes then "--max-bytes" ∷ pr.show max_bytes ∷ [] else [])) in
      elim o.err [
        | some err ↦ inr err
        | none ↦ elim (pr.json_documents o.out) [
          | inl docs ↦ inl docs
          | inr err ↦ inr (str_append "parse multi-get output: " err)
        ]
      ]

  unfoldable pub collection_add : Cli → Processes → String → String → String → Failure
  collection_add e p path name mask =
      (run e p 0 default_timeout (
        ("collection" ∷ "add" ∷ path ∷ "--name" ∷ name ∷ [])
        ++ (if not (str_eq mask "") then "--mask" ∷ mask ∷ [] else []))).err

  unfoldable pub collection_list : Cli → Processes → List CollectionInfo ⊎ String
  collection_list e p =
      let o = run e p 0 default_timeout ("collection" ∷ "list" ∷ "--json" ∷ []) in
      elim o.err [
        | some err ↦ inr err
        | none ↦ elim (parse_collection_list_json f o.out) [
          | inl cols ↦ inl cols
          | inr json_err ↦ elim (parse_collection_list_text f o.out) [
            | inl cols ↦ inl cols
            | inr text_err ↦ inr (
                str_append "parse collection list: json parse failed: "
                  (str_append json_err (str_append "; text parse failed: " text_err)))
          ]
        ]
      ]

  unfoldable pub update : Cli → Processes → Failure
  update e p = (run e p 0 (seconds 300) ("update" ∷ [])).err

  unfoldable pub embed : Cli → Processes → Bool → Failure
  embed e p force =
      (run e p 0 (seconds 1800) (("embed" ∷ []) ++ (if force then "-f" ∷ [] else []))).err

  unfoldable pub context_add : Cli → Processes → String → String → Failure
  context_add e p path description =
      (run e p 0 default_timeout ("context" ∷ "add" ∷ path ∷ description ∷ [])).err

  unfoldable pub context_list : Cli → Processes → List PathContext ⊎ String
  context_list e p =
      let o = run e p 0 default_timeout ("context" ∷ "list" ∷ "--json" ∷ []) in
      elim o.err [
        | some err ↦ inr err
        | none ↦ elim (pr.json_contexts o.out) [
          | inl contexts ↦ inl contexts
          | inr err ↦ inr (str_append "parse context list: " err)
        ]
      ]

  -- `Status`: the status beside the error, if there is one.
  unfoldable pub status : Cli → Processes → Option IndexStatus × Failure
  status e p =
      let o = run e p 0 default_timeout ("status" ∷ "--json" ∷ []) in
      let raw : IndexStatus = record { collections = []; vectors = pos 0; raw = o.out } in
      if not e.caps.status then (none, some "status not available") else elim o.err [
        | some err ↦ (some raw, some err)
        | none ↦ elim (parse_status_json f o.out) [
          | inl st ↦ (some (record st { raw = o.out }), none)
          | inr json_err ↦ elim (parse_status_text f o.out) [
            | inl st ↦ (some (record st { raw = o.out }), none)
            | inr text_err ↦ (
              some raw,
              some (
                  str_append "parse status: json parse failed: "
                    (str_append json_err (str_append "; text parse failed: " text_err))),
            )
          ]
        ]
      ]

-- `ContextRemove`: the executor, which remembers the subcommand that worked, and the error.
unfoldable pub context_remove : Cli → Processes → String → Cli × Failure
context_remove e p path =
    let remove =
      λ (i : ℕ) (command : String). run e p i default_timeout ("context" ∷ command ∷ path ∷ []) in
    let known = remove 0 e.context_remove_cmd in
    let rm = remove 1 "rm" in
    let last = remove 2 "remove" in
    if not (str_eq e.context_remove_cmd "") && succeeds known
    then (e, none)
    else if succeeds rm
    then (record e { context_remove_cmd = "rm" }, none)
    else if succeeds last
    then (record e { context_remove_cmd = "remove" }, last.err)
    else (e, last.err)

unfoldable pub mcp_command : Cli → Processes → ℤ → List String → Failure
mcp_command e p timeout args =
    if not e.caps.mcp then some "mcp not available" else (run e p 0 timeout args).err

unfoldable pub mcp_start : Cli → Processes → Failure
mcp_start e p = mcp_command e p default_timeout ("mcp" ∷ "--http" ∷ "--daemon" ∷ [])

unfoldable pub mcp_stop : Cli → Processes → Failure
mcp_stop e p = mcp_command e p default_timeout ("mcp" ∷ "stop" ∷ [])

unfoldable pub mcp_health : Cli → Processes → Failure
mcp_health e p = mcp_command e p (seconds 5) ("mcp" ∷ "health" ∷ [])

unfoldable pub version : (String → String) → Cli → Processes → String ⊎ String
version trim e p =
    let o = run e p 0 (seconds 5) ("--version" ∷ []) in
    let help = run e p 1 (seconds 5) ("--help" ∷ []) in
    if succeeds o
    then inl (trim o.out)
    else if succeeds help
    then inl "unknown"
    else inr (
        str_append "qmd version check failed: "
          (str_append (error_text o) (str_append "; help check failed: " (error_text help))))
