-- ===== src/Executor/Parse.antt =====
-- executor/parse.go, and the parsers of executor/cli.go: what is read out of the output of `qmd`.
pub mod Names
pub mod Distinct
use Prim.Native.String.{String}
use text.Mathlib.Text.{◌==◌ as str_eq}
use text.Mathlib.TextEquality.{eq_iff}
use qmdsr.Prelude.{
  ℕ, zero, suc, ◌+◌, ◌-◌, ◌*◌, ◌/◌, ◌%◌, ◌^◌, ◌≤◌, ◌<◌, min, max, ◌≡◌, refl, sym, ap, ◌∙◌, ◌≢◌, ◌↔◌,
  ◌⊎◌, inl, inr, Bool, true, false, not, ◌&&◌, ◌||◌, Option, none, some, List, [], ◌∷◌, ◌++◌, map,
  arith, ltb, leb, ◌==◌, if◌then◌else◌, ltb→lt, lt→ltb, leb→le, Bool-cases, pick_true, pick_false,
  Option-cases, length, take, replicate, select, exists, All, count, count_hit, count_miss,
  length-append, length-take, length-select-le, All-append, All-take,
}
use qmdsr.Prelude.Int.{
  ℤ, pos, negsuc, pos_part, neg_part, sub_ℕ, ◌≤ℤ◌, ltb_ℤ, leb_ℤ, is_zero, is_nonpos, is_pos,
}
use qmdsr.Types.{Score, SearchResult, CollectionInfo, IndexStatus}

-- A value of JSON as `intFromAny` meets it; a float64 by what `int` makes of it.
pub data Any : Type 0 where
  any_float : ℤ → Any
  any_int : ℤ → Any
  any_string : String → Any
  any_other : Any

-- The functions of the standard library. Of `encoding/json` each field is `json.Unmarshal` into one
-- type, `none` where it fails or leaves the pointer or the slice of a wrapper nil. `split_at text sep`
-- is the text before the first `sep` and the text from there on.
pub record Formats : Type 0 where
  pub trim : String → String
  pub lines : String → List String
  pub fields : String → List String
  pub has_prefix : String → String → Bool
  pub has_suffix : String → String → Bool
  pub contains : String → String → Bool
  pub trim_prefix : String → String → String
  pub split_at : String → String → Option (String × String)
  pub base : String → String
  pub atoi : String → Option ℤ
  pub parse_float : String → Score ⊎ String
  pub read_csv : String → List String ⊎ String
  pub json_results : String → Option (List SearchResult)
  pub json_collections : String → Option (List CollectionInfo)
  pub json_wrapped_collections : String → Option (List CollectionInfo)
  pub json_status : String → Option IndexStatus
  pub json_wrapped_status : String → Option IndexStatus
  pub json_is_object : String → Bool
  pub json_vectors : String → Option Any
  pub json_documents_vectors : String → Option Any

module _ (f : Formats) where
  -- `strings.SplitN(text, sep, 2)[0]`.
  abbrev pub before : String → String → String
  before text sep = elim (f.split_at text sep) [ none ↦ text | some p ↦ p.0 ]

  unfoldable pub extract_collection_from_uri : String → String
  extract_collection_from_uri uri =
      let rest = f.trim_prefix uri "qmd://" in
      if not (f.has_prefix uri "qmd://")
      then ""
      else if str_eq rest ""
      then ""
      else elim (f.split_at rest "/") [ none ↦ rest | some p ↦ if str_eq p.0 "" then rest else p.0 ]

  unfoldable pub parse_row : List String → SearchResult ⊎ String
  parse_row (doc_id ∷ score ∷ file ∷ more) = elim (f.parse_float (f.trim score)) [
    | inr err ↦ inr err
    | inl parsed ↦ inl (record {
      title = f.base (f.trim file);
      file = f.trim file;
      collection = extract_collection_from_uri (f.trim file);
      score = parsed;
      snippet = "";
      doc_id = doc_id;
    })
  ]
  parse_row (doc_id ∷ score ∷ []) = inr "invalid files row"
  parse_row (doc_id ∷ []) = inr "invalid files row"
  parse_row [] = inr "invalid files row"

  -- The loop over the lines: the rows, or the first error.
  unfoldable pub parse_rows : List String → List SearchResult ⊎ String
  parse_rows [] = inl []
  parse_rows (raw ∷ lines) =
      let line = f.trim raw in
      let rest = parse_rows lines in
      if str_eq line "" || not (f.contains line ",") then rest else elim (f.read_csv line) [
        | inr err ↦ inr err
        | inl rec ↦ elim (parse_row rec) [
          | inr err ↦ inr err
          | inl r ↦ elim rest [ inr err ↦ inr err | inl rs ↦ inl (r ∷ rs) ]
        ]
      ]

  unfoldable pub parse_files_csv_output : String → List SearchResult ⊎ String
  parse_files_csv_output out = elim (parse_rows (f.lines (f.trim out))) [
    | inr err ↦ inr err
    | inl results ↦ if length results == 0 then inr "no files rows" else inl results
  ]

  -- The results after a warning: from the first bracket, if it is not at the start.
  unfoldable pub after_warning : String → Option (List SearchResult)
  after_warning text = elim (f.split_at text "[") [
    | none ↦ none
    | some p ↦ if str_eq p.0 "" then none else f.json_results p.1
  ]

  unfoldable pub parse_search_output : String → List SearchResult ⊎ String
  parse_search_output out =
      let trimmed = f.trim out in
      if str_eq trimmed "" then inl [] else elim (f.json_results trimmed) [
        | some results ↦ inl results
        | none ↦
            if f.contains trimmed "No results found."
            then inl []
            else elim (after_warning trimmed) [
              | some results ↦ inl results
              | none ↦ elim (parse_files_csv_output trimmed) [
                | inl results ↦ inl results
                | inr err ↦ inr "invalid search output"
              ]
            ]
      ]

  unfoldable pub parse_collection_list_json : String → List CollectionInfo ⊎ String
  parse_collection_list_json out =
      let trimmed = f.trim out in
      if str_eq trimmed "" then inl [] else elim (f.json_collections trimmed) [
        | some cols ↦ inl cols
        | none ↦ elim (f.json_wrapped_collections trimmed) [
          | some cols ↦ inl cols
          | none ↦ inr "invalid json output"
        ]
      ]

  unfoldable pub int_from_any : Any → Option ℤ
  int_from_any (any_float x) = some x
  int_from_any (any_int x) = some x
  int_from_any (any_string x) = f.atoi (f.trim x)
  int_from_any any_other = none

  abbrev pub number_of : Option Any → Option ℤ
  number_of none = none
  number_of (some v) = int_from_any v

  abbrev pub with_vectors : ℤ → IndexStatus
  with_vectors v = record { collections = []; vectors = v; raw = "" }

  unfoldable pub parse_status_json : String → IndexStatus ⊎ String
  parse_status_json out =
      let trimmed = f.trim out in
      if str_eq trimmed "" then inr "empty status output" else elim (f.json_status trimmed) [
        | some status ↦ inl status
        | none ↦ elim (f.json_wrapped_status trimmed) [
          | some status ↦ inl status
          | none ↦
              if not (f.json_is_object trimmed)
              then inr "invalid json output"
              else elim (number_of (f.json_vectors trimmed)) [
                | some v ↦ inl (with_vectors v)
                | none ↦ elim (number_of (f.json_documents_vectors trimmed)) [
                  | some v ↦ inl (with_vectors v)
                  | none ↦ inr "vectors field not found"
                ]
              ]
        ]
      ]
