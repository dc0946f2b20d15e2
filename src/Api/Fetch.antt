-- ===== src/Api/Fetch.antt =====
-- api/core.go: a search for files, and the reading of the documents that it finds within a budget.
pub mod Budget
use Prim.Native.String.{String}
use text.Mathlib.Text.{◌==◌ as str_eq}
use text.Mathlib.TextEquality.{eq_iff}
use qmdsr.Prelude.{
  ℕ, zero, suc, ◌+◌, ◌-◌, ◌*◌, ◌/◌, ◌%◌, ◌^◌, ◌≤◌, ◌<◌, min, max, ◌≡◌, refl, sym, ap, ◌∙◌, ◌≢◌, ◌↔◌,
  ◌⊎◌, inl, inr, Bool, true, false, not, ◌&&◌, ◌||◌, Option, none, some, List, [], ◌∷◌, ◌++◌, map,
  arith, ltb, leb, ◌==◌, if◌then◌else◌, ltb→lt, lt→ltb, leb→le, Bool-cases, pick_true, pick_false,
  Option-cases, length, take, replicate, select, exists, All, count, count_hit, count_miss,
  length-append, length-take, length-select-le, All-append, All-take,
}
use qmdsr.Prelude.Int.{
  ℤ, pos, negsuc, pos_part, neg_part, sub_ℕ, ◌≤ℤ◌, ltb_ℤ, leb_ℤ, is_zero, is_nonpos, is_pos,
}
use Prim.Native.String.{len}
use qmdsr.Types.{Score, SearchResult, SearchMeta, Document}
use qmdsr.Config.{Config}
use qmdsr.Orchestrator.Tiers.{Orchestrator}
use qmdsr.Api.Request.{SearchCoreRequest, Surroundings}
use qmdsr.Api.Core.{SearchCoreResult, ApiError, failed, execute_search_core}
use qmdsr.Api.Format.{Printer, preferred_hit_uri, render_search_and_get_text}

pub record SearchAndGetCoreRequest : Type 0 where
  pub query : String
  pub requested_mode : String
  pub collections : List String
  pub allow_fallback : Bool
  pub top_k : ℤ
  pub min_score : Score
  pub max_get_docs : ℤ
  pub max_get_bytes : ℤ
  pub trace_id : String
  pub confirm : Bool

-- `model.SearchAndGetResponse`.
pub record SearchAndGetResult : Type 0 where
  pub file_hits : List SearchResult
  pub documents : List Document
  pub meta : SearchMeta
  pub formatted_text : String

unfoldable pub max_get_docs : SearchAndGetCoreRequest → ℕ
max_get_docs req = if is_nonpos req.max_get_docs then 3 else pos_part req.max_get_docs

unfoldable pub max_get_bytes : SearchAndGetCoreRequest → ℕ
max_get_bytes req = if is_nonpos req.max_get_bytes then 12000 else pos_part req.max_get_bytes

-- The request that the search core is given; the fields it leaves out are zero.
unfoldable pub file_request : Surroundings → SearchAndGetCoreRequest → SearchCoreRequest
file_request s req = record {
  query = s.strings.trim req.query;
  requested_mode = req.requested_mode;
  collections = req.collections;
  allow_fallback = req.allow_fallback;
  top_k = req.top_k;
  min_score = req.min_score;
  explain = false;
  files_only = true;
  files_all = false;
  trace_id = req.trace_id;
  confirm = req.confirm;
}

unfoldable pub targets_of : Printer → List SearchResult → List String
targets_of p [] = []
targets_of p (hit ∷ hits) =
    let uri = p.trim (preferred_hit_uri p hit) in
    if str_eq uri "" then targets_of p hits else uri ∷ targets_of p hits

-- The outcome of reading a document: its content, or an error.
abbrev pub GetOutcome : Type 0
GetOutcome = String × (String ⊎ String)

unfoldable pub read_outcomes : ℕ → List GetOutcome → List Document × List String
read_outcomes remaining [] = ([], [])
read_outcomes remaining ((uri, inr err) ∷ outs) = read_outcomes remaining outs
read_outcomes remaining ((uri, inl content) ∷ outs) =
    let cut = ltb remaining (len content) in
    let (docs, truncated) =
      read_outcomes (if cut then remaining else remaining - len content) outs in
    if cut
    then (docs, uri ∷ truncated)
    else (record { file = uri; content = content } ∷ docs, truncated)

unfoldable pub mark_truncated : List String → SearchMeta → SearchMeta
mark_truncated [] meta = meta
mark_truncated (uri ∷ uris) meta = record meta {
  degraded = true;
  degrade_reason =
      if str_eq meta.degrade_reason "" then "MAX_GET_BYTES_TRUNCATED" else meta.degrade_reason;
}

-- The documents of the hits, and the targets that the budget does not allow. `get` is the answer of
-- the backend for a document; the goroutines only fill a list in the order of the targets.
unfoldable pub fetch :
    Printer
    → (String → String ⊎ String)
    → SearchAndGetCoreRequest
    → List SearchResult
    → List Document × List String
fetch p get req hits =
    let targets = targets_of p (take (min (max_get_docs req) (length hits)) hits) in
    read_outcomes (max_get_bytes req) (map (λ uri. (uri, get uri)) targets)

unfoldable pub get_found :
    Printer
    → (String → String ⊎ String)
    → SearchAndGetCoreRequest
    → SearchCoreResult
    → SearchAndGetResult
get_found p get req found =
    let (docs, truncated) = fetch p get req found.results in
    let meta = mark_truncated truncated found.meta in
    record {
      file_hits = found.results;
      documents = docs;
      meta = meta;
      formatted_text = render_search_and_get_text p found.results docs truncated meta;
    }

unfoldable pub execute_search_and_get_core :
    Surroundings
    → (String → String ⊎ String)
    → Config
    → SearchAndGetCoreRequest
    → Orchestrator
    → Orchestrator × (SearchAndGetResult ⊎ ApiError)
execute_search_and_get_core s get cfg req o =
    let (o', answer) = execute_search_core s cfg (file_request s req) o in
    if str_eq (s.strings.trim req.query) "" then (o, inr (failed "query is required")) else (
      o',
      elim answer [ inr err ↦ inr err | inl found ↦ inl (get_found s.printer get req found) ],
    )
