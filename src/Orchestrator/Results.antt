-- ===== src/Orchestrator/Results.antt =====
-- orchestrator/orchestrator.go: what is left of the hits that a search finds.
pub mod Budget
mod Examples
use Prim.Native.String.{String}
use text.Mathlib.Text.{◌==◌ as str_eq}
use text.Mathlib.TextEquality.{eq_iff}
use qmdsr.Prelude.{
  ℕ, zero, suc, ◌+◌, ◌-◌, ◌*◌, ◌/◌, ◌%◌, ◌^◌, ◌≤◌, ◌<◌, min, max, ◌≡◌, refl, sym, ap, ◌∙◌, ◌≢◌, ◌↔◌,
  ◌⊎◌, inl, inr, Bool, true, false, not, ◌&&◌, ◌||◌, Option, none, some, List, [], ◌∷◌, ◌++◌, map,
  arith, ltb, leb, ◌==◌, if◌then◌else◌, ltb→lt, lt→ltb, leb→le, Bool-cases, pick_true, pick_false,
  Option-cases, length, take, replicate, select, exists, All, count, count_hit, count_miss,
  length-append, length-take, length-select-le, All-append, All-take,
}
use qmdsr.Prelude.Int.{
  ℤ, pos, negsuc, pos_part, neg_part, sub_ℕ, ◌≤ℤ◌, ltb_ℤ, leb_ℤ, is_zero, is_nonpos, is_pos,
}
use Prim.Native.String.{◌++◌ as str_append}
use qmdsr.Prelude.Text.{rune_count, take_runes}
use qmdsr.Types.{Score, SearchResult}
use qmdsr.Config.{SearchConfig}
use qmdsr.Searchutil.{Tools, dedup_sort_limit}
use qmdsr.Textutil.{clean_snippet}

unfoldable pub filter_min_score : List SearchResult → Score → List SearchResult
filter_min_score results min_score =
    if is_nonpos min_score then results else select (λ r. leb_ℤ min_score r.score) results

unfoldable pub truncate_with_ellipsis : String → ℕ → String
truncate_with_ellipsis s max_chars =
    if max_chars == 0
    then ""
    else if leb (rune_count s) max_chars
    then s
    else if leb max_chars 3
    then take_runes max_chars s
    else str_append (take_runes (max_chars - 3) s) "..."

-- The loop of `enforceMaxChars`, after hits with `total` characters.
unfoldable pub enforce_from : ℕ → ℕ → List SearchResult → List SearchResult
enforce_from max_chars total [] = []
enforce_from max_chars total (r ∷ rs) =
    let next_total = total + rune_count r.snippet in
    let rest = enforce_from max_chars next_total rs in
    if leb next_total max_chars
    then r ∷ rest
    else if leb max_chars total
    then []
    else (record r { snippet = truncate_with_ellipsis r.snippet (max_chars - total) }) ∷ []

unfoldable pub enforce_max_chars : ℤ → List SearchResult → List SearchResult
enforce_max_chars max_chars results =
    if is_nonpos max_chars then results else enforce_from (pos_part max_chars) 0 results

unfoldable pub enforce_files_all_max_hits : ℤ → List SearchResult → List SearchResult
enforce_files_all_max_hits limit results =
    if is_nonpos limit || leb (length results) (pos_part limit)
    then results
    else take (pos_part limit) results

abbrev pub max_snippet_chars_per_result : ℤ
max_snippet_chars_per_result = pos 1500

-- What the standard library does: the hits' tools, and what the regular expressions leave of a text.
pub record Library : Type 0 where
  pub tools : Tools
  pub strip : String → String

module _ (l : Library) where
  unfoldable pub clean_result_snippets : List SearchResult → List SearchResult
  clean_result_snippets [] = []
  clean_result_snippets (r ∷ rs) =
      (record r {
        snippet = clean_snippet l.strip l.tools.trim r.snippet max_snippet_chars_per_result;
      })
      ∷ clean_result_snippets rs

  unfoldable pub finalize_results :
      SearchConfig → List SearchResult → ℤ → Bool → Bool → List SearchResult
  finalize_results cfg results n files_only files_all =
      if files_only
      then (if files_all
          then enforce_files_all_max_hits cfg.files_all_max_hits
              (dedup_sort_limit l.tools results n)
          else dedup_sort_limit l.tools results n)
      else enforce_max_chars cfg.max_chars
          (dedup_sort_limit l.tools (clean_result_snippets results) n)
