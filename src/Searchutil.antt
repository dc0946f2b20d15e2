-- ===== src/Searchutil.antt =====
-- internal/searchutil/searchutil.go: hits without duplicates, the best first, few of each file.
pub mod Dedup
pub mod Diversity
pub mod Limits
pub mod Sorting
mod Examples
use Prim.Native.String.{String}
use text.Mathlib.Text.{◌==◌ as str_eq}
use text.Mathlib.TextEquality.{eq_iff}
use qmdsr.Prelude.{
  ℕ, zero, suc, ◌+◌, ◌-◌, ◌*◌, ◌/◌, ◌%◌, ◌^◌, ◌≤◌, ◌<◌, min, max, ◌≡◌, refl, sym, ap, ◌∙◌, ◌≢◌, ◌↔◌,
  ◌⊎◌, inl, inr, Bool, true, false, not, ◌&&◌, ◌||◌, Option, none, some, List, [], ◌∷◌, ◌++◌, map,
  arith, ltb, leb, ◌==◌, if◌then◌else◌, ltb→lt, lt→ltb, leb→le, Bool-cases, Option-cases, length,
  take, replicate, select, exists, All, length-append, length-take, length-select-le, All-append,
  All-take,
}
use qmdsr.Prelude.Int.{
  ℤ, pos, negsuc, pos_part, neg_part, sub_ℕ, ◌≤ℤ◌, ltb_ℤ, leb_ℤ, is_zero, is_nonpos, is_pos,
}
use qmdsr.Types.{SearchResult}

-- `strings.TrimSpace`, the text that `Sprintf` makes of a hit without an identifier, and `sort.Slice`
-- by descending score.
pub record Tools : Type 0 where
  pub trim : String → String
  pub render : SearchResult → String
  pub sort_desc : List SearchResult → List SearchResult

module _ (t : Tools) where
  unfoldable pub key_of : SearchResult → String
  key_of r =
      if not (str_eq (t.trim r.doc_id) "")
      then t.trim r.doc_id
      else if not (str_eq (t.trim r.file) "")
      then t.trim r.file
      else t.render r

  -- The first loop, with the keys seen before.
  unfoldable pub dedup : List String → List SearchResult → List SearchResult
  dedup seen [] = []
  dedup seen (r ∷ rs) = elim (exists (str_eq (key_of r)) seen) [
    | true ↦ dedup seen rs
    | false ↦ r ∷ dedup (key_of r ∷ seen) rs
  ]

  -- `file != "" && fileCounts[file] >= maxPerFile`.
  unfoldable pub is_crowded : (String → ℕ) → SearchResult → Bool
  is_crowded file_counts r = not (str_eq (t.trim r.file) "") && leb 2 (file_counts (t.trim r.file))

  -- `fileCounts[file]++`, but for the empty name.
  unfoldable pub count_file : (String → ℕ) → SearchResult → String → ℕ
  count_file file_counts r file =
      if not (str_eq (t.trim r.file) "") && str_eq (t.trim r.file) file
      then file_counts file + 1
      else file_counts file

  -- The second loop, with room for `n + 1` more hits.
  unfoldable pub diversify : ℕ → (String → ℕ) → List SearchResult → List SearchResult
  diversify n file_counts [] = []
  diversify n file_counts (r ∷ rs) = elim (is_crowded file_counts r) [
    | true ↦ diversify n file_counts rs
    | false ↦ r ∷ (elim n [ zero ↦ [] | suc m ↦ diversify m (count_file file_counts r) rs ])
  ]

  unfoldable pub dedup_sort_limit : List SearchResult → ℤ → List SearchResult
  dedup_sort_limit results top_k =
      let deduped = t.sort_desc (dedup [] results) in
      if is_pos top_k then diversify (pos_part top_k - 1) (λ _. 0) deduped else deduped
