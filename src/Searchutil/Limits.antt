-- ===== src/Searchutil/Limits.antt =====
-- internal/searchutil/searchutil.go: what the list of hits has, with a limit and without.
use Prim.Native.String.{String}
use qmdsr.Prelude.{
  ◌-◌, ◌≤◌, ◌≡◌, refl, ◌∙◌, ◌≢◌, true, false, List, [], arith, if◌then◌else◌, length, exists, count,
}
use qmdsr.Prelude.Int.{ℤ, pos_part, is_pos}
use qmdsr.Types.{SearchResult}
use qmdsr.Searchutil.{Tools, dedup, dedup_sort_limit}
use qmdsr.Searchutil.Dedup.{IsRanked, IsSort, has_key, in_file, count-dedup}
use qmdsr.Searchutil.Diversity.{diversify-Limited, diversify-IsRanked}

module _ (t : Tools) where
  -- With a limit and a sort that sorts, the hits are at most so many, of different keys, the best
  -- first, and of no file with a name are there more than two.
  pub dedup_sort_limit_lem :
      (results : List SearchResult) (top_k : ℤ)
      → IsSort t.sort_desc
      → is_pos top_k ≡ true
      → let out = dedup_sort_limit t results top_k in
        (length out ≤ pos_part top_k)
        × ((key : String) → count (has_key t key) out ≤ 1)
        × ((file : String) → file ≢ "" → count (in_file t file) out ≤ 2)
        × IsRanked out
  unfolding dedup_sort_limit
  dedup_sort_limit_lem results top_k sort lim =
      let deduped = t.sort_desc (dedup t [] results) in
      let kept = diversify-Limited t (pos_part top_k - 1) (λ _. 0) deduped in
      let once : (key : String) → count (has_key t key) deduped ≤ 1 = λ key.
        rw (sort.same (has_key t key) (dedup t [] results), count-dedup t [] results key refl)
          (ground arith) in
      rw lim (
        ground (arith, kept.short),
        λ key. omega (arith, kept.given (has_key t key), once key),
        λ file ne. omega (arith, kept.sparse file ne),
        diversify-IsRanked t (pos_part top_k - 1) (λ _. 0) deduped
            (sort.ranked (dedup t [] results)),
      )

  -- Without a limit and with a sort that sorts there is one hit of each key that the hits given have,
  -- the best first.
  pub dedup_sort_limit_all :
      (results : List SearchResult) (top_k : ℤ)
      → IsSort t.sort_desc
      → is_pos top_k ≡ false
      → let out = dedup_sort_limit t results top_k in
        ((key : String)
          → count (has_key t key) out ≡ (if exists (has_key t key) results then 1 else 0))
        × IsRanked out
  unfolding dedup_sort_limit
  dedup_sort_limit_all results top_k sort lim = rw lim (
    λ key. sort.same (has_key t key) (dedup t [] results) ∙ count-dedup t [] results key refl,
    sort.ranked (dedup t [] results),
  )
