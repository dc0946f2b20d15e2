-- ===== src/Searchutil/Examples.antt =====
-- Four hits of two files, and the theorems about them, with an insertion sort.
use Prim.Native.String.{String}
use qmdsr.Prelude.{ℕ, ◌≤◌, ◌≡◌, refl, ◌≢◌, List, [], ◌∷◌, length, count}
use qmdsr.Prelude.Int.{pos}
use qmdsr.Types.{SearchResult}
use qmdsr.Searchutil.{Tools, key_of, dedup, is_crowded, count_file, diversify, dedup_sort_limit}
use qmdsr.Searchutil.Dedup.{IsRanked, has_key, in_file}
use qmdsr.Searchutil.Limits.{dedup_sort_limit_lem}
use qmdsr.Searchutil.Sorting.{insert, insertion_sort, insertion_sort-IsSort}

abbrev tools : Tools
tools = record { trim = λ s. s; render = λ r. r.title; sort_desc = insertion_sort }

abbrev hit : String → String → ℕ → SearchResult
hit doc_id file score = record {
  title = "t";
  file = file;
  collection = "notes";
  score = pos score;
  snippet = "s";
  doc_id = doc_id;
}

abbrev hits : List SearchResult
hits =
    hit "a3" "a.md" 85
    ∷ hit "a1" "a.md" 95
    ∷ hit "b1" "b.md" 80
    ∷ hit "a1" "a.md" 10
    ∷ hit "a2" "a.md" 90
    ∷ []

dedup_sort_limit_lem_example :
    let out = dedup_sort_limit tools hits (pos 3) in
    (length out ≤ 3)
    × ((key : String) → count (has_key tools key) out ≤ 1)
    × ((file : String) → file ≢ "" → count (in_file tools file) out ≤ 2)
    × IsRanked out
dedup_sort_limit_lem_example = dedup_sort_limit_lem tools hits (pos 3) insertion_sort-IsSort refl

limited :
    dedup_sort_limit tools hits (pos 3)
    ≡ hit "a1" "a.md" 95 ∷ hit "a2" "a.md" 90 ∷ hit "b1" "b.md" 80 ∷ []
unfolding key_of dedup is_crowded count_file diversify dedup_sort_limit insert insertion_sort
limited = refl
