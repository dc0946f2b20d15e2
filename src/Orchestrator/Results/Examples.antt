-- ===== src/Orchestrator/Results/Examples.antt =====
-- Hits that are too long together, and the theorems about them.
use Prim.Native.String.{String}
use qmdsr.Prelude.{◌≡◌, refl, true, List, [], ◌∷◌}
use qmdsr.Prelude.Int.{pos}
use qmdsr.Types.{SearchResult}
use qmdsr.Config.{SearchConfig}
use qmdsr.Searchutil.Sorting.{insertion_sort}
use qmdsr.Orchestrator.Results.{truncate_with_ellipsis, enforce_from, enforce_max_chars, Library}

abbrev hit : String → String → SearchResult
hit doc_id snippet = record {
  title = "t";
  file = "a.md";
  collection = "notes";
  score = pos 500_000;
  snippet = snippet;
  doc_id = doc_id;
}

abbrev hits : List SearchResult
hits = hit "a" "first" ∷ hit "b" "second hit" ∷ hit "c" "third" ∷ []

cut_second : enforce_max_chars (pos 12) hits ≡ hit "a" "first" ∷ hit "b" "seco..." ∷ []
unfolding truncate_with_ellipsis enforce_from enforce_max_chars
cut_second = refl

abbrev library : Library
library = record {
  tools = record { trim = λ s. s; render = λ r. r.title; sort_desc = insertion_sort };
  strip = λ s. s;
}

abbrev search_config : SearchConfig
search_config = record {
  default_mode = "auto";
  coarse_k = pos 20;
  top_k = pos 8;
  min_score = pos 300_000;
  max_chars = pos 12;
  files_all_max_hits = pos 200;
  fallback_enabled = true;
}
