-- ===== src/Orchestrator/Results/Budget.antt =====
-- orchestrator/orchestrator.go: how many characters and hits an answer has.
use Prim.Native.String.{String}
use qmdsr.Prelude.{
  ℕ, ◌+◌, ◌-◌, ◌≤◌, ◌≡◌, refl, sym, ap, ◌≢◌, ◌⊎◌, inl, inr, Bool, true, false, List, [], ◌∷◌, arith,
  leb, Bool-cases, length, length-take,
}
use qmdsr.Prelude.Int.{ℤ, pos_part, is_nonpos, is_pos}
use Prim.Native.String.{◌++◌ as str_append}
use qmdsr.Prelude.Text.{rune_count, take_runes}
use qmdsr.Types.{SearchResult}
use qmdsr.Config.{SearchConfig}
use qmdsr.Searchutil.{dedup_sort_limit}
use qmdsr.Searchutil.Dedup.{IsSort}
use qmdsr.Searchutil.Limits.{dedup_sort_limit_lem}
use qmdsr.Textutil.Lengths.{rune_count-append, rune_count-take_runes}
use qmdsr.Orchestrator.Results.{
  truncate_with_ellipsis, enforce_from, enforce_max_chars, enforce_files_all_max_hits, Library,
  clean_result_snippets, finalize_results,
}

-- The characters of all the snippets.
unfoldable pub total_chars : List SearchResult → ℕ
total_chars [] = 0
total_chars (r ∷ rs) = rune_count r.snippet + total_chars rs

rune_count-truncate_with_ellipsis :
    (s : String) (n : ℕ) → rune_count (truncate_with_ellipsis s n) ≤ n
unfolding truncate_with_ellipsis
rune_count-truncate_with_ellipsis s n =
    let whole : rune_count (str_append (take_runes (n - 3) s) "...") ≤ (n - 3) + 3 =
      rw (rune_count-append (take_runes (n - 3) s) "...")
        (omega (arith, rune_count-take_runes (n - 3) s)) in
    ground (arith, whole, rune_count-take_runes n s)

-- The hits that fit are kept as they are; the one that does not is cut, and those after it dropped.
unfoldable pub IsCut : List SearchResult → List SearchResult → Type 0
IsCut rs [] = Unit
IsCut [] (o ∷ os) = ⊥
IsCut (r ∷ rs) (o ∷ os) =
    ((o ≡ r) × IsCut rs os) ⊎ ((o ≡ record r { snippet = o.snippet }) × (os ≡ []))

enforce_from_lem :
    (m total : ℕ) (rs : List SearchResult)
    → total ≤ m
    → let out = enforce_from m total rs in
      (total + total_chars out ≤ m) × IsCut rs out × (total + total_chars rs ≤ m → out ≡ rs)
unfolding enforce_from total_chars IsCut
enforce_from_lem m total [] le = (omega (arith, le), tt, λ h. refl)
enforce_from_lem m total (r ∷ rs) le = elim (Bool-cases (leb (total + rune_count r.snippet) m)) [
  | inl fits ↦
      let (bound, cut, whole) =
        enforce_from_lem m (total + rune_count r.snippet) rs (ground (arith, fits)) in
      rw fits
        (omega (arith, bound), inl (refl, cut), λ h. ap (λ xs. r ∷ xs) (whole (omega (arith, h))))
  | inr over ↦ elim (Bool-cases (leb m total)) [
    | inl full ↦ rw (over, full) (omega (arith, le), tt, λ h. absurd (ground (arith, over, h)))
    | inr room ↦
        rw (over, room)
          (
            ground (arith, le, rune_count-truncate_with_ellipsis r.snippet (m - total)),
            inr (refl, refl),
            λ h. absurd (ground (arith, over, h)),
          )
  ]
]

-- With a limit on the characters: the snippets together keep within it; the hits are a beginning of
-- those given, but that the last one's snippet may be cut; and they are all of them if all fit.
pub enforce_max_chars_lem :
    (max_chars : ℤ) (rs : List SearchResult)
    → is_nonpos max_chars ≡ false
    → let out = enforce_max_chars max_chars rs in
      (total_chars out ≤ pos_part max_chars)
      × IsCut rs out
      × (total_chars rs ≤ pos_part max_chars → out ≡ rs)
unfolding enforce_max_chars
enforce_max_chars_lem max_chars rs lim =
    let (bound, cut, whole) = enforce_from_lem (pos_part max_chars) 0 rs (omega arith) in
    rw lim (omega (arith, bound), cut, λ h. whole (omega (arith, h)))

length-IsCut : (rs out : List SearchResult) → IsCut rs out → length out ≤ length rs
unfolding IsCut
length-IsCut rs [] h = omega arith
length-IsCut [] (o ∷ os) h = absurd h
length-IsCut (r ∷ rs) (o ∷ os) (inl (q, h)) = omega (arith, length-IsCut rs os h)
length-IsCut (r ∷ rs) (o ∷ os) (inr (q, e)) = rw e (omega arith)

length-enforce_max_chars :
    (m : ℤ) (rs : List SearchResult) → length (enforce_max_chars m rs) ≤ length rs
length-enforce_max_chars m rs = elim (Bool-cases (is_nonpos m)) [
  | inl off ↦ unfold enforce_max_chars in rw off (omega arith)
  | inr on ↦ length-IsCut rs (enforce_max_chars m rs) (enforce_max_chars_lem m rs on).1
]

length-enforce_files_all_max_hits :
    (m : ℤ) (rs : List SearchResult)
    → (length (enforce_files_all_max_hits m rs) ≤ length rs)
      × (is_nonpos m ≡ false → length (enforce_files_all_max_hits m rs) ≤ pos_part m)
unfolding enforce_files_all_max_hits
length-enforce_files_all_max_hits m rs =
    let e = length-take (pos_part m) rs in (ground (arith, e), λ on. ground (arith, e))

true-ne-false : true ≢ false
true-ne-false h = ground (arith, h)

-- With a sort that sorts, a finished answer to a search for a positive `n` of hits has at most `n`;
-- one of whole hits keeps within the characters, and a list of all files within the hits, that the
-- configuration allows.
pub finalize_results_lem :
    (l : Library) (cfg : SearchConfig) (results : List SearchResult) (n : ℤ)
    (files_only files_all : Bool)
    → IsSort l.tools.sort_desc
    → is_pos n ≡ true
    → let out = finalize_results l cfg results n files_only files_all in
      (length out ≤ pos_part n)
      × (files_only ≡ false
          → is_nonpos cfg.max_chars ≡ false
          → total_chars out ≤ pos_part cfg.max_chars)
      × (files_only ≡ true
          → files_all ≡ true
          → is_nonpos cfg.files_all_max_hits ≡ false
          → length out ≤ pos_part cfg.files_all_max_hits)
unfolding finalize_results
finalize_results_lem l cfg results n true true sort lim =
    let plain = (dedup_sort_limit_lem l.tools results n sort lim).0 in
    let hits = dedup_sort_limit l.tools results n in
    let (less, few) = length-enforce_files_all_max_hits cfg.files_all_max_hits hits in
    (omega (arith, plain, less), λ no. absurd (true-ne-false no), λ yes all on. few on)
finalize_results_lem l cfg results n true false sort lim = (
  (dedup_sort_limit_lem l.tools results n sort lim).0,
  λ no. absurd (true-ne-false no),
  λ yes all. absurd (true-ne-false (sym all)),
)
finalize_results_lem l cfg results n false files_all sort lim =
    let clean = clean_result_snippets l results in
    let plain = (dedup_sort_limit_lem l.tools clean n sort lim).0 in
    let hits = dedup_sort_limit l.tools clean n in
    (
      omega (arith, plain, length-enforce_max_chars cfg.max_chars hits),
      λ no on. (enforce_max_chars_lem cfg.max_chars hits on).0,
      λ yes. absurd (true-ne-false (sym yes)),
    )
