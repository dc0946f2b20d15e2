-- ===== src/Api/Core/Outcome.antt =====
-- api/core.go: what the answer of the handler says of the searches.
use Prim.Native.String.{String}
use text.Mathlib.Text.{◌==◌ as str_eq}
use text.Mathlib.TextEquality.{eq_iff}
use qmdsr.Prelude.{
  ◌≤◌, ◌≡◌, refl, sym, ◌∙◌, ◌≢◌, ◌↔◌, ◌⊎◌, inl, inr, Bool, true, false, not, ◌&&◌, ◌||◌, some, List,
  [], ◌∷◌, arith, ◌==◌, if◌then◌else◌, Bool-cases, length, count, length-take,
}
use qmdsr.Prelude.Int.{pos_part, is_pos}
use qmdsr.Config.{Config}
use qmdsr.Searchutil.{dedup_sort_limit}
use qmdsr.Searchutil.Dedup.{IsSort}
use qmdsr.Searchutil.Limits.{dedup_sort_limit_lem}
use qmdsr.Orchestrator.Tiers.{Orchestrator}
use qmdsr.Orchestrator.Search.{search}
use qmdsr.Api.Request.{
  SearchCoreRequest, Surroundings, effective_top_k, requested_mode_of, collections_of_request,
  pre_degrade_reason, search_params,
}
use qmdsr.Api.Core.{
  SearchCoreResult, failed, Combined, nothing_combined, search_each, or_reason, is_capped,
  build_result, conclude, search_all,
}
use qmdsr.Api.Convert.{derive_served_mode}
use mathlib.Core.Bool.{true≢false}
use qmdsr.Api.Core.Answers.{
  IsCombined, SearchAnswer, answers, first_error, hits_of, is_success, of_some,
  search_each-IsCombined,
}

abbrev pub IsServedMode : String → Type 0
IsServedMode mode = (mode ≡ "deep") ⊎ ((mode ≡ "broad") ⊎ (mode ≡ "core"))

derive_served_mode-IsServedMode :
    (requested mode_used : String) (fallback degraded : Bool)
    → IsServedMode (derive_served_mode requested mode_used fallback degraded)
unfolding derive_served_mode
derive_served_mode-IsServedMode requested mode_used fallback degraded =
    either (str_eq mode_used "query") (inl refl) (
      either (str_eq requested "deep") (inr (inl refl)) (
        either (str_eq requested "broad") (inr (inl refl)) (
          either (str_eq requested "core") (either fallback (inr (inl refl)) (inr (inr refl)))
            (either (fallback || degraded) (inr (inl refl)) (inr (inr refl))))))
  where
    either :
        (b : Bool) {x y : String}
        → IsServedMode x
        → IsServedMode y
        → IsServedMode (if b then x else y)
    either true hx hy = hx
    either false hx hy = hy

-- What an answer is, given the answers for the collections.
pub record IsAnswer (s : Surroundings) (cfg : Config) (req : SearchCoreRequest)
    (found : List SearchAnswer) (r : SearchCoreResult) : Type 0 where
  pub cache_hit : r.meta.cache_hit ≡ of_some (λ m. m.cache_hit) found
  pub fallback : r.meta.fallback_triggered ≡ of_some (λ m. m.fallback_triggered) found
  pub degraded : r.meta.degraded ≡ (
      of_some (λ m. m.degraded) found
      || (str_eq (requested_mode_of s req) "deep" && not (str_eq r.meta.served_mode "deep"))
      || not (str_eq (pre_degrade_reason s cfg req) "")
      || is_capped cfg req (dedup_sort_limit s.tools (hits_of found) (effective_top_k cfg req)))
  pub named : IsServedMode r.meta.served_mode
  pub deep : (r.meta.served_mode ≡ "deep") ↔ (r.meta.mode_used ≡ "query")
  pub queried : str_eq r.meta.mode_used "query" ≡ of_some (λ m. str_eq m.mode_used "query") found
  pub core : r.meta.served_mode ≡ "core" → of_some (λ m. m.fallback_triggered) found ≡ false
  pub hits_short :
      IsSort s.tools.sort_desc
      → is_pos (effective_top_k cfg req) ≡ true
      → length r.results ≤ pos_part (effective_top_k cfg req)
  pub files_short :
      req.files_only ≡ true
      → req.files_all ≡ true
      → is_pos cfg.search.files_all_max_hits ≡ true
      → length r.results ≤ pos_part cfg.search.files_all_max_hits

if_ne : (b : Bool) {x y z : String} → x ≢ z → y ≢ z → (if b then x else y) ≢ z
if_ne true hx hy = hx
if_ne false hx hy = hy

derive_served_mode_deep :
    (requested mode_used : String) (fallback degraded : Bool)
    → (derive_served_mode requested mode_used fallback degraded ≡ "deep") ↔ (mode_used ≡ "query")
unfolding derive_served_mode
derive_served_mode_deep requested mode_used fallback degraded =
    let broad : "broad" ≢ "deep" = λ e. true≢false (sym ((eq_iff "broad" "deep").1 e)) in
    let core : "core" ≢ "deep" = λ e. true≢false (sym ((eq_iff "core" "deep").1 e)) in
    let other = if_ne (str_eq requested "deep") broad (
      if_ne (str_eq requested "broad") broad (
        if_ne (str_eq requested "core") (if_ne fallback broad core)
          (if_ne (fallback || degraded) broad core))) in
    elim (Bool-cases (str_eq mode_used "query")) [
      | inl query ↦ (λ _. (eq_iff mode_used "query").0 query, λ _. rw query refl)
      | inr not_query ↦ (
        λ deep. absurd (other (rw not_query at deep)),
        λ query. absurd (true≢false (sym ((eq_iff mode_used "query").1 query) ∙ not_query)),
      )
    ]

derive_served_mode_core :
    (requested mode_used : String) (fallback degraded : Bool)
    → derive_served_mode requested mode_used fallback degraded ≡ "core"
    → fallback ≡ false
unfolding derive_served_mode
derive_served_mode_core requested mode_used true degraded q =
    let deep : "deep" ≢ "core" = λ e. true≢false (sym ((eq_iff "deep" "core").1 e)) in
    let broad : "broad" ≢ "core" = λ e. true≢false (sym ((eq_iff "broad" "core").1 e)) in
    absurd (
      if_ne (str_eq mode_used "query") deep
        (if_ne (str_eq requested "deep") broad
          (if_ne (str_eq requested "broad") broad (if_ne (str_eq requested "core") broad broad)))
        q)
derive_served_mode_core requested mode_used false degraded q = refl

-- Where there is no mode, it is that of a plain search.
plain_mode :
    (mode : String)
    → str_eq (if str_eq mode "" then "search" else mode) "query" ≡ str_eq mode "query"
plain_mode mode = elim (Bool-cases (str_eq mode "")) [
  | inl blank ↦ rw (blank, (eq_iff mode "").0 blank) refl
  | inr worded ↦ rw worded refl
]

build_result-IsAnswer :
    (s : Surroundings) (cfg : Config) (req : SearchCoreRequest) (found : List SearchAnswer)
    (acc : Combined)
    → IsCombined nothing_combined found acc
    → IsAnswer s cfg req found (build_result s cfg req acc)
unfolding build_result or_reason is_capped nothing_combined
build_result-IsAnswer s cfg req found acc k =
    let combined = dedup_sort_limit s.tools acc.results (effective_top_k cfg req) in
    let cut = length-take (pos_part cfg.search.files_all_max_hits) combined in
    record {
      cache_hit = k.cache_hit;
      fallback = k.fallback;
      degraded = ground (arith, k.degraded, k.hits);
      named = derive_served_mode-IsServedMode _ _ _ _;
      deep = derive_served_mode_deep _ _ _ _;
      queried = plain_mode acc.mode_used ∙ k.queried;
      core = λ q. sym k.fallback ∙ derive_served_mode_core _ _ _ _ q;
      hits_short = λ sort lim. ground (
        arith,
        cut,
        (dedup_sort_limit_lem s.tools acc.results (effective_top_k cfg req) sort lim).0,
      );
      files_short = λ a b c. ground (arith, cut, a, b, c);
    }

first_error-some :
    (found : List SearchAnswer)
    → count is_success found ≡ 0
    → 1 ≤ length found
    → (e : String) × (first_error found ≡ some e)
first_error-some [] h l = absurd (ground (arith, l))
first_error-some (inl r ∷ rest) h l = absurd (ground (arith, h))
first_error-some (inr err ∷ rest) h l = (err, refl)

length-answers :
    (s : Surroundings) (cfg : Config) (req : SearchCoreRequest) (cs : List String)
    (o : Orchestrator)
    → length (answers s cfg req cs o).1 ≡ length cs
length-answers s cfg req [] o = refl
length-answers s cfg req (c ∷ cs) o =
    let o' = (search (s.at_search c) cfg (search_params s cfg req c) o).0 in
    omega (arith, length-answers s cfg req cs o')

collections_of_request_some :
    (s : Surroundings) (req : SearchCoreRequest) → 1 ≤ length (collections_of_request s req)
unfolding collections_of_request
collections_of_request_some s req = ground arith

-- Either every search fails, and so does the request, with the first error; or some search succeeds,
-- and so does the request. Then its answer is from the cache, or fell back, if one of theirs is or
-- did; it is degraded exactly if one of theirs is, or a deep request was not served deep, or there
-- was a reason before the searches, or the list of files is cut; it is served deep exactly in the
-- mode of deep queries, which is its mode exactly if one of theirs is; it is not served as core if it
-- fell back; and its hits keep within the limits, if the sort sorts.
pub search_all_lem :
    (s : Surroundings) (cfg : Config) (req : SearchCoreRequest) (o : Orchestrator)
    → let found = (answers s cfg req (collections_of_request s req) o).1 in
      ((count is_success found ≡ 0)
        × ((e : String) × (first_error found ≡ some e)
            × ((search_all s cfg req o).1 ≡ inr (failed e))))
      ⊎ ((1 ≤ count is_success found)
          × ((r : SearchCoreResult) × ((search_all s cfg req o).1 ≡ inl r)
              × IsAnswer s cfg req found r))
unfolding search_all conclude nothing_combined
search_all_lem s cfg req o =
    let collections = collections_of_request s req in
    let (k, same) = search_each-IsCombined s cfg req collections nothing_combined o in
    let found = (answers s cfg req collections o).1 in
    let acc = (search_each s cfg req collections nothing_combined o).1 in
    elim (Bool-cases (acc.success_count == 0)) [
      | inl none_found ↦
          let none_succeeds : count is_success found ≡ 0 = ground (arith, k.successes) in
          let some_collection = collections_of_request_some s req in
          let (e, first) =
            first_error-some found none_succeeds
              (omega (arith, some_collection, length-answers s cfg req collections o)) in
          let error : acc.first_err ≡ some e = k.error ∙ first in
          inl (none_succeeds, (e, first, rw (none_found, error) refl))
      | inr some_found ↦ inr (
        ground (arith, k.successes),
        (
          build_result s cfg req acc,
          rw some_found refl,
          build_result-IsAnswer s cfg req found acc k,
        ),
      )
    ]
