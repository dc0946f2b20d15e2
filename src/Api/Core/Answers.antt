-- ===== src/Api/Core/Answers.antt =====
-- api/core.go: what the handler makes of the answers for its collections.
use Prim.Native.String.{String}
use text.Mathlib.Text.{◌==◌ as str_eq}
use text.Mathlib.TextEquality.{eq_iff}
use qmdsr.Prelude.{
  ◌+◌, ◌≡◌, refl, sym, ◌∙◌, ◌⊎◌, inl, inr, Bool, true, false, ◌||◌, Option, none, some, List, [],
  ◌∷◌, ◌++◌, arith, count, if◌then◌else◌, Bool-cases,
}
use qmdsr.Types.{SearchResult, SearchMeta}
use qmdsr.Config.{Config}
use qmdsr.Orchestrator.Tiers.{Served, Orchestrator}
use qmdsr.Orchestrator.Search.{search}
use qmdsr.Api.Request.{SearchCoreRequest, Surroundings, search_params}
use qmdsr.Api.Core.{Combined, combine_error, combine_answer, combine, search_each}
use mathlib.Core.List.{append-nil, append_assoc}

abbrev pub SearchAnswer : Type 0
SearchAnswer = Served ⊎ String

-- The answers for the collections, one search after the other.
abbrev pub answers :
    Surroundings
    → Config
    → SearchCoreRequest
    → List String
    → Orchestrator
    → Orchestrator × List SearchAnswer
answers s cfg req [] o = (o, [])
answers s cfg req (c ∷ cs) o =
    let (o', answer) = search (s.at_search c) cfg (search_params s cfg req c) o in
    let (o'', rest) = answers s cfg req cs o' in (o'', answer ∷ rest)

abbrev pub is_success : SearchAnswer → Bool
is_success (inl r) = true
is_success (inr err) = false

abbrev pub hits_of : List SearchAnswer → List SearchResult
hits_of [] = []
hits_of (inl r ∷ rest) = r.results ++ hits_of rest
hits_of (inr err ∷ rest) = hits_of rest

abbrev pub first_error : List SearchAnswer → Option String
first_error [] = none
first_error (inl r ∷ rest) = first_error rest
first_error (inr err ∷ rest) = some err

-- True of the metadata of some answer.
abbrev pub of_some : (SearchMeta → Bool) → List SearchAnswer → Bool
of_some p [] = false
of_some p (inl r ∷ rest) = p r.meta || of_some p rest
of_some p (inr err ∷ rest) = of_some p rest

abbrev pub or_else : Option String → Option String → Option String
or_else none b = b
or_else (some a) b = some a

-- What the variables of the loop hold after these answers, on top of what they held.
pub record IsCombined (acc : Combined) (found : List SearchAnswer) (out : Combined) : Type 0 where
  pub hits : out.results ≡ acc.results ++ hits_of found
  pub successes : out.success_count ≡ acc.success_count + count is_success found
  pub error : out.first_err ≡ or_else acc.first_err (first_error found)
  pub degraded : out.degraded ≡ (acc.degraded || of_some (λ m. m.degraded) found)
  pub cache_hit : out.cache_hit ≡ (acc.cache_hit || of_some (λ m. m.cache_hit) found)
  pub fallback :
      out.fallback_triggered ≡ (acc.fallback_triggered || of_some (λ m. m.fallback_triggered) found)
  pub queried :
      str_eq out.mode_used "query"
      ≡ (str_eq acc.mode_used "query" || of_some (λ m. str_eq m.mode_used "query") found)

-- The mode of the answers so far, and of one more, is that of deep queries if one of them is.
kept_query :
    (mode given : String)
    → str_eq (if str_eq given "query" || str_eq mode "" then given else mode) "query"
      ≡ (str_eq mode "query" || str_eq given "query")
kept_query mode given = elim (Bool-cases (str_eq given "query")) [
  | inl query ↦ rw (query, query) (sym (or_true (str_eq mode "query")))
  | inr other ↦ elim (Bool-cases (str_eq mode "")) [
    | inl blank ↦ rw (other, blank, other, (eq_iff mode "").0 blank) refl
    | inr worded ↦ rw (other, worded) (sym (or_false (str_eq mode "query")))
  ]
]
  where
    or_true : (b : Bool) → (b || true) ≡ true
    or_true true = refl
    or_true false = refl

    or_false : (b : Bool) → (b || false) ≡ b
    or_false true = refl
    or_false false = refl

combine_step :
    (c : String) (acc : Combined) (answer : SearchAnswer) (rest : List SearchAnswer)
    (out : Combined)
    → IsCombined (combine acc c answer) rest out
    → IsCombined acc (answer ∷ rest) out
unfolding combine combine_answer combine_error
combine_step c acc (inl r) rest out k = record {
  hits = k.hits ∙ append_assoc acc.results r.results (hits_of rest);
  successes = omega (arith, k.successes);
  error = k.error;
  degraded = ground (arith, k.degraded);
  cache_hit = ground (arith, k.cache_hit);
  fallback = ground (arith, k.fallback);
  queried = ground (arith, k.queried, kept_query acc.mode_used r.meta.mode_used);
}
combine_step c acc (inr err) rest out k = record {
  hits = k.hits;
  successes = k.successes;
  error = k.error ∙ first_of acc.first_err;
  degraded = k.degraded;
  cache_hit = k.cache_hit;
  fallback = k.fallback;
  queried = k.queried;
}
  where
    first_of :
        (o : Option String)
        → or_else (elim o [ none ↦ some err | some e ↦ some e ]) (first_error rest)
          ≡ or_else o (some err)
    first_of none = refl
    first_of (some e) = refl

-- The loop of searches leaves what the answers one after the other make.
pub search_each-IsCombined :
    (s : Surroundings) (cfg : Config) (req : SearchCoreRequest) (cs : List String) (acc : Combined)
    (o : Orchestrator)
    → IsCombined acc (answers s cfg req cs o).1 (search_each s cfg req cs acc o).1
      × ((search_each s cfg req cs acc o).0 ≡ (answers s cfg req cs o).0)
unfolding search_each
search_each-IsCombined s cfg req [] acc o = (
  record {
    hits = sym (append-nil acc.results);
    successes = omega arith;
    error = or_else-none acc.first_err;
    degraded = ground arith;
    cache_hit = ground arith;
    fallback = ground arith;
    queried = ground arith;
  },
  refl,
)
  where
    or_else-none : (o : Option String) → o ≡ or_else o none
    or_else-none none = refl
    or_else-none (some e) = refl
search_each-IsCombined s cfg req (c ∷ cs) acc o =
    let (o', answer) = search (s.at_search c) cfg (search_params s cfg req c) o in
    let (k, same) = search_each-IsCombined s cfg req cs (combine acc c answer) o' in
    (combine_step c acc answer (answers s cfg req cs o').1 _ k, same)
