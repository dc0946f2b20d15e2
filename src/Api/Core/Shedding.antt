-- ===== src/Api/Core/Shedding.antt =====
-- api/core.go: which requests are shed under critical overload.
use Prim.Native.String.{String}
use text.Mathlib.Text.{◌==◌ as str_eq}
use qmdsr.Prelude.{
  ◌≡◌, refl, ap, ◌∙◌, ◌≢◌, ◌↔◌, inl, inr, Bool, true, false, not, List, [], ◌∷◌, arith, Bool-cases,
  Option-cases, exists,
}
use qmdsr.Cache
use qmdsr.Cache.{Cache, Entry}
use qmdsr.Cache.Coherence.{IsCoherent, get-IsCoherent}
use qmdsr.Cache.Methods.{get_settings}
use qmdsr.Cache.Hits.{get_hit_keeps}
use qmdsr.Config.{Config}
use qmdsr.Prelude.Int.{is_nonpos, is_pos}
use qmdsr.Orchestrator.Tiers.{SearchParams, World, Orchestrator, make_cache_key}
use qmdsr.Orchestrator.Search.{with_defaults, lookup_key, is_found, has_cached_result}
use qmdsr.Api.Request.{
  SearchCoreRequest, Surroundings, effective_top_k, guarded_mode, final_mode,
  collections_of_request, lookup_params, search_params,
}
use qmdsr.Api.Core.{
  critical_overload_shed, Combined, all_cached, search_each, nothing_combined, conclude, search_all,
  execute_search_core,
}

-- A cache in order, and enabled.
abbrev pub IsReady : Orchestrator → Type 0
IsReady o = IsCoherent o.cache × (o.cache.enabled ≡ true)

has_cached_result-IsReady :
    (w : World) (cfg : Config) (p : SearchParams) (o : Orchestrator)
    → IsReady o
    → IsReady (has_cached_result w cfg.search p o).0
unfolding has_cached_result
has_cached_result-IsReady w cfg p o (g, on) =
    (get-IsCoherent o.cache _ w.now g, (get_settings o.cache _ w.now).0 ∙ on)

-- A lookup that finds an answer changes what no other lookup finds.
has_cached_result_keeps :
    (w v : World) (cfg : Config) (p q : SearchParams) (o : Orchestrator)
    → IsReady o
    → (has_cached_result w cfg.search p o).1 ≡ true
    → (has_cached_result v cfg.search q (has_cached_result w cfg.search p o).0).1
      ≡ (has_cached_result v cfg.search q o).1
unfolding has_cached_result
has_cached_result_keeps w v cfg p q o (g, on) hit =
    let key = lookup_key w cfg.search p in
    elim (Option-cases (Cache.get o.cache key w.now).1) [
      | inl none_found ↦ absurd (ground (arith, none_found, hit))
      | inr (e, found) ↦
          ap is_found (get_hit_keeps o.cache key w.now g on found (lookup_key v cfg.search q) v.now)
    ]

exists_same :
    (p q : String → Bool) (cs : List String)
    → ((c : String) → p c ≡ q c)
    → exists p cs ≡ exists q cs
exists_same p q [] h = refl
exists_same p q (c ∷ cs) h = rw (h c, exists_same p q cs h) refl

module _ (s : Surroundings) (cfg : Config) (req : SearchCoreRequest) where
  -- Whether the lookup for a collection of the request misses in this state.
  abbrev is_uncached : Orchestrator → String → Bool
  is_uncached o c =
      not (has_cached_result (s.at_lookup c) cfg.search (lookup_params s cfg req c) o).1

  all_cached_lem :
      (cs : List String) (o : Orchestrator)
      → IsReady o
      → (all_cached s cfg req cs o).1 ≡ not (exists (is_uncached o) cs)
  unfolding all_cached
  all_cached_lem [] o ready = refl
  all_cached_lem (c ∷ cs) o ready =
      let w = s.at_lookup c in
      let p = lookup_params s cfg req c in
      elim (Bool-cases (has_cached_result w cfg.search p o).1) [
        | inl hit ↦
            let o' = (has_cached_result w cfg.search p o).0 in
            let same = exists_same (is_uncached o') (is_uncached o) cs (λ d. ap not (
              has_cached_result_keeps w (s.at_lookup d) cfg p (lookup_params s cfg req d) o ready
                hit)) in
            rw (hit, all_cached_lem cs o' (has_cached_result-IsReady w cfg p o ready), same) refl
        | inr miss ↦ rw miss refl
      ]

  conclude_not_shed : (acc : Combined) → conclude s cfg req acc ≢ inr critical_overload_shed
  unfolding conclude
  conclude_not_shed acc = ground arith

  search_all_not_shed : (o : Orchestrator) → (search_all s cfg req o).1 ≢ inr critical_overload_shed
  unfolding search_all
  search_all_not_shed o =
      conclude_not_shed (search_each s cfg req (collections_of_request s req) nothing_combined o).1

  -- The key under which the search of a collection stores its answer.
  abbrev pub stored_key : String → String
  stored_key c =
      make_cache_key (s.at_search c) (with_defaults cfg.search (search_params s cfg req c))

  -- Whether no answer for a collection is stored in this state, as the request comes in.
  abbrev pub is_unstored : Orchestrator → String → Bool
  is_unstored o c = not (is_found (Cache.get o.cache (stored_key c) (s.at_lookup c).now).1)

  -- The lookup and the search of a collection print the parts of a key in the same way.
  abbrev pub PrintAlike : Type 0
  PrintAlike =
      (c : String) (p : SearchParams)
      → make_cache_key (s.at_lookup c) p ≡ make_cache_key (s.at_search c) p

  lookup_key-stored_key :
      (c : String)
      → PrintAlike
      → is_pos (effective_top_k cfg req) ≡ true
      → final_mode s cfg req ≡ guarded_mode s req
      → lookup_key (s.at_lookup c) cfg.search (lookup_params s cfg req c) ≡ stored_key c
  unfolding lookup_key lookup_params search_params with_defaults make_cache_key
  lookup_key-stored_key c alike lim mode =
      let some_hits : is_nonpos (effective_top_k cfg req) ≡ false = ground (arith, lim) in
      let params = with_defaults cfg.search (search_params s cfg req c) in
      let printed : lookup_key (s.at_lookup c) cfg.search (lookup_params s cfg req c)
          ≡ make_cache_key (s.at_lookup c) params =
        rw (some_hits, mode) refl in
      printed ∙ alike c params

  -- With a cache in order that is enabled, a positive number of hits asked for, and a deep gate that
  -- leaves the mode as it is: a request is shed exactly if it has a query, the overload is critical, and
  -- for one of its collections no answer is stored, under the key of its search, as the request comes
  -- in.
  pub shed_iff :
      (o : Orchestrator)
      → IsReady o
      → PrintAlike
      → is_pos (effective_top_k cfg req) ≡ true
      → final_mode s cfg req ≡ guarded_mode s req
      → ((execute_search_core s cfg req o).1 ≡ inr critical_overload_shed
          ↔ (str_eq (s.strings.trim req.query) "" ≡ false)
            × (s.critical ≡ true)
            × (exists (is_unstored o) (collections_of_request s req) ≡ true))
  unfolding execute_search_core has_cached_result
  shed_iff o ready alike lim mode =
      let collections = collections_of_request s req in
      let stored : exists (is_uncached o) collections ≡ exists (is_unstored o) collections =
        exists_same (is_uncached o) (is_unstored o) collections (λ c.
          ap (λ key. not (is_found (Cache.get o.cache key (s.at_lookup c).now).1))
            (lookup_key-stored_key c alike lim mode)) in
      let cached = all_cached_lem collections o ready ∙ ap not stored in
      let o' = (all_cached s cfg req collections o).0 in
      ground (arith, cached, search_all_not_shed o, search_all_not_shed o')
