-- ===== src/Orchestrator/Search/Safety.antt =====
-- orchestrator/orchestrator.go: what an answer has, and what becomes of it in the cache.
use Prim.Native.String.{String}
use text.Mathlib.Text.{◌==◌ as str_eq}
use qmdsr.Prelude.{
  ◌≤◌, ◌≡◌, refl, sym, ap, ◌∙◌, inl, inr, true, false, ◌&&◌, none, some, Bool-cases, length,
}
use qmdsr.Prelude.Int.{pos_part, sub_ℕ, ◌≤ℤ◌, is_nonpos, is_pos}
use qmdsr.Cache
use qmdsr.Cache.{Cache, Entry}
use qmdsr.Cache.Coherence.{IsCoherent}
use qmdsr.Config.{Config, CollectionCfg}
use qmdsr.Orchestrator.Tiers.{
  SearchParams, Served, World, Orchestrator, make_cache_key, finalized, find_collection,
}
use qmdsr.Orchestrator.Search.{
  Outcome, entry_of, served, confirm_error, cache_and_build, is_guarded, search_single,
  search_single_deep, collections_of, with_defaults, search_fresh, search,
}
use mathlib.Core.Path.{subst}
use mathlib.Core.Sum.{inl-injective, inl-ne-inr}
use qmdsr.Cache.Coherence.{get-IsCoherent}
use qmdsr.Cache.Methods.{get_settings, get-put_self}
use qmdsr.Searchutil.Dedup.{IsSort}
use qmdsr.Orchestrator.Routing.{resolve_mode}
use qmdsr.Orchestrator.Results.Budget.{total_chars, finalize_results_lem}
use qmdsr.Orchestrator.Search.Answers.{IsClosed, search_fresh-closed}

search_miss :
    (w : World) (cfg : Config) (params : SearchParams) (o : Orchestrator)
    → let key = make_cache_key w (with_defaults cfg.search params) in
      (Cache.get o.cache key w.started_at).1 ≡ none
      → search w cfg params o
        ≡ search_fresh w cfg
            (with_defaults cfg.search params)
            key
            (record o { cache = (Cache.get o.cache key w.started_at).0 })
unfolding search
search_miss w cfg params o q = rw (q, search) refl

-- What is true of an answer, if there is one.
OfAnswer : (Orchestrator → Served → Type 0) → Outcome → Type 0
OfAnswer P (o, inl s) = P o s
OfAnswer P (o, inr err) = Unit

of_answer :
    (P : Orchestrator → Served → Type 0) (out : Outcome) (s : Served)
    → OfAnswer P out
    → out.1 ≡ inl s
    → P out.0 s
unfolding OfAnswer
of_answer P (o, inl t) s h q = subst (λ x. P o x) (inl-injective t s q) h
of_answer P (o, inr err) s h q = absurd (inl-ne-inr (sym q))

-- If the sort sorts, the search is not one for all files, and the number of hits asked for, or else the
-- default, is positive: an answer that is not from the cache has no more hits than that; one of whole
-- hits keeps within the characters that the configuration allows, if it limits them.
pub search_bounded :
    (w : World) (cfg : Config) (params : SearchParams) (o : Orchestrator) (s : Served)
    → let p = with_defaults cfg.search params in
      IsSort w.library.tools.sort_desc
      → (p.files_only && p.files_all) ≡ false
      → is_pos p.n ≡ true
      → (Cache.get o.cache (make_cache_key w p) w.started_at).1 ≡ none
      → (search w cfg params o).1 ≡ inl s
      → (length s.results ≤ pos_part p.n)
        × (p.files_only ≡ false
            → is_nonpos cfg.search.max_chars ≡ false
            → total_chars s.results ≤ pos_part cfg.search.max_chars)
search_bounded w cfg params o s sort some_files lim miss q =
    let p = with_defaults cfg.search params in
    let key = make_cache_key w p in
    let o' = record o { cache = (Cache.get o.cache key w.started_at).0 } in
    let P = λ (o : Orchestrator) (s : Served).
      (length s.results ≤ pos_part p.n)
      × (p.files_only ≡ false
          → is_nonpos cfg.search.max_chars ≡ false
          → total_chars s.results ≤ pos_part cfg.search.max_chars) in
    let closed : IsClosed w cfg p key o' (OfAnswer P) =
      unfold OfAnswer cache_and_build served finalized in
      record {
        fail = λ err. tt;
        build = λ neg found mode searched fallback degraded reason.
            let r =
              finalize_results_lem w.library cfg.search found p.n p.files_only p.files_all sort
                lim in
            (r.0, r.1);
      } in
    of_answer P (search_fresh w cfg p key o') s
      (search_fresh-closed w cfg p key o' (OfAnswer P) closed)
      (ap (λ (x : Outcome). x.1) (sym (search_miss w cfg params o miss)) ∙ q)

-- What an answer left in the cache: an entry with its results, its mode and its reason.
abbrev Stored : World → String → Cache → Orchestrator → Served → Type 0
Stored w key c o s =
    (e : Entry) × (o.cache ≡ Cache.put c key e w.now)
    × (e.results ≡ s.results)
    × (e.mode ≡ s.meta.mode_used)
    × (e.degrade_reason ≡ s.meta.degrade_reason)

fresh-Stored :
    (w : World) (cfg : Config) (p : SearchParams) (key : String) (o : Orchestrator) (s : Served)
    → (search_fresh w cfg p key o).1 ≡ inl s
    → Stored w key o.cache (search_fresh w cfg p key o).0 s
fresh-Stored w cfg p key o s q =
    let closed : IsClosed w cfg p key o (OfAnswer (Stored w key o.cache)) =
      unfold OfAnswer cache_and_build served entry_of in
      record {
        fail = λ err. tt;
        build = λ neg found mode searched fallback degraded reason. (
          entry_of key (finalized w cfg p found) mode searched fallback degraded reason,
          refl,
          refl,
          refl,
          refl,
        );
      } in
    of_answer (Stored w key o.cache) (search_fresh w cfg p key o) s
      (search_fresh-closed w cfg p key o (OfAnswer (Stored w key o.cache)) closed) q

search_hit :
    (w : World) (cfg : Config) (params : SearchParams) (o : Orchestrator) (e : Entry)
    → let key = make_cache_key w (with_defaults cfg.search params) in
      (Cache.get o.cache key w.started_at).1 ≡ some e
      → (search w cfg params o).1
        ≡ inl (
            served w e.results e.mode
              (collections_of w e.collection)
              e.fallback_triggered
              true
              e.degraded
              e.degrade_reason)
unfolding search
search_hit w cfg params o e q = rw (q, search) refl

-- An answer that is not from the cache, which is coherent and enabled, is there afterwards: within the
-- time to live, every search with the same cache key and the same `confirm`, whatever the backend does,
-- is answered from the cache, with the same results, mode and reason.
pub search_again :
    (w w' : World) (cfg : Config) (params params' : SearchParams) (o : Orchestrator) (s : Served)
    → let key = make_cache_key w (with_defaults cfg.search params) in
      IsCoherent o.cache
      → o.cache.enabled ≡ true
      → (Cache.get o.cache key w.started_at).1 ≡ none
      → make_cache_key w' (with_defaults cfg.search params') ≡ key
      → params'.confirm ≡ params.confirm
      → sub_ℕ w'.started_at w.now ≤ℤ o.cache.ttl
      → (search w cfg params o).1 ≡ inl s
      → (s' : Served) × ((search w' cfg params' (search w cfg params o).0).1 ≡ inl s')
        × (s'.meta.cache_hit ≡ true)
        × (s'.results ≡ s.results)
        × (s'.meta.mode_used ≡ s.meta.mode_used)
        × (s'.meta.degrade_reason ≡ s.meta.degrade_reason)
search_again w w' cfg params params' o s g on miss same alike young q =
    let p = with_defaults cfg.search params in
    let key = make_cache_key w p in
    let got = (Cache.get o.cache key w.started_at).0 in
    let o1 = record o { cache = got } in
    let m = search_miss w cfg params o miss in
    let (e, put, results, mode, reason) =
      fresh-Stored w cfg p key o1 s (ap (λ (x : Outcome). x.1) (sym m) ∙ q) in
    let (same_enabled, same_ttl, same_version, same_aware) =
      get_settings o.cache key w.started_at in
    let stamped = Cache.stamp got e w.now in
    let hit : (Cache.get (Cache.put got key e w.now) key w'.started_at).1 ≡ some stamped =
      get-put_self got key e w.now w'.started_at (get-IsCoherent o.cache key w.started_at g)
        (same_enabled ∙ on) (rw same_ttl young) in
    let o2 = (search w cfg params o).0 in
    let left : o2.cache ≡ Cache.put got key e w.now = ap (λ (x : Outcome). x.0.cache) m ∙ put in
    let found : (Cache.get o2.cache (make_cache_key w' (with_defaults cfg.search params'))
          w'.started_at).1
        ≡ some stamped =
      rw (same, left) hit in
    (
      served w' stamped.results stamped.mode (collections_of w' stamped.collection)
          stamped.fallback_triggered true stamped.degraded stamped.degrade_reason,
      search_hit w' cfg params' o2 stamped found,
      unfold served in refl,
      unfold served Cache.stamp in results,
      unfold served Cache.stamp in mode,
      unfold served Cache.stamp in reason,
    )

guarded_single :
    (w : World) (cfg : Config) (p : SearchParams) (mode key : String) (o : Orchestrator)
    (c : CollectionCfg)
    → find_collection p.collection cfg.collections ≡ some c
    → is_guarded c p ≡ true
    → (search_single w cfg p mode key o ≡ (o, inr (confirm_error w p.collection)))
      × (search_single_deep w cfg p key o ≡ (o, inr (confirm_error w p.collection)))
unfolding search_single search_single_deep
guarded_single w cfg p mode key o c found guarded =
    (rw (found, guarded, search_single) refl, rw (found, guarded, search_single_deep) refl)

-- A collection that must be confirmed is not searched without `confirm`: if nothing is cached, the
-- search is an error, whatever the mode, and only the lookup has changed the cache.
pub search_guarded :
    (w : World) (cfg : Config) (params : SearchParams) (o : Orchestrator) (c : CollectionCfg)
    → let p = with_defaults cfg.search params in
      let (cache, hit) = Cache.get o.cache (make_cache_key w p) w.started_at in
      str_eq p.collection "" ≡ false
      → find_collection p.collection cfg.collections ≡ some c
      → c.require_explicit ≡ true
      → c.safety_prompt ≡ true
      → p.confirm ≡ false
      → hit ≡ none
      → search w cfg params o ≡ (record o { cache = cache }, inr (confirm_error w p.collection))
unfolding search_fresh
search_guarded w cfg params o c named found explicit prompt asked miss =
    let p = with_defaults cfg.search params in
    let key = make_cache_key w p in
    let guarded : is_guarded c p ≡ true = unfold is_guarded in rw (explicit, prompt, asked) refl in
    let o1 = record o { cache = (Cache.get o.cache key w.started_at).0 } in
    let mode = resolve_mode w.strings cfg.runtime w.has_capability w.overloaded p.mode p.query in
    let (single, deep) = guarded_single w cfg p mode key o1 c found guarded in
    search_miss w cfg params o miss ∙ elim (Bool-cases (str_eq mode "query")) [
      | inl q ↦ rw (named, q) deep
      | inr q ↦ rw (named, q) single
    ]
