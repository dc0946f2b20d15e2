-- ===== src/Orchestrator/Search/Answers.antt =====
-- orchestrator/orchestrator.go: every way in which a search that finds nothing cached can end.
use Prim.Native.String.{String}
use qmdsr.Prelude.{
  ◌⊎◌, inl, inr, Bool, true, false, not, Option, none, some, List, [], ◌==◌, if◌then◌else◌, length,
}
use qmdsr.Types.{SearchResult}
use qmdsr.Config.{Config, CollectionCfg}
use qmdsr.Orchestrator.Negative
use qmdsr.Orchestrator.Negative.{DeepNeg}
use qmdsr.Orchestrator.Results.{filter_min_score}
use qmdsr.Orchestrator.Tiers.{
  SearchParams, World, Orchestrator, exec_search, search_primary, finalized, search_broad_all,
  search_deep_tier1, find_collection,
}
use qmdsr.Orchestrator.Search.{
  Outcome, cache_and_build, is_guarded, of_collection, search_single, broad_of, mark_failed,
  search_single_deep, search_deep, may_escalate, search_fallback, search_fresh,
}

module _ (w : World) (cfg : Config) (p : SearchParams) (key : String) (o : Orchestrator) where
  -- A property of all outcomes: of every error that changes nothing, and of every answer of finished
  -- hits that is put into the cache, whatever became of the deep-negative cache.
  pub record IsClosed (P : Outcome → Type 0) : Type 0 where
    pub fail : (err : String) → P (o, inr err)
    pub build :
        (neg : DeepNeg) (found : List SearchResult) (mode : String) (searched : List String)
        (fallback degraded : Bool) (reason : String)
        → P (
            cache_and_build w
              (record o { deep_neg = neg })
              key
              (finalized w cfg p found)
              mode
              searched
              fallback
              degraded
              reason)

  module _ (P : Outcome → Type 0) (c : IsClosed P) where
    by_if : (b : Bool) {x y : Outcome} → P x → P y → P (if b then x else y)
    by_if true hx hy = hx
    by_if false hx hy = hy

    by_option :
        {A : Type 0} (a : Option A) {x : Outcome} {f : A → Outcome}
        → P x
        → ((a : A) → P (f a))
        → P (elim a [ none ↦ x | some a ↦ f a ])
    by_option none hx hf = hx
    by_option (some a) hx hf = hf a

    by_sum :
        {A : Type 0} (a : A ⊎ String) {f : A → Outcome} {g : String → Outcome}
        → ((a : A) → P (f a))
        → ((e : String) → P (g e))
        → P (elim a [ inl a ↦ f a | inr e ↦ g e ])
    by_sum (inl a) hf hg = hf a
    by_sum (inr e) hf hg = hg e

    search_single-closed : (mode : String) → P (search_single w cfg p mode key o)
    unfolding search_single of_collection
    search_single-closed mode =
        by_option (find_collection p.collection cfg.collections) (c.fail _) (λ col.
          by_if (is_guarded col p) (c.fail _) (
            by_sum (exec_search w cfg.search mode p.collection p)
              (λ results. c.build o.deep_neg _ _ _ _ _ _) (λ err. c.fail err)))

    search_single_deep-closed : P (search_single_deep w cfg p key o)
    unfolding search_single_deep of_collection broad_of mark_failed
    search_single_deep-closed =
        by_option (find_collection p.collection cfg.collections) (c.fail _) (λ col.
          by_if (is_guarded col p) (c.fail _) (
            by_if _ (broad col _ _ _ _) (
              by_sum (exec_search w cfg.search "query" p.collection p)
                (λ found. by_if _ (broad col _ _ _ _) (c.build _ _ _ _ _ _ _))
                (λ err. broad col _ _ _ _))))
      where
        broad :
            (col : CollectionCfg) (neg : DeepNeg) (searched : List String) (degraded : Bool)
            (reason : String)
            → P (
                cache_and_build w
                  (record o { deep_neg = neg })
                  key
                  (broad_of w cfg p col)
                  "search"
                  searched
                  false
                  degraded
                  reason)
        broad col neg searched degraded reason =
            elim (exec_search w cfg.search "search" p.collection p)
              as (λ a. P (
                cache_and_build w (record o { deep_neg = neg }) key
                  (elim a as (λ _. List SearchResult) [
                    | inr err ↦ of_collection w cfg p col []
                    | inl results ↦ of_collection w cfg p col results
                  ])
                  "search" searched false degraded reason)) [
                    | inl results ↦ c.build _ _ _ _ _ _ _
                    | inr err ↦ c.build _ _ _ _ _ _ _
                  ]

    search_deep-closed : P (search_deep w cfg p key o)
    unfolding search_deep search_broad_all mark_failed
    search_deep-closed = by_if _ (c.build _ _ _ _ _ _ _) (
        by_sum (search_deep_tier1 w cfg p)
          (λ found. by_if _ (c.build _ _ _ _ _ _ _) (c.build _ _ _ _ _ _ _))
          (λ err. c.build _ _ _ _ _ _ _))

    search_fallback-closed : (mode : String) → P (search_fallback w cfg p mode key o)
    unfolding search_fallback mark_failed
    search_fallback-closed mode =
        let (filtered, searched, fallback) = search_primary w cfg p mode in
        let (neg, skip, reason) =
          Negative.should_skip w.texts cfg.runtime p.query "all" w.now o.deep_neg in
        let o' = record o { deep_neg = neg } in
        let deep = λ (found : List SearchResult). filter_min_score found p.min_score in
        by_if (not (may_escalate w cfg p mode filtered))
          (c.build o.deep_neg filtered mode searched fallback false "")
          (by_if skip (c.build neg filtered mode searched fallback true reason) (
            by_sum (search_deep_tier1 w cfg p)
              (λ found.
                by_if (length (deep found.0) == 0)
                  (c.build neg filtered mode searched fallback true "deep_empty_fallback_broad")
                  (c.build neg (deep found.0) "query" found.1 fallback false ""))
              (λ err.
                c.build (mark_failed w cfg p.query "all" o').deep_neg filtered mode searched
                  fallback true "deep_failed_fallback_broad")))

    pub search_fresh-closed : P (search_fresh w cfg p key o)
    unfolding search_fresh
    search_fresh-closed =
        by_if _ (by_if _ search_single_deep-closed (search_single-closed _))
          (by_if _ search_deep-closed (search_fallback-closed _))
