-- ===== src/Orchestrator/Tiers.antt =====
-- orchestrator/orchestrator.go: the parameters of a search, what the world does in it, and the searches
-- of the collections of a tier.
use Prim.Native.String.{String}
use text.Mathlib.Text.{◌==◌ as str_eq}
use qmdsr.Prelude.{
  ℕ, ◌⊎◌, inl, inr, Bool, true, false, not, ◌&&◌, Option, none, some, List, [], ◌∷◌, ◌++◌, ltb,
  ◌==◌, if◌then◌else◌, length, select,
}
use qmdsr.Prelude.Int.{ℤ, pos, leb_ℤ, is_nonpos}
use qmdsr.Types.{Score, SearchResult, SearchMeta}
use qmdsr.Cache.{Cache}
use qmdsr.Config.{Config, CollectionCfg, SearchConfig}
use qmdsr.Router.{Strings}
use qmdsr.Orchestrator.Negative.{Texts, DeepNeg, join}
use qmdsr.Orchestrator.Exclude.{Paths, filter_exclude}
use qmdsr.Orchestrator.Results.{Library, filter_min_score, finalize_results}

pub record SearchParams : Type 0 where
  pub query : String
  pub mode : String
  pub collection : String
  pub n : ℤ
  pub min_score : Score
  pub fallback : Bool
  pub files_only : Bool
  pub files_all : Bool
  pub disable_deep_escalation : Bool
  pub confirm : Bool

pub record SearchOpts : Type 0 where
  pub collection : String
  pub n : ℤ
  pub min_score : Score
  pub full : Bool
  pub files_only : Bool
  pub all : Bool

-- A search's results, or an error's text.
abbrev pub Answer : Type 0
Answer = List SearchResult ⊎ String

-- `orchestrator.SearchResult`.
pub record Served : Type 0 where
  pub results : List SearchResult
  pub meta : SearchMeta

-- What the rest of the world does in one search: the standard library; the backend's commands and
-- capabilities; the error of the queue for a token, if it has one; the order in which the goroutines
-- of a tier take the lock; the CPU flag; and the times.
pub record World : Type 0 where
  pub strings : Strings
  pub texts : Texts
  pub library : Library
  pub has_capability : String → Bool
  pub search : String → SearchOpts → Answer
  pub vsearch : String → SearchOpts → Answer
  pub deep_query : String → SearchOpts → Answer
  pub token_error : String → String → Option String
  pub schedule : List CollectionCfg → List CollectionCfg
  pub paths : Paths
  pub overloaded : Bool
  pub quote : String → String
  pub format_score : Score → String
  pub format_int : ℤ → String
  pub started_at : ℕ
  pub now : ℕ
  pub split : String → List String

-- The fields of `Orchestrator` that a search changes, but for the counters of its observations.
pub record Orchestrator : Type 0 where
  pub cache : Cache
  pub deep_neg : DeepNeg

unfoldable pub format_bool : Bool → String
format_bool b = if b then "true" else "false"

unfoldable pub make_cache_key : World → SearchParams → String
make_cache_key w p = join "|" (
    w.quote p.query
    ∷ p.mode
    ∷ p.collection
    ∷ w.format_score p.min_score
    ∷ w.format_int p.n
    ∷ format_bool p.fallback
    ∷ format_bool p.files_only
    ∷ format_bool p.files_all
    ∷ [])

unfoldable pub effective_coarse_k : SearchConfig → ℤ
effective_coarse_k cfg = if is_nonpos cfg.coarse_k then pos 20 else cfg.coarse_k

unfoldable pub search_opts : SearchConfig → SearchParams → String → SearchOpts
search_opts cfg p collection = record {
  collection = collection;
  n = if p.files_only && p.files_all then pos 0 else effective_coarse_k cfg;
  min_score = p.min_score;
  full = false;
  files_only = p.files_only;
  all = p.files_only && p.files_all;
}

unfoldable pub exec_search : World → SearchConfig → String → String → SearchParams → Answer
exec_search w cfg mode collection p =
    let opts = search_opts cfg p collection in
    elim (w.token_error mode collection) [
      | some err ↦ inr err
      | none ↦
          if str_eq mode "vsearch"
          then w.vsearch p.query opts
          else if str_eq mode "query"
          then w.deep_query p.query opts
          else w.search p.query opts
    ]

unfoldable pub find_collection : String → List CollectionCfg → Option CollectionCfg
find_collection name [] = none
find_collection name (c ∷ cs) = if str_eq c.name name then some c else find_collection name cs

unfoldable pub collections_by_tier : ℤ → List CollectionCfg → List CollectionCfg
collections_by_tier tier cs =
    select (λ c. leb_ℤ c.tier tier && leb_ℤ tier c.tier && not c.require_explicit) cs

-- `searchTierParallel`, over the collections in the order in which their goroutines end: the results,
-- the collections that answered, and the first error.
unfoldable pub search_tier_from :
    World
    → SearchConfig
    → String
    → SearchParams
    → List CollectionCfg
    → List SearchResult × List String × Option String
search_tier_from w cfg mode p [] = ([], [], none)
search_tier_from w cfg mode p (c ∷ cs) =
    let (results, searched, err) = search_tier_from w cfg mode p cs in
    elim (exec_search w cfg mode c.name p) [
      | inr e ↦ (results, searched, some e)
      | inl found ↦ (filter_exclude w.paths c found ++ results, c.name ∷ searched, err)
    ]

unfoldable pub search_tier_parallel :
    World
    → SearchConfig
    → String
    → SearchParams
    → List CollectionCfg
    → List SearchResult × List String × Option String
search_tier_parallel w cfg mode p cs = search_tier_from w cfg mode p (w.schedule cs)

unfoldable pub search_primary :
    World → Config → SearchParams → String → List SearchResult × List String × Bool
search_primary w cfg p mode =
    let (all, searched, err) =
      search_tier_parallel w cfg.search mode p (collections_by_tier (pos 1) cfg.collections) in
    let filtered = filter_min_score all p.min_score in
    let tier2 = collections_by_tier (pos 2) cfg.collections in
    let (all2, searched2, err2) = search_tier_parallel w cfg.search mode p tier2 in
    if length filtered == 0 && p.fallback && cfg.search.fallback_enabled && ltb 0 (length tier2)
    then (filter_min_score all2 p.min_score, searched ++ searched2, true)
    else (filtered, searched, false)

unfoldable pub finalized : World → Config → SearchParams → List SearchResult → List SearchResult
finalized w cfg p results =
    finalize_results w.library cfg.search results p.n p.files_only p.files_all

unfoldable pub search_broad_all :
    World → Config → SearchParams → List SearchResult × List String × Bool
search_broad_all w cfg p =
    let (filtered, searched, fallback) = search_primary w cfg p "search" in
    (finalized w cfg p filtered, searched, fallback)

unfoldable pub search_deep_tier1 :
    World → Config → SearchParams → (List SearchResult × List String) ⊎ String
search_deep_tier1 w cfg p =
    let tier1 = collections_by_tier (pos 1) cfg.collections in
    let (results, searched, err) = search_tier_parallel w cfg.search "query" p tier1 in
    if length tier1 == 0 then inr "no tier-1 collection configured" else elim err [
      | none ↦ inl (results, searched)
      | some e ↦ if length results == 0 then inr e else inl (results, searched)
    ]
