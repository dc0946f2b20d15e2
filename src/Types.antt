-- ===== src/Types.antt =====
-- model/types.go: the values that the components exchange. A score is a float64 in the source; here it
-- is an integer, in millionths, and every use of it is a comparison or a rendering.
use Prim.Native.String.{String}
use qmdsr.Prelude.{ℕ, Bool, List, ltb}
use qmdsr.Prelude.Int.{ℤ}

abbrev pub Score : Type 0
Score = ℤ

pub record SearchResult : Type 0 where
  pub title : String
  pub file : String
  pub collection : String
  pub score : Score
  pub snippet : String
  pub doc_id : String

pub record SearchMeta : Type 0 where
  pub mode_used : String
  pub served_mode : String
  pub collections_searched : List String
  pub fallback_triggered : Bool
  pub cache_hit : Bool
  pub degraded : Bool
  pub degrade_reason : String
  pub trace_id : String
  pub latency_ms : ℕ

pub record Document : Type 0 where
  pub file : String
  pub content : String

pub record CollectionInfo : Type 0 where
  pub name : String
  pub path : String
  pub mask : String
  pub files : ℤ

pub record PathContext : Type 0 where
  pub path : String
  pub description : String

pub data HealthLevel : Type 0 where
  healthy degraded unhealthy critical : HealthLevel

-- The number of a level, by which levels are compared.
abbrev pub rank : HealthLevel → ℕ
rank healthy = 0
rank degraded = 1
rank unhealthy = 2
rank critical = 3

abbrev pub level_gt : HealthLevel → HealthLevel → Bool
level_gt a b = ltb (rank b) (rank a)

unfoldable pub level_string : HealthLevel → String
level_string healthy = "healthy"
level_string degraded = "degraded"
level_string unhealthy = "unhealthy"
level_string critical = "critical"

-- But for the time of the last update, which nothing sets.
pub record IndexStatus : Type 0 where
  pub collections : List CollectionInfo
  pub vectors : ℤ
  pub raw : String
