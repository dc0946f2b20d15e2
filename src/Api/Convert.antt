-- ===== src/Api/Convert.antt =====
-- api/convert.go, and the conversions of api/grpc.go and api/admin_core.go.
pub mod Widths
use Prim.Native.String.{String}
use text.Mathlib.Text.{◌==◌ as str_eq}
use text.Mathlib.TextEquality.{eq_iff}
use qmdsr.Prelude.{
  ℕ, zero, suc, ◌+◌, ◌-◌, ◌*◌, ◌/◌, ◌%◌, ◌^◌, ◌≤◌, ◌<◌, min, max, ◌≡◌, refl, sym, ap, ◌∙◌, ◌≢◌, ◌↔◌,
  ◌⊎◌, inl, inr, Bool, true, false, not, ◌&&◌, ◌||◌, Option, none, some, List, [], ◌∷◌, ◌++◌, map,
  arith, ltb, leb, ◌==◌, if◌then◌else◌, ltb→lt, lt→ltb, leb→le, Bool-cases, pick_true, pick_false,
  Option-cases, length, take, replicate, select, exists, All, count, count_hit, count_miss,
  length-append, length-take, length-select-le, All-append, All-take,
}
use qmdsr.Prelude.Int.{
  ℤ, pos, negsuc, pos_part, neg_part, sub_ℕ, ◌≤ℤ◌, ltb_ℤ, leb_ℤ, is_zero, is_nonpos, is_pos,
}
use Prim.Native.String.{◌++◌ as str_append}
use qmdsr.Types.{SearchResult, SearchMeta}

unfoldable pub requested_mode_to_orchestrator_mode : String → String
requested_mode_to_orchestrator_mode mode =
    if str_eq mode "core" || str_eq mode "broad"
    then "search"
    else if str_eq mode "deep"
    then "query"
    else "auto"

-- `lower` and `trim` are `strings.ToLower` and `strings.TrimSpace`.
unfoldable pub normalize_requested_mode : (String → String) → (String → String) → String → String
normalize_requested_mode lower trim mode =
    let m = lower (trim mode) in
    if str_eq m "core" || str_eq m "search"
    then "core"
    else if str_eq m "broad" || str_eq m "vsearch"
    then "broad"
    else if str_eq m "deep" || str_eq m "query"
    then "deep"
    else "auto"

-- `set[c] = struct{}{}`, for a set of texts.
unfoldable pub add_to_set : String → List String → List String
add_to_set c set = if exists (str_eq c) set then set else c ∷ set

-- The loop of `normalizeCollections`.
unfoldable pub collect_names : (String → String) → List String → List String → List String
collect_names trim set [] = set
collect_names trim set (c ∷ cs) =
    collect_names trim (if str_eq (trim c) "" then set else add_to_set (trim c) set) cs

-- `sort_texts` is `sort.Strings`.
unfoldable pub sorted_keys : (List String → List String) → List String → List String
sorted_keys sort_texts set = if length set == 0 then [] else sort_texts set

unfoldable pub normalize_collections :
    (List String → List String) → (String → String) → List String → List String
normalize_collections sort_texts trim cols =
    if length cols == 0 then [] else sorted_keys sort_texts (collect_names trim [] cols)

unfoldable pub derive_served_mode : String → String → Bool → Bool → String
derive_served_mode requested_mode mode_used fallback_triggered degraded =
    if str_eq mode_used "query"
    then "deep"
    else if str_eq requested_mode "deep"
    then "broad"
    else if str_eq requested_mode "broad"
    then "broad"
    else if str_eq requested_mode "core"
    then (if fallback_triggered then "broad" else "core")
    else if fallback_triggered || degraded
    then "broad"
    else "core"

-- A signed integer in decimals, and `%t`.
abbrev pub Show : Type 0
Show = ℤ → String

unfoldable pub show_bool : Bool → String
show_bool b = if b then "true" else "false"

unfoldable pub build_route_log : Show → String → Bool → String → SearchMeta → ℕ → ℕ → List String
build_route_log show requested_mode allow_fallback orchestrator_mode meta collection_count
      hit_count =
    str_append "requested_mode=" requested_mode
    ∷ str_append "orchestrator_mode=" orchestrator_mode
    ∷ str_append "allow_fallback=" (show_bool allow_fallback)
    ∷ str_append "collections=" (show (pos collection_count))
    ∷ str_append "mode_used=" meta.mode_used
    ∷ str_append "served_mode=" meta.served_mode
    ∷ str_append "degraded=" (show_bool meta.degraded)
    ∷ str_append "degrade_reason=" meta.degrade_reason
    ∷ str_append "hits=" (show (pos hit_count))
    ∷ str_append "cache_hit=" (show_bool meta.cache_hit)
    ∷ []

abbrev pub max_int32 : ℕ
max_int32 = 2147483647

-- A duration in nanoseconds, in units of `unit` nanoseconds.
unfoldable pub duration_to_int32 : ℕ → ℤ → ℕ
duration_to_int32 unit d =
    if is_nonpos d
    then 0
    else if ltb max_int32 (pos_part d / unit)
    then max_int32
    else pos_part d / unit

unfoldable pub duration_to_int32_milliseconds : ℤ → ℕ
duration_to_int32_milliseconds d = duration_to_int32 1_000_000 d

unfoldable pub duration_to_int32_seconds : ℤ → ℕ
duration_to_int32_seconds d = duration_to_int32 1_000_000_000 d

-- `math.MinInt32` is the negative number whose `negsuc` is `max_int32`.
unfoldable pub int_to_int32 : ℤ → ℤ
int_to_int32 value =
    if ltb_ℤ (pos max_int32) value
    then pos max_int32
    else if ltb_ℤ value (negsuc max_int32)
    then negsuc max_int32
    else value

-- The conversion `int32(value)`, which wraps around.
unfoldable pub wrap_int32 : ℤ → ℤ
wrap_int32 value =
    let m : ℕ = elim value [ pos n ↦ n % 4294967296 | negsuc n ↦ 4294967295 - n % 4294967296 ] in
    if ltb max_int32 m then negsuc (4294967295 - m) else pos m

-- The enumerations of the messages, as the handlers see them.
pub data Mode : Type 0 where
  mode_unspecified mode_core mode_broad mode_deep mode_auto : Mode

pub data ServedMode : Type 0 where
  served_unspecified served_core served_broad served_deep : ServedMode

unfoldable pub requested_mode_from_proto : Mode → String
requested_mode_from_proto mode_core = "core"
requested_mode_from_proto mode_broad = "broad"
requested_mode_from_proto mode_deep = "deep"
requested_mode_from_proto mode_auto = "auto"
requested_mode_from_proto mode_unspecified = "auto"

unfoldable pub allow_fallback_from_proto : Bool → String → Bool → Bool
allow_fallback_from_proto allow_fallback requested_mode fallback_default =
    if allow_fallback
    then true
    else if str_eq requested_mode "deep" || str_eq requested_mode "broad"
    then true
    else if str_eq requested_mode "core"
    then false
    else fallback_default

unfoldable pub served_mode_to_proto : (String → String) → (String → String) → String → ServedMode
served_mode_to_proto lower trim mode =
    let m = lower (trim mode) in
    if str_eq m "deep" || str_eq m "query"
    then served_deep
    else if str_eq m "broad" || str_eq m "search" || str_eq m "vsearch"
    then served_broad
    else if str_eq m "core"
    then served_core
    else served_unspecified

pub record Hit : Type 0 where
  pub uri : String
  pub title : String
  pub snippet : String
  pub score : ℤ
  pub collection : String

unfoldable pub to_proto_hits : List SearchResult → List Hit
to_proto_hits [] = []
to_proto_hits (r ∷ rs) =
    record {
      uri = r.file;
      title = r.title;
      snippet = r.snippet;
      score = r.score;
      collection = r.collection;
    }
    ∷ to_proto_hits rs

-- `normalizeTraceID`, with the identifier that would be generated.
unfoldable pub normalize_trace_id : (String → String) → String → String → String
normalize_trace_id trim generated trace_id =
    if str_eq (trim trace_id) "" then generated else trim trace_id
