-- ===== src/Orchestrator/Routing.antt =====
-- orchestrator/orchestrator.go with router/router.go: the mode in which a query is served.
pub mod Modes
mod Examples
use Prim.Native.String.{String}
use text.Mathlib.Text.{◌==◌ as str_eq}
use text.Mathlib.TextEquality.{eq_iff}
use qmdsr.Prelude.{
  ℕ, zero, suc, ◌+◌, ◌-◌, ◌*◌, ◌/◌, ◌%◌, ◌^◌, ◌≤◌, ◌<◌, min, max, ◌≡◌, refl, sym, ap, ◌∙◌, ◌≢◌, ◌↔◌,
  ◌⊎◌, inl, inr, Bool, true, false, not, ◌&&◌, ◌||◌, Option, none, some, List, [], ◌∷◌, ◌++◌, map,
  arith, ltb, leb, ◌==◌, if◌then◌else◌, ltb→lt, lt→ltb, leb→le, Bool-cases, pick_true, pick_false,
  Option-cases, length, take, replicate, select, exists, All, count, count_hit, count_miss,
  length-append, length-take, length-select-le, All-append, All-take,
}
use qmdsr.Prelude.Int.{
  ℤ, pos, negsuc, pos_part, neg_part, sub_ℕ, ◌≤ℤ◌, ltb_ℤ, leb_ℤ, is_zero, is_nonpos, is_pos,
}
use qmdsr.Prelude.Text.{rune_count}
use qmdsr.Config.{RuntimeConfig}
use qmdsr.Textutil.{count_cjk, max_fields_or_cjk}
use qmdsr.Router.{Strings, detect_mode}

abbrev pub question_cues : List String
question_cues =
    "如何" ∷ "怎么" ∷ "怎样" ∷ "什么" ∷ "为什么" ∷ "为何" ∷ "是否" ∷ "能不能" ∷ "可以" ∷ "应该" ∷ "?" ∷ "？" ∷ "how "
    ∷ "what " ∷ "why " ∷ "when " ∷ "where " ∷ "which " ∷ "should " ∷ []

abbrev pub abstract_cues : List String
abstract_cues =
    "方案" ∷ "架构" ∷ "规划" ∷ "体系" ∷ "框架" ∷ "设计" ∷ "tradeoff" ∷ "strategy" ∷ "architecture" ∷ "design"
    ∷ "plan" ∷ "migration" ∷ "roadmap" ∷ []

unfoldable pub has_question_cue : Strings → String → Bool
has_question_cue t s = exists (t.contains (t.lower s)) question_cues

unfoldable pub count_abstract_cues : Strings → String → ℕ
count_abstract_cues t s = count (t.contains (t.lower s)) abstract_cues

-- `limit > 0 && n > limit`.
unfoldable pub is_beyond : ℤ → ℕ → Bool
is_beyond limit n = is_pos limit && ltb_ℤ limit (pos n)

unfoldable pub allow_auto_deep_query : Strings → RuntimeConfig → String → Bool
allow_auto_deep_query t r query =
    let q = t.trim query in
    let chars = rune_count q in
    let words = max_fields_or_cjk t.fields q in
    let cues = count_abstract_cues t q in
    if not (r.low_resource_mode && r.allow_cpu_deep_query && r.smart_routing)
    then true
    else if str_eq q ""
    then false
    else if ltb_ℤ (pos chars) r.cpu_deep_min_chars
    then false
    else if is_beyond r.cpu_deep_max_chars chars
    then false
    else if is_beyond r.cpu_deep_max_words words
    then false
    else if is_beyond r.cpu_deep_max_abstract_cues cues
    then false
    else if leb 20 words && ltb 0 cues
    then false
    else if leb_ℤ r.cpu_deep_min_words (pos words)
    then true
    else if has_question_cue t q
    then leb 4 words || leb 6 (count_cjk q)
    else false

abbrev pub is_auto : String → Bool
is_auto requested = str_eq requested "" || str_eq requested "auto"

-- The mode asked for, or detected.
unfoldable pub wanted_mode : Strings → (String → Bool) → String → String → String
wanted_mode t has_capability requested query =
    if is_auto requested
    then detect_mode t query (has_capability "vector") (has_capability "deep_query")
    else requested

unfoldable pub resolve_mode :
    Strings → RuntimeConfig → (String → Bool) → Bool → String → String → String
resolve_mode t r has_capability overloaded requested query =
    let mode = wanted_mode t has_capability requested query in
    if overloaded && not (str_eq mode "search")
    then "search"
    else if str_eq mode "query"
    then (if not (has_capability "deep_query")
        then "search"
        else if is_auto requested && not (allow_auto_deep_query t r query)
        then "search"
        else mode)
    else if str_eq mode "vsearch"
    then (if not (has_capability "vector") then "search" else mode)
    else mode
