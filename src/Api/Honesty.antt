-- ===== src/Api/Honesty.antt =====
-- api/grpc.go: what an answer to a search says of how it was served.
use Prim.Native.String.{String}
use text.Mathlib.Text.{◌==◌ as str_eq}
use text.Mathlib.TextEquality.{eq_iff}
use qmdsr.Prelude.{
  ◌≡◌, refl, sym, ap, ◌∙◌, ◌≢◌, ◌↔◌, ◌⊎◌, inl, inr, Bool, true, false, not, List, arith,
  if◌then◌else◌,
}
use mathlib.Core.Bool.{true≢false}
use mathlib.Core.Path.{subst}
use mathlib.Core.Sum.{inl-ne-inr, inl-injective}
use qmdsr.Config.{Config}
use qmdsr.Orchestrator.Tiers.{Orchestrator}
use qmdsr.Api.Convert.{
  Mode, mode_deep, served_unspecified, served_core, served_broad, served_deep,
  requested_mode_from_proto, normalize_requested_mode, served_mode_to_proto,
}
use qmdsr.Api.Request.{
  SearchCoreRequest, Surroundings, requested_mode_of, collections_of_request, gate_rejects,
  pre_degrade_reason,
}
use qmdsr.Api.Core.{SearchCoreResult, ApiError, all_cached, search_all, execute_search_core}
use qmdsr.Api.Core.Outcome.{IsAnswer, IsServedMode, search_all_lem}
use qmdsr.Api.Core.Answers.{SearchAnswer, answers, of_some}
use qmdsr.Api.Errors.{StatusError, map_search_error}
use qmdsr.Api.Handlers.{
  SearchRequest, SearchResponse, Service, trace_id_from_context, to_proto_search_response,
  core_request, handle_search,
}

abbrev Outcome : Type 0
Outcome = Orchestrator × (SearchCoreResult ⊎ ApiError)

chosen :
    (blank critical hit : Bool) (o o' : Orchestrator) (run : Orchestrator → Outcome) (x w : Outcome)
    {c : SearchCoreResult}
    → x.1 ≢ inl c
    → w.1 ≢ inl c
    → (if blank then x else if not critical then run o else if hit then run o' else w).1 ≡ inl c
    → (run (if critical then o' else o)).1 ≡ inl c
chosen true critical hit o o' run x w nx nw q = absurd (nx q)
chosen false false hit o o' run x w nx nw q = q
chosen false true true o o' run x w nx nw q = q
chosen false true false o o' run x w nx nw q = absurd (nw q)

-- The state in which the searches of a request start: under critical overload, after the lookups.
abbrev pub searched_from : Surroundings → Config → SearchCoreRequest → Orchestrator → Orchestrator
searched_from s cfg req o =
    if s.critical then (all_cached s cfg req (collections_of_request s req) o).0 else o

-- The answers for the collections of a request.
abbrev pub answers_of : Surroundings → Config → SearchCoreRequest → Orchestrator → List SearchAnswer
answers_of s cfg req o =
    (answers s cfg req (collections_of_request s req) (searched_from s cfg req o)).1

-- An answer of the search core is one of its searches.
search_of_core :
    (s : Surroundings) (cfg : Config) (req : SearchCoreRequest) (o : Orchestrator)
    {c : SearchCoreResult}
    → (execute_search_core s cfg req o).1 ≡ inl c
    → (search_all s cfg req (searched_from s cfg req o)).1 ≡ inl c
unfolding execute_search_core
search_of_core s cfg req o {c} q =
    let (o', hit) = all_cached s cfg req (collections_of_request s req) o in
    chosen (str_eq (s.strings.trim req.query) "") s.critical hit o o' (search_all s cfg req) _ _
      (λ e. inl-ne-inr (sym e)) (λ e. inl-ne-inr (sym e)) q

core-IsAnswer :
    (s : Surroundings) (cfg : Config) (req : SearchCoreRequest) (o : Orchestrator)
    {c : SearchCoreResult}
    → (execute_search_core s cfg req o).1 ≡ inl c
    → IsAnswer s cfg req (answers_of s cfg req o) c
core-IsAnswer s cfg req o {c} q =
    let q' = search_of_core s cfg req o q in
    elim (search_all_lem s cfg req (searched_from s cfg req o)) [
      | inl (none_succeeds, (e, first, err)) ↦ absurd (inl-ne-inr (sym q' ∙ err))
      | inr (some_succeeds, (r, same, k)) ↦
          subst (λ x. IsAnswer s cfg req (answers_of s cfg req o) x)
            (inl-injective r c (sym same ∙ q')) k
    ]

-- The functions on texts leave the words for the modes as they are.
pub record KeepsModes (v : Service) : Type 0 where
  pub deep : v.surroundings.strings.lower (v.surroundings.strings.trim "deep") ≡ "deep"
  pub broad : v.surroundings.strings.lower (v.surroundings.strings.trim "broad") ≡ "broad"
  pub core : v.surroundings.strings.lower (v.surroundings.strings.trim "core") ≡ "core"

served_mode_to_proto-words :
    (v : Service)
    → KeepsModes v
    → let to_proto =
        served_mode_to_proto v.surroundings.strings.lower v.surroundings.strings.trim in
      (to_proto "deep" ≡ served_deep)
      × (to_proto "broad" ≡ served_broad)
      × (to_proto "core" ≡ served_core)
unfolding served_mode_to_proto
served_mode_to_proto-words v k = (rw k.deep refl, rw k.broad refl, rw k.core refl)

specified :
    (v : Service) (mode : String)
    → KeepsModes v
    → IsServedMode mode
    → served_mode_to_proto v.surroundings.strings.lower v.surroundings.strings.trim mode
      ≢ served_unspecified
specified v mode k named =
    let (deep, broad, core) = served_mode_to_proto-words v k in
    let to_proto = served_mode_to_proto v.surroundings.strings.lower v.surroundings.strings.trim in
    elim named [
      | inl q ↦ λ e. cc (sym deep ∙ ap to_proto (sym q) ∙ e)
      | inr (inl q) ↦ λ e. cc (sym broad ∙ ap to_proto (sym q) ∙ e)
      | inr (inr q) ↦ λ e. cc (sym core ∙ ap to_proto (sym q) ∙ e)
    ]

answered :
    (v : Service) (result : SearchCoreResult ⊎ ApiError) {r : SearchResponse}
    → Path
        (SearchResponse ⊎ StatusError)
        (elim result [
          | inl r ↦ inl (to_proto_search_response v r)
          | inr err ↦ inr (map_search_error v.errors err)
        ])
        (inl r)
    → (c : SearchCoreResult) × (result ≡ inl c) × (to_proto_search_response v c ≡ r)
answered v (inl c) {r} q = (c, refl, inl-injective _ r q)
answered v (inr err) q = absurd (inl-ne-inr (sym q))

-- Whether a search was answered by a deep query.
abbrev pub has_query : List SearchAnswer → Bool
has_query found = of_some (λ m. str_eq m.mode_used "query") found

labelled_deep :
    (v : Service) (mode : String)
    → KeepsModes v
    → IsServedMode mode
    → (served_mode_to_proto v.surroundings.strings.lower v.surroundings.strings.trim mode
        ≡ served_deep)
      ↔ (mode ≡ "deep")
labelled_deep v mode k named =
    let (deep, broad, core) = served_mode_to_proto-words v k in
    let to_proto = served_mode_to_proto v.surroundings.strings.lower v.surroundings.strings.trim in
    elim named [
      | inl q ↦ (λ e. q, λ e. ap to_proto q ∙ deep)
      | inr (inl q) ↦ (λ e. cc (sym broad ∙ ap to_proto (sym q) ∙ e), λ e. ap to_proto e ∙ deep)
      | inr (inr q) ↦ (λ e. cc (sym core ∙ ap to_proto (sym q) ∙ e), λ e. ap to_proto e ∙ deep)
    ]

labelled_core :
    (v : Service) (mode : String)
    → KeepsModes v
    → IsServedMode mode
    → served_mode_to_proto v.surroundings.strings.lower v.surroundings.strings.trim mode
      ≡ served_core
    → mode ≡ "core"
labelled_core v mode k named e =
    let (deep, broad, core) = served_mode_to_proto-words v k in
    let to_proto = served_mode_to_proto v.surroundings.strings.lower v.surroundings.strings.trim in
    elim named [
      | inl q ↦ cc (sym deep ∙ ap to_proto (sym q) ∙ e)
      | inr (inl q) ↦ cc (sym broad ∙ ap to_proto (sym q) ∙ e)
      | inr (inr q) ↦ q
    ]

-- What is claimed of a response to a request for a mode, given the answers for the collections.
IsHonest : Service → Mode → List SearchAnswer → SearchResponse → Type 0
IsHonest v mode found r =
    (r.served_mode ≢ served_unspecified)
    × ((r.served_mode ≡ served_deep) ↔ (has_query found ≡ true))
    × (r.served_mode ≡ served_core → of_some (λ m. m.fallback_triggered) found ≡ false)
    × (v.surroundings.overloaded ≡ true → r.degraded ≡ true)
    × (mode ≡ mode_deep → r.degraded ≡ false → r.served_mode ≡ served_deep)

reason_given :
    (gated overloaded : Bool)
    → overloaded ≡ true
    → str_eq
        (if gated then "DEEP_GATE_REJECTED" else if overloaded then "CPU_OVERLOAD_PROTECT" else "")
        ""
      ≡ false
reason_given true overloaded h = refl
reason_given false true h = refl
reason_given false false h = absurd (true≢false (sym h))

overload_given :
    (s : Surroundings) (cfg : Config) (req : SearchCoreRequest)
    → s.overloaded ≡ true
    → str_eq (pre_degrade_reason s cfg req) "" ≡ false
unfolding pre_degrade_reason
overload_given s cfg req h = reason_given (gate_rejects s cfg req) s.overloaded h

deep_kept :
    (lower trim : String → String)
    → lower (trim "deep") ≡ "deep"
    → normalize_requested_mode lower trim (requested_mode_from_proto mode_deep) ≡ "deep"
unfolding normalize_requested_mode requested_mode_from_proto
deep_kept lower trim h = rw h refl

deep_asked :
    (v : Service) (cfg : Config) (req : SearchRequest) (trace_id : String)
    → KeepsModes v
    → req.requested_mode ≡ mode_deep
    → requested_mode_of v.surroundings (core_request cfg req trace_id) ≡ "deep"
unfolding requested_mode_of core_request
deep_asked v cfg req trace_id k asked =
    ap
      (λ m.
        normalize_requested_mode v.surroundings.strings.lower v.surroundings.strings.trim
          (requested_mode_from_proto m))
      asked
    ∙ deep_kept v.surroundings.strings.lower v.surroundings.strings.trim k.deep

to_proto-IsHonest :
    (v : Service) (cfg : Config) (req : SearchRequest) (trace_id : String) (c : SearchCoreResult)
    (found : List SearchAnswer)
    → KeepsModes v
    → IsAnswer v.surroundings cfg (core_request cfg req trace_id) found c
    → IsHonest v req.requested_mode found (to_proto_search_response v c)
unfolding IsHonest to_proto_search_response
to_proto-IsHonest v cfg req trace_id c found k answer = (
  specified v c.meta.served_mode k answer.named,
  (
    λ e.
        sym answer.queried
        ∙ (eq_iff c.meta.mode_used "query").1
            (answer.deep.0 ((labelled_deep v c.meta.served_mode k answer.named).0 e)),
    λ e.
        (labelled_deep v c.meta.served_mode k answer.named).1
          (answer.deep.1 ((eq_iff c.meta.mode_used "query").0 (answer.queried ∙ e))),
  ),
  λ e. answer.core (labelled_core v c.meta.served_mode k answer.named e),
  λ over. ground (
    arith,
    answer.degraded,
    overload_given v.surroundings cfg (core_request cfg req trace_id) over,
  ),
  λ asked fine.
      let requested = deep_asked v cfg req trace_id k asked in
      let served : str_eq c.meta.served_mode "deep" ≡ true = ground (
        arith,
        answer.degraded,
        fine,
        (eq_iff (requested_mode_of v.surroundings (core_request cfg req trace_id)) "deep").1
            requested,
      ) in
      ap (served_mode_to_proto v.surroundings.strings.lower v.surroundings.strings.trim)
        ((eq_iff c.meta.served_mode "deep").0 served)
      ∙ (served_mode_to_proto-words v k).0,
)

-- If trimming and lower case keep the words for the modes: an answer to a request always has a mode. It
-- is labelled as deep exactly if one of the request's searches was answered by a deep query, and as
-- core only if none of them fell back. Under overload it is marked as degraded; and a deep request that
-- is not so marked is labelled as deep.
pub handle_search_lem :
    (v : Service) (cfg : Config) (metadata : List String) (req : SearchRequest) (o : Orchestrator)
    (r : SearchResponse)
    → KeepsModes v
    → (handle_search v cfg metadata req o).1 ≡ inl r
    → let s = v.surroundings in
      let request =
        core_request cfg req (trace_id_from_context s.strings.trim s.generated_id metadata) in
      let found = answers_of s cfg request o in
      (r.served_mode ≢ served_unspecified)
      × ((r.served_mode ≡ served_deep) ↔ (has_query found ≡ true))
      × (r.served_mode ≡ served_core → of_some (λ m. m.fallback_triggered) found ≡ false)
      × (v.surroundings.overloaded ≡ true → r.degraded ≡ true)
      × (req.requested_mode ≡ mode_deep → r.degraded ≡ false → r.served_mode ≡ served_deep)
unfolding handle_search IsHonest
handle_search_lem v cfg metadata req o r k q =
    let s = v.surroundings in
    let trace_id = trace_id_from_context s.strings.trim s.generated_id metadata in
    let request = core_request cfg req trace_id in
    let (c, found, same) = answered v (execute_search_core s cfg request o).1 q in
    let all = answers_of s cfg request o in
    subst (λ x. IsHonest v req.requested_mode all x) same
      (to_proto-IsHonest v cfg req trace_id c all k (core-IsAnswer s cfg request o found))
