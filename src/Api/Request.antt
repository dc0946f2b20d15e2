-- ===== src/Api/Request.antt =====
-- api/core.go: a request for a search, and the parameters of the searches that it asks for.
use Prim.Native.String.{String}
use text.Mathlib.Text.{◌==◌ as str_eq}
use qmdsr.Prelude.{ℕ, Bool, false, not, ◌&&◌, ◌||◌, List, [], ◌∷◌, ◌==◌, if◌then◌else◌, length}
use qmdsr.Prelude.Int.{ℤ, pos, is_nonpos}
use qmdsr.Types.{Score}
use qmdsr.Config.{Config}
use qmdsr.Router.{Strings}
use qmdsr.Searchutil.{Tools}
use qmdsr.Orchestrator.Routing.{allow_auto_deep_query}
use qmdsr.Orchestrator.Tiers.{SearchParams, World}
use qmdsr.Api.Convert.{
  requested_mode_to_orchestrator_mode, normalize_requested_mode, normalize_collections,
}
use qmdsr.Api.Format.{Printer}

-- But for the timeout, which is among what the backend answers.
pub record SearchCoreRequest : Type 0 where
  pub query : String
  pub requested_mode : String
  pub collections : List String
  pub allow_fallback : Bool
  pub top_k : ℤ
  pub min_score : Score
  pub explain : Bool
  pub files_only : Bool
  pub files_all : Bool
  pub trace_id : String
  pub confirm : Bool

-- What the rest of the world does while a request is handled: the standard library, the CPU flags,
-- and what each lookup and each search of a collection meets. The request's own deadline is among
-- what the backend answers.
pub record Surroundings : Type 0 where
  pub strings : Strings
  pub tools : Tools
  pub printer : Printer
  pub sort_texts : List String → List String
  pub show : ℤ → String
  pub overloaded : Bool
  pub critical : Bool
  pub at_lookup : String → World
  pub at_search : String → World
  pub generated_id : String
  pub started_at : ℕ
  pub finished_at : ℕ

unfoldable pub effective_top_k : Config → SearchCoreRequest → ℤ
effective_top_k cfg req =
    if is_nonpos req.top_k
    then (if req.files_only && req.files_all then pos 0 else cfg.search.top_k)
    else req.top_k

unfoldable pub effective_min_score : Config → SearchCoreRequest → Score
effective_min_score cfg req =
    if is_nonpos req.min_score then cfg.search.min_score else req.min_score

unfoldable pub requested_mode_of : Surroundings → SearchCoreRequest → String
requested_mode_of s req = normalize_requested_mode s.strings.lower s.strings.trim req.requested_mode

unfoldable pub collections_of_request : Surroundings → SearchCoreRequest → List String
collections_of_request s req =
    let collections = normalize_collections s.sort_texts s.strings.trim req.collections in
    if length collections == 0 then "" ∷ [] else collections

-- The deep gate: a deep request with a way to fall back, whose query the budget does not allow.
unfoldable pub gate_rejects : Surroundings → Config → SearchCoreRequest → Bool
gate_rejects s cfg req =
    str_eq (requested_mode_of s req) "deep"
    && req.allow_fallback
    && not (allow_auto_deep_query s.strings cfg.runtime (s.strings.trim req.query))

-- The mode after the overload guard, and after the deep gate.
unfoldable pub guarded_mode : Surroundings → SearchCoreRequest → String
guarded_mode s req =
    if s.overloaded then "search" else requested_mode_to_orchestrator_mode (requested_mode_of s req)

unfoldable pub final_mode : Surroundings → Config → SearchCoreRequest → String
final_mode s cfg req = if gate_rejects s cfg req then "search" else guarded_mode s req

unfoldable pub escalation_disabled : Surroundings → Config → SearchCoreRequest → Bool
escalation_disabled s cfg req =
    let requested = requested_mode_of s req in
    gate_rejects s cfg req || s.overloaded || str_eq requested "core" || str_eq requested "broad"

-- `preDegradeReason`, empty unless `preDegraded` is set.
unfoldable pub pre_degrade_reason : Surroundings → Config → SearchCoreRequest → String
pre_degrade_reason s cfg req =
    if gate_rejects s cfg req
    then "DEEP_GATE_REJECTED"
    else if s.overloaded
    then "CPU_OVERLOAD_PROTECT"
    else ""

-- The parameters of the lookup under critical overload; the fields it leaves out are zero.
unfoldable pub lookup_params : Surroundings → Config → SearchCoreRequest → String → SearchParams
lookup_params s cfg req collection = record {
  query = s.strings.trim req.query;
  mode = guarded_mode s req;
  collection = collection;
  n = effective_top_k cfg req;
  min_score = effective_min_score cfg req;
  fallback = req.allow_fallback;
  files_only = req.files_only;
  files_all = req.files_all;
  disable_deep_escalation = false;
  confirm = false;
}

unfoldable pub search_params : Surroundings → Config → SearchCoreRequest → String → SearchParams
search_params s cfg req collection = record (lookup_params s cfg req collection) {
  mode = final_mode s cfg req;
  disable_deep_escalation = escalation_disabled s cfg req;
  confirm = req.confirm;
}
