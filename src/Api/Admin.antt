-- ===== src/Api/Admin.antt =====
-- api/admin_core.go, and the handlers of the admin service in api/grpc.go.
use Prim.Native.String.{String}
use qmdsr.Prelude.{
  ℕ, ◌-◌, ◌/◌, ◌⊎◌, inl, inr, Bool, true, not, ◌&&◌, ◌||◌, Option, none, some, List, [], ◌∷◌,
  if◌then◌else◌,
}
use qmdsr.Prelude.Int.{ℤ}
use qmdsr.Types.{CollectionInfo}
use qmdsr.Config.{RuntimeConfig}
use qmdsr.Cache
use qmdsr.Guardian
use qmdsr.Guardian.{Guardian}
use qmdsr.Scheduler
use qmdsr.Scheduler.{Sched}
use qmdsr.Orchestrator.Tiers.{Orchestrator}
use qmdsr.Api.Convert.{int_to_int32, normalize_trace_id}
use qmdsr.Api.Errors.{
  ErrorTexts, StatusError, AdminError, guardian_unavailable, admin_failed, map_admin_rpc_error,
}

pub record AdminOpResult : Type 0 where
  pub message : String
  pub trace_id : String
  pub latency_ms : ℕ

pub record OpResponse : Type 0 where
  pub ok : Bool
  pub message : String
  pub trace_id : String
  pub latency_ms : ℕ

-- One call: the functions on texts, the identifier that would be generated, the trace identifier of
-- the context, and the times.
pub record Call : Type 0 where
  pub trim : String → String
  pub errors : ErrorTexts
  pub generated : String
  pub trace_id : String
  pub started_at : ℕ
  pub finished_at : ℕ

abbrev pub latency : Call → ℕ
latency c = (c.finished_at - c.started_at) / 1_000_000

unfoldable pub op_result : Call → String → AdminOpResult
op_result c message = record {
  message = message;
  trace_id = normalize_trace_id c.trim c.generated c.trace_id;
  latency_ms = latency c;
}

unfoldable pub to_proto_op_response : AdminOpResult → OpResponse
to_proto_op_response r = record {
  ok = true;
  message = r.message;
  trace_id = r.trace_id;
  latency_ms = r.latency_ms;
}

-- The end of an operation: its error, or its message.
unfoldable pub conclude_op : Call → String → Option String → AdminOpResult ⊎ AdminError
conclude_op c message none = inl (op_result c message)
conclude_op c message (some err) = inr (admin_failed err)

-- The end of a handler.
unfoldable pub respond : Call → AdminOpResult ⊎ AdminError → OpResponse ⊎ StatusError
respond c (inl r) = inl (to_proto_op_response r)
respond c (inr err) = inr (map_admin_rpc_error c.errors err)

abbrev pub Scheduled : Type 0
Scheduled = List String × Sched

unfoldable pub execute_admin_reindex_core :
    Call → Option String → String → Scheduled → Scheduled × (AdminOpResult ⊎ AdminError)
execute_admin_reindex_core c update_err version w =
    let (w', err) = Scheduler.trigger_reindex update_err version w in
    (w', conclude_op c "reindex triggered" err)

unfoldable pub execute_admin_embed_core :
    Call
    → RuntimeConfig
    → Bool
    → Option String
    → ℕ
    → Scheduled
    → Scheduled × (AdminOpResult ⊎ AdminError)
execute_admin_embed_core c r force embed_err now w =
    let message = if force then "full embed triggered" else "embed triggered" in
    let (w', err) = Scheduler.trigger_embed r force embed_err now w in
    if r.low_resource_mode && not (r.allow_cpu_vsearch || r.allow_cpu_deep_query)
    then (w, inl (op_result c "embed disabled in low_resource_mode"))
    else (w', conclude_op c message err)

unfoldable pub clear_cache : Orchestrator → Orchestrator
clear_cache o = record o { cache = Cache.clear o.cache }

unfoldable pub execute_admin_cache_clear_core :
    Call → Orchestrator → Orchestrator × (AdminOpResult ⊎ AdminError)
execute_admin_cache_clear_core c o = (clear_cache o, inl (op_result c "cache cleared"))

pub record AdminCollectionsResult : Type 0 where
  pub collections : List CollectionInfo
  pub trace_id : String
  pub latency_ms : ℕ

-- `listed` is what the executor's `CollectionList` answers.
unfoldable pub execute_admin_collections_core :
    Call → List CollectionInfo ⊎ String → AdminCollectionsResult ⊎ AdminError
execute_admin_collections_core c (inr err) = inr (admin_failed err)
execute_admin_collections_core c (inl cols) = inl (record {
  collections = cols;
  trace_id = normalize_trace_id c.trim c.generated c.trace_id;
  latency_ms = latency c;
})

-- `executeAdminMCPRestartCore`, with the guardian, if there is one, and what the executor answers to
-- the start and to the probe; `start_err` is the text of the error of a start that fails.
unfoldable pub execute_admin_mcp_restart_core :
    Call
    → Bool
    → Bool
    → String
    → ℕ
    → Option Guardian
    → Option Guardian × (AdminOpResult ⊎ AdminError)
execute_admin_mcp_restart_core c start_ok health_ok start_err now none =
    (none, inr guardian_unavailable)
execute_admin_mcp_restart_core c start_ok health_ok start_err now (some g) =
    let (g', ok) = Guardian.restart_mcp start_ok health_ok now g in
    (some g', conclude_op c "mcp restart triggered" (if ok then none else some start_err))

-- `qmdsrv1.CollectionInfo`.
pub record ProtoCollection : Type 0 where
  pub name : String
  pub path : String
  pub mask : String
  pub files : ℤ

unfoldable pub to_proto_collections : List CollectionInfo → List ProtoCollection
to_proto_collections [] = []
to_proto_collections (col ∷ cols) =
    record { name = col.name; path = col.path; mask = col.mask; files = int_to_int32 col.files }
    ∷ to_proto_collections cols

pub record CollectionsResponse : Type 0 where
  pub collections : List ProtoCollection
  pub trace_id : String
  pub latency_ms : ℕ

unfoldable pub handle_reindex :
    Call → Option String → String → Scheduled → Scheduled × (OpResponse ⊎ StatusError)
handle_reindex c update_err version w =
    let (w', res) = execute_admin_reindex_core c update_err version w in (w', respond c res)

unfoldable pub handle_embed :
    Call
    → RuntimeConfig
    → Bool
    → Option String
    → ℕ
    → Scheduled
    → Scheduled × (OpResponse ⊎ StatusError)
handle_embed c r force embed_err now w =
    let (w', res) = execute_admin_embed_core c r force embed_err now w in (w', respond c res)

unfoldable pub handle_cache_clear : Call → Orchestrator → Orchestrator × (OpResponse ⊎ StatusError)
handle_cache_clear c o = let (o', res) = execute_admin_cache_clear_core c o in (o', respond c res)

unfoldable pub handle_collections :
    Call → List CollectionInfo ⊎ String → CollectionsResponse ⊎ StatusError
handle_collections c listed = elim (execute_admin_collections_core c listed) [
  | inr err ↦ inr (map_admin_rpc_error c.errors err)
  | inl res ↦ inl (record {
    collections = to_proto_collections res.collections;
    trace_id = res.trace_id;
    latency_ms = res.latency_ms;
  })
]

unfoldable pub handle_mcp_restart :
    Call → Bool → Bool → String → ℕ → Option Guardian → Option Guardian × (OpResponse ⊎ StatusError)
handle_mcp_restart c start_ok health_ok start_err now guardian =
    let (g', res) = execute_admin_mcp_restart_core c start_ok health_ok start_err now guardian in
    (g', respond c res)
