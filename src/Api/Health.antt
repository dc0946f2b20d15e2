-- ===== src/Api/Health.antt =====
-- api/core.go: the answers to questions about health and status.
pub mod Reports
use Prim.Native.String.{String}
use text.Mathlib.Text.{◌==◌ as str_eq}
use qmdsr.Prelude.{ℕ, Bool, none, some, List, [], ◌∷◌, ◌++◌, if◌then◌else◌}
use qmdsr.Prelude.Int.{ℤ}
use qmdsr.Config.{RuntimeConfig}
use qmdsr.Heartbeat
use qmdsr.Heartbeat.{SystemHealthTracker, Components, get_health}
use qmdsr.Api.Convert.{duration_to_int32_milliseconds, duration_to_int32_seconds, wrap_int32}

-- `qmdsrv1.ComponentHealth`.
pub record ComponentReport : Type 0 where
  pub name : String
  pub status : String
  pub message : String

pub record HealthResponse : Type 0 where
  pub status : String
  pub mode : String
  pub uptime_sec : ℕ
  pub components : List ComponentReport

abbrev pub names_of : Components → List String
names_of [] = []
names_of ((name, c) ∷ cs) = name ∷ names_of cs

-- The components by their names, in order.
unfoldable pub report_components : Components → List String → List ComponentReport
report_components cs [] = []
report_components cs (name ∷ names) = elim (Heartbeat.find name cs) [
  | none ↦ report_components cs names
  | some c ↦
      record { name = name; status = c.level_str; message = c.message } ∷ report_components cs names
]

unfoldable pub critical_report : ComponentReport
critical_report = record {
  name = "cpu_guard";
  status = "critical";
  message = "critical overload shedding new uncached requests";
}

unfoldable pub overload_report : ComponentReport
overload_report = record {
  name = "cpu_guard";
  status = "degraded";
  message = "overload protection active, forcing search mode and limiting concurrency";
}

-- What the CPU flags change of a response.
unfoldable pub with_cpu : (String → String → Bool) → Bool → Bool → HealthResponse → HealthResponse
with_cpu equal_fold critical overloaded resp =
    if critical
    then record resp {
      mode = "cpu_critical_overloaded";
      status = "unhealthy";
      components = resp.components ++ (critical_report ∷ []);
    }
    else if overloaded
    then record resp {
      mode = "cpu_overloaded";
      status = if equal_fold resp.status "healthy" then "degraded" else resp.status;
      components = resp.components ++ (overload_report ∷ []);
    }
    else resp

unfoldable pub build_health_response :
    (List String → List String)
    → (String → String → Bool)
    → Bool
    → Bool
    → SystemHealthTracker
    → ℕ
    → HealthResponse
build_health_response sort equal_fold critical overloaded tracker now =
    let h = get_health tracker now in
    with_cpu equal_fold critical overloaded (record {
      status = h.overall_str;
      mode = if str_eq h.mode "" then "normal" else h.mode;
      uptime_sec = h.uptime_sec;
      components = report_components h.components (sort (names_of h.components));
    })

pub record StatusResponse : Type 0 where
  pub version : String
  pub commit : String
  pub low_resource_mode : Bool
  pub allow_cpu_deep_query : Bool
  pub deep_query_enabled : Bool
  pub vector_enabled : Bool
  pub query_max_concurrency : ℤ
  pub query_timeout_ms : ℕ
  pub deep_fail_timeout_ms : ℕ
  pub deep_negative_ttl_sec : ℕ
  pub trace_id : String
  pub cpu_overloaded : Bool
  pub cpu_critical_overloaded : Bool
  pub overload_max_concurrent_search : ℤ

-- `buildStatusResponse`, with the version, the commit and the identifier that would be generated.
unfoldable pub build_status_response :
    (String → String)
    → String
    → String
    → String
    → (String → Bool)
    → RuntimeConfig
    → Bool
    → Bool
    → String
    → StatusResponse
build_status_response trim version commit generated has_capability cfg overloaded critical
      trace_id =
    record {
      version = version;
      commit = commit;
      low_resource_mode = cfg.low_resource_mode;
      allow_cpu_deep_query = cfg.allow_cpu_deep_query;
      deep_query_enabled = has_capability "deep_query";
      vector_enabled = has_capability "vector";
      query_max_concurrency = wrap_int32 cfg.query_max_concurrency;
      query_timeout_ms = duration_to_int32_milliseconds cfg.query_timeout;
      deep_fail_timeout_ms = duration_to_int32_milliseconds cfg.deep_fail_timeout;
      deep_negative_ttl_sec = duration_to_int32_seconds cfg.deep_negative_ttl;
      trace_id = if str_eq (trim trace_id) "" then generated else trace_id;
      cpu_overloaded = overloaded;
      cpu_critical_overloaded = critical;
      overload_max_concurrent_search = wrap_int32 cfg.overload_max_concurrent_search;
    }
