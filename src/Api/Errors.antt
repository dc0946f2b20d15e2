-- ===== src/Api/Errors.antt =====
-- api/grpc.go: the status that an error is given.
use Prim.Native.String.{String}
use qmdsr.Prelude.{Bool, true, false, ◌||◌, if◌then◌else◌}
use Prim.Native.String.{◌++◌ as str_append}
use qmdsr.Api.Core.{ApiError, critical_overload_shed, failed}

-- The codes of the RPC layer that the handlers give.
pub data Code : Type 0 where
  resource_exhausted deadline_exceeded failed_precondition not_found unavailable : Code
  invalid_argument internal : Code

pub record StatusError : Type 0 where
  pub code : Code
  pub message : String

-- The functions on texts, and whether the error of a text wraps `context.DeadlineExceeded`.
pub record ErrorTexts : Type 0 where
  pub lower : String → String
  pub contains : String → String → Bool
  pub is_deadline : String → Bool

unfoldable pub status : Code → String → StatusError
status code message = record { code = code; message = message }

abbrev pub error_message : ApiError → String
error_message critical_overload_shed = "cpu critical overload shed"
error_message (failed msg) = msg

unfoldable pub map_search_error : ErrorTexts → ApiError → StatusError
map_search_error t critical_overload_shed =
    status resource_exhausted
      (str_append "RESOURCE_EXHAUSTED: " (error_message critical_overload_shed))
map_search_error t (failed msg) =
    let lower = t.lower msg in
    if t.is_deadline msg || t.contains lower "deadline exceeded"
    then status deadline_exceeded (str_append "QMD_TIMEOUT: " msg)
    else if t.contains lower "outofmemory" || t.contains lower "resource exhausted"
    then status resource_exhausted (str_append "RESOURCE_EXHAUSTED: " msg)
    else if t.contains lower "requires confirm=true"
    then status failed_precondition (str_append "FAILED_PRECONDITION: " msg)
    else if t.contains lower "not found"
    then status not_found msg
    else if t.contains lower "unavailable"
    then status unavailable msg
    else if t.contains lower "invalid" || t.contains lower "required"
    then status invalid_argument msg
    else status internal msg

-- `errGuardianUnavailable`, or an error by its text.
pub data AdminError : Type 0 where
  guardian_unavailable : AdminError
  admin_failed : String → AdminError

abbrev pub admin_message : AdminError → String
admin_message guardian_unavailable = "guardian not available"
admin_message (admin_failed msg) = msg

unfoldable pub is_guardian_unavailable : AdminError → Bool
is_guardian_unavailable guardian_unavailable = true
is_guardian_unavailable (admin_failed msg) = false

unfoldable pub wraps_deadline : ErrorTexts → AdminError → Bool
wraps_deadline t guardian_unavailable = false
wraps_deadline t (admin_failed msg) = t.is_deadline msg

unfoldable pub map_admin_rpc_error : ErrorTexts → AdminError → StatusError
map_admin_rpc_error t err =
    let msg = admin_message err in
    let lower = t.lower msg in
    if wraps_deadline t err || t.contains lower "deadline exceeded"
    then status deadline_exceeded msg
    else if is_guardian_unavailable err || t.contains lower "guardian not available"
    then status unavailable msg
    else if t.contains lower "requires confirm=true"
    then status failed_precondition msg
    else if t.contains lower "not found"
    then status not_found msg
    else if t.contains lower "invalid" || t.contains lower "required"
    then status invalid_argument msg
    else status internal msg
