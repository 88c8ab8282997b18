-- ===== src/Daemon/Problem.antt =====
-- The failures that internal/daemon/server.go lets out of the daemon. How a time prints, and which
-- text is a time, is Go's package time.
use kwt.Common.{ℕ, Bool, true, false, Option, none, some, Text, codes, if◌then◌else◌}
use kwt.Service.{
  Code, internal, operation_outcome_unknown, daemon_draining, Descriptor, Details, no_details,
  drain_deadline, printed_deadline, Error, as_error, find_typed, is_context_error,
}

pub record Clock : Type 0 where
  pub format_time : ℕ → Text
  pub is_time : Text → Bool

abbrev pub is_internal : Code → Bool
is_internal internal = true
is_internal _ = false

abbrev pub is_outcome_unknown : Code → Bool
is_outcome_unknown operation_outcome_unknown = true
is_outcome_unknown _ = false

abbrev is_draining : Code → Bool
is_draining daemon_draining = true
is_draining _ = false

-- `allowedProblemDetails` with `normalizeProblemDetail`, for the details modelled.
unfoldable pub allowed_problem_details : Clock → Code → Details → Details
allowed_problem_details k code no_details = no_details
allowed_problem_details k code (drain_deadline t) =
    if is_draining code then printed_deadline (k.format_time t) else no_details
allowed_problem_details k code (printed_deadline s) =
    if is_draining code
    then (if k.is_time s then printed_deadline s else no_details)
    else no_details

unfoldable pub public_error_descriptor : Clock → Error → Descriptor
unfolding allowed_problem_details
public_error_descriptor k e =
    let d = as_error e in
    record {
      code = d.code;
      message = if is_internal d.code then codes "internal failure" else d.message;
      retryable = if is_outcome_unknown d.code then false else d.retryable;
      details = allowed_problem_details k d.code d.details;
    }

-- `operationFailure` of internal/daemon/operation.go.
failure_of : Clock → Error → Option Descriptor → Descriptor
unfolding public_error_descriptor
failure_of k e (some d) = public_error_descriptor k e
failure_of k e none =
    if is_context_error e
    then record {
      code = operation_outcome_unknown;
      message = codes "operation was canceled";
      retryable = false;
      details = no_details;
    }
    else public_error_descriptor k e

unfoldable pub operation_failure : Clock → Error → Descriptor
unfolding failure_of
operation_failure k e = failure_of k e (find_typed e)
