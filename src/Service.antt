-- ===== src/Service.antt =====
-- service/error.go: the failure codes, the descriptor of a failure, and Go's `error` values as far
-- as the services look into them. A cause that a service error hides is not read by anyone and is
-- left out.
pub mod Operation
use kwt.Common.{ℕ, Bool, true, false, Option, none, some, if◌then◌else◌, Text, codes}

pub data Code : Type 0 where
  invalid_request conflict busy not_found interaction_required permission_denied : Code
  connection_changed unsupported transport_failure daemon_start_failed : Code
  daemon_unresponsive daemon_incompatible client_outdated daemon_downgrade_refused : Code
  daemon_build_order_unknown daemon_draining daemon_transport_failed inventory_timeout : Code
  inventory_failed inspection_failed removal_failed project_not_found : Code
  registration_changed unregistration_failed protected_session_live : Code
  protected_endpoint_inventory_incomplete operation_id_conflict : Code
  operation_capacity_exhausted operation_journal_unavailable operation_outcome_unknown : Code
  ssh_invalid_target ssh_resolution_failed ssh_route_unreviewable : Code
  ssh_configuration_changed ssh_unsupported_version ssh_interaction_required : Code
  ssh_prompt_rejected ssh_prompt_timed_out ssh_connection_failed ssh_connection_changed : Code
  ssh_control_path_occupied ssh_cleanup_failed internal : Code

-- The details that the modelled services attach.
pub data Details : Type 0 where
  no_details : Details
  drain_deadline : ℕ → Details
  -- the deadline as a response prints it
  printed_deadline : Text → Details

pub record Descriptor : Type 0 where
  pub code : Code
  pub message : Text
  pub retryable : Bool
  pub details : Details

-- An `error` value: a typed service failure, a context's error, a plain text, or one of these
-- wrapped by `fmt.Errorf` with `%w`, or two joined.
pub data Error : Type 0 where
  typed : Descriptor → Error
  canceled deadline_exceeded : Error
  plain : Text → Error
  wrapped : Text → Error → Error
  joined : Error → Error → Error

abbrev pub new_error : Code → Text → Bool → Details → Error
new_error c m r d = typed (record { code = c; message = m; retryable = r; details = d })

abbrev or_else : Option Descriptor → Option Descriptor → Option Descriptor
or_else none o = o
or_else (some d) o = some d

-- `errors.As(err, &typed)`: the first service failure, depth first.
unfoldable pub find_typed : Error → Option Descriptor
find_typed (typed d) = some d
find_typed canceled = none
find_typed deadline_exceeded = none
find_typed (plain m) = none
find_typed (wrapped m e) = find_typed e
find_typed (joined a b) = or_else (find_typed a) (find_typed b)

-- `errors.Is(err, context.Canceled) || errors.Is(err, context.DeadlineExceeded)`.
unfoldable pub is_context_error : Error → Bool
is_context_error (typed d) = false
is_context_error canceled = true
is_context_error deadline_exceeded = true
is_context_error (plain m) = false
is_context_error (wrapped m e) = is_context_error e
is_context_error (joined a b) = if is_context_error a then true else is_context_error b

abbrev internal_failure : Descriptor
internal_failure = record {
  code = internal;
  message = codes "internal failure";
  retryable = false;
  details = no_details;
}

abbrev or_internal : Option Descriptor → Descriptor
or_internal none = internal_failure
or_internal (some d) = d

unfoldable pub as_error : Error → Descriptor
unfolding find_typed
as_error e = or_internal (find_typed e)
