-- ===== src/Api/Enrollments.antt =====
-- Enrollments by the API: server/orchestrator/mesh/api_v1_enrollments.go, and the enrollment
-- handlers of api.go. In a list the times are whole seconds, counted here from Go's zero time.
use lattice_hub.Server.Send.{configure_node}
use lattice_hub.Mac.{hex_encode}
use lattice_hub.Api.{
  Notice, enrollment_approved, enrollment_rejected, EnrollmentResponse, Reply, respond, enrollments,
  message, refuse, server_failed,
}
use lattice_hub.Server.{Env, Answer, Server}
use lattice_hub.Base.{ℕ, ◌/◌, Option, none, some, List, map, Text, or_else}
use lattice_hub.Auth
use lattice_hub.Auth.{NodeAuth}
use lattice_hub.Auth.Storage.{status_number, nanos}
use lattice_hub.Api.Ids.{adapter_type_from_string}
use lattice_hub.Server.Enrollment.{ApprovalParams, approve_enrollment, reject_enrollment, no_params}

unfoldable pub enrollment_response : NodeAuth → EnrollmentResponse
unfolding status_number
enrollment_response n = record {
  mac = n.mac_string;
  public_key = hex_encode n.public_key;
  status = status_number n.status;
  received_at = n.received_at / nanos;
  approved_at = n.approved_at / nanos;
}

-- v1GetPendingEnrollments and getPendingEnrollments.
unfoldable pub get_pending_enrollments : Server → Reply
get_pending_enrollments s =
    (s, respond 200 (enrollments (map enrollment_response (Auth.get_pending s.auth))))

-- v1GetAllEnrollments and getAllEnrollments.
unfoldable pub get_all_enrollments : Server → Reply
get_all_enrollments s =
    (s, respond 200 (enrollments (map enrollment_response (Auth.get_all s.auth))))

-- An optional body: the fields that the decoder has filled in, whether or not it then fails, since
-- the error is ignored; none where there is no body.
abbrev pub params_of : Option ApprovalParams → ApprovalParams
params_of body = or_else body no_params

abbrev pub approved_reply : Notice → Answer → Reply
approved_reply notice (s, none) = (s, respond 200 (message notice))
approved_reply notice (s, some e) = (s, refuse 400 (server_failed e))

-- approveEnrollment, the route without a version.
unfoldable pub approve_route : Env → Server → Text → Option ApprovalParams → Reply
approve_route env s mac body =
    approved_reply enrollment_approved (approve_enrollment env s mac (params_of body))

-- rejectEnrollment and v1RejectEnrollment.
unfoldable pub reject_route : Env → Server → Text → Reply
reject_route env s mac = approved_reply enrollment_rejected (reject_enrollment env s mac)

module _ (net_parse_mac : Text → Option (List ℕ)) where
  -- The type is sent to the node where it is one that may be written and the address is in net's
  -- form; a failure is only reported to the log.
  abbrev pub configure_address : Env → Server → ℕ → Option (List ℕ) → Server
  configure_address env s a none = s
  configure_address env s a (some mac) = (configure_node env s mac a).0

  abbrev pub configure_approved : Env → Server → Text → Option ℕ → Server
  configure_approved env s mac none = s
  configure_approved env s mac (some a) = configure_address env s a (net_parse_mac mac)

  abbrev pub approved_and_configured : Env → Text → Text → Answer → Reply
  approved_and_configured env mac t (s, none) = (
    configure_approved env s mac (adapter_type_from_string t),
    respond 200 (message enrollment_approved),
  )
  approved_and_configured env mac t (s, some e) = (s, refuse 400 (server_failed e))

  unfoldable pub v1_approve_enrollment : Env → Server → Text → Option ApprovalParams → Reply
  v1_approve_enrollment env s mac body =
      approved_and_configured env mac (params_of body).adapter_type_str
        (approve_enrollment env s mac (params_of body))
