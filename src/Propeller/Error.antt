-- ===== src/Propeller/Error.antt =====
-- approach-2/src/error.rs: the errors, their printed form, and the gRPC status of each.
use payment_processing.Common.{String}
use payment_processing.Common.Text.{◌++◌}

pub data PropellerError : Type 0 where
  unauthenticated : String → PropellerError
  permission_denied : String → PropellerError
  invalid_argument : String → PropellerError
  not_found : String → PropellerError
  failed_precondition : String → PropellerError
  internal : String → PropellerError
  broker : String → PropellerError

-- The codes of `tonic::Status` that the service uses.
pub data Code : Type 0 where
  unauthenticated permission_denied invalid_argument not_found failed_precondition internal : Code
  deadline_exceeded : Code

pub record Status : Type 0 where
  pub code : Code
  pub message : String

-- `impl From<PropellerError> for Status`
unfoldable pub to_status : PropellerError → Status
to_status (PropellerError.unauthenticated msg) = record {
  code = Code.unauthenticated;
  message = msg;
}
to_status (PropellerError.permission_denied msg) = record {
  code = Code.permission_denied;
  message = msg;
}
to_status (PropellerError.invalid_argument msg) = record {
  code = Code.invalid_argument;
  message = msg;
}
to_status (PropellerError.not_found msg) = record { code = Code.not_found; message = msg }
to_status (PropellerError.failed_precondition msg) = record {
  code = Code.failed_precondition;
  message = msg;
}
to_status (PropellerError.internal msg) = record { code = Code.internal; message = msg }
to_status (PropellerError.broker msg) = record { code = Code.internal; message = msg }

-- The `#[error(…)]` texts.
unfoldable pub to_string : PropellerError → String
to_string (PropellerError.unauthenticated msg) = "unauthenticated: " ++ msg
to_string (PropellerError.permission_denied msg) = "permission denied: " ++ msg
to_string (PropellerError.invalid_argument msg) = "invalid argument: " ++ msg
to_string (PropellerError.not_found msg) = "not found: " ++ msg
to_string (PropellerError.failed_precondition msg) = "failed precondition: " ++ msg
to_string (PropellerError.internal msg) = "internal: " ++ msg
to_string (PropellerError.broker msg) = "broker error: " ++ msg
