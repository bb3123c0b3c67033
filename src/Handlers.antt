-- ===== src/Handlers.antt =====
-- handlers/errors.go and the two functions of handlers/handlers.go that write a response. A handler
-- maps the state to a new state and to what it wrote, of which net/http sends the first.
pub mod Access
pub mod Ack
pub mod Offsets
pub mod Pull
pub mod Publish
pub mod Topics
pub mod Steps
pub mod Subscriptions
pub mod Users
pub mod Registrations
pub mod Projects
pub mod Schemas
use argo_messaging.Base.{ℕ, Text, text, List, [], ◌∷◌, ◌++◌, ◌≡◌, ◌==◌, text_eq, if◌then◌else◌}

pub record ApiError : Type 0 where
  pub code : ℕ
  pub message : Text
  pub status : Text

abbrev pub invalid_request_body : ApiError
invalid_request_body = record {
  code = 400;
  message = text "Invalid Request Body";
  status = text "BAD_REQUEST";
}

abbrev pub invalid_name : Text → ApiError
invalid_name key = record {
  code = 400;
  message = text "Invalid " ++ (key ++ text " name");
  status = text "INVALID_ARGUMENT";
}

abbrev pub invalid_data : Text → ApiError
invalid_data message = record { code = 400; message = message; status = text "INVALID_ARGUMENT" }

abbrev pub invalid_argument : Text → ApiError
invalid_argument resource = record {
  code = 400;
  message = text "Invalid " ++ (resource ++ text " Arguments");
  status = text "INVALID_ARGUMENT";
}

abbrev pub unauthorized : ApiError
unauthorized = record { code = 401; message = text "Unauthorized"; status = text "UNAUTHORIZED" }

abbrev pub forbidden : ApiError
forbidden = record {
  code = 403;
  message = text "Access to this resource is forbidden";
  status = text "FORBIDDEN";
}

abbrev pub forbidden_with_msg : Text → ApiError
forbidden_with_msg message = record {
  code = 403;
  message = text "Access to this resource is forbidden. " ++ message;
  status = text "FORBIDDEN";
}

abbrev pub not_found : Text → ApiError
not_found resource = record {
  code = 404;
  message = resource ++ text " doesn't exist";
  status = text "NOT_FOUND";
}

abbrev pub timeout : Text → ApiError
timeout message = record { code = 408; message = message; status = text "TIMEOUT" }

abbrev pub conflict : Text → ApiError
conflict resource = record {
  code = 409;
  message = resource ++ text " already exists";
  status = text "ALREADY_EXISTS";
}

abbrev pub push_conflict : ApiError
push_conflict = record {
  code = 409;
  message = text "Push functionality is currently disabled";
  status = text "CONFLICT";
}

abbrev pub pull_no_topic : ApiError
pull_no_topic = record {
  code = 409;
  message = text "Subscription's topic doesn't exist";
  status = text "CONFLICT";
}

abbrev pub generic_conflict : Text → ApiError
generic_conflict message = record { code = 409; message = message; status = text "CONFLICT" }

abbrev pub push_verification : Text → ApiError
push_verification message = record {
  code = 401;
  message = text "Endpoint verification failed." ++ message;
  status = text "UNAUTHORIZED";
}

abbrev pub internal_push : ApiError
internal_push = record {
  code = 500;
  message = text "Push functionality is currently unavailable";
  status = text "INTERNAL_SERVER_ERROR";
}

abbrev pub too_large_message : ApiError
too_large_message = record {
  code = 413;
  message = text "Message size is too large";
  status = text "INVALID_ARGUMENT";
}

abbrev pub generic_internal : Text → ApiError
generic_internal message = record {
  code = 500;
  message = message;
  status = text "INTERNAL_SERVER_ERROR";
}

abbrev pub query_datastore : ApiError
query_datastore = generic_internal (text "Internal error while querying datastore")

-- The error for "not found", or what another error of a call becomes.
abbrev pub missing_or : ApiError → (Text → ApiError) → Text → ApiError
missing_or missing other e = if e == text "not found" then missing else other e

abbrev pub export_json : ApiError
export_json = generic_internal (text "Error exporting data to JSON")

abbrev pub handling_acknowledgement : ApiError
handling_acknowledgement = generic_internal (text "Error handling acknowledgement")

abbrev pub generic_backend : ApiError
generic_backend = generic_internal (text "Backend Error")

-- One call of `respondOK` or of `respondErr`.
pub data Write (O : Type 0) : Type 0 where
  respond_ok : O → Write O
  respond_err : ApiError → Write O

-- What a handler did: its calls in order, or a run-time panic.
pub data Outcome (O : Type 0) : Type 0 where
  written : List (Write O) → Outcome O
  panicked : Outcome O

abbrev pub done : {O : Type 0} → O → Outcome O
done o = written (respond_ok o ∷ [])

abbrev pub fail : {O : Type 0} → ApiError → Outcome O
fail e = written (respond_err e ∷ [])

-- Exactly one response was written.
abbrev pub AnswersOnce : {O : Type 0} → Outcome O → Type 0
AnswersOnce {O} o = (w : Write O) × (o ≡ written (w ∷ []))

-- A request's body: reading it may fail, and then taking it apart as JSON.
pub data Body (A : Type 0) : Type 0 where
  unreadable : Body A
  malformed : Body A
  parsed : A → Body A
