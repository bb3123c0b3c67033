-- ===== src/Push/Client.antt =====
-- push/grpc/client: what the API asks of the push server. The remote calls are a parameter.
use argo_messaging.Base.{ℕ, suc, ◌-◌, ◌%◌, ◌^◌, Text, text, Bool, ◌++◌, if◌then◌else◌}
use argo_messaging.Base.Int.{ℤ, pos, negsuc}

-- The codes of a remote call that `Result` tells apart.
pub data Code : Type 0 where
  succeeded : Code
  unavailable : Code
  failed : Code

-- `GrpcClientStatus`: the error of a call, converted, and the message of its response.
pub record Status : Type 0 where
  pub code : Code
  pub error_message : Text
  pub message : Text

result_of : Code → Bool → Status → Text
result_of succeeded details st = st.message
result_of unavailable details st =
    if details then st.error_message else text "Push server is currently unavailable"
result_of failed details st = text "Error: " ++ st.error_message

-- `Result`
unfoldable pub result : Bool → Status → Text
unfolding result_of
result details st = result_of st.code details st

-- `uint32(n)`
abbrev pub to_uint32 : ℤ → ℕ
to_uint32 (pos n) = n % 2 ^ 32
to_uint32 (negsuc n) = 2 ^ 32 - suc (n % 2 ^ 32)

-- `ActivateSubscriptionRequest`, as `ActivateSubscription` fills it.
pub record Activation : Type 0 where
  pub full_sub : Text
  pub full_topic : Text
  pub push_endpoint : Text
  pub retry_type : Text
  pub retry_period : ℕ  -- uint32
  pub max_messages : ℤ  -- int64
  pub authz_header : Text

-- The calls of the push server, which keeps a state of its own.
pub record PushServer (P : Type 0) : Type 0 where
  pub subscription_status : Text → P → P × Status
  pub activate_subscription : Activation → P → P × Status
  pub deactivate_subscription : Text → P → P × Status
