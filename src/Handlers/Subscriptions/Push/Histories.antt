-- ===== src/Handlers/Subscriptions/Push/Histories.antt =====
-- Histories of requests on one subscription (handlers/subscriptions.go), over the store in memory and a
-- reliable push server.
use argo_messaging.Base.{Text, false, Option, is_empty, ◌≡◌}
use argo_messaging.Base.Int.{ℤ}
use argo_messaging.Stores.Times.{Zulu}
use argo_messaging.Stores.Mock.State.{Mock}
use argo_messaging.Stores.Mock.Instance.{mock}
use argo_messaging.Push.Client.{PushServer, Activation}
use argo_messaging.Subscriptions.{Subscription}
use argo_messaging.Subscriptions.Verification.{Http}
use argo_messaging.Handlers.{Outcome, done, Body}
use argo_messaging.Handlers.Steps.{M, run}
use argo_messaging.Handlers.Steps.Rules.{Ensures, run-Ensures}
use argo_messaging.Handlers.Subscriptions.{sub_delete, sub_mod_ack}
use argo_messaging.Handlers.Subscriptions.Creation.{PushContext}
use argo_messaging.Handlers.Subscriptions.Push.{sub_mod_push, sub_verify_push_endpoint}
use argo_messaging.Handlers.Subscriptions.Push.Sync.{Reliable, IsInSync}
use argo_messaging.Handlers.Subscriptions.Push.Changes.{sub_mod_push-Ensures}
use argo_messaging.Handlers.Subscriptions.Push.Requests.{
  sub_verify_push_endpoint-Ensures, sub_delete-Ensures, sub_mod_ack-Ensures,
}

-- A request, with what the outside answers to its handler.
pub data Request : Type 0 where
  mod_push : PushContext → Body Subscription → Request
  verify : PushContext → Http → Request
  mod_ack : Body ℤ → Request
  delete : (Text → Text) → Request

module _ {P : Type 0} (z : Zulu) (server : PushServer P) (project_uuid name : Text) where
  abbrev pub handler : Request → M (Mock × P) Text (Unit {0})
  handler (mod_push c body) = sub_mod_push z (mock z) server c project_uuid name body
  handler (verify c http) = sub_verify_push_endpoint z (mock z) server c project_uuid name http
  handler (mod_ack body) = sub_mod_ack z (mock z) project_uuid name body
  handler (delete to_json) = sub_delete z (mock z) project_uuid name server to_json

  abbrev pub handle : Request → Mock × P → (Mock × P) × Outcome Text
  handle r = run (handler r)

  -- The states that requests lead to, each of which is answered with success.
  pub data Reaches (w : Mock × P) : Mock × P → Type 0 where
    start : Reaches w w
    further :
        (w' : Mock × P)
        → Reaches w w'
        → (r : Request) → (j : Text) → (handle r w').1 ≡ done j
        → Reaches w (handle r w').0

module _ {P : Type 0} (z : Zulu) (server : PushServer P) (active : P → Text → Option Activation)
    (reliable : Reliable server active) (project_uuid name : Text)
    (named : is_empty name ≡ false) where
  abbrev InSync : Mock × P → Type 0
  InSync = IsInSync z server active project_uuid name

  handler-Ensures :
      (r : Request) (mk : Mock) (p : P)
      → InSync (mk, p)
      → Ensures InSync (λ _ _. Unit {0}) (handler z server project_uuid name r (mk, p))
  handler-Ensures (mod_push c body) =
      sub_mod_push-Ensures z server active reliable project_uuid name named c body
  handler-Ensures (verify c http) =
      sub_verify_push_endpoint-Ensures z server active reliable project_uuid name named c http
  handler-Ensures (mod_ack body) =
      sub_mod_ack-Ensures z server active reliable project_uuid name named body
  handler-Ensures (delete to_json) =
      sub_delete-Ensures z server active reliable project_uuid name named to_json

  -- Let a push server be reliable: to activate a subscription makes it active with what is sent, and to
  -- deactivate it makes it inactive. Let a subscription, in a known project, be in the store in memory at
  -- most once, and let the server have it active exactly if its endpoint is verified, with the topic,
  -- endpoint, retry policy, header and number of messages that are stored; if it is not in the store, not
  -- active. This still holds after any sequence of requests that change its push configuration, verify
  -- its endpoint, change its deadline or delete it, as long as each of them is answered with success.
  pub Reaches-IsInSync :
      (w w' : Mock × P) → InSync w → Reaches z server project_uuid name w w' → InSync w'
  Reaches-IsInSync w w' h start = h
  Reaches-IsInSync w w' h (further w1 before r j success) =
      run-Ensures InSync (handler z server project_uuid name r) (λ _ _. Unit {0}) w1
        (handler-Ensures r w1.0 w1.1 (Reaches-IsInSync w w1 h before)) j success
