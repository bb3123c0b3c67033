-- ===== src/Handlers/Subscriptions/Push/Sync.antt =====
-- One subscription at the push server and in the store in memory: the agreement of the two, and what
-- the parts of `SubModPush` and `SubVerifyPushEndpoint` do to it.
use argo_messaging.Base.{
  Text, text, text_eq, Error, Bool, true, false, ◌&&◌, not, Option, none, some, [], ◌∷◌, ◌++◌, ◌≡◌,
  refl, ◌∙◌, is_empty, if◌then◌else◌, Result, ok, err, panic, ◌⊎◌,
}
use mathlib.Core.Option.{map as map_option}
use argo_messaging.Base.Int.{ℤ}
use argo_messaging.Stores.Models.{QSub}
use argo_messaging.Stores.Times.{Zulu}
use argo_messaging.Stores.Interface.{PushFields}
use argo_messaging.Stores.Mock.State.{Mock}
use argo_messaging.Stores.Mock.Instance.{mock}
use argo_messaging.Push.Client.{PushServer, Activation}
use argo_messaging.Subscriptions.{Subscription}
use argo_messaging.Subscriptions.Operations.Named.{subs_named, project_name}
use argo_messaging.Auth.{append_to_acl, append_to_user_projects}
use argo_messaging.Auth.Users.{User}
use argo_messaging.Handlers.{generic_internal}
use argo_messaging.Handlers.Steps.{refuse_error}
use argo_messaging.Handlers.Steps.Rules.{Ensures, refuse_error-Ensures}
use argo_messaging.Handlers.Subscriptions.Creation.{PushContext}
use argo_messaging.Handlers.Subscriptions.Push.{
  deactivated, activated, removal_error, activation_of,
}
use argo_messaging.Handlers.Subscriptions.Push.Kept.{
  IsKept, AllKept, remove_from_acl-AllKept, append_to_acl-IsKept, append_to_user_projects-IsKept,
}

-- What the calls of a push server do to what it has active, by the full names of subscriptions.
pub record Reliable {P : Type 0} (server : PushServer P) (active : P → Text → Option Activation)
    : Type 0 where
  pub activates :
      (a : Activation) (p : P) → active (server.activate_subscription a p).0 a.full_sub ≡ some a
  pub deactivates :
      (sub : Text) (p : P) → active (server.deactivate_subscription sub p).0 sub ≡ none

abbrev pub is_verified : QSub → Bool
is_verified q = not (is_empty q.push_endpoint) && q.verified

-- What the two have in common: topic, endpoint, retry policy, messages, header.
abbrev Shared : Type 0
Shared = Text × (Text × (Text × (ℤ × Text)))

abbrev pub shared : Activation → Shared
shared a = (a.full_topic, (a.push_endpoint, (a.retry_type, (a.max_messages, a.authz_header))))

abbrev pub full_topic_of : Text → QSub → Text
full_topic_of project q = text "/projects/" ++ (project ++ (text "/topics/" ++ q.topic))

abbrev pub full_name_of : Text → Text → Text
full_name_of project name = text "/projects/" ++ (project ++ (text "/subscriptions/" ++ name))

-- What is to be active for a stored subscription.
abbrev pub wanted : Text → QSub → Option Shared
wanted project q =
    if is_verified q
    then some (
      full_topic_of project q,
      (q.push_endpoint, (q.ret_policy, (q.max_messages, q.authorization_header))),
    )
    else none

module _ {P : Type 0} (z : Zulu) (server : PushServer P) (active : P → Text → Option Activation)
    (project_uuid name : Text) where
  abbrev pub active_for : Mock → P → Option Shared
  active_for mk p =
      map_option shared (active p (full_name_of (project_name z project_uuid name mk) name))

  -- The project is known. There is no subscription of that name and the push server has none active; or
  -- there is one, which is active exactly if its endpoint is verified, with what is stored.
  abbrev pub IsInSync : Mock × P → Type 0
  IsInSync (mk, p) =
      (is_empty (project_name z project_uuid name mk) ≡ false)
      × (((subs_named z project_uuid name mk ≡ []) × (active_for mk p ≡ none))
          ⊎ ((q : QSub) × (subs_named z project_uuid name mk ≡ q ∷ [])
              × (active_for mk p ≡ wanted (project_name z project_uuid name mk) q)))

module _ {P : Type 0} (z : Zulu) (server : PushServer P) (c : PushContext)
    (project_uuid url_sub : Text) (I : Mock × P → Type 0) where
  removal-Ensures :
      (mk : Mock) (p : P) (r : Result (Mock × Error))
      → AllKept mk r
      → Ensures I
          (λ _ (mk', p'). IsKept mk mk' × (p' ≡ p))
          (removal_error z (mock z) server c project_uuid url_sub r (mk, p))
  removal-Ensures mk p (ok (mk', none)) h = (h, refl)
  removal-Ensures mk p (ok (mk', some e)) h = λ j c. cc
  removal-Ensures mk p (err e) h = λ j c. cc
  removal-Ensures mk p panic h = λ j c. cc

  pub deactivated-Ensures :
      (b : Bool) (sub : Subscription) (worker : User) (mk : Mock) (p : P)
      → Ensures I
          (λ _ (mk', p').
            IsKept mk mk'
            × (p' ≡ (if b then (server.deactivate_subscription sub.full_name p).0 else p)))
          (deactivated z (mock z) server c project_uuid url_sub b sub worker (mk, p))
  deactivated-Ensures false sub worker mk p = ((refl, refl), refl)
  deactivated-Ensures true sub worker mk p =
      removal-Ensures mk (server.deactivate_subscription sub.full_name p).0 _
        (remove_from_acl-AllKept z project_uuid sub.name mk (worker.name ∷ []))

  both-IsKept : (mk1 mk2 mk3 : Mock) → IsKept mk1 mk2 → IsKept mk2 mk3 → IsKept mk1 mk3
  both-IsKept mk1 mk2 mk3 h k = (k.0 ∙ h.0, k.1 ∙ h.1)

  pub activated-Ensures :
      (b : Bool) (sub : Subscription) (f : PushFields) (worker : User) (mk : Mock) (p : P)
      → Ensures I
          (λ _ (mk', p').
            IsKept mk mk'
            × (p' ≡ (if b then (server.activate_subscription (activation_of sub f) p).0 else p)))
          (activated z (mock z) server c project_uuid url_sub b sub f worker (mk, p))
  activated-Ensures false sub f worker mk p = ((refl, refl), refl)
  activated-Ensures true sub f worker mk p =
      let p' = (server.activate_subscription (activation_of sub f) p).0 in
      let r =
        append_to_acl (mock z) project_uuid (text "subscriptions") sub.name (worker.name ∷ []) mk in
      let r' = append_to_user_projects (mock z) worker.uuid project_uuid [] r.0 in
      refuse_error-Ensures I _ generic_internal r.1 _ (r.0, p')
        λ e. last r'.1 r'.0 p' (
          both-IsKept mk r.0 r'.0
            (append_to_acl-IsKept z project_uuid sub.name mk (worker.name ∷ []))
            (append_to_user_projects-IsKept z project_uuid sub.name r.0 worker.uuid))
    where
      last :
          (e : Error) (mk' : Mock) (p' : P)
          → IsKept mk mk'
          → Ensures {O = Text} I
              (λ _ (mk'', p''). IsKept mk mk'' × (p'' ≡ p'))
              (refuse_error generic_internal e (mk', p'))
      last none mk' p' h = (h, refl)
      last (some e) mk' p' h = λ j c. cc
