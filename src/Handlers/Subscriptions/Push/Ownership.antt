-- ===== src/Handlers/Subscriptions/Push/Ownership.antt =====
-- What `SubModPush` makes of the ownership of an endpoint.
use argo_messaging.Base.{
  Text, text_eq, text_beq_iff, arith, ◌==◌, Bool, true, false, ◌&&◌, not, Option, none, some,
  is_empty, ◌≡◌, refl, ok,
}
use mathlib.Core.Path.{subst}
use argo_messaging.Stores.Times.{Zulu}
use argo_messaging.Stores.Interface.{Store, PushFields}
use argo_messaging.Push.Client.{PushServer}
use argo_messaging.Subscriptions.{
  PushConfig, is_empty_push_config, is_retry_policy_supported,
  is_authorization_header_type_supported,
}
use argo_messaging.Auth.Users.{User, get_push_worker}
use argo_messaging.Handlers.{push_conflict, internal_push}
use argo_messaging.Handlers.Steps.{next}
use argo_messaging.Handlers.Steps.Rules.{
  Ensures, refuse_if-Ensures, value_or-Ensures, result_or-Ensures,
}
use argo_messaging.Handlers.Subscriptions.Creation.{
  PushContext, bad_endpoint, policy_or_linear, unsupported_policy, unsupported_header, no_header,
  no_hash,
}
use argo_messaging.Handlers.Subscriptions.Push.{ownership, new_header, stopped_fields, planned}

-- What is verified was verified, for the same endpoint and with the same hash.
abbrev pub IsOwned : PushConfig → PushFields → Type 0
IsOwned existing f =
    f.verified ≡ true
    → (f.push_endpoint ≡ existing.pend)
      × (f.verification_hash ≡ existing.verification_hash)
      × (existing.verified ≡ true)

ownership-verified :
    (existing cfg : PushConfig) (token : Option Text) (hash : Text) (verified : Bool)
    → ownership existing cfg token ≡ some (hash, verified)
    → verified ≡ true
    → (cfg.pend ≡ existing.pend) × (hash ≡ existing.verification_hash) × (existing.verified ≡ true)
unfolding ownership
ownership-verified existing cfg none hash verified e v =
    ground (arith, text_beq_iff cfg.pend existing.pend)
ownership-verified existing cfg (some t) hash verified e v =
    ground (arith, text_beq_iff cfg.pend existing.pend)

ownership-verified_iff :
    (existing cfg : PushConfig) (token : Option Text) (hash : Text) (verified : Bool)
    → ownership existing cfg token ≡ some (hash, verified)
    → verified ≡ (cfg.pend == existing.pend && existing.verified)
unfolding ownership
ownership-verified_iff existing cfg none hash verified e = ground arith
ownership-verified_iff existing cfg (some t) hash verified e = ground arith

true_of_not : {b : Bool} → not b ≡ false → b ≡ true
true_of_not {b = true} h = refl
true_of_not {b = false} h = cc

module _ {S P : Type 0} (z : Zulu) (store : Store S) (server : PushServer P) (c : PushContext)
    (project_uuid url_sub : Text) where
  -- What the plan ensures for the request `cfg`, from the state `w`.
  abbrev pub IsSound : PushConfig → PushConfig → S × P → PushFields × User → S × P → Type 0
  IsSound existing cfg w p w' =
      (w' ≡ w)
      × IsOwned existing p.0
      × (is_empty_push_config cfg ≡ true → p.0 ≡ stopped_fields existing)
      × (is_empty_push_config cfg ≡ false
          → (p.0.push_endpoint ≡ cfg.pend)
            × (p.0.verified ≡ (cfg.pend == existing.pend && existing.verified))
            × (c.is_valid_https cfg.pend ≡ true)
            × (c.push_enabled ≡ true)
            × (get_push_worker z store c.worker_token w.0 ≡ ok p.1))

  pub planned-IsSound :
      (I : S × P → Type 0) (existing cfg : PushConfig) (b : Bool) (w : S × P)
      → is_empty_push_config cfg ≡ b
      → Ensures I
          (IsSound existing cfg w)
          (planned z store server c project_uuid url_sub existing cfg b w)
  unfolding planned
  planned-IsSound I existing cfg true w e = (refl, (λ v. cc), (λ n. refl), λ n. cc)
  planned-IsSound I existing cfg false w e =
      let type = cfg.authorization_header.type in
      refuse_if-Ensures I (IsSound existing cfg w) (not c.push_enabled) push_conflict _ w λ enabled.
        result_or-Ensures I (IsSound existing cfg w) (λ _. internal_push)
          (get_push_worker z store c.worker_token w.0) _ w
          λ worker found.
            refuse_if-Ensures I (IsSound existing cfg w) (not (c.is_valid_https cfg.pend))
              bad_endpoint _ w
              λ https.
                refuse_if-Ensures I (IsSound existing cfg w)
                  (not (is_retry_policy_supported (policy_or_linear cfg.ret_pol)))
                  unsupported_policy _ w
                  λ policy.
                    refuse_if-Ensures I (IsSound existing cfg w)
                      (not (is_empty type) && not (is_authorization_header_type_supported type))
                      unsupported_header _ w
                      λ supported.
                        value_or-Ensures I (IsSound existing cfg w) no_header
                          (new_header existing type c.header_token) _ w
                          λ header made.
                            value_or-Ensures I (IsSound existing cfg w) no_hash
                              (ownership existing cfg c.hash_token) _ w
                              λ owner known. (
                                refl,
                                ownership-verified existing cfg c.hash_token owner.0 owner.1 known,
                                (λ n. cc),
                                λ n. (
                                  refl,
                                  ownership-verified_iff existing cfg c.hash_token owner.0 owner.1
                                      known,
                                  true_of_not https,
                                  true_of_not enabled,
                                  found,
                                ),
                              )

  -- Whatever `SubModPush` is about to store for a request, it has changed nothing yet. If the fields say
  -- that the endpoint is verified, then it is the endpoint that the subscription had, with the same
  -- hash, and it was verified before. A request without a push configuration stops the pushing. If it
  -- has one, then pushing is enabled, there is a push worker, and the endpoint is the one of the request
  -- and a valid one, verified exactly if it is the subscription's and verified there.
  pub planned_lem :
      (existing cfg : PushConfig) (w w' : S × P) (f : PushFields) (worker : User)
      → planned z store server c project_uuid url_sub existing cfg (is_empty_push_config cfg) w
        ≡ next w' (f, worker)
      → IsSound existing cfg w (f, worker) w'
  planned_lem existing cfg w w' f worker e =
      subst (Ensures (λ _. Unit {0}) (IsSound existing cfg w)) e
        (planned-IsSound (λ _. Unit {0}) existing cfg (is_empty_push_config cfg) w refl)
