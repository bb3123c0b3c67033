-- ===== src/Handlers/Subscriptions/Push/Requests.antt =====
-- `SubDelete`, `SubVerifyPushEndpoint` and `SubModAck` of handlers/subscriptions.go over the store in
-- memory and a reliable push server.
use argo_messaging.Base.{
  Text, text, text_eq, Error, Bool, true, false, not, Option, none, some, [], ◌∷◌, ◌≡◌, refl, sym,
  ap, ◌∙◌, is_empty, inl, inr,
}
use mathlib.Core.Path.{subst}
use argo_messaging.Base.Int.{ℤ}
use argo_messaging.Stores.Models.{QSub}
use argo_messaging.Stores.Times.{Zulu}
use argo_messaging.Stores.Interface.{PushFields}
use argo_messaging.Stores.Mock.State.{Mock}
use argo_messaging.Stores.Mock.Instance.{mock}
use argo_messaging.Push.Client.{PushServer, Activation}
use argo_messaging.Subscriptions.{new_subscription, is_empty_push_config}
use argo_messaging.Subscriptions.Operations.{mod_sub_push, normal_period, remove_sub}
use argo_messaging.Subscriptions.Operations
use argo_messaging.Subscriptions.Operations.Named.{
  subs_named, project_name, pushed, Becomes, mod_sub_push-named, remove_sub-named, mod_ack-named,
  mod_ack-missing,
}
use argo_messaging.Subscriptions.Verification.{
  Http, fields_of, ownership_error, verify_push_endpoint,
}
use argo_messaging.Auth.Users.{User, get_push_worker}
use argo_messaging.Handlers.{
  done, Body, push_conflict, internal_push, push_verification, generic_conflict,
}
use argo_messaging.Handlers.Steps.{◌>>◌, refuse_error, answer}
use argo_messaging.Handlers.Steps.Rules.{
  Ensures, >>=-Ensures, refuse_if-Ensures, refuse_error-Ensures, result_or-Ensures,
  read_body-Ensures,
}
use argo_messaging.Handlers.Subscriptions.{
  missing_or_internal, deadline_error, bad_deadline, sub_delete, after_delete, sub_mod_ack,
}
use argo_messaging.Handlers.Subscriptions.Creation.{PushContext}
use argo_messaging.Handlers.Subscriptions.Push.{
  sub_verify_push_endpoint, verified_fields, activated,
}
use argo_messaging.Handlers.Subscriptions.Push.Kept.{get_name_by_uuid-kept}
use argo_messaging.Handlers.Subscriptions.Push.Sync.{
  Reliable, wanted, active_for, IsInSync, activated-Ensures,
}
use argo_messaging.Handlers.Subscriptions.Push.Restoring.{
  was_verified, pend-new, found_sub-Ensures, restored, was_idle, gone-InSync,
}
use argo_messaging.Handlers.Subscriptions.Push.Changes.{names_of}

module _ {P : Type 0} (z : Zulu) (server : PushServer P) (active : P → Text → Option Activation)
    (reliable : Reliable server active) (project_uuid name : Text)
    (named : is_empty name ≡ false) where
  abbrev InSync : Mock × P → Type 0
  InSync = IsInSync z server active project_uuid name

  abbrev Anything : Unit {0} → Mock × P → Type 0
  Anything _ _ = Unit

  -- `VerifyPushEndpoint`, if it succeeds.
  verify_push_endpoint-named :
      (q : QSub) (http : Http) (mk : Mock)
      (known : is_empty (project_name z project_uuid name mk) ≡ false)
      → subs_named z project_uuid name mk ≡ q ∷ []
      → let sub = new_subscription z (project_name z project_uuid name mk) q in
        (verify_push_endpoint z (mock z) http sub mk).1 ≡ none
        → Becomes z project_uuid name named mk known
            (verify_push_endpoint z (mock z) http sub mk)
            (pushed (normal_period (record (fields_of sub.push_cfg) { verified = true })) q ∷ [])
  unfolding verify_push_endpoint new_subscription
  verify_push_endpoint-named q http mk known alone =
      go
        (ownership_error http (new_subscription z (project_name z project_uuid name mk) q).push_cfg)
    where
      f : PushFields
      f = record (fields_of (new_subscription z (project_name z project_uuid name mk) q).push_cfg) {
        verified = true;
      }

      same_call :
          mod_sub_push z (mock z) q.project_uuid q.name f mk
          ≡ mod_sub_push z (mock z) project_uuid name f mk
      same_call =
          let (u, n) = names_of z project_uuid name mk q alone in
          ap (λ x. mod_sub_push z (mock z) x q.name f mk) u
          ∙ ap (λ x. mod_sub_push z (mock z) project_uuid x f mk) n

      go :
          (o : Error)
          → (elim o as (λ x. Mock × Error) [
            | some e ↦ (mk, some e)
            | none ↦ mod_sub_push z (mock z) q.project_uuid q.name f mk
          ]).1
            ≡ none
          → Becomes z project_uuid name named mk known
              (elim o as (λ x. Mock × Error) [
                | some e ↦ (mk, some e)
                | none ↦ mod_sub_push z (mock z) q.project_uuid q.name f mk
              ])
              (pushed (normal_period f) q ∷ [])
      go (some e) h = cc
      go none h =
          subst
            (λ r. Becomes z project_uuid name named mk known r (pushed (normal_period f) q ∷ []))
            (sym same_call) (mod_sub_push-named z project_uuid name named mk known f q alone)

  -- What follows `SubDelete`'s removal.
  after_delete-Ensures :
      (q : QSub) (to_json : Text → Text) (mk mk' : Mock) (p : P)
      → InSync (mk, p)
      → subs_named z project_uuid name mk ≡ q ∷ []
      → active_for z server active project_uuid name mk p
        ≡ wanted (project_name z project_uuid name mk) q
      → mk'.project_list ≡ mk.project_list
      → subs_named z project_uuid name mk' ≡ []
      → (b : Bool)
      → let sub = new_subscription z (project_name z project_uuid name mk) q in
        was_verified sub.push_cfg ≡ b
        → Ensures InSync Anything
            (after_delete z (mock z) project_uuid name server to_json b sub (mk', p))
  after_delete-Ensures q to_json mk mk' p sync alone before projects gone true was = λ j e.
      gone-InSync z server active reliable project_uuid name named q mk p sync.0
        (names_of z project_uuid name mk q alone).1 before mk' _ projects gone
        (reliable.deactivates _ p)
  after_delete-Ensures q to_json mk mk' p sync alone before projects gone false was = λ j e.
      gone-InSync z server active reliable project_uuid name named q mk p sync.0
        (names_of z project_uuid name mk q alone).1 before mk' p projects gone
        (was_idle z server active reliable project_uuid name named q mk p sync.0
          (names_of z project_uuid name mk q alone).1 before was)

  pub sub_delete-Ensures :
      (to_json : Text → Text) (mk : Mock) (p : P)
      → InSync (mk, p)
      → Ensures InSync Anything (sub_delete z (mock z) project_uuid name server to_json (mk, p))
  unfolding sub_delete
  sub_delete-Ensures to_json mk p sync =
      found_sub-Ensures z server active reliable project_uuid name named Anything _ mk p sync
        λ q alone before.
          let r = remove_sub z (mock z) project_uuid name mk in
          let (removed, (ss, changed, gone)) =
            remove_sub-named z project_uuid name named mk sync.0 q alone in
          refuse_error-Ensures InSync Anything missing_or_internal r.1 _ (r.0, p)
            λ _.
              after_delete-Ensures q to_json mk r.0 p sync alone before
                (ap (λ m. m.project_list) changed) gone _ refl

  -- What follows `VerifyPushEndpoint`, for a subscription that was not verified.
  owned-Ensures :
      (c : PushContext) (q : QSub) (http : Http) (worker : User) (mk : Mock) (p : P)
      → InSync (mk, p)
      → subs_named z project_uuid name mk ≡ q ∷ []
      → active_for z server active project_uuid name mk p
        ≡ wanted (project_name z project_uuid name mk) q
      → let sub = new_subscription z (project_name z project_uuid name mk) q in
        is_empty_push_config sub.push_cfg ≡ false
        → sub.push_cfg.verified ≡ false
        → let (mk', e) = verify_push_endpoint z (mock z) http sub mk in
          Ensures InSync Anything (
            (refuse_error push_verification e
                >> (activated z
                      (mock z)
                      server
                      c
                      project_uuid
                      name
                      true
                      sub
                      (verified_fields z (mock z) server c project_uuid name sub.push_cfg)
                      worker
                    >> answer (done [])))
              (mk', p))
  owned-Ensures c q http worker mk p sync alone before pushing new =
      let sub = new_subscription z (project_name z project_uuid name mk) q in
      let f = verified_fields z (mock z) server c project_uuid name sub.push_cfg in
      let r = verify_push_endpoint z (mock z) http sub mk in
      refuse_error-Ensures InSync Anything push_verification r.1 _ (r.0, p)
        λ ok.
          >>=-Ensures InSync _ Anything
            (activated z (mock z) server c project_uuid name true sub f worker) _ (r.0, p)
            (activated-Ensures z server c project_uuid name InSync true sub f worker r.0 p)
            λ u w h j e.
              let (done', (ss, changed, stored)) =
                verify_push_endpoint-named q http mk sync.0 alone ok in
              subst (λ v. InSync (w.0, v)) (sym h.1)
                (restored z server active reliable project_uuid name named q mk p sync.0
                  (names_of z project_uuid name mk q alone).1 before f r.0
                  (ap (λ m. m.project_list) changed) stored false true w.0 h.0
                  (rw (pushing, new) refl)
                  (rw (pend-new z (project_name z project_uuid name mk) q pushing) refl))

  pub sub_verify_push_endpoint-Ensures :
      (c : PushContext) (http : Http) (mk : Mock) (p : P)
      → InSync (mk, p)
      → Ensures InSync Anything
          (sub_verify_push_endpoint z (mock z) server c project_uuid name http (mk, p))
  unfolding sub_verify_push_endpoint
  sub_verify_push_endpoint-Ensures c http mk p sync =
      refuse_if-Ensures InSync Anything (not c.push_enabled) push_conflict _ (mk, p)
        λ _.
          result_or-Ensures InSync Anything (λ _. internal_push)
            (get_push_worker z (mock z) c.worker_token mk) _ (mk, p)
            λ worker _.
              found_sub-Ensures z server active reliable project_uuid name named Anything _ mk p
                sync
                λ q alone before.
                  let cfg = (new_subscription z (project_name z project_uuid name mk) q).push_cfg in
                  refuse_if-Ensures InSync Anything (is_empty_push_config cfg)
                    (generic_conflict (text "Subscription is not in push mode")) _ (mk, p)
                    λ pushing.
                      refuse_if-Ensures InSync Anything cfg.verified
                        (generic_conflict (text "Push endpoint is already verified")) _ (mk, p)
                        λ new. owned-Ensures c q http worker mk p sync alone before pushing new

  -- A change that keeps what the push server is to have.
  unwanted_change :
      (q q' : QSub) (mk mk' : Mock) (p : P)
      → InSync (mk, p)
      → active_for z server active project_uuid name mk p
        ≡ wanted (project_name z project_uuid name mk) q
      → mk'.project_list ≡ mk.project_list
      → subs_named z project_uuid name mk' ≡ q' ∷ []
      → ((project : Text) → wanted project q' ≡ wanted project q)
      → InSync (mk', p)
  unwanted_change q q' mk mk' p sync before projects alone same =
      let e : project_name z project_uuid name mk' ≡ project_name z project_uuid name mk =
        get_name_by_uuid-kept z project_uuid name mk mk' projects in
      (rw e sync.0, inr (q', alone, rw (e, same (project_name z project_uuid name mk)) before))

  pub sub_mod_ack-Ensures :
      (body : Body ℤ) (mk : Mock) (p : P)
      → InSync (mk, p)
      → Ensures InSync Anything (sub_mod_ack z (mock z) project_uuid name body (mk, p))
  unfolding sub_mod_ack
  sub_mod_ack-Ensures body mk p sync =
      read_body-Ensures InSync Anything bad_deadline body _ (mk, p)
        λ ack _.
          let r = Operations.mod_ack z (mock z) project_uuid name ack mk in
          refuse_error-Ensures InSync Anything deadline_error r.1 _ (r.0, p)
            λ ok j e. acked ack sync ok
    where
      acked :
          (ack : ℤ)
          → InSync (mk, p)
          → (Operations.mod_ack z (mock z) project_uuid name ack mk).1 ≡ none
          → InSync ((Operations.mod_ack z (mock z) project_uuid name ack mk).0, p)
      acked ack (known, inl (gone, idle)) ok =
          let (e, missing) = mod_ack-missing z project_uuid name named mk known ack gone in
          let failed : some e ≡ none = rw missing at ok in cc
      acked ack (known, inr (q, alone, before)) ok =
          let (done', (ss, changed, stored)) =
            mod_ack-named z project_uuid name named mk known ack q alone ok in
          unwanted_change q (record q { ack = ack }) mk _ p (known, inr (q, alone, before)) before
            (ap (λ m. m.project_list) changed) stored (λ _. refl)
