-- ===== src/Handlers/Subscriptions/Push/Changes.antt =====
-- `SubModPush` of handlers/subscriptions.go over the store in memory and a reliable push server.
use argo_messaging.Base.{
  Text, text_eq, text_beq, text_beq_iff, ◌==◌, Bool, true, false, ◌&&◌, not, Option, [], ◌∷◌, ◌≡◌,
  refl, sym, ap, is_empty, inl, inr, Bool-cases, arith,
}
use mathlib.Core.Path.{subst}
use argo_messaging.Base.Searches.{filter-passes}
use argo_messaging.Stores.Models.{QSub}
use argo_messaging.Stores.Times.{Zulu}
use argo_messaging.Stores.Interface.{PushFields}
use argo_messaging.Stores.Mock.State.{Mock}
use argo_messaging.Stores.Mock.Instance.{mock}
use argo_messaging.Stores.Mock.Subs
use argo_messaging.Push.Client.{PushServer, Activation}
use argo_messaging.Subscriptions.{Subscription, PushConfig, new_subscription, is_empty_push_config}
use argo_messaging.Subscriptions.Operations.{mod_sub_push, normal_period}
use argo_messaging.Subscriptions.Operations.Named.{
  subs_named, project_name, pushed, mod_sub_push-named,
}
use argo_messaging.Auth.Users.{User}
use argo_messaging.Handlers.{done, Body, invalid_argument}
use argo_messaging.Handlers.Steps.{◌>>◌, refuse_error}
use argo_messaging.Handlers.Steps.Rules.{
  Ensures, >>=-Ensures, refuse_error-Ensures, read_body-Ensures,
}
use argo_messaging.Handlers.Subscriptions.{subscription, missing_or_internal}
use argo_messaging.Handlers.Subscriptions.Creation.{PushContext}
use argo_messaging.Handlers.Subscriptions.Push.{
  planned, stopped_fields, sub_mod_push, after_storing,
}
use argo_messaging.Handlers.Subscriptions.Push.Ownership.{IsSound, planned-IsSound}
use argo_messaging.Handlers.Subscriptions.Push.Sync.{
  Reliable, is_verified, wanted, active_for, IsInSync,
}
use argo_messaging.Handlers.Subscriptions.Push.Restoring.{
  pend-new, verified-not_empty, found_sub-Ensures, after_storing-Ensures,
}

kept_endpoint :
    (cfg old : PushConfig)
    → (old.verified ≡ true → is_empty old.pend ≡ false)
    → not (is_empty cfg.pend) && (cfg.pend == old.pend && old.verified)
      ≡ (cfg.pend == old.pend && old.verified)
kept_endpoint cfg old h = elim (Bool-cases (cfg.pend == old.pend)) [
  | inl e ↦
      rw ((text_beq_iff cfg.pend old.pend).0 e)
        (by_case (text_beq old.pend old.pend) old.verified h)
  | inr e ↦ rw e (by_false (is_empty cfg.pend))
]
  where
    by_false : (b : Bool) → not b && false ≡ false
    by_false true = refl
    by_false false = refl

    by_case :
        (same v : Bool)
        → (v ≡ true → is_empty old.pend ≡ false)
        → not (is_empty old.pend) && (same && v) ≡ (same && v)
    by_case same true h = rw (h refl) refl
    by_case true false h = by_false (is_empty old.pend)
    by_case false false h = by_false (is_empty old.pend)

-- The fields that are planned are verified exactly if the endpoint stays and was verified.
planned-is_verified :
    (z : Zulu) (project : Text) (q : QSub) (cfg : PushConfig) (f : PushFields)
    → let old = (new_subscription z project q).push_cfg in
      (is_empty_push_config cfg ≡ true → f ≡ stopped_fields old)
      → (is_empty_push_config cfg ≡ false
          → (f.push_endpoint ≡ cfg.pend) × (f.verified ≡ (cfg.pend == old.pend && old.verified)))
      → is_verified (pushed (normal_period f) q)
        ≡ (not (is_empty_push_config cfg) && (cfg.pend == old.pend && old.verified))
unfolding is_empty
planned-is_verified z project q cfg f stops goes = elim (Bool-cases (is_empty_push_config cfg)) [
  | inl e ↦ rw (e, stops e) refl
  | inr e ↦
      rw (e, (goes e).0, (goes e).1)
        (kept_endpoint cfg (new_subscription z project q).push_cfg
          λ v. pend-new z project q (verified-not_empty _ v))
]

pub names_of :
    (z : Zulu) (project_uuid name : Text) (mk : Mock) (q : QSub)
    → subs_named z project_uuid name mk ≡ q ∷ []
    → (q.project_uuid ≡ project_uuid) × (q.name ≡ name)
unfolding Subs.is_sub
names_of z project_uuid name mk q e =
    let passes : q.project_uuid == project_uuid && q.name == name ≡ true =
      filter-passes (Subs.is_sub project_uuid name) mk.sub_list q e in
    ground (arith, passes, text_beq_iff q.project_uuid project_uuid, text_beq_iff q.name name)

module _ {P : Type 0} (z : Zulu) (server : PushServer P) (active : P → Text → Option Activation)
    (reliable : Reliable server active) (project_uuid name : Text)
    (named : is_empty name ≡ false) where
  abbrev InSync : Mock × P → Type 0
  InSync = IsInSync z server active project_uuid name

  abbrev Anything : Unit {0} → Mock × P → Type 0
  Anything _ _ = Unit

  -- What follows the plan of `SubModPush`.
  planned-Ensures :
      (c : PushContext) (q : QSub) (cfg : PushConfig) (f : PushFields) (worker : User) (mk : Mock)
      (p : P)
      → InSync (mk, p)
      → subs_named z project_uuid name mk ≡ q ∷ []
      → active_for z server active project_uuid name mk p
        ≡ wanted (project_name z project_uuid name mk) q
      → let old = new_subscription z (project_name z project_uuid name mk) q in
        IsSound z (mock z) server c project_uuid name old.push_cfg cfg (mk, p) (f, worker) (mk, p)
        → let (mk', e) = mod_sub_push z (mock z) project_uuid name f mk in
          Ensures InSync Anything (
            (refuse_error missing_or_internal e
                >> after_storing z (mock z) server c project_uuid name old cfg f worker)
              (mk', p))
  planned-Ensures c q cfg f worker mk p sync alone before sound =
      let old = new_subscription z (project_name z project_uuid name mk) q in
      let r = mod_sub_push z (mock z) project_uuid name f mk in
      let (done, (ss, changed, stored)) =
        mod_sub_push-named z project_uuid name named mk sync.0 f q alone in
      refuse_error-Ensures InSync Anything missing_or_internal r.1 _ (r.0, p)
        λ _.
          after_storing-Ensures z server active reliable project_uuid name named q mk p sync.0
            (names_of z project_uuid name mk q alone).1 before f r.0
            (ap (λ m. m.project_list) changed) stored c cfg worker
            (planned-is_verified z (project_name z project_uuid name mk) q cfg f sound.2
              λ n. ((sound.3 n).0, (sound.3 n).1))

  pub sub_mod_push-Ensures :
      (c : PushContext) (body : Body Subscription) (mk : Mock) (p : P)
      → InSync (mk, p)
      → Ensures InSync Anything (sub_mod_push z (mock z) server c project_uuid name body (mk, p))
  unfolding sub_mod_push
  sub_mod_push-Ensures c body mk p sync =
      read_body-Ensures InSync Anything (invalid_argument subscription) body _ (mk, p)
        λ given _.
          found_sub-Ensures z server active reliable project_uuid name named Anything _ mk p sync
            λ q alone before.
              let old = (new_subscription z (project_name z project_uuid name mk) q).push_cfg in
              >>=-Ensures InSync _ Anything
                (planned z (mock z) server c project_uuid name old given.push_cfg
                  (is_empty_push_config given.push_cfg))
                _ (mk, p)
                (planned-IsSound z (mock z) server c project_uuid name InSync old given.push_cfg _
                  (mk, p) refl)
                λ fw w sound.
                  subst
                    (λ v.
                      let (mk', e) = mod_sub_push z (mock z) project_uuid name fw.0 v.0 in
                      Ensures InSync Anything (
                        (refuse_error missing_or_internal e
                            >> after_storing z (mock z) server c project_uuid name
                                (new_subscription z (project_name z project_uuid name mk) q)
                                given.push_cfg fw.0 fw.1)
                          (mk', v.1)))
                    (sym sound.0)
                    (planned-Ensures c q given.push_cfg fw.0 fw.1 mk p sync alone before
                      (refl, sound.1, sound.2, sound.3))
