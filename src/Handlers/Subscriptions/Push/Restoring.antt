-- ===== src/Handlers/Subscriptions/Push/Restoring.antt =====
-- What follows the steps of `SubModPush` and `SubVerifyPushEndpoint` over the store in memory, with a
-- reliable push server.
use argo_messaging.Base.{
  Text, text_eq, Error, Result, ok, err, panic, ◌==◌, Bool, true, false, ◌&&◌, not, Option, none,
  some, List, [], ◌∷◌, map, filter, option_list, ◌≡◌, refl, sym, ap, ◌∙◌, is_empty, if◌then◌else◌,
  inl, inr, arith,
}
use mathlib.Core.Path.{subst}
use mathlib.Core.Option.{map as map_option}
use argo_messaging.Base.Searches.{head?}
use argo_messaging.Stores.Models.{QSub}
use argo_messaging.Stores.Times.{Zulu}
use argo_messaging.Stores.Interface.{PushFields}
use argo_messaging.Stores.Mock.State.{Mock}
use argo_messaging.Stores.Mock.Instance.{mock}
use argo_messaging.Stores.Mock.Subs
use argo_messaging.Push.Client.{PushServer, Activation}
use argo_messaging.Subscriptions.{
  Subscription, PaginatedSubscriptions, PushConfig, new_subscription, is_empty_push_config,
}
use argo_messaging.Subscriptions.Operations.{normal_period}
use argo_messaging.Subscriptions.Operations.Named.{subs_named, project_name, find-named, pushed}
use argo_messaging.Auth.Users.{User, get_push_worker}
use argo_messaging.Handlers.{generic_backend}
use argo_messaging.Handlers.Steps.{Step, M, ◌>>=◌, ◌>>◌, refuse_error}
use argo_messaging.Handlers.Steps.Rules.{Ensures, >>=-Ensures}
use argo_messaging.Handlers.Subscriptions.{found_sub, first_sub}
use argo_messaging.Handlers.Subscriptions.Creation.{PushContext}
use argo_messaging.Handlers.Subscriptions.Push.{
  deactivated, activated, activation_of, after_storing, worker_of, worker_or_none,
}
use argo_messaging.Handlers.Subscriptions.Push.Kept.{IsKept, get_name_by_uuid-kept}
use argo_messaging.Handlers.Subscriptions.Push.Sync.{
  Reliable, is_verified, shared, full_name_of, wanted, active_for, IsInSync, deactivated-Ensures,
  activated-Ensures,
}

-- Whether the stored subscription is pushed to, and its endpoint verified.
abbrev pub was_verified : PushConfig → Bool
was_verified cfg = not (is_empty_push_config cfg) && cfg.verified

was_verified-new :
    (z : Zulu) (project : Text) (q : QSub)
    → was_verified (new_subscription z project q).push_cfg ≡ is_verified q
unfolding new_subscription is_empty_push_config is_empty
was_verified-new z project q = ground arith

pub pend-new :
    (z : Zulu) (project : Text) (q : QSub)
    → is_empty_push_config (new_subscription z project q).push_cfg ≡ false
    → is_empty (new_subscription z project q).push_cfg.pend ≡ false
unfolding new_subscription is_empty_push_config is_empty
pend-new z project q h = ground arith

pub verified-not_empty : (cfg : PushConfig) → cfg.verified ≡ true → is_empty_push_config cfg ≡ false
unfolding is_empty_push_config
verified-not_empty cfg h = ground arith

-- A step whose result is known, and what follows it.
pub along :
    {W A B : Type 0} (I : W → Type 0) (Q : B → W → Type 0) (m : M W Text A) (k : A → M W Text B)
    (w : W) {r : Step W Text A}
    → m w ≡ r
    → Ensures I Q (((λ _. r) >>= k) w)
    → Ensures I Q ((m >>= k) w)
along I Q m k w e h = subst (λ r. Ensures I Q (((λ _. r) >>= k) w)) (sym e) h

-- A step that changes nothing, and what follows it.
pub silent-Ensures :
    {W A B : Type 0} (I : W → Type 0) (Q : B → W → Type 0) (m : M W Text A) (k : A → M W Text B)
    (w : W)
    → Ensures I (λ _ w'. w' ≡ w) (m w)
    → ((a : A) → Ensures I Q (k a w))
    → Ensures I Q ((m >>= k) w)
silent-Ensures I Q m k w h l =
    >>=-Ensures I (λ _ w'. w' ≡ w) Q m k w h
      λ a w' e. subst (λ v. Ensures I Q (k a v)) (sym e) (l a)

of_map_none : {A B : Type 0} (f : A → B) (o : Option A) → map_option f o ≡ none → o ≡ none
of_map_none f none h = refl
of_map_none f (some a) h = cc

module _ {P : Type 0} (z : Zulu) (server : PushServer P) (active : P → Text → Option Activation)
    (reliable : Reliable server active) (project_uuid name : Text)
    (named : is_empty name ≡ false) where
  abbrev pub InSync : Mock × P → Type 0
  InSync = IsInSync z server active project_uuid name

  -- `found_sub` after `Find` has answered.
  abbrev of_find : P → Mock × (PaginatedSubscriptions × Error) → Step (Mock × P) Text Subscription
  of_find p (mk, (res, e)) =
      (refuse_error (λ _. generic_backend) e >> first_sub res.subscriptions) (mk, p)

  found_sub-named :
      (mk : Mock) (p : P) (qs : List QSub)
      → is_empty (project_name z project_uuid name mk) ≡ false
      → subs_named z project_uuid name mk ≡ qs
      → found_sub z (mock z) project_uuid name (mk, p)
        ≡ first_sub
            (map
              (new_subscription z (project_name z project_uuid name mk))
              (option_list (head? qs)))
            (mk, p)
  found_sub-named mk p qs known e =
      ap (of_find p) (find-named z project_uuid name named mk known)
      ∙ ap
          (λ l.
            first_sub
              (map (new_subscription z (project_name z project_uuid name mk))
                (option_list (head? l)))
              (mk, p))
          e

  -- What follows `found_sub` starts with the only subscription of that name.
  pub found_sub-Ensures :
      {B : Type 0} (Q : B → Mock × P → Type 0) (k : Subscription → M (Mock × P) Text B) (mk : Mock)
      (p : P)
      → InSync (mk, p)
      → ((q : QSub)
          → subs_named z project_uuid name mk ≡ q ∷ []
          → active_for z server active project_uuid name mk p
            ≡ wanted (project_name z project_uuid name mk) q
          → Ensures InSync Q
              (k (new_subscription z (project_name z project_uuid name mk) q) (mk, p)))
      → Ensures InSync Q ((found_sub z (mock z) project_uuid name >>= k) (mk, p))
  found_sub-Ensures Q k mk p (known, inl (gone, e)) h =
      along InSync Q (found_sub z (mock z) project_uuid name) k (mk, p)
        (found_sub-named mk p [] known gone) (λ j c. cc)
  found_sub-Ensures Q k mk p (known, inr (q, alone, e)) h =
      along InSync Q (found_sub z (mock z) project_uuid name) k (mk, p)
        (found_sub-named mk p (q ∷ []) known alone) (h q alone e)

  -- The push server after it has perhaps been told to stop, and then perhaps to start.
  abbrev pub told : Bool → Bool → Activation → P → P
  told stops starts a p =
      let p1 = if stops then (server.deactivate_subscription a.full_sub p).0 else p in
      if starts then (server.activate_subscription a p1).0 else p1

  told-active :
      (stops starts : Bool) (a : Activation) (p : P)
      → (stops ≡ false → active p a.full_sub ≡ none)
      → active (told stops starts a p) a.full_sub ≡ (if starts then some a else none)
  told-active stops true a p h = reliable.activates a _
  told-active true false a p h = reliable.deactivates a.full_sub p
  told-active false false a p h = h refl

  worker_of-Ensures :
      (c : PushContext) (b : Bool) (worker : User) (w : Mock × P)
      → Ensures InSync (λ _ w'. w' ≡ w) (worker_of z (mock z) server c project_uuid name b worker w)
  worker_of-Ensures c false worker w = refl
  worker_of-Ensures c true worker w = go (get_push_worker z (mock z) c.worker_token w.0)
    where
      go :
          (r : Result User)
          → Ensures InSync
              (λ _ w'. w' ≡ w)
              (worker_or_none z (mock z) server c project_uuid name r w)
      go (ok u) = refl
      go (err e) = refl
      go panic = λ j e. cc

  module _ (q : QSub) (mk : Mock) (p : P)
      (known : is_empty (project_name z project_uuid name mk) ≡ false) (is_name : q.name ≡ name)
      (before : active_for z server active project_uuid name mk p
        ≡ wanted (project_name z project_uuid name mk) q) where
    abbrev pub existing : Subscription
    existing = new_subscription z (project_name z project_uuid name mk) q

    pub is_named : existing.full_name ≡ full_name_of (project_name z project_uuid name mk) name
    unfolding new_subscription
    is_named = ap (full_name_of (project_name z project_uuid name mk)) is_name

    pub was_idle : was_verified existing.push_cfg ≡ false → active p existing.full_name ≡ none
    was_idle was =
        let unverified : is_verified q ≡ false =
          sym (was_verified-new z (project_name z project_uuid name mk) q) ∙ was in
        let nothing : map_option shared
              (active p (full_name_of (project_name z project_uuid name mk) name))
            ≡ none =
          rw unverified at before in
        rw is_named (of_map_none shared _ nothing)

    -- The agreement, once the subscription is removed and not active.
    pub gone-InSync :
        (mk' : Mock) (p' : P)
        → mk'.project_list ≡ mk.project_list
        → subs_named z project_uuid name mk' ≡ []
        → active p' existing.full_name ≡ none
        → InSync (mk', p')
    gone-InSync mk' p' projects gone idle =
        let same : project_name z project_uuid name mk' ≡ project_name z project_uuid name mk =
          get_name_by_uuid-kept z project_uuid name mk mk' projects in
        (rw same known, inl (gone, rw (same, ← is_named, idle) refl))

    module _ (f : PushFields) (mk' : Mock) (projects : mk'.project_list ≡ mk.project_list)
        (stored : subs_named z project_uuid name mk' ≡ pushed (normal_period f) q ∷ []) where
      told-wanted :
          (stops starts : Bool)
          → was_verified existing.push_cfg ≡ stops
          → is_verified (pushed (normal_period f) q) ≡ starts
          → map_option shared
              (active (told stops starts (activation_of existing f) p) existing.full_name)
            ≡ wanted (project_name z project_uuid name mk) (pushed (normal_period f) q)
      unfolding new_subscription
      told-wanted stops starts was is =
          ap (map_option shared)
            (told-active stops starts (activation_of existing f) p λ e. was_idle (was ∙ e))
          ∙ rw is (by_case starts)
        where
          by_case :
              (b : Bool)
              → map_option shared (if b then some (activation_of existing f) else none)
                ≡ (if b then some (shared (activation_of existing f)) else none)
          by_case true = refl
          by_case false = refl

      -- The agreement, once the push server has been told what to do.
      pub restored :
          (stops starts : Bool) (mk2 : Mock)
          → IsKept mk' mk2
          → was_verified existing.push_cfg ≡ stops
          → is_verified (pushed (normal_period f) q) ≡ starts
          → InSync (mk2, told stops starts (activation_of existing f) p)
      restored stops starts mk2 kept was is =
          let same : project_name z project_uuid name mk2 ≡ project_name z project_uuid name mk =
            get_name_by_uuid-kept z project_uuid name mk mk2 (kept.1 ∙ projects) in
          (
            rw same known,
            inr (
              pushed (normal_period f) q,
              ap (filter (Subs.is_sub project_uuid name)) kept.0 ∙ stored,
              rw (same, ← is_named) (told-wanted stops starts was is),
            ),
          )

      pub after_storing-Ensures :
          (c : PushContext) (cfg : PushConfig) (worker : User)
          → is_verified (pushed (normal_period f) q) ≡ (
              not (is_empty_push_config cfg)
              && (cfg.pend == existing.push_cfg.pend && existing.push_cfg.verified))
          → Ensures InSync
              (λ _ _. Unit {0})
              (after_storing z (mock z) server c project_uuid name existing cfg f worker (mk', p))
      unfolding after_storing
      after_storing-Ensures c cfg worker0 is =
          let was_push = not (is_empty_push_config existing.push_cfg) in
          let is_push = not (is_empty_push_config cfg) in
          let stops = was_push && existing.push_cfg.verified in
          let starts =
            is_push && (cfg.pend == existing.push_cfg.pend && existing.push_cfg.verified) in
          silent-Ensures InSync (λ _ _. Unit {0})
            (worker_of z (mock z) server c project_uuid name (was_push && not is_push) worker0) _
            (mk', p) (worker_of-Ensures c (was_push && not is_push) worker0 (mk', p))
            λ worker.
              >>=-Ensures InSync _ (λ _ _. Unit {0})
                (deactivated z (mock z) server c project_uuid name stops existing worker) _ (mk', p)
                (deactivated-Ensures z server c project_uuid name InSync stops existing worker mk'
                  p)
                λ u w1 h1.
                  >>=-Ensures InSync _ (λ _ _. Unit {0})
                    (activated z (mock z) server c project_uuid name starts existing f worker) _ w1
                    (activated-Ensures z server c project_uuid name InSync starts existing f worker
                      w1.0 w1.1)
                    λ u' w2 h2 j e.
                      subst (λ v. InSync (w2.0, v))
                        (sym (
                          h2.1
                          ∙ ap
                              (λ x.
                                if starts
                                then (server.activate_subscription (activation_of existing f) x).0
                                else x)
                              h1.1))
                        (restored stops starts w2.0 (h2.0.0 ∙ h1.0.0, h2.0.1 ∙ h1.0.1) refl is)
