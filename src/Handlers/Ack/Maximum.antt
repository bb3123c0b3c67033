-- ===== src/Handlers/Ack/Maximum.antt =====
-- `SubAck` never panics, and acknowledges the message at the highest offset.
use argo_messaging.Base.{
  ℕ, All-In, sym, ◌∙◌, Text, Error, ok, All, In, true, false, not, any, Option, none, some, List,
  [], ◌∷◌, ◌≡◌, refl, ◌⊎◌, inl, inr, Bool-cases, arith,
}
use argo_messaging.Base.Int.{ℤ, pos, add64}
use argo_messaging.Validation.{valid_ack_id}
use argo_messaging.Stores.Models.{Time}
use argo_messaging.Stores.Times.{Zulu}
use argo_messaging.Stores.Interface.{Store}
use argo_messaging.Subscriptions.{Subscription, PaginatedSubscriptions}
use argo_messaging.Subscriptions.Operations.{find}
use argo_messaging.Subscriptions.AckId.{get_offset_from_ack_id}
use argo_messaging.Subscriptions.AckId.Maximum.{
  IsMaximum, OffsetAtMost, OffsetBelow, get_max_ack_id_of_valid, offset_of_nothing,
}
use argo_messaging.Handlers.{AnswersOnce, Body, unreadable, malformed, parsed}
use argo_messaging.Handlers.Ack.{Target, sub_ack, acknowledged, at_offset, with_ids, after_find}

All-valid :
    (project sub : Text) (ids : List Text)
    → any (λ a. not (valid_ack_id project sub a)) ids ≡ false
    → All (λ a. valid_ack_id project sub a ≡ true) ids
unfolding any
All-valid project sub [] h = tt
All-valid project sub (a ∷ ids) h = elim (Bool-cases (valid_ack_id project sub a)) [
  | inl v ↦ (v, All-valid project sub ids (ground arith))
  | inr v ↦ ground arith
]

-- Where an offset is not negative, one of the ids has the highest.
reached :
    (a : Text) (n : ℕ) (ids : List Text)
    → In a ids
    → get_offset_from_ack_id a ≡ ok (pos n)
    → (k : ℤ) (m : Text) → IsMaximum ids (pos 0) [] k m
    → In m ids × (get_offset_from_ack_id m ≡ ok k)
reached a n ids i o k m (all, up, inr found) = found
reached a n ids i o k m (all, up, inl (p, q, below)) =
    let (n', e, le) = All-In (OffsetBelow (pos 0)) a ids i below in
    let same : ok (pos n) ≡ ok n' = sym o ∙ e in ground arith

module _ {S : Type 0} (z : Zulu) (store : Store S) (now : Time) (t : Target) where
  acknowledged_once : (r : S × Error) → AnswersOnce (acknowledged r).1
  acknowledged_once (s, none) = (_, refl)
  acknowledged_once (s, some e) = (_, refl)

  at_offset_once :
      (ids : List Text) (m : Text) (k : ℤ) (s : S)
      → ((k ≡ pos 0) × (m ≡ []) × All (OffsetBelow (pos 0)) ids)
        ⊎ (In m ids × (get_offset_from_ack_id m ≡ ok k))
      → AnswersOnce (at_offset z store now t (get_offset_from_ack_id m) s).1
  at_offset_once ids m k s (inl (p, q, b)) = rw (q, offset_of_nothing) (_, refl)
  at_offset_once ids m k s (inr (i, e)) = rw e (acknowledged_once _)

  with_ids_once : (ids : Option (List Text)) (s : S) → AnswersOnce (with_ids z store now t ids s).1
  with_ids_once none s = (_, refl)
  with_ids_once (some ids) s =
      elim (Bool-cases (any (λ a. not (valid_ack_id t.project t.subscription a)) ids)) [
        | inl bad ↦ rw bad (_, refl)
        | inr good ↦
            let (k, m, run, (all, up, from)) =
              get_max_ack_id_of_valid t.project t.subscription ids
                (All-valid t.project t.subscription ids good) in
            rw (good, run) (at_offset_once ids m k s from)
      ]

  after_find_once :
      (subs : List Subscription) (e : Error) (ids : Option (List Text)) (s : S)
      → AnswersOnce (after_find z store now t subs e ids s).1
  after_find_once subs (some e) ids s = (_, refl)
  after_find_once [] none ids s = (_, refl)
  after_find_once (sub ∷ subs) none ids s = with_ids_once ids s

  -- On every request, and over every store, `SubAck` does not panic and writes exactly one response.
  pub sub_ack-AnswersOnce :
      (body : Body (Option (List Text))) (s : S) → AnswersOnce (sub_ack z store now t body s).1
  unfolding sub_ack
  sub_ack-AnswersOnce unreadable s = (_, refl)
  sub_ack-AnswersOnce malformed s = (_, refl)
  sub_ack-AnswersOnce (parsed ids) s = after_find_once _ _ ids _

  -- If the subscription is found, every id is accepted by `ValidAckID`, and one of them stands for an
  -- offset that is not negative, then for the highest offset `k` of the ids, which one of them has,
  -- `SubAck` answers with what the store says to the acknowledgement of all messages below `k + 1`, at
  -- the time of the request.
  pub sub_ack_maximum :
      (ids : List Text) (s s' : S) (sub : Subscription) (subs : List Subscription)
      (page : PaginatedSubscriptions)
      → find z store t.project_uuid [] t.subscription [] (pos 0) s ≡ (s', (page, none))
      → page.subscriptions ≡ sub ∷ subs
      → any (λ a. not (valid_ack_id t.project t.subscription a)) ids ≡ false
      → (a : Text) (n : ℕ) → In a ids
      → get_offset_from_ack_id a ≡ ok (pos n)
      → (k : ℤ) × All (OffsetAtMost k) ids
        × ((m : Text) × In m ids × (get_offset_from_ack_id m ≡ ok k))
        × (sub_ack z store now t (parsed (some ids)) s
            ≡ acknowledged (
                store.update_sub_offset_ack t.project_uuid t.subscription
                  (add64 k (pos 1))
                  (z.format now)
                  s'))
  unfolding sub_ack
  sub_ack_maximum ids s s' sub subs page e1 e2 good a n i o =
      let (k, m, run, best) =
        get_max_ack_id_of_valid t.project t.subscription ids
          (All-valid t.project t.subscription ids good) in
      let (j, e) = reached a n ids i o k m best in
      (k, best.0, (m, j, e), rw (e1, e2, good, run) (rw e refl))
