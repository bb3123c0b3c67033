-- ===== src/Handlers/Offsets/Bounds.antt =====
-- What the two handlers of offsets make of the broker's bounds.
use argo_messaging.Base.{
  Text, ◌||◌, Option, none, List, [], ◌∷◌, ◌++◌, ◌≡◌, refl, ◌↔◌, arith, Bool-cases, inl, inr, ◌⊎◌,
}
use argo_messaging.Base.Int.{ℤ, pos, ltb_ℤ, ◌≤ℤ◌, ◌<ℤ◌}
use argo_messaging.Stores.Times.{Zulu}
use argo_messaging.Stores.Interface.{Store}
use argo_messaging.Brokers.{Broker}
use argo_messaging.Subscriptions.{Subscription, PaginatedSubscriptions}
use argo_messaging.Subscriptions.Operations.{find}
use argo_messaging.Handlers.{respond_ok, written, AnswersOnce, parsed}
use argo_messaging.Handlers.Offsets.{
  Offsets, broker_topic, sub_set_offset, sub_get_offsets, out_of_bounds, exported,
}

answers_once :
    (lo hi offset : ℤ)
    → AnswersOnce (written (out_of_bounds lo hi offset ++ (respond_ok [] ∷ [])))
      ↔ ((lo ≤ℤ offset) × (offset ≤ℤ hi))
answers_once lo hi offset = elim (Bool-cases (ltb_ℤ offset lo || ltb_ℤ hi offset)) [
  | inl out ↦ rw out ((λ (w, e). absurd (ground arith)), λ inside. absurd (ground arith))
  | inr within ↦ rw within ((λ once. ground arith), λ inside. (respond_ok [], refl))
]

module _ {S B : Type 0} (z : Zulu) (store : Store S) (brk : Broker B) (project_uuid url_sub : Text)
    (b : B) (s s' : S) (sub : Subscription) (subs : List Subscription)
    (page : PaginatedSubscriptions)
    (found : find z store project_uuid [] url_sub [] (pos 0) s ≡ (s', (page, none)))
    (first : page.subscriptions ≡ sub ∷ subs) where
  -- The offset stands between the two bounds that the broker reports.
  abbrev InBounds : ℤ → Type 0
  InBounds offset =
      (brk.get_min_offset (broker_topic project_uuid sub.topic) b ≤ℤ offset)
      × (offset ≤ℤ brk.get_max_offset (broker_topic project_uuid sub.topic) b)

  -- Where the subscription is found, `SubSetOffset` hands any offset to the store, also one out of
  -- bounds; it writes one response exactly if the offset is in bounds.
  pub sub_set_offset_any :
      (offset : ℤ)
      → ((sub_set_offset z store brk project_uuid url_sub (parsed offset) b s).0
          ≡ store.update_sub_offset project_uuid url_sub offset s')
        × (AnswersOnce (sub_set_offset z store brk project_uuid url_sub (parsed offset) b s).1
            ↔ InBounds offset)
  unfolding sub_set_offset
  sub_set_offset_any offset = rw (found, first) (refl, answers_once _ _ offset)

  -- Where the subscription is found, `SubGetOffsets` answers with the broker's two bounds and with the
  -- larger of the subscription's offset and the lower bound. It hands that bound to the store where
  -- the subscription's offset is less, and changes nothing else.
  pub sub_get_offsets_current :
      (to_json : Offsets → Option Text)
      → let topic = broker_topic project_uuid sub.topic in
        let min_offset = brk.get_min_offset topic b in
        let (state, outcome) = sub_get_offsets z store brk project_uuid url_sub to_json b s in
        (c : ℤ) × (outcome
          ≡ exported (
              to_json (record { max = brk.get_max_offset topic b; min = min_offset; current = c })))
        × (min_offset ≤ℤ c)
        × (sub.offset ≤ℤ c)
        × ((c ≡ min_offset) ⊎ (c ≡ sub.offset))
        × (sub.offset <ℤ min_offset
            → state ≡ store.update_sub_offset project_uuid url_sub min_offset s')
        × (min_offset ≤ℤ sub.offset → state ≡ s')
  unfolding sub_get_offsets
  sub_get_offsets_current to_json =
      let topic = broker_topic project_uuid sub.topic in
      let min_offset = brk.get_min_offset topic b in
      elim (Bool-cases (ltb_ℤ sub.offset min_offset)) [
        | inl behind ↦
            rw (found, first, behind)
              (
                min_offset,
                refl,
                omega arith,
                ground arith,
                inl refl,
                (λ h. refl),
                λ h. absurd (ground arith),
              )
        | inr there ↦
            rw (found, first, there)
              (
                sub.offset,
                refl,
                ground arith,
                omega arith,
                inr refl,
                (λ h. absurd (ground arith)),
                λ h. refl,
              )
      ]
