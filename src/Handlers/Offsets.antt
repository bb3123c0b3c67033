-- ===== src/Handlers/Offsets.antt =====
-- `SubSetOffset` and `SubGetOffsets` of handlers/subscriptions.go.
pub mod Bounds
use argo_messaging.Base.{
  Text, text, Error, Bool, ◌||◌, Option, none, some, List, [], ◌∷◌, ◌++◌, if◌then◌else◌,
}
use argo_messaging.Base.Int.{ℤ, pos, ltb_ℤ}
use argo_messaging.Stores.Times.{Zulu}
use argo_messaging.Stores.Interface.{Store}
use argo_messaging.Brokers.{Broker}
use argo_messaging.Subscriptions.{Subscription}
use argo_messaging.Subscriptions.Operations.{find}
use argo_messaging.Handlers.{
  Write, respond_ok, respond_err, Outcome, written, done, fail, Body, unreadable, malformed, parsed,
  invalid_request_body, invalid_data, invalid_argument, not_found, generic_backend, export_json,
}

-- `Offsets` of subscriptions/subscription.go
pub record Offsets : Type 0 where
  pub max : ℤ
  pub min : ℤ
  pub current : ℤ

-- The name of a topic at the broker.
abbrev pub broker_topic : Text → Text → Text
broker_topic project_uuid topic = project_uuid ++ (b'.' ∷ topic)

-- An offset out of bounds is answered at once, and then the handler goes on.
abbrev pub out_of_bounds : ℤ → ℤ → ℤ → List (Write Text)
out_of_bounds min_offset max_offset offset =
    if ltb_ℤ offset min_offset || ltb_ℤ max_offset offset
    then respond_err (invalid_data (text "Offset out of bounds")) ∷ []
    else []

abbrev pub exported : Option Text → Outcome Text
exported none = fail export_json
exported (some json) = done json

module _ {S B : Type 0} (z : Zulu) (store : Store S) (brk : Broker B)
    (project_uuid url_sub : Text) where
  abbrev pub set_offset_found : List Subscription → Error → ℤ → B → S → S × Outcome Text
  set_offset_found subs (some e) offset b s = (s, fail generic_backend)
  set_offset_found [] none offset b s = (s, fail (not_found (text "Subscription")))
  set_offset_found (sub ∷ subs) none offset b s =
      let topic = broker_topic project_uuid sub.topic in
      let refused =
        out_of_bounds (brk.get_min_offset topic b) (brk.get_max_offset topic b) offset in
      (
        store.update_sub_offset project_uuid url_sub offset s,
        written (refused ++ (respond_ok [] ∷ [])),
      )

  -- `SubSetOffset`
  unfoldable pub sub_set_offset : Body ℤ → B → S → S × Outcome Text
  sub_set_offset unreadable b s = (s, fail invalid_request_body)
  sub_set_offset malformed b s = (s, fail (invalid_argument (text "Offset")))
  sub_set_offset (parsed offset) b s =
      let (s', results) = find z store project_uuid [] url_sub [] (pos 0) s in
      set_offset_found results.0.subscriptions results.1 offset b s'

  abbrev pub get_offsets_found :
      (Offsets → Option Text) → List Subscription → Error → B → S → S × Outcome Text
  get_offsets_found to_json subs (some e) b s = (s, fail generic_backend)
  get_offsets_found to_json [] none b s = (s, fail (not_found (text "Subscription")))
  get_offsets_found to_json (sub ∷ subs) none b s =
      let topic = broker_topic project_uuid sub.topic in
      let min_offset = brk.get_min_offset topic b in
      let max_offset = brk.get_max_offset topic b in
      if ltb_ℤ sub.offset min_offset
      then (
        store.update_sub_offset project_uuid url_sub min_offset s,
        exported (to_json (record { max = max_offset; min = min_offset; current = min_offset })),
      )
      else (
        s,
        exported (to_json (record { max = max_offset; min = min_offset; current = sub.offset })),
      )

  -- `SubGetOffsets`; `to_json` is `ExportJSON`.
  unfoldable pub sub_get_offsets : (Offsets → Option Text) → B → S → S × Outcome Text
  sub_get_offsets to_json b s =
      let (s', results) = find z store project_uuid [] url_sub [] (pos 0) s in
      get_offsets_found to_json results.0.subscriptions results.1 b s'
