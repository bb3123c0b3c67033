-- ===== src/Subscriptions/AckId/RoundTrip.antt =====
-- What `SubPull` writes, `ValidAckID` accepts and `GetOffsetFromAckID` reads.
use argo_messaging.Base.{
  Text, text, split, Lacks, split-append, split_of_Lacks, Lacks-append, text_beq_refl, ◌≡◌, ◌∙◌, ap,
  true, ok, [], ◌∷◌, ◌++◌, arith,
}
use mathlib.Core.List.{append_assoc}
use argo_messaging.Base.Int.{ℤ, IsInt64}
use argo_messaging.Base.Decimal.{format_int, parse_int-format_int, Lacks-format_int}
use argo_messaging.Validation.{valid_name, valid_ack_id, Lacks-slash, Lacks-colon}
use argo_messaging.Subscriptions.AckId.{ack_id, get_offset_from_ack_id}

abbrev last_token : Text → ℤ → Text
last_token sub offset = sub ++ (b':' ∷ format_int offset)

ack_id-eq :
    (project sub : Text) (offset : ℤ)
    → ack_id project sub offset
      ≡ text "projects"
        ++ (b'/' ∷ (project ++ (b'/' ∷ (text "subscriptions" ++ (b'/' ∷ last_token sub offset)))))
unfolding ack_id
ack_id-eq project sub offset = simp append_assoc

module _ (project sub : Text) (offset : ℤ) (p : valid_name project ≡ true)
    (s : valid_name sub ≡ true) where
  split_ack_id :
      split b'/' (ack_id project sub offset)
      ≡ text "projects" ∷ project ∷ text "subscriptions" ∷ last_token sub offset ∷ []
  split_ack_id = rw ack_id-eq (
      split-append b'/' (text "projects") _ (omega arith)
      ∙ ap (λ l. text "projects" ∷ l)
          (split-append b'/' project _ (Lacks-slash project p)
            ∙ ap (λ l. project ∷ l)
                (split-append b'/' (text "subscriptions") _ (omega arith)
                  ∙ ap (λ l. text "subscriptions" ∷ l)
                      (split_of_Lacks b'/' (last_token sub offset) lacks))))
    where
      lacks : Lacks b'/' (last_token sub offset)
      lacks =
          Lacks-append b'/' sub _ (Lacks-slash sub s)
            (omega arith, Lacks-format_int b'/' offset (omega arith) (omega arith))

  split_last : split b':' (last_token sub offset) ≡ sub ∷ format_int offset ∷ []
  split_last =
      split-append b':' sub _ (Lacks-colon sub s)
      ∙ ap (λ l. sub ∷ l)
          (split_of_Lacks b':' (format_int offset)
            (Lacks-format_int b':' offset (omega arith) (omega arith)))

  -- Whatever offset it has, the id that a pull hands out for a message is valid for its project and
  -- subscription, and its offset is read back.
  pub ack_id_round_trip :
      IsInt64 offset
      → (valid_ack_id project sub (ack_id project sub offset) ≡ true)
        × (get_offset_from_ack_id (ack_id project sub offset) ≡ ok offset)
  ack_id_round_trip h = (
    unfold valid_ack_id in
        rw (split_ack_id, split_last, parse_int-format_int offset h) (simp text_beq_refl),
    unfold get_offset_from_ack_id in
        rw split_ack_id (rw split_last (rw (parse_int-format_int offset h))),
  )
