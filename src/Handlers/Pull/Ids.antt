-- ===== src/Handlers/Pull/Ids.antt =====
-- The ids of the messages that `SubPull` hands out.
use argo_messaging.Base.{
  ℕ, zero, suc, ◌+◌, ◌-◌, ◌≤◌, ◌<◌, ◌^◌, Text, text_eq, ok, In, true, false, ◌&&◌, not, any, Option,
  some, List, [], ◌∷◌, map, length, ◌≡◌, refl, sym, ◌∙◌, ap, inl, inr, Bool-cases, Option-cases,
  arith, ◌⊎◌,
}
use argo_messaging.Base.Int.{ℤ, pos, add64, add64_of_IsInt64, ◌+ℤ◌, ◌≤ℤ◌, ltb_ℤ, leb_ℤ}
use argo_messaging.Validation.{valid_name, valid_ack_id}
use argo_messaging.Messages.{Message, RecMsg}
use argo_messaging.Subscriptions.AckId.{ack_prefix, ack_id, get_offset_from_ack_id}
use argo_messaging.Subscriptions.AckId.RoundTrip.{ack_id_round_trip}
use argo_messaging.Handlers.Pull.{received, received_msg}

pub sum64 : (a b : ℕ) → a + b < 2 ^ 63 → add64 (pos a) (pos b) ≡ pos (a + b)
unfolding ◌+ℤ◌
sum64 a b h = add64_of_IsInt64 (pos a) (pos b) (ground arith) ∙ ground arith

-- The ids of `n` messages from an offset on.
abbrev pub ids_from : Text → Text → ℕ → ℕ → List Text
ids_from project sub o zero = []
ids_from project sub o (suc n) = ack_id project sub (pos o) ∷ ids_from project sub (o + 1) n

abbrev pub ids_of : List RecMsg → List Text
ids_of = map (λ (r : RecMsg). r.ack_id)

module _ (load : Text → Option Message) (project sub : Text) (limit : ℤ) where
  -- What the loop makes of its first message, where it returns.
  received-cons :
      (msg : Text) (msgs : List Text) (o i : ℤ) (recs : List RecMsg)
      → received load (ack_prefix project sub) o limit i (msg ∷ msgs) ≡ some recs
      → (recs ≡ [])
        ⊎ ((r : RecMsg) × (rs : List RecMsg) × (recs ≡ r ∷ rs)
            × (r.ack_id ≡ ack_id project sub (add64 o i))
            × (received load (ack_prefix project sub) o limit (add64 i (pos 1)) msgs ≡ some rs))
  unfolding received ack_id
  received-cons msg msgs o i recs e = elim (Bool-cases (ltb_ℤ (pos 0) limit && leb_ℤ limit i)) [
    | inl full ↦ inl (ground arith)
    | inr go ↦ elim (Option-cases (load msg)) [
      | inl bad ↦ absurd (ground arith)
      | inr (m, loaded) ↦
          elim (Option-cases
            (received load (ack_prefix project sub) o limit (add64 i (pos 1)) msgs)) [
              | inl bad ↦ absurd (ground arith)
              | inr (rs, rest) ↦ inr (
                received_msg (ack_prefix project sub) (add64 o i) m,
                rs,
                ground arith,
                refl,
                rest,
              )
            ]
    ]
  ]

  pub received-length :
      (msgs : List Text) (o i : ℤ) (recs : List RecMsg)
      → received load (ack_prefix project sub) o limit i msgs ≡ some recs
      → length recs ≤ length msgs
  unfolding received
  received-length [] o i recs e =
      let returned : some [] ≡ some recs = e in
      let nothing : recs ≡ [] = ground arith in rw nothing (omega arith)
  received-length (msg ∷ msgs) o i recs e = elim (received-cons msg msgs o i recs e) [
    | inl none_left ↦ rw none_left (omega arith)
    | inr (r, rs, split, head, rest) ↦
        rw split (omega (arith, received-length msgs o (add64 i (pos 1)) rs rest))
  ]

  -- The received messages carry consecutive offsets.
  pub received_ids :
      (msgs : List Text) (o i : ℕ) (recs : List RecMsg)
      → o + i + length msgs < 2 ^ 63
      → received load (ack_prefix project sub) (pos o) limit (pos i) msgs ≡ some recs
      → ids_of recs ≡ ids_from project sub (o + i) (length recs)
  unfolding received
  received_ids [] o i recs fits e =
      let returned : some [] ≡ some recs = e in
      let nothing : recs ≡ [] = ground arith in rw nothing refl
  received_ids (msg ∷ msgs) o i recs fits e = elim (received-cons msg msgs (pos o) (pos i) recs e) [
    | inl none_left ↦ rw none_left refl
    | inr (r, rs, split, head, rest) ↦
        let tail =
          received_ids msgs o (i + 1) rs (ground arith) (rw (← sum64 i 1 (ground arith)) rest) in
        rw (split, head, sum64 o i (ground arith), tail)
          (ap (λ k. ack_id project sub (pos (o + i)) ∷ ids_from project sub k (length rs))
            (omega arith))
  ]

module _ (project sub : Text) (p : valid_name project ≡ true) (s : valid_name sub ≡ true) where
  pub all_valid :
      (o n : ℕ)
      → o + n < 2 ^ 63
      → any (λ a. not (valid_ack_id project sub a)) (ids_from project sub o n) ≡ false
  unfolding any
  all_valid o zero h = refl
  all_valid o (suc n) h = ground (
    arith,
    (ack_id_round_trip project sub (pos o) p s (ground arith)).0,
    all_valid (o + 1) n (ground arith),
  )

  pub offset_within :
      (m : Text) (k : ℤ) (o n : ℕ)
      → o + n < 2 ^ 63
      → In m (ids_from project sub o n)
      → get_offset_from_ack_id m ≡ ok k
      → k ≤ℤ pos (o + n - 1)
  offset_within m k o zero h i e = absurd i
  offset_within m k o (suc n) h (inl same) e =
      let read : ok (pos o) ≡ ok k =
        sym (ack_id_round_trip project sub (pos o) p s (ground arith)).1
        ∙ (ap get_offset_from_ack_id (sym same) ∙ e) in
      ground arith
  offset_within m k o (suc zero) h (inr i) e = absurd i
  offset_within m k o (suc (suc n)) h (inr i) e =
      omega (arith, offset_within m k (o + 1) (suc n) (omega arith) i e)

  pub last-In :
      (j o n : ℕ) → j ≡ o + n → In (ack_id project sub (pos j)) (ids_from project sub o (suc n))
  last-In j o zero e = inl (ap (λ j. ack_id project sub (pos j)) (omega arith))
  last-In j o (suc n) e = inr (last-In j (o + 1) n (omega arith))
