-- ===== src/Stores/Mongo/Judgement.antt =====
-- Which acknowledgements the tests of `UpdateSubOffsetAck` of stores/mongo.go refuse.
use argo_messaging.Base.{
  Text, text, text_eq, Error, Option, none, some, ◌≡◌, refl, inl, inr, arith, ◌⊎◌, Bool-cases, ◌==◌,
  ◌||◌,
}
use argo_messaging.Base.Int.{ℤ, pos, leb_ℤ, ltb_ℤ, ◌≤ℤ◌, ◌<ℤ◌, int_eq}
use argo_messaging.Stores.Models.{QSub}
use argo_messaging.Stores.Times.{Zulu, elapsed_seconds, time_or_zero}
use argo_messaging.Stores.Mongo.Subs.{ack_refusal}

abbrev pub no_ack_pending : Text
no_ack_pending = text "no ack pending"

-- The acknowledgement came after the deadline, in whole seconds since the pull.
abbrev pub IsLate : Zulu → Text → QSub → Type 0
IsLate z ts s =
    s.ack <ℤ elapsed_seconds (time_or_zero (z.parse ts)) (time_or_zero (z.parse s.pending_ack))

-- Which error an acknowledgement of an offset, at a time, has on the subscription that is found.
abbrev pub IsJudged : Zulu → ℤ → Text → Option QSub → Error → Type 0
IsJudged z offset ts none e = e ≡ some no_ack_pending
IsJudged z offset ts (some s) e =
    ((s.next_offset ≡ pos 0) × (e ≡ some no_ack_pending))
    ⊎ (((¬ (s.next_offset ≡ pos 0))
          × (¬ ((s.offset <ℤ offset) × (offset ≤ℤ s.next_offset)))
          × (e ≡ some (text "wrong ack")))
        ⊎ (((¬ (s.next_offset ≡ pos 0))
              × ((s.offset <ℤ offset) × (offset ≤ℤ s.next_offset))
              × IsLate z ts s
              × (e ≡ some (text "ack timeout")))
            ⊎ ((¬ (s.next_offset ≡ pos 0))
                × ((s.offset <ℤ offset) × (offset ≤ℤ s.next_offset))
                × (¬ IsLate z ts s)
                × (e ≡ none))))

pub ack_refusal-IsJudged :
    (z : Zulu) (offset : ℤ) (ts : Text) (o : Option QSub)
    → IsJudged z offset ts o (ack_refusal z offset ts o)
unfolding ack_refusal
ack_refusal-IsJudged z offset ts none = refl
ack_refusal-IsJudged z offset ts (some s) = elim (Bool-cases (s.next_offset == pos 0)) [
  | inl zero_ ↦ inl (ground arith, ground arith)
  | inr pending ↦ elim (Bool-cases (leb_ℤ offset s.offset || ltb_ℤ s.next_offset offset)) [
    | inl out ↦ inr (inl (ground arith, ground arith, ground arith))
    | inr within ↦
        elim (Bool-cases (
          ltb_ℤ s.ack
            (elapsed_seconds (time_or_zero (z.parse ts)) (time_or_zero (z.parse s.pending_ack))))) [
              | inl late ↦ inr (inr (inl (ground arith, ground arith, ground arith, ground arith)))
              | inr early ↦ inr (inr (inr (ground arith, ground arith, ground arith, ground arith)))
            ]
  ]
]

pub accepted-bounds :
    (z : Zulu) (offset : ℤ) (ts : Text) (s : QSub)
    → ack_refusal z offset ts (some s) ≡ none
    → (s.offset <ℤ offset) × (offset ≤ℤ s.next_offset)
unfolding ack_refusal
accepted-bounds z offset ts s h = ground arith
