-- ===== src/Subscriptions/AckId.antt =====
-- The acknowledgement ids of subscriptions/subscription.go, and the place of handlers/subscriptions.go
-- that builds them.
pub mod RoundTrip
pub mod Maximum
use argo_messaging.Base.{
  ℕ, Text, text, split, is_nil, Result, ok, err, panic, Option, none, some, List, [], ◌∷◌, ◌++◌,
  if◌then◌else◌,
}
use argo_messaging.Base.Int.{ℤ, pos, leb_ℤ}
use argo_messaging.Base.Decimal.{format_int, parse_int}

-- `ackPrefix` of `SubPull`.
unfoldable pub ack_prefix : Text → Text → Text
ack_prefix project sub =
    text "projects/" ++ (project ++ (text "/subscriptions/" ++ (sub ++ text ":")))

-- The acknowledgement id that `SubPull` gives to the message at an offset.
unfoldable pub ack_id : Text → Text → ℤ → Text
unfolding ack_prefix
ack_id project sub offset = ack_prefix project sub ++ format_int offset

abbrev pub invalid_argument : Text
invalid_argument = text "invalid argument"

-- The error of `strconv.ParseInt`; its text is read by nobody.
abbrev pub not_a_number : Text
not_a_number = text "strconv.ParseInt"

number_or_err : Option ℤ → Result ℤ
number_or_err none = err not_a_number
number_or_err (some n) = ok n

-- `subTokens[1]` panics where the last token has no colon.
offset_of_sub_tokens : List Text → Result ℤ
unfolding number_or_err
offset_of_sub_tokens (name ∷ number ∷ rest) = number_or_err (parse_int number)
offset_of_sub_tokens _ = panic

offset_of_tokens : List Text → Result ℤ
unfolding offset_of_sub_tokens
offset_of_tokens (t0 ∷ t1 ∷ t2 ∷ t3 ∷ []) = offset_of_sub_tokens (split b':' t3)
offset_of_tokens _ = err invalid_argument

unfoldable pub get_offset_from_ack_id : Text → Result ℤ
unfolding offset_of_tokens
get_offset_from_ack_id ack_id = offset_of_tokens (split b'/' ack_id)

-- One round of the loop, on what `GetOffsetFromAckID` returned.
max_step : Result ℤ → Text → ℤ → Text → Result (ℤ × Text)
max_step (ok n) ack_id max max_ack_id = if leb_ℤ max n then ok (n, ack_id) else ok (max, max_ack_id)
max_step (err e) ack_id max max_ack_id = err invalid_argument
max_step panic ack_id max max_ack_id = panic

-- The loop of `GetMaxAckID` over its two variables.
max_loop : List Text → ℤ → Text → Result (ℤ × Text)
unfolding max_step
max_loop [] max max_ack_id = ok (max, max_ack_id)
max_loop (a ∷ ids) max max_ack_id = elim (max_step (get_offset_from_ack_id a) a max max_ack_id) [
  | ok (n, b) ↦ max_loop ids n b
  | err e ↦ err e
  | panic ↦ panic
]

second : Result (ℤ × Text) → Result Text
second (ok (n, a)) = ok a
second (err e) = err e
second panic = panic

unfoldable pub get_max_ack_id : List Text → Result Text
unfolding max_loop second
get_max_ack_id ids = second (max_loop ids (pos 0) [])
