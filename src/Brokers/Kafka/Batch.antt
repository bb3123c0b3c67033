-- ===== src/Brokers/Kafka/Batch.antt =====
-- How many messages `Consume` returns, and when it returns.
use argo_messaging.Base.{
  ℕ, zero, suc, ◌+◌, ◌-◌, ◌≤◌, ◌<◌, ◌^◌, Text, Bool, true, false, Option, none, some, List, [], ◌∷◌,
  ◌++◌, take, length, ◌≡◌, refl, ap, ◌∙◌, arith, leb, ltb, if◌then◌else◌,
}
use mathlib.Core.List.{append-nil, append_assoc}
use argo_messaging.Base.Int.{pos, negsuc, add64, add64_of_IsInt64, ◌+ℤ◌}
use argo_messaging.Brokers.Kafka.{
  Event, done, timeout, message, consumer_loop, stops, Client, consume, returned, answers,
}

-- The messages that come before the wait is over.
unfoldable pub arrived : List Event → List Text
arrived (message v ∷ es) = v ∷ arrived es
arrived _ = []

-- The wait comes to an end.
unfoldable pub ended : List Event → Bool
ended [] = false
ended (message v ∷ es) = ended es
ended _ = true

-- The number of messages that are enough: the maximum, and without waiting no more than there are.
abbrev pub enough : Bool → ℕ → ℕ → ℕ
enough imm max room = if imm then (if ltb room max then room else max) else max

-- The batch: enough messages as soon as they are there, or those that came before the end.
abbrev pub batch : ℕ → List Event → Option (List Text)
batch n es =
    if leb n (length (arrived es))
    then some (take n (arrived es))
    else if ended es
    then some (arrived es)
    else none

next : (c : ℕ) → c + 1 < 2 ^ 63 → add64 (pos c) (pos 1) ≡ pos (c + 1)
unfolding ◌+ℤ◌
next c h = add64_of_IsInt64 (pos c) (pos 1) (ground arith) ∙ ground arith

previous : (l : ℕ) → 0 < l → l < 2 ^ 63 → add64 (pos l) (negsuc 0) ≡ pos (l - 1)
unfolding ◌+ℤ◌
previous l h k = add64_of_IsInt64 (pos l) (negsuc 0) (ground arith) ∙ ground arith

within : (o c : ℕ) → o + c < 2 ^ 63 → add64 (pos o) (pos c) ≡ pos (o + c)
unfolding ◌+ℤ◌
within o c h = add64_of_IsInt64 (pos o) (pos c) (ground arith) ∙ ground arith

-- The test of the loop, after a message that was still wanted.
stops_lem :
    (imm : Bool) (max o room c : ℕ)
    → o + room < 2 ^ 63
    → c < enough imm max room
    → stops imm (pos max) (pos o) (pos (o + room)) (pos (c + 1)) ≡ leb (enough imm max room) (c + 1)
stops_lem true max o room c fits wanted =
    rw (previous (o + room) (ground arith) fits, within o (c + 1) (ground arith)) (ground arith)
stops_lem false max o room c fits wanted = ground arith

-- What the loop has, followed by what it still gets.
abbrev after : List Text → Option (List Text) → Option (List Text)
after acc none = none
after acc (some ms) = some (acc ++ ms)

module _ (imm : Bool) (max o room : ℕ) (fits : o + room < 2 ^ 63) (small : max < 2 ^ 63) where
  consumer_loop_lem :
      (es : List Event) (c d : ℕ) (acc : List Text)
      → c + suc d ≡ enough imm max room
      → consumer_loop imm (pos max) (pos o) (pos (o + room)) (pos c) acc es
        ≡ after acc (batch (suc d) es)
  unfolding consumer_loop arrived ended
  consumer_loop_lem [] c d acc e = ground arith
  consumer_loop_lem (done ∷ es) c d acc e = ground (arith, append-nil acc)
  consumer_loop_lem (timeout ∷ es) c d acc e = ground (arith, append-nil acc)
  consumer_loop_lem (message v ∷ es) c zero acc e =
      rw (next c (ground arith), stops_lem imm max o room c fits (ground arith)) (ground arith)
  consumer_loop_lem (message v ∷ es) c (suc d) acc e =
      rw (next c (ground arith), stops_lem imm max o room c fits (ground arith))
        (ground (
          arith,
          consumer_loop_lem es (c + 1) d (acc ++ (v ∷ [])) (ground arith),
          append_assoc acc (v ∷ []) (take (suc d) (arrived es)),
          append_assoc acc (v ∷ []) (arrived es),
        ))

after_nothing : (r : Option (List Text)) → after [] r ≡ r
after_nothing none = refl
after_nothing (some ms) = refl

loop_from_start :
    (imm : Bool) (max o room : ℕ)
    → o + room < 2 ^ 63
    → max < 2 ^ 63
    → 0 < max
    → (es : List Event) → 0 < room
    → consumer_loop imm (pos max) (pos o) (pos (o + room)) (pos 0) [] es
      ≡ batch (enough imm max room) es
loop_from_start imm max o room fits small wanted es there =
    let n = enough imm max room in
    consumer_loop_lem imm max o room fits small es 0 (n - 1) [] (ground arith)
    ∙ (ap (λ k. after [] (batch k es)) (ground arith) ∙ after_nothing (batch n es))

-- Where both offsets are known, the subscription stands at `o`, not before the oldest message, and
-- `room` messages are stored from there on, all int64, and at least one message is wanted: `Consume`
-- returns the first of the messages that arrive, as soon as there are enough; where the wait ends
-- before that, it returns those that came; and else it still waits. Where closing the consumer fails, the
-- process ends instead of the return. Enough is the maximum, and with `returnImmediately` at most `room`.
-- Where nothing is stored from there on, it returns no message.
pub consume_batch :
    (client : Client) (topic : Text) (imm : Bool) (max o room old : ℕ)
    → client.newest topic ≡ (pos (o + room), none)
    → client.oldest topic ≡ (pos old, none)
    → client.consume_partition topic (pos o) ≡ none
    → old ≤ o
    → o + room < 2 ^ 63
    → max < 2 ^ 63
    → 0 < max
    → consume client topic (pos o) imm (pos max) ≡ (
        if leb room 0
        then answers [] none
        else returned
            (client.close topic (pos o))
            (batch (enough imm max room) (client.events topic (pos o))))
unfolding consume
consume_batch client topic imm max o room old e1 e2 e3 lo fits small wanted =
    rw (e1, e2, e3)
      (ground
        (arith, loop_from_start imm max o room fits small wanted (client.events topic (pos o))))
