-- ===== src/Messages/Sizes.antt =====
-- The total size of a list of messages.
use argo_messaging.Base.{ℕ, ◌+◌, ◌<◌, ◌^◌, ◌≡◌, ◌∙◌, ap, List, [], ◌∷◌, length, arith}
use argo_messaging.Base.Int.{pos, add64, add64_of_IsInt64, ◌+ℤ◌}
use argo_messaging.Messages.{
  Message, RecMsg, size, total_size, total_from, rec_total_size, rec_total_from,
}

-- The sum of the lengths of the data.
unfoldable pub data_length : List Message → ℕ
data_length [] = 0
data_length (m ∷ ms) = length m.data_ + data_length ms

unfoldable pub messages_of : List RecMsg → List Message
messages_of [] = []
messages_of (r ∷ rs) = r.msg ∷ messages_of rs

step : (n k : ℕ) → n + k < 2 ^ 63 → add64 (pos n) (pos k) ≡ pos (n + k)
unfolding ◌+ℤ◌
step n k h = add64_of_IsInt64 (pos n) (pos k) (ground arith) ∙ ground arith

total_from_lem :
    (n : ℕ) (ms : List Message)
    → n + data_length ms < 2 ^ 63
    → total_from (pos n) ms ≡ pos (n + data_length ms)
unfolding total_from size data_length
total_from_lem n [] h = ap pos (omega arith)
total_from_lem n (m ∷ ms) h =
    rw (step n (length m.data_) (omega arith))
      (total_from_lem (n + length m.data_) ms (omega arith) ∙ ap pos (omega arith))

rec_total_from_lem :
    (n : ℕ) (rs : List RecMsg)
    → n + data_length (messages_of rs) < 2 ^ 63
    → rec_total_from (pos n) rs ≡ pos (n + data_length (messages_of rs))
unfolding rec_total_from size data_length messages_of
rec_total_from_lem n [] h = ap pos (omega arith)
rec_total_from_lem n (r ∷ rs) h =
    rw (step n (length r.msg.data_) (omega arith))
      (rec_total_from_lem (n + length r.msg.data_) rs (omega arith) ∙ ap pos (omega arith))

-- For received messages whose data has fewer than 2^63 bytes altogether, both total sizes, of the
-- received list and of the list of its messages, are that number.
pub total_sizes :
    (rs : List RecMsg)
    → data_length (messages_of rs) < 2 ^ 63
    → (rec_total_size rs ≡ pos (data_length (messages_of rs)))
      × (total_size (messages_of rs) ≡ pos (data_length (messages_of rs)))
unfolding rec_total_size total_size
total_sizes rs h = (
  rec_total_from_lem 0 rs (omega arith) ∙ ap pos (omega arith),
  total_from_lem 0 (messages_of rs) (omega arith) ∙ ap pos (omega arith),
)
