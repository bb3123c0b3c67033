-- ===== src/Subscriptions/Operations/Deadline.antt =====
-- The deadline of acknowledgements, over the store in memory.
use argo_messaging.Base.{text_eq, ◌==◌, ◌⊎◌, Option, none, some, List, All, ◌≡◌, if◌then◌else◌}
use argo_messaging.Base.Base64
use argo_messaging.Base.Int.{ℤ, pos, int_eq, ◌≤ℤ◌}
use argo_messaging.Stores.Models.{QSub}
use argo_messaging.Stores.Mock.State.{Mock}
use argo_messaging.Stores.Mock.Subs
use argo_messaging.Stores.Mock.Subs.Query

-- A deadline that `ModAck` may set, in seconds.
abbrev pub HasDeadline : QSub → Type 0
HasDeadline s = (pos 0 ≤ℤ s.ack) × (s.ack ≤ℤ pos 600)

abbrev AllSome : (QSub → Type 0) → Option (List QSub) → Type 0
AllSome P none = Unit
AllSome P (some ss) = All P ss

-- Every subscription of the store has a deadline between 0 and 600 seconds.
abbrev pub HasDeadlines : Mock → Type 0
HasDeadlines mk = All HasDeadline mk.sub_list

-- The deadline that `CreateSub` stores.
abbrev pub stored_ack : ℤ → ℤ
stored_ack ack = if ack == pos 0 then pos 10 else ack

-- Or the deadline with which a subscription was created.
abbrev pub HasDeadlineOr : ℤ → QSub → Type 0
HasDeadlineOr ack s = HasDeadline s ⊎ (s.ack ≡ stored_ack ack)
