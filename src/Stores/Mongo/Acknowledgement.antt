-- ===== src/Stores/Mongo/Acknowledgement.antt =====
-- What an accepted acknowledgement does in the store in MongoDB.
use argo_messaging.Base.{Text, text_eq, Bool, Option, some, find_first, ◌≡◌}
use argo_messaging.Base.Int.{ℤ, ◌≤ℤ◌, ◌<ℤ◌, int_eq}
use argo_messaging.Stores.Models.{QSub}
use argo_messaging.Stores.Times.{Zulu}
use argo_messaging.Stores.Mongo.{Driver, Db, returned}
use argo_messaging.Stores.Mongo.Subs.{sub_selector, acknowledged, update_sub_offset_ack}
use argo_messaging.Stores.Mongo.Judgement.{no_ack_pending}
use argo_messaging.Stores.Mongo.Laws.{Documented}

module _ {C : Type 0 → Type 0} (driver : Driver C) (laws : Documented driver) (z : Zulu)
    (project_uuid name : Text) where
  abbrev named : QSub → Bool
  named = sub_selector project_uuid name

  -- The subscription that `UpdateSubOffsetAck` finds.
  abbrev pub stored : Db C → Option QSub
  stored db = find_first named (laws.contents db.subscriptions)

  -- What an accepted acknowledgement does.
  abbrev pub IsAccepted : ℤ → Db C → Db C → Type 0
  IsAccepted offset db db' =
      (s : QSub) × (stored db ≡ some s)
      × (s.offset <ℤ offset)
      × (offset ≤ℤ s.next_offset)
      × (stored db' ≡ some (acknowledged offset s))
      × ((offset' : ℤ) (ts' : Text)
          → update_sub_offset_ack driver z project_uuid name offset' ts' db'
            ≡ returned db' (some no_ack_pending))
