-- ===== src/Push/Manager.antt =====
-- The manager of push/push.go, which has a broker, a store and a sender. Pushers are shared by pointer:
-- a pointer is a number, `pushers` what it points to, and `created` how many there are. The goroutines
-- of `LinearActivity` are a list of the pointers they run for.
pub mod Activities
pub mod Histories
pub mod Starting
use argo_messaging.Base.{
  ℕ, ◌+◌, Text, text, Error, is_nil, ◌==◌, text_eq, nat_eq, Bool, true, false, not, Option, none,
  some, List, [], ◌∷◌, ◌++◌, length, filter, find_first, map, if◌then◌else◌,
}
use argo_messaging.Base.Int.{pos}
use argo_messaging.Stores.Times.{Zulu}
use argo_messaging.Stores.Interface.{Store}
use argo_messaging.Subscriptions.{Subscription, linear}
use argo_messaging.Subscriptions.Operations.{find, empty_subscription}
use argo_messaging.Push.Pusher.{Pusher, send_stop}

pub record Manager : Type 0 where
  pub list : List (Text × ℕ)  -- a map
  pub pushers : ℕ → Pusher
  pub created : ℕ
  pub active : List ℕ

-- `project + "/" + sub`
abbrev pub psub : Text → Text → Text
psub project sub = project ++ (text "/" ++ sub)

abbrev pointer_of : Option (Text × ℕ) → Option ℕ
pointer_of none = none
pointer_of (some (key, r)) = some r

-- `Get`
unfoldable pub get : Text → Manager → Option ℕ
get key m = pointer_of (find_first (λ (i : Text × ℕ). i.0 == key) m.list)

abbrev without : Text → List (Text × ℕ) → List (Text × ℕ)
without key = filter (λ (i : Text × ℕ). not (i.0 == key))

-- Writes a pusher through its pointer.
abbrev pub write : ℕ → (Pusher → Pusher) → Manager → Manager
write r f m = record m { pushers = λ i. if i == r then f (m.pushers i) else m.pushers i }

-- `Remove`
unfoldable pub remove : Text → Text → Manager → Manager × Error
remove project sub m = elim (get (psub project sub) m) [
  | none ↦ (m, some (text "not Found"))
  | some r ↦ (record m { list = without (psub project sub) m.list }, none)
]

abbrev pub sent : ℕ → Manager → Option Pusher → Option (Manager × Error)
sent r m none = none
sent r m (some p) = some (write r (λ _. p) m, none)

abbrev pub signalled : ℕ → Option ℕ → Manager → Option (Manager × Error)
signalled code none m = some (m, some (text "not Found"))
signalled code (some r) m =
    if (m.pushers r).running
    then sent r m (send_stop code (m.pushers r))
    else some (m, some (text "Already Stoped"))

-- `Stop` with code 1 and `Restart` with code 2; `none` where the call waits.
unfoldable pub signal : ℕ → Text → Text → Manager → Option (Manager × Error)
signal code project sub m = signalled code (get (psub project sub) m) m

-- A new pusher of a subscription.
unfoldable pub new_pusher : ℕ → Subscription → Pusher
new_pusher id sub = record {
  id = id;
  sub = sub;
  endpoint = sub.push_cfg.pend;
  retry_policy = sub.push_cfg.ret_pol.policy_type;
  retry_period = sub.push_cfg.ret_pol.period;
  stop = [];
  running = false;
}

-- `NewManager`
abbrev pub new_manager : Manager
new_manager = record {
  list = [];
  pushers = λ r. new_pusher 0 empty_subscription;
  created = 0;
  active = [];
}

abbrev pub refresh_pusher : Subscription → Pusher → Pusher
refresh_pusher sub p = record p {
  endpoint = sub.push_cfg.pend;
  retry_policy = sub.push_cfg.ret_pol.policy_type;
  retry_period = sub.push_cfg.ret_pol.period;
}

-- `launch` of a pusher, which starts a goroutine under the linear policy alone.
unfoldable pub launch_pusher : ℕ → Manager → Manager
launch_pusher r m =
    let m' = write r (λ p. record p { running = true }) m in
    if (m.pushers r).retry_policy == linear then record m' { active = r ∷ m.active } else m'

-- Launches each of the pointers.
unfoldable pub launch_all : List (Text × ℕ) → Manager → Manager
launch_all [] m = m
launch_all ((key, r) ∷ items) m = launch_all items (launch_pusher r m)

-- `StartAll`, which does not test whether a pusher runs.
unfoldable pub start_all : Manager → Manager
unfolding launch_all
start_all m = launch_all m.list m

-- The goroutine for `r`, where it is the only one, is over: the pusher has read its channel, up to `rest`.
unfoldable pub halted : ℕ → List ℕ → Manager → Manager
halted r rest m =
    let m' = write r (λ p. record p { stop = rest; running = false }) m in
    record m' { active = filter (λ i. not (i == r)) m.active }

abbrev pub added : Text → Text → List Subscription → Error → Manager → Manager × Error
added project sub subs (some e) m = (m, some (text "Backend error"))
added project sub [] none m = (m, some (text "not found"))
added project sub (found ∷ subs) none m = (
  record m {
    list = (psub project sub, m.created) ∷ without (psub project sub) m.list;
    pushers = λ i. if i == m.created then new_pusher (length m.list) found else m.pushers i;
    created = m.created + 1;
  },
  none,
)

abbrev pub refreshed : ℕ → List Subscription → Error → Manager → Manager × Error
refreshed r subs (some e) m = (m, some (text "backend error"))
refreshed r [] none m = (m, some (text "Not Found"))
refreshed r (sub ∷ subs) none m = (write r (refresh_pusher sub) m, some (text "not Found"))

abbrev pub launched : Option ℕ → Manager → Manager × Error
launched none m = (m, some (text "not Found"))
launched (some r) m =
    if (m.pushers r).running then (m, some (text "Already Running")) else (launch_pusher r m, none)

module _ {S : Type 0} (z : Zulu) (store : Store S) where
  -- `Add`
  unfoldable pub add : Text → Text → S × Manager → (S × Manager) × Error
  add project sub (s, m) =
      let (s', (res, e)) = find z store project [] sub [] (pos 0) s in
      let (m', error) = added project sub res.subscriptions e m in ((s', m'), error)

  -- `Refresh`, which ends in "not Found" after it has written the pusher, too.
  unfoldable pub refresh : Text → Text → S × Manager → (S × Manager) × Error
  refresh project sub (s, m) = elim (get (psub project sub) m) [
    | none ↦ ((s, m), some (text "not Found"))
    | some r ↦
        let (s', (res, e)) = find z store project [] sub [] (pos 0) s in
        let (m', error) = refreshed r res.subscriptions e m in ((s', m'), error)
  ]

  -- `Launch`
  unfoldable pub launch : Text → Text → S × Manager → (S × Manager) × Error
  launch project sub sm =
      let ((s, m), ignored) = refresh project sub sm in
      let (m', error) = launched (get (psub project sub) m) m in ((s, m'), error)

  abbrev pub answered : ℕ → Subscription → S × Manager → S × Manager
  answered code sub (s, m) =
      if code == 2
      then (launch sub.project_uuid sub.name (s, m)).0
      else (s, (remove sub.project_uuid sub.name m).0)

  -- The branch of `LinearActivity` that reads the channel; `none` where there is nothing to read.
  unfoldable pub halt : ℕ → S × Manager → Option (S × Manager)
  halt r (s, m) = elim (m.pushers r).stop [
    | [] ↦ none
    | code ∷ rest ↦ some (answered code (m.pushers r).sub (s, halted r rest m))
  ]
