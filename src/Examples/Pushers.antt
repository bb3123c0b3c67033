-- ===== src/Examples/Pushers.antt =====
-- Examples on the manager of the pushers: a subscription is added, and launched twice or all are started.
use argo_messaging.Base.{
  Text, text, text_eq, nat_eq, none, [], ◌==◌, true, In, Distinct, ◌≡◌, refl, inl, find_first,
  is_empty, text_beq,
}
use argo_messaging.Base.Int.{pos}
use argo_messaging.Stores.Mock.State.{Mock}
use argo_messaging.Stores.Mock.Instance.{mock}
use argo_messaging.Brokers.{Broker}
use argo_messaging.Messages.{Message}
use argo_messaging.Push.Pusher.{Sender}
use argo_messaging.Push.Manager.{
  Manager, new_manager, add, launch, start_all, get, refresh, new_pusher, launch_pusher,
}
use argo_messaging.Push.Manager.Activities.{IsServed}
use argo_messaging.Push.Manager.Histories.{adds, launches, start, further, Reaches-IsServed}
use argo_messaging.Push.Manager.Starting.{start_all-ServesTwice}
use argo_messaging.Subscriptions.{linear, new_subscription}
use argo_messaging.Subscriptions.Operations.{find}
use argo_messaging.Base.Base64
use argo_messaging.Projects.{get_name_by_uuid}
use argo_messaging.Stores.Mock.Projects
use argo_messaging.Stores.Mock.Subs.Query
use argo_messaging.Examples.{zulu}
use argo_messaging.Examples.Pushing.{pushing}

abbrev no_broker : Broker (Unit {0})
no_broker = record {
  get_min_offset = λ topic b. pos 0;
  get_max_offset = λ topic b. pos 0;
  consume = λ topic offset imm max b. (b, ([], none));
  publish = λ topic message b. (b, record { msg_id = []; topic = topic; error = none });
}

abbrev deaf : Sender (Unit {0})
deaf message endpoint e = (e, none)

abbrev plain : Text → Message
plain t = record { id = []; attr = none; data_ = t; pub_time = [] }

abbrev first : Mock × Manager
first = (add zulu (mock zulu) (text "P") (text "s") (pushing, new_manager)).0

abbrev second : Mock × Manager
second = (launch zulu (mock zulu) (text "P") (text "s") first).0

abbrev third : Mock × Manager
third = (launch zulu (mock zulu) (text "P") (text "s") second).0

Reaches-IsServed_example : IsServed third.1
Reaches-IsServed_example =
    Reaches-IsServed zulu (mock zulu) no_broker deaf plain (λ sub m. m.data_) pushing
      (further
        (further (further start (adds (text "P") (text "s") (pushing, new_manager)))
          (launches (text "P") (text "s") first))
        (launches (text "P") (text "s") second))

launched_once :
    In (text "P/s", 0) second.1.list
    × In 0 second.1.active
    × (((second.1.pushers 0).retry_policy == linear) ≡ true)
unfolding launch get find_first refresh add find Base64.decode mock Query.query_subs is_empty
    get_name_by_uuid Projects.query_projects text_beq Query.may_see_sub new_pusher launch_pusher
    new_subscription
launched_once = (inl refl, inl refl, refl)

start_all-ServesTwice_example : ¬ Distinct (start_all second.1).active
start_all-ServesTwice_example =
    start_all-ServesTwice second.1 (text "P/s") 0 launched_once.0 launched_once.1 launched_once.2
