-- ===== src/Stores/Mock/Subs.antt =====
-- The subscriptions of the store in memory.
pub mod Acknowledgement
pub mod Query
use argo_messaging.Base.{
  Text, text, Error, ◌==◌, text_eq, Bool, true, false, ◌&&◌, ◌||◌, not, Option, none, some, List,
  [], ◌∷◌, ◌++◌, length, filter, is_empty, modify_first, remove_first, find_first, any, option_list,
  if◌then◌else◌,
}
use argo_messaging.Base.Int.{ℤ, pos, add64, ltb_ℤ, int_eq}
use argo_messaging.Stores.Models.{Time, Rate, zero_time, QSub}
use argo_messaging.Stores.Times.{Zulu, time_or_zero, elapsed_seconds}
use argo_messaging.Stores.Interface.{Page, PushFields}
use argo_messaging.Stores.Mock.State.{Mock, map_insert, not_found}

-- `item.ProjectUUID == projectUUID && item.Name == name`
unfoldable pub is_sub : Text → Text → QSub → Bool
is_sub project_uuid name s = s.project_uuid == project_uuid && s.name == name

abbrev pub set_subs : Option (List QSub) → Text → Mock → Mock × Error
set_subs (some ss) message mk = (record mk { sub_list = ss }, none)
set_subs none message mk = (mk, some message)

-- `InsertSub`; the new subscription's access list replaces one of its name.
unfoldable pub insert_sub : Text → Text → Text → ℤ → ℤ → PushFields → Time → Mock → Mock × Error
insert_sub project_uuid name topic offset ack push created_on mk =
    let sub : QSub = record {
      id = length mk.sub_list;
      project_uuid = project_uuid;
      name = name;
      topic = topic;
      offset = offset;
      next_offset = pos 0;
      pending_ack = [];
      push_endpoint = push.push_endpoint;
      max_messages = push.max_messages;
      authorization_type = push.authorization_type;
      authorization_header = push.authorization_header;
      ack = ack;
      ret_policy = push.ret_policy;
      ret_period = push.ret_period;
      msg_num = pos 0;
      total_bytes = pos 0;
      verification_hash = push.verification_hash;
      verified = push.verified;
      latest_consume = zero_time;
      consume_rate = record { count = pos 0; nanoseconds = 0 };
      created_on = created_on;
      acl = [];
    } in
    (
      record mk {
        sub_list = mk.sub_list ++ (sub ∷ []);
        subs_acl = map_insert name (record { acl = [] }) mk.subs_acl;
      },
      none,
    )

-- `RemoveSub`
unfoldable pub remove_sub : Text → Text → Mock → Mock × Error
unfolding is_sub
remove_sub project_uuid name mk =
    set_subs (remove_first (is_sub project_uuid name) mk.sub_list) not_found mk

-- `RemoveProjectSubs`
unfoldable pub remove_project_subs : Text → Mock → Mock × Error
remove_project_subs project_uuid mk = (
  record mk { sub_list = filter (λ s. not (s.project_uuid == project_uuid)) mk.sub_list },
  if any (λ s. s.project_uuid == project_uuid) mk.sub_list then none else some not_found,
)

abbrev change_sub : Text → Text → (QSub → QSub) → Text → Mock → Mock × Error
change_sub project_uuid name change message mk =
    set_subs (modify_first (is_sub project_uuid name) change mk.sub_list) message mk

-- `IncrementSubMsgNum`
unfoldable pub increment_sub_msg_num : Text → Text → ℤ → Mock → Mock × Error
increment_sub_msg_num project_uuid name num mk =
    change_sub project_uuid name (λ s. record s { msg_num = add64 s.msg_num num }) not_found mk

-- `IncrementSubBytes`
unfoldable pub increment_sub_bytes : Text → Text → ℤ → Mock → Mock × Error
increment_sub_bytes project_uuid name total_bytes mk =
    change_sub project_uuid name (λ s. record s { total_bytes = add64 s.total_bytes total_bytes })
      not_found mk

-- `UpdateSubOffset`, which does nothing here.
unfoldable pub update_sub_offset : Text → Text → ℤ → Mock → Mock
update_sub_offset project_uuid name offset mk = mk

-- `ModAck`
unfoldable pub mod_ack : Text → Text → ℤ → Mock → Mock × Error
mod_ack project_uuid name ack mk =
    change_sub project_uuid name (λ s. record s { ack = ack }) not_found mk

-- `ModSubPush`
unfoldable pub mod_sub_push : Text → Text → PushFields → Mock → Mock × Error
mod_sub_push project_uuid name push mk =
    change_sub project_uuid name
      (λ s. record s {
        push_endpoint = push.push_endpoint;
        authorization_type = push.authorization_type;
        authorization_header = push.authorization_header;
        max_messages = push.max_messages;
        ret_policy = push.ret_policy;
        ret_period = push.ret_period;
        verification_hash = push.verification_hash;
        verified = push.verified;
      })
      not_found mk

-- `UpdateSubPull`
unfoldable pub update_sub_pull : Text → Text → ℤ → Text → Mock → Mock × Error
update_sub_pull project_uuid name offset ts mk =
    change_sub project_uuid name (λ s. record s { next_offset = offset; pending_ack = ts })
      not_found mk

abbrev sub_not_found : Text
sub_not_found = text "subscription not found"

-- `UpdateSubLatestConsume`
unfoldable pub update_sub_latest_consume : Text → Text → Time → Mock → Mock × Error
update_sub_latest_consume project_uuid name date mk =
    change_sub project_uuid name (λ s. record s { latest_consume = date }) sub_not_found mk

-- `UpdateSubConsumeRate`
unfoldable pub update_sub_consume_rate : Text → Text → Rate → Mock → Mock × Error
update_sub_consume_rate project_uuid name rate mk =
    change_sub project_uuid name (λ s. record s { consume_rate = rate }) sub_not_found mk

-- The last subscription of that name; `QSub{}` has `NextOffset` 0, so it is refused at once.
unfoldable pub find_last : (QSub → Bool) → Option QSub → List QSub → Option QSub
find_last p found [] = found
find_last p found (s ∷ ss) = find_last p (if p s then some s else found) ss

-- The tests of `UpdateSubOffsetAck`, which writes nothing here.
ack_error : Zulu → ℤ → Text → Option QSub → Error
ack_error z offset ts none = some (text "no ack pending")
ack_error z offset ts (some s) =
    if s.next_offset == pos 0
    then some (text "no ack pending")
    else if ltb_ℤ offset s.offset || ltb_ℤ s.next_offset offset
    then some (text "wrong ack")
    else if ltb_ℤ s.ack
        (elapsed_seconds (time_or_zero (z.parse ts)) (time_or_zero (z.parse s.pending_ack)))
    then some (text "ack timeout")
    else none

-- `UpdateSubOffsetAck`
unfoldable pub update_sub_offset_ack : Zulu → Text → Text → ℤ → Text → Mock → Mock × Error
unfolding find_last ack_error
update_sub_offset_ack z project_uuid name offset ts mk =
    (mk, ack_error z offset ts (find_last (is_sub project_uuid name) none mk.sub_list))
