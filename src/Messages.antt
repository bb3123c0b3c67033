-- ===== src/Messages.antt =====
-- messages/message.go: messages, their attributes and sizes. A map of attributes is a list of its
-- pairs, in which a key stands once; the nil map is `none`.
pub mod Attributes
pub mod Sizes
use argo_messaging.Base.{
  ℕ, ◌+◌, Text, text, Error, ◌==◌, text_eq, Bool, true, false, Option, none, some, List, [], ◌∷◌,
  length, if◌then◌else◌,
}
use argo_messaging.Base.Int.{ℤ, pos, add64}

abbrev pub Attributes : Type 0
Attributes = List (Text × Text)

pub record Message : Type 0 where
  pub id : Text
  pub attr : Option Attributes
  pub data_ : Text  -- base64
  pub pub_time : Text

pub record RecMsg : Type 0 where
  pub ack_id : Text
  pub msg : Message

-- `Size`
unfoldable pub size : Message → ℤ
size m = pos (length m.data_)

total_from : ℤ → List Message → ℤ
unfolding size
total_from sum [] = sum
total_from sum (m ∷ ms) = total_from (add64 sum (size m)) ms

-- `MsgList.TotalSize`
unfoldable pub total_size : List Message → ℤ
unfolding total_from
total_size = total_from (pos 0)

rec_total_from : ℤ → List RecMsg → ℤ
unfolding size
rec_total_from sum [] = sum
rec_total_from sum (r ∷ rs) = rec_total_from (add64 sum (size r.msg)) rs

-- `RecList.TotalSize`
unfoldable pub rec_total_size : List RecMsg → ℤ
unfolding rec_total_from
rec_total_size = rec_total_from (pos 0)

-- The value at a key.
unfoldable pub lookup : Text → Attributes → Option Text
lookup key [] = none
lookup key ((k, v) ∷ m) = let rest = lookup key m in if k == key then some v else rest

-- `m[key] = value`
unfoldable pub set : Text → Text → Attributes → Attributes
set key value [] = (key, value) ∷ []
set key value ((k, v) ∷ m) =
    let rest = set key value m in if k == key then (key, value) ∷ m else (k, v) ∷ rest

-- `delete(m, key)`
unfoldable pub delete : Text → Attributes → Attributes
delete key [] = []
delete key ((k, v) ∷ m) = let rest = delete key m in if k == key then rest else (k, v) ∷ rest

abbrev pub exists_already : Text
exists_already = text "Attribute already exists"

abbrev pub does_not_exist : Text
does_not_exist = text "Attribute doesn't exist"

abbrev exists : Option Text → Bool × Text
exists (some v) = (true, v)
exists none = (false, [])

-- What is read of a map; the nil map reads like an empty one.
abbrev pub entries : Option Attributes → Attributes
entries none = []
entries (some m) = m

-- A change of a map; `delete` leaves the nil map, and no key of it is ever set here.
abbrev pub over : (Attributes → Attributes) → Option Attributes → Option Attributes
over f none = none
over f (some m) = some (f m)

-- `AttrExists`
unfoldable pub attr_exists : Text → Message → Bool × Text
attr_exists key m = exists (lookup key (entries m.attr))

-- The assignment to a key of a map, which panics on the nil map.
abbrev pub inserted : Text → Text → Message → Option Attributes → Option (Message × Error)
inserted key value m none = none
inserted key value m (some attr) = some (record m { attr = some (set key value attr) }, none)

-- `InsertAttribute`; `none` is a panic.
unfoldable pub insert_attribute : Text → Text → Message → Option (Message × Error)
unfolding attr_exists
insert_attribute key value m =
    if (attr_exists key m).0 then some (m, some exists_already) else inserted key value m m.attr

-- `UpdateAttribute`
unfoldable pub update_attribute : Text → Text → Message → Message × Error
unfolding attr_exists
update_attribute key value m =
    if (attr_exists key m).0
    then (record m { attr = over (set key value) m.attr }, none)
    else (m, some does_not_exist)

-- `RemoveAttribute`
unfoldable pub remove_attribute : Text → Message → Message × Error
unfolding attr_exists
remove_attribute key m =
    if (attr_exists key m).0
    then (record m { attr = over (delete key) m.attr }, none)
    else (m, some does_not_exist)

-- `GetAttribute`
unfoldable pub get_attribute : Text → Message → Text × Error
unfolding attr_exists
get_attribute key m =
    if (attr_exists key m).0 then ((attr_exists key m).1, none) else ([], some does_not_exist)
