-- ===== src/Brokers/Kafka/Lock.antt =====
-- `lockForTopic` and `unlockForTopic` of brokers/kafka.go for one topic, with any number of goroutines
-- that call them around their work. A goroutine is where it stands in the code, and one step of it is
-- what the code does there up to the next access to shared data; an interleaving is a list of the
-- goroutines that make a step.
pub mod Exclusion
use argo_messaging.Base.{ℕ, Bool, true, false, List, [], ◌∷◌, if◌then◌else◌, ◌==◌, nat_eq}

pub data Place : Type 0 where
  idle : Place
  -- before `b.createTopicLock.Lock()`: the topic had no lock
  want_create : Place
  -- `createTopicLock` is held
  creating : Place
  -- the topic's lock is new, before `b.consumeLock[topic].Lock()`
  created : Place
  -- before `b.createTopicLock.Unlock()`
  leaving : Place
  -- before `b.consumeLock[topic].Lock()`: the topic had a lock
  want_topic : Place
  -- `lockForTopic` has returned
  inside : Place

pub record Locks : Type 0 where
  pub present : Bool  -- the topic is a key of `consumeLock`
  pub create_locked : Bool
  pub topic_locked : Bool
  pub place : ℕ → Place

-- What a step comes to: the goroutine waits for a mutex, or goes on, or unlocks a mutex that is not
-- locked, which ends the program.
pub data Progress : Type 0 where
  blocked : Progress
  next : Locks → Progress
  fatal : Progress

abbrev pub move : ℕ → Place → (ℕ → Place) → ℕ → Place
move g p place k = if k == g then p else place k

abbrev pub step_at : Place → ℕ → Locks → Progress
step_at idle g s =
    next (record s { place = move g (if s.present then want_topic else want_create) s.place })
step_at want_create g s =
    if s.create_locked
    then blocked
    else next (record s { create_locked = true; place = move g creating s.place })
step_at creating g s =
    if s.present
    then next (record s { place = move g leaving s.place })
    else next (record s { present = true; place = move g created s.place })
step_at created g s =
    if s.topic_locked
    then blocked
    else next (record s { topic_locked = true; place = move g leaving s.place })
step_at leaving g s = next (record s { create_locked = false; place = move g inside s.place })
step_at want_topic g s =
    if s.topic_locked
    then blocked
    else next (record s { topic_locked = true; place = move g inside s.place })
step_at inside g s =
    if s.present
    then if s.topic_locked
      then next (record s { topic_locked = false; place = move g idle s.place })
      else fatal
    else next (record s { place = move g idle s.place })

-- One step of a goroutine in `lockForTopic`, or in `unlockForTopic` where it has the lock.
unfoldable pub step : ℕ → Locks → Progress
step g s = step_at (s.place g) g s

-- An interleaving; a goroutine that has to wait does so.
unfoldable pub run : List ℕ → Locks → Progress
run [] s = next s
run (g ∷ gs) s = elim (step g s) [ blocked ↦ run gs s | next s' ↦ run gs s' | fatal ↦ fatal ]

-- All goroutines are outside, and no mutex is locked.
abbrev pub start : Bool → Locks
start present = record {
  present = present;
  create_locked = false;
  topic_locked = false;
  place = λ g. idle;
}
