-- ===== src/Push/Manager/Histories.antt =====
-- The calls of the manager, but for `StartAll`, and the rounds of the goroutines, in any order. Each call
-- and each round is taken to be done before the next one begins, though the manager has no lock.
use mathlib.Core.Path.{subst}
use argo_messaging.Base.Int.{pos}
use argo_messaging.Base.{
  ℕ, nat_eq, true, ltb, length, Text, text_eq, ◌==◌, Error, Bool-cases, inl, inr, Option,
  Option-cases, none, some, List, [], ◌∷◌, In, ◌≡◌, refl,
}
use argo_messaging.Stores.Times.{Zulu}
use argo_messaging.Stores.Interface.{Store}
use argo_messaging.Brokers.{Broker, offset_off}
use argo_messaging.Messages.{Message}
use argo_messaging.Subscriptions.{Subscription}
use argo_messaging.Handlers.Offsets.{broker_topic}
use argo_messaging.Push.Pusher.{
  Pusher, Pushed, pushed, waits, panics, Sender, push, forward, send_stop, consuming, with_subs,
  from_oldest,
}
use argo_messaging.Push.Manager.{
  Manager, new_manager, get, write, remove, signal, add, refresh, launch, halted, answered, halt,
  psub,
}
use argo_messaging.Push.Manager.Activities.{
  IsServed, Through, write-IsServed, remove-IsServed, added-IsServed, refreshed-IsServed,
  launched-IsServed, signal-IsServed, halted-IsServed,
}

module _ {S B E : Type 0} (z : Zulu) (store : Store S) (brk : Broker B) (send : Sender E)
    (load : Text → Message) (to_json : Text → Message → Text) where
  -- A call of `push` does not change whether the pusher runs.
  abbrev Keeps : Pusher → Pushed (S × (B × E)) → Type 0
  Keeps p (pushed p' w) = p'.running ≡ p.running
  Keeps p waits = Unit {0}
  Keeps p panics = Unit {0}

  abbrev push_ : Pusher → S × (B × E) → Pushed (S × (B × E))
  push_ = push z store brk send load to_json

  forward-Keeps :
      (p : Pusher) (msgs : List Text) (w : S × (B × E))
      → Keeps p (forward z store brk send load to_json p msgs w)
  unfolding forward
  forward-Keeps p [] w = refl
  forward-Keeps p (msg ∷ msgs) w = refl

  oldest-Keeps :
      (p : Pusher) (topic : Text) (w : S × (B × E))
      → Keeps p (from_oldest z store brk send load to_json p topic w)
  oldest-Keeps p topic (s, (b, e)) =
      elim (Option-cases (brk.consume topic (brk.get_min_offset topic b) true (pos 1) b).1.1) [
        | inl n ↦ rw (n, Keeps) (forward-Keeps _ _ _)
        | inr (m, f) ↦ rw (f, Keeps) refl
      ]

  consuming-Keeps :
      (p : Pusher) (w : S × (B × E)) → Keeps p (consuming z store brk send load to_json p w)
  consuming-Keeps p (s, (b, e)) =
      let topic = broker_topic p.sub.project_uuid p.sub.topic in
      elim (Option-cases (brk.consume topic p.sub.offset true (pos 1) b).1.1) [
        | inl n ↦ rw (n, Keeps) (forward-Keeps _ _ _)
        | inr (m, f) ↦ elim (Bool-cases (m == offset_off)) [
          | inl t ↦ rw (f, t, Keeps) (oldest-Keeps p topic _)
          | inr t ↦ rw (f, t, Keeps) (forward-Keeps _ _ _)
        ]
      ]

  with_subs-Keeps :
      (p : Pusher) (subs : List Subscription) (e : Error) (w : S × (B × E))
      → Keeps p (with_subs z store brk send load to_json p subs e w)
  unfolding send_stop
  with_subs-Keeps p [] none w = elim (Bool-cases (ltb (length p.stop) 2)) [
    | inl t ↦ rw t refl
    | inr t ↦ rw t tt
  ]
  with_subs-Keeps p [] (some m) w = tt
  with_subs-Keeps p (sub ∷ subs) e w = consuming-Keeps (record p { sub = sub }) w

  push-Keeps : (p : Pusher) (w : S × (B × E)) → Keeps p (push_ p w)
  unfolding push
  push-Keeps p (s, be) = with_subs-Keeps p _ _ _

  -- One whole call of the manager, or one whole round of the goroutine that runs for a pusher.
  pub data Step : S × Manager → S × Manager → Type 0 where
    adds : (project sub : Text) (w : S × Manager) → Step w (add z store project sub w).0
    refreshes : (project sub : Text) (w : S × Manager) → Step w (refresh z store project sub w).0
    launches : (project sub : Text) (w : S × Manager) → Step w (launch z store project sub w).0
    removes : (project sub : Text) (s : S) (m : Manager) → Step (s, m) (s, (remove project sub m).0)
    signals :
        (code : ℕ) (project sub : Text) (s : S) (m m' : Manager) (e : Error)
        → signal code project sub m ≡ some (m', e)
        → Step (s, m) (s, m')
    halts : (r : ℕ) (w w' : S × Manager) → In r w.1.active → halt z store r w ≡ some w' → Step w w'
    pushes :
        (r : ℕ) (s s' : S) (m : Manager) (be be' : B × E) (p : Pusher)
        → In r m.active
        → push_ (m.pushers r) (s, be) ≡ pushed p (s', be')
        → Step (s, m) (s', write r (λ _. p) m)

  pub data Reaches (w : S × Manager) : S × Manager → Type 0 where
    start : Reaches w w
    further : {u v : S × Manager} → Reaches w u → Step u v → Reaches w v

  refresh-IsServed :
      (project sub : Text) (w : S × Manager)
      → IsServed w.1
      → IsServed (refresh z store project sub w).0.1
  unfolding refresh
  refresh-IsServed project sub (s, m) h = elim (Option-cases (get (psub project sub) m)) [
    | inl n ↦ rw (n, refresh) h
    | inr (r, f) ↦ rw (f, refresh) (refreshed-IsServed r _ _ m h)
  ]

  launch-IsServed :
      (project sub : Text) (w : S × Manager)
      → IsServed w.1
      → IsServed (launch z store project sub w).0.1
  unfolding launch
  launch-IsServed project sub w h =
      launched-IsServed (psub project sub) _ (refresh-IsServed project sub w h)

  answered-IsServed :
      (code : ℕ) (sub : Subscription) (w : S × Manager)
      → IsServed w.1
      → IsServed (answered z store code sub w).1
  answered-IsServed code sub (s, m) h = elim (Bool-cases (code == 2)) [
    | inl t ↦ rw t (launch-IsServed sub.project_uuid sub.name (s, m) h)
    | inr t ↦ rw t (remove-IsServed sub.project_uuid sub.name m h)
  ]

  halt-IsServed :
      (r : ℕ) (w w' : S × Manager) → IsServed w.1 → halt z store r w ≡ some w' → IsServed w'.1
  unfolding halt
  halt-IsServed r (s, m) w' h = go (m.pushers r).stop
    where
      go :
          (codes : List ℕ)
          → elim codes as (λ _. Option (S × Manager)) [
            | [] ↦ none
            | code ∷ rest ↦ some (answered z store code (m.pushers r).sub (s, halted r rest m))
          ]
            ≡ some w'
          → IsServed w'.1
      go [] e = cc
      go (code ∷ rest) e =
          let same : answered z store code (m.pushers r).sub (s, halted r rest m) ≡ w' = cc in
          rw (← same) (
            answered-IsServed code (m.pushers r).sub (s, halted r rest m)
              (halted-IsServed r rest m h))

  Step-IsServed : {w w' : S × Manager} → Step w w' → IsServed w.1 → IsServed w'.1
  unfolding add
  Step-IsServed (adds project sub (s, m)) h = added-IsServed project sub _ _ m h
  Step-IsServed (refreshes project sub w) h = refresh-IsServed project sub w h
  Step-IsServed (launches project sub w) h = launch-IsServed project sub w h
  Step-IsServed (removes project sub s m) h = remove-IsServed project sub m h
  Step-IsServed (signals code project sub s m m' e f) h =
      subst (Through IsServed) f (signal-IsServed code project sub m h)
  Step-IsServed (halts r w w' i e) h = halt-IsServed r w w' h e
  Step-IsServed (pushes r s s' m be be' p i e) h =
      write-IsServed r (λ _. p) m (subst (Keeps (m.pushers r)) e (push-Keeps (m.pushers r) (s, be)))
        h

  -- In every state that calls of `Add`, `Refresh`, `Launch`, `Remove`, `Stop` and `Restart` and rounds of
  -- the goroutines lead to from a new manager, in any order, one after another and without a call of
  -- `StartAll`: no pusher is served by two goroutines, every pusher that is served is marked as running,
  -- and the manager's map points to pushers that were created.
  pub Reaches-IsServed : (s : S) {w : S × Manager} → Reaches (s, new_manager) w → IsServed w.1
  Reaches-IsServed s start = (tt, (λ r i. absurd i), λ i j. absurd j)
  Reaches-IsServed s (further r st) = Step-IsServed st (Reaches-IsServed s r)
