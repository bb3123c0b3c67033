-- ===== src/Push/Manager/Starting.antt =====
-- `StartAll` of push/push.go where a pusher is served already.
use argo_messaging.Base.{
  ℕ, ◌==◌, nat_eq, text_eq, Text, Bool-cases, inl, inr, true, List, [], ◌∷◌, In, Distinct,
  if◌then◌else◌, ◌≡◌, refl,
}
use argo_messaging.Subscriptions.{linear}
use argo_messaging.Push.Manager.{Manager, launch_pusher, launch_all, start_all}

-- What a launch leaves: who was served is served, and who was served twice is served twice.
launch_pusher-serves :
    (r q : ℕ) (m : Manager)
    → (In r m.active → In r (launch_pusher q m).active)
      × ((¬ Distinct m.active) → ¬ Distinct (launch_pusher q m).active)
unfolding launch_pusher
launch_pusher-serves r q m = elim (Bool-cases ((m.pushers q).retry_policy == linear)) [
  | inl e ↦ rw e ((λ i. inr i), λ h d. h d.1)
  | inr e ↦ rw e ((λ i. i), λ h. h)
]

launch_pusher-retry_policy :
    (r q : ℕ) (m : Manager)
    → ((launch_pusher q m).pushers r).retry_policy ≡ (m.pushers r).retry_policy
unfolding launch_pusher
launch_pusher-retry_policy r q m = elim (Bool-cases ((m.pushers q).retry_policy == linear)) [
  | inl e ↦ rw e (written (r == q))
  | inr e ↦ rw e (written (r == q))
]
  where
    written :
        (b : _)
        → (if b then record (m.pushers r) { running = true } else m.pushers r).retry_policy
          ≡ (m.pushers r).retry_policy
    written true = refl
    written _ = refl

launch_pusher-twice :
    (r : ℕ) (m : Manager)
    → ((m.pushers r).retry_policy == linear) ≡ true
    → In r m.active
    → ¬ Distinct (launch_pusher r m).active
unfolding launch_pusher
launch_pusher-twice r m e i = rw e (λ d. d.0 i)

launch_all-twice :
    (items : List (Text × ℕ)) (m : Manager)
    → (¬ Distinct m.active)
    → ¬ Distinct (launch_all items m).active
unfolding launch_all
launch_all-twice [] m h = h
launch_all-twice ((key, q) ∷ items) m h =
    launch_all-twice items (launch_pusher q m) ((launch_pusher-serves q q m).1 h)

launch_all-ServesTwice :
    (items : List (Text × ℕ)) (m : Manager) (key : Text) (r : ℕ)
    → In (key, r) items
    → In r m.active
    → ((m.pushers r).retry_policy == linear) ≡ true
    → ¬ Distinct (launch_all items m).active
unfolding launch_all
launch_all-ServesTwice [] m key r i j e = absurd i
launch_all-ServesTwice ((k, q) ∷ items) m key r (inl same) j e =
    let is_r : r ≡ q = cc in
    launch_all-twice items (launch_pusher q m) (rw (← is_r) (launch_pusher-twice r m e j))
launch_all-ServesTwice ((k, q) ∷ items) m key r (inr i) j e =
    launch_all-ServesTwice items (launch_pusher q m) key r i ((launch_pusher-serves r q m).0 j)
      (rw (launch_pusher-retry_policy r q m) e)

-- If the manager's map has a pusher with the linear policy that a goroutine serves, then after `StartAll`,
-- whatever else the map has, not every pusher is served by one goroutine alone.
pub start_all-ServesTwice :
    (m : Manager) (key : Text) (r : ℕ)
    → In (key, r) m.list
    → In r m.active
    → ((m.pushers r).retry_policy == linear) ≡ true
    → ¬ Distinct (start_all m).active
unfolding start_all
start_all-ServesTwice m key r i j e = launch_all-ServesTwice m.list m key r i j e
