-- ===== src/Examples/Broker.antt =====
-- Examples on the lock of a topic.
use argo_messaging.Base.{ℕ, true, false, List, [], ◌∷◌, ◌≡◌, arith}
use argo_messaging.Brokers.Kafka.Lock.{Locks, inside, next, fatal, run, start}
use argo_messaging.Brokers.Kafka.Lock.Exclusion.{present_lock_excludes, new_lock_admits_both}

present_lock_excludes_example :
    (run (0 ∷ 1 ∷ 0 ∷ 1 ∷ []) (start true) ≡ fatal → ⊥)
    × ((s : Locks)
        → run (0 ∷ 1 ∷ 0 ∷ 1 ∷ []) (start true) ≡ next s
        → (g h : ℕ) → s.place g ≡ inside
        → s.place h ≡ inside
        → g ≡ h)
present_lock_excludes_example = present_lock_excludes (0 ∷ 1 ∷ 0 ∷ 1 ∷ [])

new_lock_admits_both_example :
    (gs : List ℕ) × (s : Locks) × (run gs (start false) ≡ next s)
    × (s.place 0 ≡ inside)
    × (s.place 1 ≡ inside)
    × (run (0 ∷ 1 ∷ []) s ≡ fatal)
new_lock_admits_both_example = new_lock_admits_both 0 1 (λ e. absurd (omega (arith, e)))
