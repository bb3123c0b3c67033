-- ===== src/Brokers/Kafka/Lock/Exclusion.antt =====
-- Where the lock of a topic excludes, and where it does not.
use argo_messaging.Base.{
  ℕ, Bool, true, false, List, [], ◌∷◌, ◌≡◌, refl, sym, ◌∙◌, ap, ◌==◌, nat_eq, arith, Bool-cases,
  inl, inr, ◌⊎◌, ◌≢◌,
}
use mathlib.Core.Path.{subst}
use mathlib.Core.Bool.{true≢false}
use argo_messaging.Brokers.Kafka.Lock.{
  Place, idle, want_create, creating, created, leaving, want_topic, inside, Locks, Progress,
  blocked, next, fatal, move, step_at, step, run, start,
}

-- Where the topic has a lock.
abbrev IsQuiet : Place → Type 0
IsQuiet idle = Unit
IsQuiet want_topic = Unit
IsQuiet inside = Unit
IsQuiet _ = ⊥

-- The topic has a lock, no goroutine is about to create one, and one that is inside has it locked,
-- alone.
pub record IsExclusive (s : Locks) : Type 0 where
  pub has_lock : s.present ≡ true
  pub quiet : (g : ℕ) → IsQuiet (s.place g)
  pub locked : (g : ℕ) → s.place g ≡ inside → s.topic_locked ≡ true
  pub alone : (g h : ℕ) → s.place g ≡ inside → s.place h ≡ inside → g ≡ h

abbrev IsSafe : Progress → Type 0
IsSafe blocked = Unit
IsSafe (next s) = IsExclusive s
IsSafe fatal = ⊥

move-cases :
    (g : ℕ) (p : Place) (place : ℕ → Place) (k : ℕ)
    → ((k ≡ g) × (move g p place k ≡ p)) ⊎ ((k ≢ g) × (move g p place k ≡ place k))
move-cases g p place k = elim (Bool-cases (k == g)) [
  | inl e ↦ inl (ground arith, rw e refl)
  | inr e ↦ inr ((λ h. ground arith), rw e refl)
]

-- A goroutine that is inside after another's step, which did not go inside, was inside before.
inside-move :
    (g : ℕ) (p : Place) (place : ℕ → Place) (k : ℕ)
    → (p ≡ inside → ⊥)
    → move g p place k ≡ inside
    → (k ≢ g) × (place k ≡ inside)
inside-move g p place k out h = elim (move-cases g p place k) [
  | inl (e, m) ↦ absurd (out (sym m ∙ h))
  | inr (n, m) ↦ (n, sym m ∙ h)
]

IsQuiet-move :
    (g : ℕ) (p : Place) (place : ℕ → Place)
    → IsQuiet p
    → ((k : ℕ) → IsQuiet (place k))
    → (k : ℕ) → IsQuiet (move g p place k)
IsQuiet-move g p place q qs k = elim (move-cases g p place k) [
  | inl (e, m) ↦ subst IsQuiet (sym m) q
  | inr (n, m) ↦ subst IsQuiet (sym m) (qs k)
]

idle-outside : idle ≡ inside → ⊥
idle-outside e = absurd (subst IsIdle e tt)
  where
    IsIdle : Place → Type 0
    IsIdle inside = ⊥
    IsIdle _ = Unit

want_topic-outside : want_topic ≡ inside → ⊥
want_topic-outside e = cc

IsExclusive-idle : (g : ℕ) (s : Locks) → IsExclusive s → IsSafe (step_at idle g s)
IsExclusive-idle g s i =
    let out : (k : ℕ) → move g want_topic s.place k ≡ inside → s.place k ≡ inside =
      λ k h. (inside-move g want_topic s.place k want_topic-outside h).1 in
    rw i.has_lock (record {
      has_lock = refl;
      quiet = IsQuiet-move g want_topic s.place tt i.quiet;
      locked = λ k h. i.locked k (out k h);
      alone = λ k j h l. i.alone k j (out k h) (out j l);
    })

IsExclusive-inside :
    (g : ℕ) (s : Locks) → IsExclusive s → s.place g ≡ inside → IsSafe (step_at inside g s)
IsExclusive-inside g s i e =
    let none_left : (k : ℕ) → move g idle s.place k ≡ inside → ⊥ = λ k h.
      let (n, there) = inside-move g idle s.place k idle-outside h in n (i.alone k g there e) in
    rw (i.has_lock, i.locked g e)
      (record {
        has_lock = refl;
        quiet = IsQuiet-move g idle s.place tt i.quiet;
        locked = λ k h. absurd (none_left k h);
        alone = λ k j h l. absurd (none_left k h);
      })

IsExclusive-want_topic : (g : ℕ) (s : Locks) → IsExclusive s → IsSafe (step_at want_topic g s)
IsExclusive-want_topic g s i = elim (Bool-cases s.topic_locked) [
  | inl taken ↦ rw taken tt
  | inr free ↦
      let only : (k : ℕ) → move g inside s.place k ≡ inside → k ≡ g = λ k h.
        elim (move-cases g inside s.place k) [
          | inl (e, m) ↦ e
          | inr (n, m) ↦ absurd (true≢false (sym (i.locked k (sym m ∙ h)) ∙ free))
        ] in
      rw free (record {
        has_lock = i.has_lock;
        quiet = IsQuiet-move g inside s.place tt i.quiet;
        locked = λ k h. refl;
        alone = λ k j h l. only k h ∙ sym (only j l);
      })
]

IsSafe-step_at :
    (g : ℕ) (s : Locks) → IsExclusive s → (p : Place) → s.place g ≡ p → IsSafe (step_at p g s)
IsSafe-step_at g s i idle e = IsExclusive-idle g s i
IsSafe-step_at g s i want_topic e = IsExclusive-want_topic g s i
IsSafe-step_at g s i inside e = IsExclusive-inside g s i e
IsSafe-step_at g s i _ e = absurd (subst IsQuiet e (i.quiet g))

IsSafe-continued :
    (gs : List ℕ) (s : Locks) (r : Progress)
    → ((s' : Locks) → IsExclusive s' → IsSafe (run gs s'))
    → IsExclusive s
    → IsSafe r
    → IsSafe (elim r [ blocked ↦ run gs s | next s' ↦ run gs s' | fatal ↦ fatal ])
IsSafe-continued gs s blocked more i h = more s i
IsSafe-continued gs s (next s') more i h = more s' h
IsSafe-continued gs s fatal more i h = h

IsSafe-run : (gs : List ℕ) (s : Locks) → IsExclusive s → IsSafe (run gs s)
unfolding run step
IsSafe-run [] s i = i
IsSafe-run (g ∷ gs) s i =
    IsSafe-continued gs s (step_at (s.place g) g s) (IsSafe-run gs) i
      (IsSafe-step_at g s i (s.place g) refl)

start-IsExclusive : IsExclusive (start true)
start-IsExclusive = record {
  has_lock = refl;
  quiet = λ g. tt;
  locked = λ g h. absurd (idle-outside h);
  alone = λ g k h l. absurd (idle-outside h);
}

-- Where the topic has a lock from the start: whatever the interleaving of any number of goroutines, no
-- mutex is unlocked that is not locked, and no two goroutines are between `lockForTopic` and
-- `unlockForTopic` at once.
pub present_lock_excludes :
    (gs : List ℕ)
    → (run gs (start true) ≡ fatal → ⊥)
      × ((s : Locks)
          → run gs (start true) ≡ next s
          → (g h : ℕ) → s.place g ≡ inside
          → s.place h ≡ inside
          → g ≡ h)
present_lock_excludes gs =
    let safe = IsSafe-run gs (start true) start-IsExclusive in
    ((λ e. subst IsSafe e safe), λ s e g h a b. (subst IsSafe e safe).alone g h a b)

run-next :
    (g : ℕ) (gs : List ℕ) (s s' : Locks) (p : Place)
    → s.place g ≡ p
    → step_at p g s ≡ next s'
    → run (g ∷ gs) s ≡ run gs s'
unfolding run step
run-next g gs s s' p e f =
    let moved : step_at (s.place g) g s ≡ next s' = ap (λ q. step_at q g s) e ∙ f in
    ap (λ r. elim r [ blocked ↦ run gs s | next t ↦ run gs t | fatal ↦ fatal ]) moved

run-fatal :
    (g : ℕ) (gs : List ℕ) (s : Locks) (p : Place)
    → s.place g ≡ p
    → step_at p g s ≡ fatal
    → run (g ∷ gs) s ≡ fatal
unfolding run step
run-fatal g gs s p e f =
    let moved : step_at (s.place g) g s ≡ fatal = ap (λ q. step_at q g s) e ∙ f in
    ap (λ r. elim r [ blocked ↦ run gs s | next t ↦ run gs t | fatal ↦ fatal ]) moved

abbrev locks : Bool → Bool → Bool → (ℕ → Place) → Locks
locks present create_locked topic_locked place = record {
  present = present;
  create_locked = create_locked;
  topic_locked = topic_locked;
  place = place;
}

module _ (i j : ℕ) (other : i ≢ j) where
  abbrev both_wait : ℕ → Place
  both_wait = move j want_create (move i want_create (λ g. idle))

  abbrev first_inside : ℕ → Place
  first_inside = move i inside (move i leaving (move i created (move i creating both_wait)))

  first_goes_in :
      run (i ∷ j ∷ i ∷ i ∷ i ∷ i ∷ j ∷ j ∷ j ∷ []) (start false)
      ≡ run (j ∷ j ∷ j ∷ []) (locks true false true first_inside)
  first_goes_in =
      run-next i _ (start false) (locks false false false (move i want_create (λ g. idle))) idle
        refl refl
      ∙ (run-next j _ (locks false false false (move i want_create (λ g. idle)))
            (locks false false false both_wait) idle (ground arith) refl
          ∙ (run-next i _ (locks false false false both_wait)
                (locks false true false (move i creating both_wait)) want_create (ground arith) refl
              ∙ (run-next i _ (locks false true false (move i creating both_wait))
                    (locks true true false (move i created (move i creating both_wait))) creating
                    (ground arith) refl
                  ∙ (run-next i _
                        (locks true true false (move i created (move i creating both_wait)))
                        (locks true true true
                          (move i leaving (move i created (move i creating both_wait))))
                        created (ground arith) refl
                      ∙ run-next i _
                          (locks true true true
                            (move i leaving (move i created (move i creating both_wait))))
                          (locks true false true first_inside) leaving (ground arith) refl))))

  abbrev second_inside : ℕ → Place
  second_inside = move j inside (move j leaving (move j creating first_inside))

  second_goes_in :
      run (j ∷ j ∷ j ∷ []) (locks true false true first_inside)
      ≡ next (locks true false true second_inside)
  unfolding run
  second_goes_in =
      run-next j (j ∷ j ∷ []) (locks true false true first_inside)
        (locks true true true (move j creating first_inside)) want_create (ground arith) refl
      ∙ (run-next j (j ∷ []) (locks true true true (move j creating first_inside))
            (locks true true true (move j leaving (move j creating first_inside))) creating
            (ground arith) refl
          ∙ run-next j [] (locks true true true (move j leaving (move j creating first_inside)))
              (locks true false true second_inside) leaving (ground arith) refl)

  second_unlocks_free : run (i ∷ j ∷ []) (locks true false true second_inside) ≡ fatal
  second_unlocks_free =
      run-next i (j ∷ []) (locks true false true second_inside)
        (locks true false false (move i idle second_inside)) inside (ground arith) refl
      ∙ run-fatal j [] (locks true false false (move i idle second_inside)) inside (ground arith)
          refl

-- Where the topic has no lock at the start, any two goroutines have an interleaving of their steps after
-- which both are between `lockForTopic` and `unlockForTopic`; if then both unlock, the second ends the
-- program.
pub new_lock_admits_both :
    (i j : ℕ)
    → i ≢ j
    → (gs : List ℕ) × (s : Locks) × (run gs (start false) ≡ next s)
      × (s.place i ≡ inside)
      × (s.place j ≡ inside)
      × (run (i ∷ j ∷ []) s ≡ fatal)
new_lock_admits_both i j other = (
  i ∷ j ∷ i ∷ i ∷ i ∷ i ∷ j ∷ j ∷ j ∷ [],
  locks true false true (second_inside i j other),
  first_goes_in i j other ∙ second_goes_in i j other,
  ground arith,
  ground arith,
  second_unlocks_free i j other,
)
