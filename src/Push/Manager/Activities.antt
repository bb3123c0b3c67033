-- ===== src/Push/Manager/Activities.antt =====
-- How many goroutines serve a pusher.
use argo_messaging.Base.{
  ℕ, ◌<◌, Text, Error, ◌==◌, nat_eq, text_eq, Bool, Bool-cases, inl, inr, true, false, not, Option,
  Option-cases, none, some, List, [], ◌∷◌, ◌++◌, length, ltb, filter, find_first, In, Distinct,
  if◌then◌else◌, ◌≡◌, refl, ◌∙◌, arith,
}
use argo_messaging.Subscriptions.{Subscription, linear}
use argo_messaging.Push.Pusher.{Pusher, send_stop}
use argo_messaging.Push.Manager.{
  Manager, sent, signalled, get, write, remove, signal, new_pusher, refresh_pusher, launch_pusher,
  added, refreshed, psub, launched, halted,
}

module _ {A : Type 0} (p : A → Bool) where
  In-filter : (a : A) (xs : List A) → In a (filter p xs) → In a xs × (p a ≡ true)
  In-filter a [] = λ i. absurd i
  In-filter a (x ∷ xs) = elim (Bool-cases (p x)) [
    | inl t ↦ rw t (λ i. elim i [
      | inl e ↦ (inl e, rw e t)
      | inr j ↦ let (k, h) = In-filter a xs j in (inr k, h)
    ])
    | inr f ↦ rw f (λ j. let (k, h) = In-filter a xs j in (inr k, h))
  ]

  Distinct-filter : (xs : List A) → Distinct xs → Distinct (filter p xs)
  Distinct-filter [] d = tt
  Distinct-filter (x ∷ xs) d = elim (Bool-cases (p x)) [
    | inl t ↦ rw t ((λ i. d.0 (In-filter x xs i).0), Distinct-filter xs d.1)
    | inr f ↦ rw f (Distinct-filter xs d.1)
  ]

  find_first-In : (a : A) (xs : List A) → find_first p xs ≡ some a → In a xs
  unfolding find_first
  find_first-In a [] = λ e. cc
  find_first-In a (x ∷ xs) = elim (Bool-cases (p x)) [
    | inl t ↦ rw t (λ e. inl cc)
    | inr f ↦ rw f (λ e. inr (find_first-In a xs e))
  ]

-- No pointer is served twice; those that are served point to pushers that run, and those of the map
-- point to pushers.
abbrev pub IsServed : Manager → Type 0
IsServed m =
    Distinct m.active
    × ((r : ℕ) → In r m.active → (r < m.created) × ((m.pushers r).running ≡ true))
    × ((i : Text × ℕ) → In i m.list → i.1 < m.created)

write-running :
    (r : ℕ) (f : Pusher → Pusher) (m : Manager)
    → ((f (m.pushers r)).running ≡ (m.pushers r).running)
    → (i : ℕ) → ((write r f m).pushers i).running ≡ (m.pushers i).running
write-running r f m h i = elim (Bool-cases (i == r)) [
  | inl e ↦ let same : i ≡ r = nat_eq.eq_of_equals i r e in rw (e, same) h
  | inr e ↦ rw e refl
]

pub write-IsServed :
    (r : ℕ) (f : Pusher → Pusher) (m : Manager)
    → ((f (m.pushers r)).running ≡ (m.pushers r).running)
    → IsServed m
    → IsServed (write r f m)
write-IsServed r f m h (d, a, l) = (d, (λ i j. ((a i j).0, write-running r f m h i ∙ (a i j).1)), l)

get-created : (key : Text) (m : Manager) (r : ℕ) → IsServed m → get key m ≡ some r → r < m.created
unfolding get
get-created key m r (d, a, l) e =
    elim (Option-cases (find_first (λ (i : Text × ℕ). i.0 == key) m.list)) [
      | inl n ↦ let e' : none ≡ some r = rw n at e in cc
      | inr (i, f) ↦
          let e' : some i.1 ≡ some r = rw f at e in
          let same : i.1 ≡ r = cc in rw (← same) (l i (find_first-In _ i m.list f))
    ]

pub remove-IsServed :
    (project sub : Text) (m : Manager) → IsServed m → IsServed (remove project sub m).0
unfolding remove
remove-IsServed project sub m (d, a, l) = elim (Option-cases (get (psub project sub) m)) [
  | inl n ↦ rw (n, remove) (d, a, l)
  | inr (r, f) ↦ rw (f, remove) (d, a, λ i j. l i (In-filter _ i m.list j).0)
]

launch_pusher-IsServed :
    (r : ℕ) (m : Manager)
    → r < m.created
    → (m.pushers r).running ≡ false
    → IsServed m
    → IsServed (launch_pusher r m)
unfolding launch_pusher
launch_pusher-IsServed r m there idle (d, a, l) =
    elim (Bool-cases ((m.pushers r).retry_policy == linear)) [
      | inl e ↦ rw e (
        ((λ j. let t = (a r j).1 in cc), d),
        (λ i j. elim j [
          | inl e' ↦ rw e' (there, runs r)
          | inr k ↦
              ((a i k).0, elim (Bool-cases (i == r)) [ inl s ↦ rw s refl | inr s ↦ rw s (a i k).1 ])
        ]),
        l,
      )
      | inr e ↦ rw e (
        d,
        (λ i k.
            ((a i k).0, elim (Bool-cases (i == r)) [ inl s ↦ rw s refl | inr s ↦ rw s (a i k).1 ])),
        l,
      )
    ]
  where
    runs : (i : ℕ) → ((write i (λ p. record p { running = true }) m).pushers i).running ≡ true
    runs i = rw (nat_eq.equals_of_eq i i refl) refl

pub halted-IsServed :
    (r : ℕ) (rest : List ℕ) (m : Manager) → IsServed m → IsServed (halted r rest m)
unfolding halted
halted-IsServed r rest m (d, a, l) = (
  Distinct-filter _ m.active d,
  (λ i j.
      let (k, other) = In-filter (λ n. not (n == r)) i m.active j in
      (
        (a i k).0,
        elim (Bool-cases (i == r)) [
          | inl s ↦ let o : not true ≡ true = rw s at other in cc
          | inr s ↦ rw s (a i k).1
        ],
      )),
  l,
)

pub added-IsServed :
    (project sub : Text) (subs : List Subscription) (e : Error) (m : Manager)
    → IsServed m
    → IsServed (added project sub subs e m).0
unfolding new_pusher
added-IsServed project sub subs (some e) m h = h
added-IsServed project sub [] none m h = h
added-IsServed project sub (found ∷ subs) none m (d, a, l) = (
  d,
  (λ i j.
      let old : i < m.created = (a i j).0 in
      (
        omega arith,
        elim (Bool-cases (i == m.created)) [
          | inl s ↦
              let same : i ≡ m.created = nat_eq.eq_of_equals i m.created s in absurd (omega arith)
          | inr s ↦ rw s (a i j).1
        ],
      )),
  λ i j. elim j [
    | inl e ↦ rw e (omega arith)
    | inr k ↦ let old : i.1 < m.created = l i (In-filter _ i m.list k).0 in omega arith
  ],
)

pub refreshed-IsServed :
    (r : ℕ) (subs : List Subscription) (e : Error) (m : Manager)
    → IsServed m
    → IsServed (refreshed r subs e m).0
refreshed-IsServed r subs (some e) m h = h
refreshed-IsServed r [] none m h = h
refreshed-IsServed r (sub ∷ subs) none m h = write-IsServed r (refresh_pusher sub) m refl h

pub launched-IsServed :
    (key : Text) (m : Manager) → IsServed m → IsServed (launched (get key m) m).0
launched-IsServed key m h = elim (Option-cases (get key m)) [
  | inl n ↦ rw n h
  | inr (r, f) ↦ elim (Bool-cases (m.pushers r).running) [
    | inl b ↦ rw (f, b) h
    | inr b ↦ rw (f, b) (launch_pusher-IsServed r m (get-created key m r h f) b h)
  ]
]

-- `r` is the value of a call that went through.
abbrev pub Through : (Manager → Type 0) → Option (Manager × Error) → Type 0
Through P none = Unit {0}
Through P (some (m, e)) = P m

sent-IsServed :
    (code r : ℕ) (m : Manager)
    → IsServed m
    → Through IsServed (sent r m (send_stop code (m.pushers r)))
unfolding send_stop
sent-IsServed code r m h = elim (Bool-cases (ltb (length (m.pushers r).stop) 2)) [
  | inl b ↦ rw b (
      write-IsServed r (λ _. record (m.pushers r) { stop = (m.pushers r).stop ++ (code ∷ []) }) m
        refl h)
  | inr b ↦ rw b tt
]

Through-if :
    (P : Manager → Type 0) (b : Bool) (x y : Option (Manager × Error))
    → Through P x
    → Through P y
    → Through P (if b then x else y)
Through-if P true x y h k = h
Through-if P false x y h k = k

signalled-IsServed :
    (code : ℕ) (o : Option ℕ) (m : Manager) → IsServed m → Through IsServed (signalled code o m)
signalled-IsServed code none m h = h
signalled-IsServed code (some r) m h =
    Through-if IsServed (m.pushers r).running _ _ (sent-IsServed code r m h) h

pub signal-IsServed :
    (code : ℕ) (project sub : Text) (m : Manager)
    → IsServed m
    → Through IsServed (signal code project sub m)
unfolding signal
signal-IsServed code project sub m h = signalled-IsServed code _ m h
