-- ===== src/Stores/Mock/Subs/Acknowledgement.antt =====
-- When the store in memory accepts an acknowledgement after a pull.
use argo_messaging.Base.{
  ℕ, suc, ◌*◌, ◌/◌, ◌<◌, Text, text_eq, is_nil, ◌==◌, Bool, ◌&&◌, not, Option, none, some, List, [],
  ◌∷◌, ◌≡◌, refl, if◌then◌else◌, arith, Bool-cases, inl, inr, modify_first,
}
use argo_messaging.Base.Int.{ℤ, pos, int_eq, leb_ℤ}
use argo_messaging.Stores.Models.{QSub, Time}
use argo_messaging.Stores.Times.{Zulu, second, year_10000, elapsed_seconds}
use argo_messaging.Stores.Mock.State.{Mock}
use argo_messaging.Stores.Mock.Subs.{
  is_sub, update_sub_pull, update_sub_offset_ack, find_last, ack_error,
}

-- The number of subscriptions that pass a test.
unfoldable pub count : (QSub → Bool) → List QSub → ℕ
count p [] = 0
count p (s ∷ ss) = if p s then suc (count p ss) else count p ss

find_last_of_none :
    (p : QSub → Bool) (found : Option QSub) (ss : List QSub)
    → count p ss ≡ 0
    → find_last p found ss ≡ found
unfolding find_last count
find_last_of_none p found [] h = refl
find_last_of_none p found (s ∷ ss) h = ground (arith, find_last_of_none p found ss)

find_last-modify_first :
    (p : QSub → Bool) (f : QSub → QSub)
    → ((s : QSub) → p (f s) ≡ p s)
    → (ss : List QSub) → count p ss ≡ 1
    → (s : QSub) × (ss' : List QSub) × (find_last p none ss ≡ some s)
      × (modify_first p f ss ≡ some ss')
      × (find_last p none ss' ≡ some (f s))
unfolding find_last count modify_first
find_last-modify_first p f keep [] h = absurd (omega arith)
find_last-modify_first p f keep (s ∷ ss) h = elim (Bool-cases (p s)) [
  | inl e ↦
      let rest : count p ss ≡ 0 = ground arith in
      (
        s,
        f s ∷ ss,
        rw e (find_last_of_none p (some s) ss rest),
        rw e refl,
        rw (keep s, e) (find_last_of_none p (some (f s)) ss rest),
      )
  | inr e ↦
      let (t, ss', a, b, c) = find_last-modify_first p f keep ss (ground arith) in
      (t, s ∷ ss', rw e a, rw (e, b) refl, rw e c)
]

module _ (z : Zulu) (project_uuid name : Text) where
  -- What `UpdateSubPull` writes.
  abbrev pulled : ℤ → Text → QSub → QSub
  pulled offset ts s = record s { next_offset = offset; pending_ack = ts }

  keeps :
      (offset : ℤ) (ts : Text) (s : QSub)
      → is_sub project_uuid name (pulled offset ts s) ≡ is_sub project_uuid name s
  unfolding is_sub
  keeps offset ts s = refl

  -- Where the store has one subscription of that name and project: after a pull at `t0` that notes the
  -- offset `o`, an acknowledgement of `k` at `t1` is accepted exactly if `o` is not 0, `k` is between the
  -- subscription's offset and `o`, and the two times, in whole seconds, are no further apart than its
  -- deadline. The times are before the year 10000.
  pub pull_then_update_sub_offset_ack :
      (mk : Mock)
      → count (is_sub project_uuid name) mk.sub_list ≡ 1
      → (o k : ℤ) (t0 t1 : Time) → t0 < year_10000
      → t1 < year_10000
      → (s : QSub) × (find_last (is_sub project_uuid name) none mk.sub_list ≡ some s)
        × (is_nil
              (update_sub_offset_ack z project_uuid name k
                (z.format t1)
                (update_sub_pull project_uuid name o (z.format t0) mk).0).1
            ≡ (not (o == pos 0)
                && leb_ℤ s.offset k
                && leb_ℤ k o
                && leb_ℤ (elapsed_seconds (t1 / second * second) (t0 / second * second)) s.ack))
  unfolding update_sub_pull update_sub_offset_ack ack_error
  pull_then_update_sub_offset_ack mk one o k t0 t1 early0 early1 =
      let (s, ss', a, b, c) =
        find_last-modify_first (is_sub project_uuid name) (pulled o (z.format t0))
          (keeps o (z.format t0)) mk.sub_list one in
      (s, a, rw b (rw c (rw (z.parse-format t0 early0, z.parse-format t1 early1) (ground arith))))
