-- ===== src/Handlers/Pull/Acknowledgement.antt =====
-- What `SubPull` hands out, and what `SubAck` makes of it.
use argo_messaging.Base.{
  ℕ, suc, ◌+◌, ◌<◌, ◌^◌, Text, text, text_eq, ◌==◌, ok, All-In, true, not, Option, none, some, List,
  [], ◌∷◌, length, ◌≡◌, refl, sym, ◌∙◌, ap, arith,
}
use argo_messaging.Base.Int.{ℤ, pos, add64}
use argo_messaging.Validation.{valid_name}
use argo_messaging.Stores.Models.{Time}
use argo_messaging.Stores.Times.{Zulu}
use argo_messaging.Stores.Interface.{Store}
use argo_messaging.Brokers.{Broker}
use argo_messaging.Schemas.{Lang}
use argo_messaging.Topics
use argo_messaging.Messages.{Message, RecMsg}
use argo_messaging.Subscriptions.{Subscription, PaginatedSubscriptions}
use argo_messaging.Subscriptions.Operations.{find}
use argo_messaging.Subscriptions.AckId.{ack_prefix, ack_id}
use argo_messaging.Subscriptions.AckId.RoundTrip.{ack_id_round_trip}
use argo_messaging.Subscriptions.AckId.Maximum.{OffsetAtMost}
use argo_messaging.Handlers.{parsed, Outcome, done}
use argo_messaging.Handlers.Ack.{Target, sub_ack, acknowledged}
use argo_messaging.Handlers.Ack.Maximum.{sub_ack_maximum}
use argo_messaging.Handlers.Offsets.{broker_topic}
use argo_messaging.Handlers.Pull.Ids.{
  ids_from, ids_of, sum64, received-length, received_ids, all_valid, offset_within, last-In,
}
use argo_messaging.Handlers.Pull.{
  received, Json, Context, PullOptions, refusal, consumed, max_messages, limit_of, count_metrics,
  with_messages, handed_out, sub_pull,
}

-- `SubAck` on the ids of all messages from an offset on asks the store for the offset after them.
acknowledges_all :
    {S : Type 0} (z : Zulu) (store : Store S) (now : Time) (t : Target)
    → valid_name t.project ≡ true
    → valid_name t.subscription ≡ true
    → (load : Text → Option Message) (limit : ℤ) (msgs : List Text) (o : ℕ) (r : RecMsg)
      (rs : List RecMsg)
    → o + length msgs < 2 ^ 63
    → received load (ack_prefix t.project t.subscription) (pos o) limit (pos 0) msgs ≡ some (r ∷ rs)
    → (s s' : S) (sub : Subscription) (subs : List Subscription) (page : PaginatedSubscriptions)
    → find z store t.project_uuid [] t.subscription [] (pos 0) s ≡ (s', (page, none))
    → page.subscriptions ≡ sub ∷ subs
    → sub_ack z store now t (parsed (some (ids_of (r ∷ rs)))) s
      ≡ acknowledged (
          store.update_sub_offset_ack t.project_uuid t.subscription
            (add64 (pos (length (r ∷ rs))) (pos o))
            (z.format now)
            s')
acknowledges_all {S = S} z store now t p q load limit msgs o r rs fits run s s' sub subs page e1
      e2 =
    let n = length rs in
    let ids : ids_of (r ∷ rs) ≡ ids_from t.project t.subscription o (suc n) =
      received_ids load t.project t.subscription limit msgs o 0 (r ∷ rs) (omega arith) run
      ∙ ap (λ k. ids_from t.project t.subscription k (suc n)) (omega arith) in
    let small : o + suc n < 2 ^ 63 = omega (
      arith,
      received-length load t.project t.subscription limit msgs (pos o) (pos 0) (r ∷ rs) run,
    ) in
    let trip = ack_id_round_trip t.project t.subscription (pos (o + n)) p q (ground arith) in
    let (k, most, (m, i, e), answer) =
      sub_ack_maximum z store now t (ids_from t.project t.subscription o (suc n)) s s' sub subs page
        e1 e2 (all_valid t.project t.subscription p q o (suc n) small)
        (ack_id t.project t.subscription (pos (o + n))) (o + n)
        (last-In t.project t.subscription p q (o + n) o n refl) trip.1 in
    let (k', e', le) =
      All-In (OffsetAtMost k) (ack_id t.project t.subscription (pos (o + n)))
        (ids_from t.project t.subscription o (suc n))
        (last-In t.project t.subscription p q (o + n) o n refl) most in
    let ge = offset_within t.project t.subscription p q m k o (suc n) small i e in
    let same : ok (pos (o + n)) ≡ ok k' = sym trip.1 ∙ e' in
    let top : k ≡ pos (o + n) = ground arith in
    rw ids (
      answer
      ∙ ap next (
          rw (top, sum64 (o + n) 1 (omega arith), sum64 (suc n) o (omega arith))
            (ap pos (omega arith))))
  where
    next : ℤ → S × Outcome Text
    next j =
        acknowledged (store.update_sub_offset_ack t.project_uuid t.subscription j (z.format now) s')

abbrev pub target_of : Context → Target
target_of c = record {
  project_uuid = c.project_uuid;
  project = c.url_project;
  subscription = c.url_sub;
}

module _ {Raw S B : Type 0} (z : Zulu) (lang : Lang Raw) (json : Json) (store : Store S)
    (brk : Broker B) (c : Context) where
  -- The messages that are handed out.
  with_messages-hands_out :
      (p : PullOptions) (o : ℤ) (msgs : List Text) (recs : List RecMsg) (out : Text) (s : S) (b : B)
      (sub : Subscription)
      → received json.load_msg (ack_prefix c.url_project c.url_sub) o (limit_of p) (pos 0) msgs
        ≡ some recs
      → json.export_list recs ≡ some out
      → with_messages z lang json store brk c p sub ((s, b), (o, (msgs, none)))
        ≡ handed_out z lang json store brk c sub o recs
            (some out)
            (count_metrics z lang json store brk c sub (pos (length msgs)) recs s, b)
  with_messages-hands_out p o msgs recs out s b sub e6 e7 = rw (with_messages, e6, e7) refl

  -- `SubPull` where nothing fails.
  sub_pull-hands_out :
      (p : PullOptions) (o : ℕ) (msgs : List Text) (recs : List RecMsg) (out : Text)
      (s s1 s2 s3 : S) (b b' : B) (page : PaginatedSubscriptions) (sub : Subscription)
      (subs : List Subscription)
      → find z store c.project_uuid [] c.url_sub [] (pos 0) s ≡ (s1, (page, none))
      → page.subscriptions ≡ sub ∷ subs
      → refusal z lang json store brk c sub s1 ≡ none
      → Topics.has_topic z lang store c.project_uuid sub.topic s1 ≡ (s2, true)
      → consumed z lang json store brk c
          (broker_topic sub.project_uuid sub.topic)
          (not (p.ret_imm == text "false"))
          (max_messages p)
          sub
          (s2, b)
        ≡ ((s3, b'), (pos o, (msgs, none)))
      → received json.load_msg
          (ack_prefix c.url_project c.url_sub)
          (pos o)
          (limit_of p)
          (pos 0)
          msgs
        ≡ some recs
      → json.export_list recs ≡ some out
      → sub_pull z lang json store brk c (parsed p) (s, b) ≡ (
        (
          (store.update_sub_pull sub.project_uuid sub.name
              (add64 (pos (length recs)) (pos o))
              (z.format c.pull_time)
              (count_metrics z lang json store brk c sub (pos (length msgs)) recs s3)).0,
          b',
        ),
        done out,
      )
  unfolding sub_pull
  sub_pull-hands_out p o msgs recs out s s1 s2 s3 b b' page sub subs e1 e2 e3 e4 e5 e6 e7 =
      rw (e1, e2, e3, e4, e5) (with_messages-hands_out p (pos o) msgs recs out s3 b' sub e6 e7)

  -- `SubPull` and then `SubAck`, where the project and the subscription have valid names. If the
  -- subscription is found, the request may read it, its topic exists, messages are consumed from the
  -- offset `o` on, none of them ends the loop with an error, at least one is handed out, and all are
  -- exported as JSON, then `SubPull` answers with them, after the store has counted them and has noted
  -- the offset after the last of them. And in every later state in which the subscription is found,
  -- `SubAck` on the ids of all of them asks the store for that very offset.
  pub pull_then_ack :
      valid_name c.url_project ≡ true
      → valid_name c.url_sub ≡ true
      → (p : PullOptions) (o : ℕ) (msgs : List Text) (r : RecMsg) (rs : List RecMsg) (out : Text)
        (s s1 s2 s3 : S) (b b' : B) (page : PaginatedSubscriptions) (sub : Subscription)
        (subs : List Subscription)
      → o + length msgs < 2 ^ 63
      → find z store c.project_uuid [] c.url_sub [] (pos 0) s ≡ (s1, (page, none))
      → page.subscriptions ≡ sub ∷ subs
      → refusal z lang json store brk c sub s1 ≡ none
      → Topics.has_topic z lang store c.project_uuid sub.topic s1 ≡ (s2, true)
      → consumed z lang json store brk c
          (broker_topic sub.project_uuid sub.topic)
          (not (p.ret_imm == text "false"))
          (max_messages p)
          sub
          (s2, b)
        ≡ ((s3, b'), (pos o, (msgs, none)))
      → received json.load_msg
          (ack_prefix c.url_project c.url_sub)
          (pos o)
          (limit_of p)
          (pos 0)
          msgs
        ≡ some (r ∷ rs)
      → json.export_list (r ∷ rs) ≡ some out
      → (now : Time) (t t' : S) (page' : PaginatedSubscriptions) (sub' : Subscription)
        (subs' : List Subscription)
      → find z store c.project_uuid [] c.url_sub [] (pos 0) t ≡ (t', (page', none))
      → page'.subscriptions ≡ sub' ∷ subs'
      → let next = pos (o + length (r ∷ rs)) in
        let counted = count_metrics z lang json store brk c sub (pos (length msgs)) (r ∷ rs) s3 in
        (sub_pull z lang json store brk c (parsed p) (s, b) ≡ (
          (
            (store.update_sub_pull sub.project_uuid sub.name next (z.format c.pull_time) counted).0,
            b',
          ),
          done out,
        ))
        × (sub_ack z store now (target_of c) (parsed (some (ids_of (r ∷ rs)))) t
            ≡ acknowledged
                (store.update_sub_offset_ack c.project_uuid c.url_sub next (z.format now) t'))
  pull_then_ack v w p o msgs r rs out s s1 s2 s3 b b' page sub subs fits e1 e2 e3 e4 e5 e6 e7 now t
        t' page' sub' subs' f1 f2 =
      let small : length (r ∷ rs) + o < 2 ^ 63 = omega (
        arith,
        received-length json.load_msg c.url_project c.url_sub (limit_of p) msgs (pos o) (pos 0)
            (r ∷ rs) e6,
      ) in
      let sum : add64 (pos (length (r ∷ rs))) (pos o) ≡ pos (o + length (r ∷ rs)) =
        sum64 (length (r ∷ rs)) o small ∙ ap pos (omega arith) in
      (
        rw (← sum) (
            sub_pull-hands_out p o msgs (r ∷ rs) out s s1 s2 s3 b b' page sub subs e1 e2 e3 e4 e5 e6
              e7),
        rw (← sum) (
            acknowledges_all z store now (target_of c) v w json.load_msg (limit_of p) msgs o r rs
              fits e6 t t' sub' subs' page' f1 f2),
      )
