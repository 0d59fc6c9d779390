-- ===== src/Consumer/Notifier/Mails.antt =====
-- The notifier's mails: at most one for an order and a status while the idempotency key lives.
use cdc_pipeline.Base.{
  ℕ, ◌+◌, ◌≤◌, String, ◌≡◌, refl, ap, sym, ◌∙◌, Bool, true, false, ◌&&◌, Option, none, some, List,
  [], ◌∷◌, ◌++◌, &&-true, str_eq, str_eq_refl, str_eq_iff, Option-cases, Bool-cases, inl, inr, ◌⊎◌,
  if◌then◌else◌, arith,
}
use cdc_pipeline.Json.{Value}
use cdc_pipeline.Consumer.Change.{Nlohmann, order_id, order_source, unwrap, is_empty}
use cdc_pipeline.Consumer.Redis.{Keys, update}
use cdc_pipeline.Consumer.Updater.{value}
use cdc_pipeline.Consumer.Effects.{
  Log, email_notification_sent, email_notification_skipped_duplicate, Link, up, refused, silent,
  rejected, Sink, write_log, Answer, answered, failed, command,
}
use cdc_pipeline.Consumer.Loop.{Settings, Consumer, is_running, read, handle, receive, rounds, run}
use cdc_pipeline.Consumer.Loop.Once.{handle-keeps}
use cdc_pipeline.Consumer.Inbox.{Message, attempt, delivery, polls}
use cdc_pipeline.Consumer.Notifier.{
  idempotency_key, set_nx, customer_id, announces, dispatch, notify, process_order, process_record,
}

Answer-cases :
    {A : Type 0} (r : Answer A) → ((why : String) × (r ≡ failed why)) ⊎ ((a : A) × (r ≡ answered a))
Answer-cases (failed why) = inl (why, refl)
Answer-cases (answered a) = inr (a, refl)

-- The mails in the log for an order and a status.
pub is_mail : String → String → Log → ℕ
is_mail id status (email_notification_sent c i s) = if str_eq i id && str_eq s status then 1 else 0
is_mail id status l = 0

unfoldable pub mails : String → String → List Log → ℕ
unfolding is_mail
mails id status [] = 0
mails id status (l ∷ ls) = is_mail id status l + mails id status ls

mails-append :
    (id status : String) (ls : List Log) (l : Log)
    → mails id status (ls ++ l ∷ []) ≡ mails id status ls + is_mail id status l
unfolding mails
mails-append id status [] l = omega arith
mails-append id status (k ∷ ls) l = omega (arith, mails-append id status ls l)

-- At most one mail, and none before the idempotency key is set.
pub record AtMostOnce (id status : String) (w : Sink) : Type 0 where
  pub once : mails id status w.log ≤ 1
  pub key_first : w.keys (idempotency_key id status) ≡ none → mails id status w.log ≡ 0

-- `SET NX` answers true only where the key was not set, and then sets it; no key is unset.
set_nx_lem :
    (key j : String) (keys : Keys)
    → (((set_nx key keys).1 j ≡ none) → keys j ≡ none)
      × (((set_nx key keys).0 ≡ true) → (keys key ≡ none) × ((set_nx key keys).1 key ≡ some "1"))
unfolding set_nx update
set_nx_lem key j keys = elim (Option-cases (keys key)) [
  | inl e ↦ rw (e, set_nx) (λ h. ground arith, λ h. (refl, rw (str_eq_refl key) refl))
  | inr (v, e) ↦ rw (e, set_nx) (λ h. h, λ h. cc)
]

-- What the command leaves of the sink.
module _ (p q key j : String) where
  abbrev Sets : Sink → Answer Bool × Sink → Type 0
  Sets w r =
      (r.1.log ≡ w.log)
      × ((r.1.keys j ≡ none) → w.keys j ≡ none)
      × ((r.0 ≡ answered true) → (w.keys key ≡ none) × (r.1.keys key ≡ some "1"))

  command-Sets : (link : Link) (w : Sink) → Sets w (command p q (set_nx key) link w)
  unfolding command
  command-Sets up w = let (kept, new) = set_nx_lem key j w.keys in (refl, kept, λ h. new (cc h))
  command-Sets (refused why) w = elim (Bool-cases w.connected) [
    | inl there ↦
        let (kept, new) = set_nx_lem key j w.keys in rw there (refl, kept, λ h. new (cc h))
    | inr none_there ↦ rw none_there (refl, λ h. h, λ h. cc)
  ]
  command-Sets (silent true) w = (refl, (set_nx_lem key j w.keys).0, λ h. cc)
  command-Sets (silent false) w = (refl, λ h. h, λ h. cc)
  command-Sets (rejected why) w = (refl, λ h. h, λ h. cc)

module _ (J : Nlohmann) (id status : String) where
  -- A line that is no mail for the order and the status changes nothing.
  write_log-AtMostOnce :
      (l : Log) (w d : Sink)
      → AtMostOnce id status w
      → d.log ≡ w.log
      → (d.keys (idempotency_key id status) ≡ none → w.keys (idempotency_key id status) ≡ none)
      → is_mail id status l ≡ 0
      → AtMostOnce id status (write_log l d)
  write_log-AtMostOnce l w d inv log kept no_mail =
      let e : mails id status (d.log ++ l ∷ []) ≡ mails id status w.log =
        mails-append id status d.log l
        ∙ (ap (λ (n : ℕ). mails id status d.log + n) no_mail ∙ ap (λ t. mails id status t + 0) log)
        ∙ omega arith in
      record { once = omega (arith, e, inv.once); key_first = λ h. e ∙ inv.key_first (kept h) }

  sent-AtMostOnce :
      (customer : String) (w d : Sink)
      → AtMostOnce id status w
      → d.log ≡ w.log
      → w.keys (idempotency_key id status) ≡ none
      → d.keys (idempotency_key id status) ≡ some "1"
      → AtMostOnce id status (write_log (email_notification_sent customer id status) d)
  unfolding is_mail
  sent-AtMostOnce customer w d inv log fresh set =
      let l = email_notification_sent customer id status in
      let one : is_mail id status l ≡ 1 = rw (str_eq_refl id, str_eq_refl status) refl in
      let e : mails id status (d.log ++ l ∷ []) ≡ mails id status w.log + is_mail id status l =
        mails-append id status d.log l ∙ ap (λ t. mails id status t + is_mail id status l) log in
      record { once = omega (arith, e, inv.key_first fresh, one); key_first = λ h. cc }

  dispatch-AtMostOnce :
      (customer i s : String) (w : Sink) (r : Answer Bool × Sink)
      → AtMostOnce id status w
      → Sets "" "" (idempotency_key i s) (idempotency_key id status) w r
      → AtMostOnce id status (dispatch J customer i s r).1
  unfolding dispatch is_mail
  dispatch-AtMostOnce customer i s w (failed why, d) inv (log, kept, new) = record {
    once = rw log inv.once;
    key_first = λ h. rw log (inv.key_first (kept h));
  }
  dispatch-AtMostOnce customer i s w (answered false, d) inv (log, kept, new) =
      write_log-AtMostOnce (email_notification_skipped_duplicate i s) w d inv log kept refl
  dispatch-AtMostOnce customer i s w (answered true, d) inv (log, kept, new) =
      elim (Bool-cases (str_eq i id && str_eq s status)) [
        | inl both ↦
            let (same_id, same_status) = &&-true (str_eq i id) (str_eq s status) both in
            let p : i ≡ id = (str_eq_iff i id).0 same_id in
            let q : s ≡ status = (str_eq_iff s status).0 same_status in
            let (fresh, set) = new refl in
            let k : idempotency_key i s ≡ idempotency_key id status = cc in
            rw (p, q)
              (sent-AtMostOnce customer w d inv log (ap w.keys (sym k) ∙ fresh)
                (ap d.keys (sym k) ∙ set))
        | inr other ↦
            write_log-AtMostOnce (email_notification_sent customer i s) w d inv log kept
              (rw other refl)
      ]

  notify-AtMostOnce :
      (link : Link) (customer i s : String) (w : Sink)
      → AtMostOnce id status w
      → AtMostOnce id status (notify J link customer i s w).1
  unfolding notify
  notify-AtMostOnce link customer i s w inv =
      dispatch-AtMostOnce customer i s w
        (command "Notifier failed to connect to Redis: " "Notifier Redis command failed: "
          (set_nx (idempotency_key i s)) link w)
        inv
        (command-Sets "Notifier failed to connect to Redis: " "Notifier Redis command failed: "
          (idempotency_key i s) (idempotency_key id status) link w)

  process_order-AtMostOnce :
      (link : Link) (data_ : Value) (key : String) (w : Sink)
      → AtMostOnce id status w
      → AtMostOnce id status (process_order J link data_ key w).1
  unfolding process_order
  process_order-AtMostOnce link data_ key w inv =
      let i = order_id J data_ key in
      elim (Bool-cases (is_empty i)) [
        | inl empty ↦ rw empty inv
        | inr there ↦ elim (Answer-cases (value J data_ "status" "")) [
          | inl (why, e) ↦ rw there (rw (e, process_order) inv)
          | inr (s, e) ↦ elim (Bool-cases (announces J s)) [
            | inl shipped ↦
                rw (there, e) (rw shipped (notify-AtMostOnce link (customer_id J data_) i s w inv))
            | inr silent_status ↦ rw (there, e) (rw silent_status inv)
          ]
        ]
      ]

  pub process_record-AtMostOnce :
      (link : Link) (record_ : Value) (key : String) (w : Sink)
      → AtMostOnce id status w
      → AtMostOnce id status (process_record J link record_ key w).1
  unfolding process_record
  process_record-AtMostOnce link record_ key w inv = elim (Option-cases (order_source record_)) [
    | inl e ↦ rw (e, process_record) inv
    | inr (v, e) ↦ rw (e, process_record) (process_order-AtMostOnce link (unwrap v) key w inv)
  ]

  attempt-AtMostOnce :
      (m : Message Link) (document : Option Value) (n : ℕ) (w : Sink)
      → AtMostOnce id status w
      → AtMostOnce id status (attempt (process_record J) m document n w).1
  attempt-AtMostOnce m none n w inv = inv
  attempt-AtMostOnce m (some document) n w inv =
      process_record-AtMostOnce (m.links n) document m.key w inv

  rounds-AtMostOnce :
      (S : Settings) (ms : List (Message Link)) (c : Consumer Sink)
      → AtMostOnce id status c.sink
      → AtMostOnce id status (rounds S (polls (process_record J) ms) c).sink
  unfolding rounds receive
  rounds-AtMostOnce S [] c inv = inv
  rounds-AtMostOnce S (m ∷ ms) c inv =
      let d = handle S (delivery (process_record J) m) (read c) in
      let kept : AtMostOnce id status d.sink =
        handle-keeps S (delivery (process_record J) m) (λ w. AtMostOnce id status w)
          (λ n w p. attempt-AtMostOnce m m.document n w p) (read c) inv in
      elim (Bool-cases (is_running c)) [
        | inl running ↦ elim (Option-cases d.crashed) [
          | inl fine ↦ rw (running, rounds) (rw fine (rounds-AtMostOnce S ms d kept))
          | inr (why, crash) ↦ rw (running, rounds) (rw crash kept)
        ]
        | inr halted ↦ rw (halted, rounds) inv
      ]

  -- Whatever messages arrive, in whatever order and however often, and whatever Redis answers in each
  -- attempt: for an order and a status the notifier sends at most one mail, and none where the
  -- idempotency key is not set afterwards, if that held before. Keys do not expire here.
  pub run-AtMostOnce :
      (S : Settings) (ms : List (Message Link)) (c : Consumer Sink)
      → AtMostOnce id status c.sink
      → AtMostOnce id status (run S (polls (process_record J) ms) c).sink
  unfolding run
  run-AtMostOnce S ms c inv = rounds-AtMostOnce S ms (record c { crashed = none }) inv
