-- ===== src/Consumer/Indexer/Reliable.antt =====
-- The indexer on Kafka's messages: retries leave no trace, and the last message for an order decides.
use cdc_pipeline.Base.{
  ℕ, ◌*◌, ◌≤◌, String, ◌≡◌, refl, ap, ◌∙◌, ◌⊎◌, inl, inr, true, false, Option, none, some, List, [],
  ◌∷◌, ◌==◌, length, All, Bool-cases, arith,
}
use cdc_pipeline.Json.{Value}
use cdc_pipeline.Http.{is_success}
use cdc_pipeline.Consumer.Change.{Nlohmann, Change, upsert, remove, skip_no_id, ignore, change}
use cdc_pipeline.Consumer.Redis.{Keys, update}
use cdc_pipeline.Consumer.Effects.{Result, has_thrown}
use cdc_pipeline.Consumer.Loop.{Settings, Consumer, accepts, run}
use cdc_pipeline.Consumer.Loop.Progress.{reads_per_round}
use cdc_pipeline.Consumer.Loop.Refines.{IsRepeatable, effects, run-effects}
use cdc_pipeline.Consumer.Inbox.{Message, attempt, delivery, polls}
use cdc_pipeline.Consumer.Indexer.{
  Response, Elastic, Index, report_put, report_delete, doc_url, put, delete, perform,
  process_record,
}

-- What the indexer relies on of Elasticsearch's documents, each under its URL: a PUT that is answered
-- by success has stored its body, a DELETE that is answered by success or by 404 leaves no document,
-- and any other answer means that the request was carried out, or that it was not.
pub record IsElastic (E : Elastic) : Type 0 where
  pub documents : E.State → Keys
  pub put_ok :
      (url body : String) (s : E.State)
      → is_success (E.put url body s).0.status_code ≡ true
      → documents (E.put url body s).1 ≡ update (documents s) url (some body)
  pub put_failed :
      (url body : String) (s : E.State)
      → (documents (E.put url body s).1 ≡ update (documents s) url (some body))
        ⊎ (documents (E.put url body s).1 ≡ documents s)
  pub delete_ok :
      (url : String) (s : E.State)
      → (is_success (E.delete url s).0.status_code ≡ true)
        ⊎ (((E.delete url s).0.status_code == 404) ≡ true)
      → documents (E.delete url s).1 ≡ update (documents s) url none
  pub delete_failed :
      (url : String) (s : E.State)
      → (documents (E.delete url s).1 ≡ update (documents s) url none)
        ⊎ (documents (E.delete url s).1 ≡ documents s)

update_twice :
    (keys : Keys) (k : String) (v : Option String) → update (update keys k v) k v ≡ update keys k v
unfolding update
update_twice keys k v =
    let same : (j : String) → update (update keys k v) k v j ≡ update keys k v j =
      λ j. ground arith in
    λ i j. same j i

-- The reports leave Elasticsearch alone, and throw on any other status.
module _ {S : Type 0} (id : String) (r : Response) (w : Index S) where
  report_put-elastic : (report_put id (r, w)).1.elastic ≡ w.elastic
  unfolding report_put
  report_put-elastic = ground arith

  report_put_throws : is_success r.status_code ≡ false → has_thrown (report_put id (r, w)).0 ≡ true
  unfolding report_put
  report_put_throws h = rw h refl

  report_delete-elastic : (report_delete id (r, w)).1.elastic ≡ w.elastic
  unfolding report_delete
  report_delete-elastic = ground arith

  report_delete_throws :
      is_success r.status_code ≡ false
      → (r.status_code == 404) ≡ false
      → has_thrown (report_delete id (r, w)).0 ≡ true
  unfolding report_delete
  report_delete_throws h k = rw h (rw k refl)

module _ (J : Nlohmann) (E : Elastic) (es_url : String) where
  -- What a change makes of the documents.
  unfoldable pub applied : Change → Keys → Keys
  unfolding update
  applied (upsert id data_) docs = update docs (doc_url J E es_url id) (some (J.dump data_))
  applied (remove id) docs = update docs (doc_url J E es_url id) none
  applied skip_no_id docs = docs
  applied ignore docs = docs

  applied_twice : (c : Change) (docs : Keys) → applied c (applied c docs) ≡ applied c docs
  unfolding applied
  applied_twice (upsert id data_) docs =
      update_twice docs (doc_url J E es_url id) (some (J.dump data_))
  applied_twice (remove id) docs = update_twice docs (doc_url J E es_url id) none
  applied_twice skip_no_id docs = refl
  applied_twice ignore docs = refl

  module _ (I : IsElastic E) where
    abbrev pub documents : Index E.State → Keys
    documents w = I.documents w.elastic

    -- Ran, or failed and left the documents alone.
    abbrev pub RunsOnce : Change → Index E.State → Result × Index E.State → Type 0
    RunsOnce c w r =
        (documents r.1 ≡ applied c (documents w))
        ⊎ ((documents r.1 ≡ documents w) × (has_thrown r.0 ≡ true))

    put-RunsOnce :
        (id : String) (data_ : Value) (w : Index E.State)
        → RunsOnce (upsert id data_) w (report_put id (put J E es_url id data_ w))
    unfolding applied
    put-RunsOnce id data_ w =
        let url = doc_url J E es_url id in
        let (r, w') = put J E es_url id data_ w in
        let same : documents (report_put id (r, w')).1 ≡ I.documents w'.elastic =
          ap I.documents (report_put-elastic id r w') in
        elim (Bool-cases (is_success r.status_code)) [
          | inl good ↦ inl (same ∙ I.put_ok url (J.dump data_) w.elastic good)
          | inr bad ↦ elim (I.put_failed url (J.dump data_) w.elastic) [
            | inl ran ↦ inl (same ∙ ran)
            | inr kept ↦ inr (same ∙ kept, report_put_throws id r w' bad)
          ]
        ]

    delete-RunsOnce :
        (id : String) (w : Index E.State)
        → RunsOnce (remove id) w (report_delete id (delete J E es_url id w))
    unfolding applied
    delete-RunsOnce id w =
        let url = doc_url J E es_url id in
        let (r, w') = delete J E es_url id w in
        let same : documents (report_delete id (r, w')).1 ≡ I.documents w'.elastic =
          ap I.documents (report_delete-elastic id r w') in
        elim (Bool-cases (is_success r.status_code)) [
          | inl good ↦ inl (same ∙ I.delete_ok url w.elastic (inl good))
          | inr bad ↦ elim (Bool-cases (r.status_code == 404)) [
            | inl gone ↦ inl (same ∙ I.delete_ok url w.elastic (inr gone))
            | inr other ↦ elim (I.delete_failed url w.elastic) [
              | inl ran ↦ inl (same ∙ ran)
              | inr kept ↦ inr (same ∙ kept, report_delete_throws id r w' bad other)
            ]
          ]
        ]

    perform-RunsOnce : (c : Change) (w : Index E.State) → RunsOnce c w (perform J E es_url c w)
    unfolding perform applied
    perform-RunsOnce (upsert id data_) w = put-RunsOnce id data_ w
    perform-RunsOnce (remove id) w = delete-RunsOnce id w
    perform-RunsOnce skip_no_id w = inl refl
    perform-RunsOnce ignore w = inl refl

    -- What a message asks of the index.
    abbrev pub change_of : Message (Unit {0}) → Option Value → Change
    change_of m none = ignore
    change_of m (some document) = change J document m.key

    attempt-RunsOnce :
        (m : Message (Unit {0})) (document : Option Value) (n : ℕ) (w : Index E.State)
        → RunsOnce (change_of m document) w (attempt (process_record J E es_url) m document n w)
    unfolding process_record applied
    attempt-RunsOnce m none n w = inl refl
    attempt-RunsOnce m (some document) n w = perform-RunsOnce (change J document m.key) w

    abbrev pub effect : Message (Unit {0}) → Keys → Keys
    effect m = applied (change_of m m.document)

    All-IsRepeatable :
        (ms : List (Message (Unit {0})))
        → All (λ m. m.producer ≡ accepts) ms
        → All (IsRepeatable documents effect (delivery (process_record J E es_url))) ms
    All-IsRepeatable [] fit = tt
    All-IsRepeatable (m ∷ ms) fit = (
      record {
        takes = fit.0;
        once = attempt-RunsOnce m m.document;
        twice = applied_twice (change_of m m.document);
      },
      All-IsRepeatable ms fit.1,
    )

    -- However often Elasticsearch fails, before or after it has carried a request out, and however often
    -- a message is tried again: if the consumer was not stopped and wrote no dead letter, the documents
    -- are as if each message's PUT or DELETE had been made once, in the order of the messages. No
    -- position in the log is compared, so the last message for an order decides.
    pub run_indexes :
        (S : Settings) (ms : List (Message (Unit {0}))) (c : Consumer (Index E.State))
        → All (λ m. m.producer ≡ accepts) ms
        → length ms * reads_per_round S ≤ c.reads
        → (run S (polls (process_record J E es_url) ms) c).letters ≡ c.letters
        → documents (run S (polls (process_record J E es_url) ms) c).sink
          ≡ effects effect ms (documents c.sink)
    run_indexes S ms c fit h none_lettered =
        run-effects documents effect (delivery (process_record J E es_url)) S ms c
          (All-IsRepeatable ms fit) h none_lettered
