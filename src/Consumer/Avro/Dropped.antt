-- ===== src/Consumer/Avro/Dropped.antt =====
-- What becomes of payloads that make no document.
use cdc_pipeline.Base.{
  ℕ, ◌<◌, String, ◌≡◌, refl, ap, ◌∙◌, true, Option, none, some, List, [], ◌∷◌, ◌++◌,
}
use cdc_pipeline.Json.{null, field?}
use cdc_pipeline.Consumer.Change.{Nlohmann, change, order_source, deleted_source}
use cdc_pipeline.Consumer.Redis.{Lua}
use cdc_pipeline.Consumer.Effects.{done, Link, Sink}
use cdc_pipeline.Consumer.Updater.{process_record}
use cdc_pipeline.Consumer.Loop.{Settings, Consumer, handle}
use cdc_pipeline.Consumer.Loop.First.{handle_first}
use cdc_pipeline.Consumer.Inbox.{Message, attempt, delivery}
use cdc_pipeline.Consumer.Avro.{
  Libraries, is_framed, parsed_or_null, from_avro, from_json, deserialize,
}

-- The messages whose document comes from the payload.
abbrev pub Carries : Libraries → Option (List ℕ) → Message Link → Type 0
Carries A payload m = m.document ≡ deserialize A payload

module _ (J : Nlohmann) (L : Lua) where
  -- A null document is none of the consumer's concern.
  process_record_null :
      (link : Link) (key : String) (w : Sink) → process_record J L link null key w ≡ (done, w)
  unfolding process_record change order_source deleted_source field?
  process_record_null link key w = refl

module _ (J : Nlohmann) (L : Lua) (A : Libraries) (S : Settings) (m : Message Link)
    (c : Consumer Sink) where
  abbrev handled : Consumer Sink
  handled = handle S (delivery (process_record J L) m) c

  deserialize_unparsed :
      (bytes : List ℕ) (v : A.Avro) (text : String)
      → is_framed bytes ≡ true
      → A.deserialize_avro bytes ≡ some v
      → A.to_json v ≡ some text
      → A.parse text ≡ none
      → deserialize A (some bytes) ≡ some null
  unfolding deserialize
  deserialize_unparsed [] v text f a j p = cc
  deserialize_unparsed (b ∷ bs) v text f a j p =
      rw f (ap (from_avro A) a ∙ (ap (from_json A) j ∙ ap (λ d. some (parsed_or_null A d)) p))

  attempt_null :
      m.document ≡ some null → (delivery (process_record J L) m).attempt 1 c.sink ≡ (done, c.sink)
  attempt_null there =
      ap (λ d. attempt (process_record J L) m d 1 c.sink) there
      ∙ process_record_null J L (m.links 1) m.key c.sink

  -- An Avro value whose JSON text does not parse is not a dead letter: the consumer takes it for a null
  -- document, does nothing with it, and commits its offset.
  pub handle_drops :
      (bytes : List ℕ) (v : A.Avro) (text : String)
      → Carries A (some bytes) m
      → is_framed bytes ≡ true
      → A.deserialize_avro bytes ≡ some v
      → A.to_json v ≡ some text
      → A.parse text ≡ none
      → 0 < S.max_retries
      → 0 < c.reads
      → (handled.committed ≡ c.committed ++ m.offset ∷ [])
        × (handled.letters ≡ c.letters)
        × (handled.sink ≡ c.sink)
  handle_drops bytes v text carries f a j p tries reads =
      let there : m.document ≡ some null = carries ∙ deserialize_unparsed bytes v text f a j p in
      let first = attempt_null there in
      let e =
        handle_first S (delivery (process_record J L) m) c null there (ap (λ r. r.0) first) tries
          reads in
      (ap (λ d. d.committed) e, ap (λ d. d.letters) e, ap (λ d. d.sink) e ∙ ap (λ r. r.1) first)
