-- ===== src/Consumer/Key.antt =====
-- The key of a message in `KafkaConsumerBase::Run` of consumers/src/kafka_consumer_base.cpp, and the
-- message that its bytes make.
pub mod Named
mod Tests
use cdc_pipeline.Base.{ℕ, String, Option, none, some, List, [], ◌∷◌, if◌then◌else◌}
use cdc_pipeline.Json.{Value, field?}
use cdc_pipeline.Consumer.Change.{Nlohmann, present, text_of, is_empty}
use cdc_pipeline.Consumer.Loop.{Producer}
use cdc_pipeline.Consumer.Avro.{Libraries, is_framed, deserialize}
use cdc_pipeline.Consumer.Inbox.{Message}

-- What Kafka hands over: the bytes of the key and of the value, where there are any.
pub record Bytes : Type 0 where
  pub offset : ℕ
  pub key : Option (List ℕ)
  pub payload : Option (List ℕ)

module _ (J : Nlohmann) (A : Libraries) where
  -- The key's own identifier, or all of it.
  key_text : Option Value → String
  unfolding field?
  key_text none = ""
  key_text (some key_doc) = elim (present (field? "id" key_doc)) [
    | some v ↦ text_of J v
    | none ↦ elim (present (field? "order_id" key_doc)) [
      | some v ↦ text_of J v
      | none ↦ J.dump key_doc
    ]
  ]

  -- Only a framed key is deserialized.
  avro_key : List ℕ → String
  unfolding key_text deserialize
  avro_key bytes = if is_framed bytes then key_text (deserialize A (some bytes)) else ""

  -- The raw bytes stand in for a key that is still empty.
  unfoldable pub message_key : Option (List ℕ) → String
  unfolding avro_key
  message_key none = ""
  message_key (some []) = ""
  message_key (some (b ∷ bs)) =
      if is_empty (avro_key (b ∷ bs)) then A.raw_text (b ∷ bs) else avro_key (b ∷ bs)

  abbrev raw_of : Option (List ℕ) → String
  raw_of none = ""
  raw_of (some bytes) = A.raw_text bytes

  -- `links` and `producer` are what the outside will do.
  unfoldable pub received : {R : Type 0} → Bytes → (ℕ → R) → Producer → Message R
  unfolding message_key deserialize
  received m links producer = record {
    offset = m.offset;
    raw = raw_of m.payload;
    key = message_key m.key;
    document = deserialize A m.payload;
    links = links;
    producer = producer;
  }
