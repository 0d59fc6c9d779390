-- ===== src/Consumer/Inbox.antt =====
-- Messages on their way to `ProcessRecord` of one of the consumers: the call in the retry loop
-- of consumers/src/kafka_consumer_base.cpp.
use cdc_pipeline.Base.{ℕ, String, Option, none, some, List}
use cdc_pipeline.Json.{Value}
use cdc_pipeline.Consumer.Effects.{Result, done}
use cdc_pipeline.Consumer.Loop.Refines.{deliveries}
use cdc_pipeline.Consumer.Loop.{Delivery, Producer, Poll}

-- A message, what the outside will do (`R`) in each attempt to process it, and what the dead letter producer
-- will say.
pub record Message (R : Type 0) : Type 0 where
  pub offset : ℕ
  pub raw : String
  pub key : String
  pub document : Option Value
  pub links : ℕ → R
  pub producer : Producer

module _ {R W : Type 0} (process : R → Value → String → W → Result × W) where
  abbrev pub attempt : Message R → Option Value → ℕ → W → Result × W
  attempt m none n w = (done, w)
  attempt m (some document) n w = process (m.links n) document m.key w

  -- `ProcessRecord(*doc_opt, key, msg->offset())`, in each attempt.
  abbrev pub delivery : Message R → Delivery W
  delivery m = record {
    offset = m.offset;
    raw = m.raw;
    document = m.document;
    attempt = attempt m m.document;
    producer = m.producer;
  }

  abbrev pub polls : List (Message R) → List (Poll W)
  polls = deliveries delivery
