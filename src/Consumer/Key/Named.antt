-- ===== src/Consumer/Key/Named.antt =====
-- A message with a key is never left without an order's identifier.
use cdc_pipeline.Base.{ℕ, String, ◌≡◌, ap, ◌∙◌, arith, false, none, some, List, ◌∷◌}
use cdc_pipeline.Json.{Value}
use cdc_pipeline.Consumer.Change.{
  Nlohmann, Change, upsert, remove, skip_no_id, ignore, is_empty, order_source, deleted_source,
  order_id, upsert_of, remove_of, change,
}
use cdc_pipeline.Consumer.Avro.{Libraries}
use cdc_pipeline.Consumer.Loop.{Producer}
use cdc_pipeline.Consumer.Key.{Bytes, message_key, received}

-- Bytes, where there are any, make a text that is not empty.
abbrev pub KeepsBytes : Libraries → Type 0
KeepsBytes A = (b : ℕ) (bs : List ℕ) → is_empty (A.raw_text (b ∷ bs)) ≡ false

-- A change of an order with an identifier; nothing is asked only where the record has no row and no deleted row.
abbrev pub Identified : Value → Change → Type 0
Identified record_ (upsert id data_) = is_empty id ≡ false
Identified record_ (remove id) = is_empty id ≡ false
Identified record_ skip_no_id = ⊥
Identified record_ ignore = (order_source record_ ≡ none) × (deleted_source record_ ≡ none)

module _ (J : Nlohmann) where
  order_id_nonempty :
      (data_ : Value) (key : String)
      → is_empty key ≡ false
      → is_empty (order_id J data_ key) ≡ false
  unfolding order_id
  order_id_nonempty data_ key named = ground arith

  upsert_of-Identified :
      (record_ data_ : Value) (key : String)
      → is_empty key ≡ false
      → Identified record_ (upsert_of J data_ key)
  unfolding upsert_of
  upsert_of-Identified record_ data_ key named =
      let id = order_id_nonempty data_ key named in rw id id

  remove_of-Identified :
      (record_ data_ : Value) (key : String)
      → is_empty key ≡ false
      → Identified record_ (remove_of J data_ key)
  unfolding remove_of
  remove_of-Identified record_ data_ key named =
      let id = order_id_nonempty data_ key named in rw id id

  change-Identified :
      (record_ : Value) (key : String)
      → is_empty key ≡ false
      → Identified record_ (change J record_ key)
  unfolding change
  change-Identified record_ key named = ground arith

module _ (J : Nlohmann) (A : Libraries) where
  message_key_nonempty :
      (b : ℕ) (bs : List ℕ) → KeepsBytes A → is_empty (message_key J A (some (b ∷ bs))) ≡ false
  unfolding message_key
  message_key_nonempty b bs keeps = let raw = keeps b bs in ground arith

  received_key :
      {R : Type 0} (m : Bytes) (links : ℕ → R) (producer : Producer) (b : ℕ) (bs : List ℕ)
      → m.key ≡ some (b ∷ bs)
      → KeepsBytes A
      → is_empty ((received J A m links producer).key) ≡ false
  unfolding received
  received_key m links producer b bs there keeps =
      ap (λ k. is_empty (message_key J A k)) there ∙ message_key_nonempty b bs keeps

  -- Where a message has a key of at least one byte, and bytes make no empty text, the change that the Redis
  -- updater and the Elasticsearch indexer take from a record is of an order with an identifier, or the
  -- record has neither a row nor a deleted row.
  pub received-Identified :
      {R : Type 0} (m : Bytes) (links : ℕ → R) (producer : Producer) (record_ : Value) (b : ℕ)
      (bs : List ℕ)
      → m.key ≡ some (b ∷ bs)
      → KeepsBytes A
      → Identified record_ (change J record_ (received J A m links producer).key)
  received-Identified m links producer record_ b bs there keeps =
      change-Identified J record_ (received J A m links producer).key
        (received_key m links producer b bs there keeps)
