-- ===== src/Consumer/Avro.antt =====
-- `AvroDeserializer::Deserialize` of consumers/src/avro_deserializer.cpp.
pub mod Dropped
mod Tests
use cdc_pipeline.Base.{
  ℕ, zero, suc, String, Bool, true, false, ◌&&◌, Option, none, some, List, [], ◌∷◌, length, leb,
  ◌==◌, if◌then◌else◌,
}
use cdc_pipeline.Json.{Value, null}

-- The libraries: libserdes with the schema registry, Avro's conversion to JSON, nlohmann's parser, and
-- the text that a payload's bytes are.
pub record Libraries : Type 1 where
  pub Avro : Type 0
  pub deserialize_avro : List ℕ → Option Avro
  pub to_json : Avro → Option String
  pub parse : String → Option Value
  pub raw_text : List ℕ → String

-- `len >= 5 && bytes[0] == 0x00`: a magic byte and the four bytes of a schema's id.
abbrev starts_with_magic : List ℕ → Bool
starts_with_magic [] = false
starts_with_magic (b ∷ bs) = b == 0

abbrev pub is_framed : List ℕ → Bool
is_framed bytes = leb 5 (length bytes) && starts_with_magic bytes

module _ (A : Libraries) where
  -- `doc` stays null where the parser throws.
  abbrev pub parsed_or_null : Option Value → Value
  parsed_or_null none = null
  parsed_or_null (some doc) = doc

  abbrev pub from_json : Option String → Option Value
  from_json none = none
  from_json (some json_str) = some (parsed_or_null (A.parse json_str))

  abbrev pub from_avro : Option A.Avro → Option Value
  from_avro none = none
  from_avro (some avro_val) = from_json (A.to_json avro_val)

  -- The payload is none where the message has no value.
  unfoldable pub deserialize : Option (List ℕ) → Option Value
  deserialize none = none
  deserialize (some []) = none
  deserialize (some (b ∷ bs)) =
      if is_framed (b ∷ bs)
      then from_avro (A.deserialize_avro (b ∷ bs))
      else A.parse (A.raw_text (b ∷ bs))
