-- ===== src/Consumer/Key/Tests.antt =====
-- A key that is a text, one that Avro decodes, and a row that has no identifier of its own.
use Prim.Native.Char.{Char}
use cdc_pipeline.Base.{
  ℕ, String, ◌≡◌, refl, false, Option, none, some, List, [], ◌∷◌, length, ◌==◌, if◌then◌else◌,
}
use cdc_pipeline.Json.{Value, num, str, obj, end, ◌⦂◌⨾◌}
use cdc_pipeline.Json.Print.{dumps}
use cdc_pipeline.Json.Parse.Strings.{to_char}
use cdc_pipeline.Consumer.Change.{Nlohmann, upsert, is_empty, change}
use cdc_pipeline.Consumer.Effects.{up}
use cdc_pipeline.Consumer.Loop.{accepts}
use cdc_pipeline.Consumer.Avro.{Libraries}
use cdc_pipeline.Consumer.Key.{Bytes, message_key, received}
use cdc_pipeline.Consumer.Key.Named.{KeepsBytes, received-Identified}

abbrev byte_char : Option Char → Char
byte_char none = "?"
byte_char (some c) = c

latin : List ℕ → String
latin [] = ""
latin (b ∷ bs) = String.◌∷◌ (byte_char (to_char b)) (latin bs)

-- The key {"id": 7} of a framed key, where nothing else parses.
abbrev key_doc : Value
key_doc = obj ("id" ⦂ num 7 ⨾ end)

abbrev libraries : Libraries
libraries = record {
  Avro = Unit {0};
  deserialize_avro = λ bytes. if length bytes == 6 then some tt else none;
  to_json = λ v. some (dumps key_doc);
  parse = λ text. some key_doc;
  raw_text = latin;
}

latin-KeepsBytes : KeepsBytes libraries
unfolding latin
latin-KeepsBytes b bs = refl

abbrev json : Nlohmann
json = record { dump = dumps; value_error = λ v k. "" }

abbrev row : Value
row = obj ("status" ⦂ str "SHIPPED" ⨾ end)

abbrev record_ : Value
record_ = obj ("after" ⦂ row ⨾ end)

framed_key : message_key json libraries (some (0 ∷ 0 ∷ 0 ∷ 0 ∷ 1 ∷ 14 ∷ [])) ≡ "7"
unfolding message_key dumps
framed_key = refl

-- An Avro key that libserdes refuses stays as it is.
refused_key :
    message_key json libraries (some (0 ∷ 0 ∷ 0 ∷ 0 ∷ 1 ∷ [])) ≡ latin (0 ∷ 0 ∷ 0 ∷ 0 ∷ 1 ∷ [])
unfolding message_key latin to_char
refused_key = refl

-- A key whose JSON text does not parse becomes the text of null, not the bytes.
unread_key :
    message_key json
      (record libraries { parse = λ text. none })
      (some (0 ∷ 0 ∷ 0 ∷ 0 ∷ 1 ∷ 14 ∷ []))
    ≡ "null"
unfolding message_key dumps
unread_key = refl

text_key : message_key json libraries (some (52 ∷ 50 ∷ [])) ≡ "42"
unfolding message_key latin to_char
text_key = refl

abbrev keyed : Bytes
keyed = record { offset = 3; key = some (52 ∷ 50 ∷ []); payload = some (123 ∷ []) }

asked : change json record_ (received json libraries keyed (λ n. up) accepts).key ≡ upsert "42" row
unfolding change received latin to_char
asked = refl

received-Identified_example : is_empty "42" ≡ false
unfolding change received latin to_char
received-Identified_example =
    received-Identified json libraries keyed (λ n. up) accepts record_ 52 (50 ∷ []) refl
      latin-KeepsBytes
