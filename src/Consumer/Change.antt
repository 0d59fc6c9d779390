-- ===== src/Consumer/Change.antt =====
-- What a record of the orders topic asks a sink to do: the code that consumers/src/redis_updater.cpp,
-- es_indexer.cpp and notifier.cpp share word for word.
use cdc_pipeline.Base.{
  String, Bool, true, false, ◌&&◌, ◌||◌, Option, none, some, str_eq, ◌==◌, not, if◌then◌else◌,
}
use cdc_pipeline.Json.{Value, null, str, obj, Fields, end, ◌⦂◌⨾◌, find_field, field?, fields_size}

-- `v.contains(k)`
abbrev pub has : Option Value → Bool
has none = false
has (some v) = true

-- `v.contains(k) && !v[k].is_null()`, with the value.
abbrev pub present : Option Value → Option Value
present none = none
present (some null) = none
present (some v) = some v

abbrev pub is_object : Option Value → Bool
is_object (some (obj fs)) = true
is_object _ = false

-- `after` of a Debezium envelope, or the record itself where it is a plain order.
unfoldable pub order_source : Value → Option Value
unfolding field?
order_source record_ = elim (present (field? "after" record_)) [
  | some after ↦ some after
  | none ↦
      if has (field? "order_id" record_) || has (field? "id" record_) then some record_ else none
]

-- The value of an object's first member, if it is an object itself.
abbrev only_object : Fields → Option Value
only_object end = none
only_object (k ⦂ obj fs ⨾ rest) = some (obj fs)
only_object _ = none

or_value : Option Value → Value → Value
or_value (some v) d = v
or_value none d = d

-- Avro wraps the row into a member `Value`, or into a single member named after its type.
unwrap_object : Fields → Value
unfolding find_field or_value
unwrap_object fs =
    if is_object (find_field "Value" fs)
    then or_value (find_field "Value" fs) (obj fs)
    else if fields_size fs == 1 && not (has (find_field "id" fs))
    then or_value (only_object fs) (obj fs)
    else obj fs

unfoldable pub unwrap : Value → Value
unfolding unwrap_object
unwrap (obj fs) = unwrap_object fs
unwrap v = v

-- An `op` that is the text "d".
abbrev is_delete : Option Value → Bool
is_delete (some (str op)) = str_eq op "d"
is_delete _ = false

-- The row before a delete.
unfoldable pub deleted_source : Value → Option Value
unfolding field?
deleted_source record_ =
    if is_delete (field? "op" record_) then present (field? "before" record_) else none

abbrev pub is_empty : String → Bool
is_empty String.[] = true
is_empty (String.◌∷◌ c s) = false

pub data Change : Type 0 where
  upsert : String → Value → Change
  remove : String → Change
  skip_no_id ignore : Change

-- What the consumers use of nlohmann::json beside the structure of a value: `dump()`, and the texts of
-- the exceptions that `v.value(k, …)` throws. The library is not part of the repository.
pub record Nlohmann : Type 0 where
  pub dump : Value → String
  pub value_error : Value → String → String

module _ (J : Nlohmann) where
  -- `v.is_string() ? v.get<std::string>() : v.dump()`
  abbrev pub text_of : Value → String
  text_of (str s) = s
  text_of v = J.dump v

  own_id : Value → String
  unfolding field?
  own_id data_ = elim (present (field? "id" data_)) [
    | some v ↦ text_of v
    | none ↦ elim (present (field? "order_id" data_)) [ some v ↦ text_of v | none ↦ "" ]
  ]

  -- The key of the message stands in for an id that is missing or empty.
  unfoldable pub order_id : Value → String → String
  unfolding own_id
  order_id data_ key = if is_empty (own_id data_) then key else own_id data_

  unfoldable pub upsert_of : Value → String → Change
  unfolding unwrap order_id
  upsert_of data_ key =
      if is_empty (order_id data_ key) then skip_no_id else upsert (order_id data_ key) data_

  unfoldable pub remove_of : Value → String → Change
  unfolding unwrap order_id
  remove_of data_ key =
      if is_empty (order_id data_ key) then ignore else remove (order_id data_ key)

  unfoldable pub change : Value → String → Change
  unfolding order_source deleted_source unwrap upsert_of remove_of
  change record_ key = elim (order_source record_) [
    | some data_ ↦ upsert_of (unwrap data_) key
    | none ↦ elim (deleted_source record_) [
      | some data_ ↦ remove_of (unwrap data_) key
      | none ↦ ignore
    ]
  ]
