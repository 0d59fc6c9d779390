-- ===== src/Api/Library.antt =====
-- What the order service uses of nlohmann::json, fmt and libpqxx, none of which the repository holds.
use cdc_pipeline.Base.{◌≡◌, refl, inl, inr, ◌⊎◌, ℕ, String, Option, none, some, List}
use cdc_pipeline.Json.{Value, null, str, obj, end, ◌⦂◌⨾◌, field?}
use cdc_pipeline.Json.Members.{set_field}
use cdc_pipeline.Consumer.Effects.{Answer, answered, failed}
use cdc_pipeline.Api.Action.{Action, pure, throw, json_exception}

-- `double_of v` is `v.get<double>()`, none where `v` is no number; `show` is `{}` of fmt. `parse_error`
-- and `type_error` are the texts of the exceptions.
pub record Library : Type 1 where
  pub Double : Type 0
  pub double_of : Value → Option Double
  pub value_of : Double → Value
  pub show : Double → String
  pub parse : String → Option Value
  pub dump : Value → String
  pub parse_error : String → String
  pub type_error : Value → String → String

-- A row of the table of postgres/init.sql, without the two times.
pub record Row (D : Type 0) : Type 0 where
  pub id : String
  pub user_id : String
  pub total_amount : D
  pub status : String
  pub items_jsonb : String

-- A server, and the connection to it. `execute` sends one statement and commits, with the rows
-- as reply; `execute_params` is for a statement with parameters, with the number of the rows
-- affected.
pub record Postgres (D : Type 0) : Type 1 where
  pub State : Type 0
  pub execute : String → State → Answer (List (Row D)) × State
  pub execute_params : String → List String → State → Answer ℕ × State

abbrev pub string_of : Value → Option String
string_of (str s) = some s
string_of v = none

module _ {S : Type 0} (L : Library) where
  abbrev json_or : {A : Type 0} → Option A → String → Action S A
  json_or none why = throw (json_exception why)
  json_or (some a) why = pure a

  -- `nlohmann::json::parse(text)`
  abbrev pub parse : String → Action S Value
  parse text = json_or (L.parse text) (L.parse_error text)

  -- `v.at(k)`, which throws where `v` is no object or has no `k`.
  abbrev pub at_key : Value → String → Action S Value
  at_key v k = json_or (field? k v) (L.type_error v k)

  -- `v.get<std::string>()`
  abbrev pub get_string : Value → Action S String
  get_string v = json_or (string_of v) (L.type_error v "string")

  -- `v.get<double>()`
  abbrev pub get_double : Value → Action S L.Double
  get_double v = json_or (L.double_of v) (L.type_error v "number")

  -- `v[k] = x`, which makes an object of null.
  abbrev pub assign : String → Value → Value → Action S Value
  assign k x null = pure (obj (k ⦂ x ⨾ end))
  assign k x (obj fs) = pure (obj (set_field k x fs))
  assign k x v = throw (json_exception (L.type_error v k))

abbrev pub and_then : {A B : Type 0} → (A → Option B) → Option A → Option B
and_then f none = none
and_then f (some a) = f a

pub Answer-cases :
    {A S : Type 0} (a : Answer A × S)
    → ((x : A) × (s : S) × (a ≡ (answered x, s)))
      ⊎ ((why : String) × (s : S) × (a ≡ (failed why, s)))
Answer-cases (answered x, s) = inl (x, s, refl)
Answer-cases (failed why, s) = inr (why, s, refl)
