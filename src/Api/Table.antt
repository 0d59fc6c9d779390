-- ===== src/Api/Table.antt =====
-- What the order service relies on in Postgres: the table of postgres/init.sql as a map, and its three
-- statements.
use Prim.Native.Char.{code}
use cdc_pipeline.Base.{
  ℕ, String, ◌≡◌, Bool, true, not, ◌&&◌, Option, none, some, List, [], ◌∷◌, ◌==◌, if◌then◌else◌,
}
use cdc_pipeline.Consumer.Effects.{answered, failed}
use cdc_pipeline.Api.Library.{Library, Postgres, Row}
use cdc_pipeline.Api.Database.{insert_sql, select_sql, update_sql}

-- No quote, so that the text is one literal between quotes.
abbrev pub is_plain : String → Bool
is_plain String.[] = true
is_plain (String.◌∷◌ c s) = not (code c == 39) && is_plain s

abbrev pub new_row : {D : Type 0} → String → String → D → String → Row D
new_row id user_id amount items = record {
  id = id;
  user_id = user_id;
  total_amount = amount;
  status = "CREATED";
  items_jsonb = items;
}

abbrev pub with_status : {D : Type 0} → String → Option (Row D) → Option (Row D)
with_status status none = none
with_status status (some row) = some (record row { status = status })

abbrev pub row_list : {D : Type 0} → Option (Row D) → List (Row D)
row_list none = []
row_list (some row) = row ∷ []

abbrev pub row_count : {D : Type 0} → Option (Row D) → ℕ
row_count none = 0
row_count (some row) = 1

-- `find s id` is the row that `id = '…'` selects. `stored` is a new row as the columns keep it: DECIMAL(10, 2)
-- rounds and JSONB has a layout of its own. `same` is the equality of two texts as UUID.
pub record View (D : Type 0) (S : Type 0) : Type 0 where
  pub find : S → String → Option (Row D)
  pub stored : Row D → Row D
  pub same : String → String → Bool

abbrev pub Unchanged : {D S : Type 0} → View D S → S → S → Type 0
Unchanged V s t = (k : String) → V.find t k ≡ V.find s k

module _ (L : Library) (P : Postgres L.Double) (V : View L.Double P.State) where
  pub record IsPostgres : Type 0 where
    -- A statement that fails is rolled back.
    pub rolled_back :
        (sql why : String) (s t : P.State) → P.execute sql s ≡ (failed why, t) → Unchanged V s t
    pub params_rolled_back :
        (sql why : String) (args : List String) (s t : P.State)
        → P.execute_params sql args s ≡ (failed why, t)
        → Unchanged V s t
    -- The INSERT adds one row, and no row is replaced.
    pub inserted :
        (id user_id items : String) (amount : L.Double) (rows : List (Row L.Double)) (s t : P.State)
        → is_plain id ≡ true
        → is_plain user_id ≡ true
        → is_plain items ≡ true
        → P.execute (insert_sql id user_id (L.show amount) items) s ≡ (answered rows, t)
        → (V.find t id ≡ some (V.stored (new_row id user_id amount items)))
          × ((k : String) (row : Row L.Double) → V.find s k ≡ some row → V.find t k ≡ some row)
    -- The SELECT gives the row, if there is one.
    pub selected :
        (id : String) (rows : List (Row L.Double)) (s t : P.State)
        → is_plain id ≡ true
        → P.execute (select_sql id) s ≡ (answered rows, t)
        → (rows ≡ row_list (V.find s id)) × Unchanged V s t
    -- The UPDATE sets the status of that row alone, and counts it.
    pub updated :
        (id status : String) (n : ℕ) (s t : P.State)
        → P.execute_params update_sql (status ∷ id ∷ []) s ≡ (answered n, t)
        → (n ≡ row_count (V.find s id))
          × ((k : String)
              → V.find t k ≡ (if V.same id k then with_status status (V.find s k) else V.find s k))
