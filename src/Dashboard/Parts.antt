-- ===== src/Dashboard/Parts.antt =====
-- The dictionaries that scripts/build_full_kibana_dashboard.py writes out again and again.
use cdc_pipeline.Base.{ℕ, String}
use cdc_pipeline.Json.{Value, num, str, arr, obj, nil, end, ◌⦂◌⨾◌}

-- A search over the index that the object's reference names.
abbrev pub index_search : String → Value
index_search query = obj (
    "query"
    ⦂ obj ("query" ⦂ str query ⨾ "language" ⦂ str "kuery" ⨾ end) ⨾ "filter"
    ⦂ arr nil ⨾ "indexRefName"
    ⦂ str "kibanaSavedObjectMeta.searchSourceJSON.index" ⨾ end)

abbrev pub no_search : Value
no_search =
    obj
      ("query" ⦂ obj ("query" ⦂ str "" ⨾ "language" ⦂ str "kuery" ⨾ end) ⨾ "filter" ⦂ arr nil ⨾ end)

-- The reference to the index.
abbrev pub index_pattern : String → Value
index_pattern id = obj (
    "name"
    ⦂ str "kibanaSavedObjectMeta.searchSourceJSON.index" ⨾ "type"
    ⦂ str "index-pattern" ⨾ "id"
    ⦂ str id ⨾ end)

-- A panel of the grid.
abbrev pub panel : ℕ → ℕ → ℕ → ℕ → String → String → Value
panel x y w h i name = obj (
    "version"
    ⦂ str "8.10.2" ⨾ "type"
    ⦂ str "visualization" ⨾ "gridData"
    ⦂ obj ("x" ⦂ num x ⨾ "y" ⦂ num y ⨾ "w" ⦂ num w ⨾ "h" ⦂ num h ⨾ "i" ⦂ str i ⨾ end) ⨾ "panelIndex"
    ⦂ str i ⨾ "panelRefName"
    ⦂ str name ⨾ end)

-- A reference of the dashboard.
abbrev pub visualization : String → String → Value
visualization name id = obj ("name" ⦂ str name ⨾ "type" ⦂ str "visualization" ⨾ "id" ⦂ str id ⨾ end)
