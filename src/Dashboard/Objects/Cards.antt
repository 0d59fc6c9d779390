-- ===== src/Dashboard/Objects/Cards.antt =====
-- The first row of metric cards. (`main` of scripts/build_full_kibana_dashboard.py)
use cdc_pipeline.Base.{ℕ, String, true, false, some}
use cdc_pipeline.Json.{Value, bool, num, str, arr, obj, nil, ◌▹◌, end, ◌⦂◌⨾◌}
use cdc_pipeline.Json.Print.{dumps}
use cdc_pipeline.Kibana.{SavedObject}
use cdc_pipeline.Dashboard.Parts.{index_search, index_pattern}

-- The label is not used.
abbrev pub get_metric_params : String → ℕ → Value
get_metric_params label font_size = obj (
    "addTooltip"
    ⦂ bool true ⨾ "addLegend"
    ⦂ bool false ⨾ "type"
    ⦂ str "metric" ⨾ "metric"
    ⦂ obj (
        "percentageMode"
        ⦂ bool false ⨾ "useRanges"
        ⦂ bool false ⨾ "colorSchema"
        ⦂ str "Green to Red" ⨾ "metricColorMode"
        ⦂ str "None" ⨾ "colorsRange"
        ⦂ arr (obj ("from" ⦂ num 0 ⨾ "to" ⦂ num 100000000 ⨾ end) ▹ nil) ⨾ "labels"
        ⦂ obj ("show" ⦂ bool true ⨾ end) ⨾ "invertColors"
        ⦂ bool false ⨾ "style"
        ⦂ obj (
            "bgFill"
            ⦂ str "#000" ⨾ "bgColor"
            ⦂ bool false ⨾ "labelColor"
            ⦂ bool false ⨾ "subText"
            ⦂ str "" ⨾ "fontSize"
            ⦂ num font_size ⨾ end) ⨾
          end) ⨾
      end)

abbrev pub total_orders : SavedObject
total_orders = record {
  obj_type = "visualization";
  obj_id = "vis-total-orders";
  attributes = obj (
      "title"
      ⦂ str "Total Orders Ingested" ⨾ "visState"
      ⦂ str (
          dumps (
            obj (
              "title"
              ⦂ str "Total Orders Ingested" ⨾ "type"
              ⦂ str "metric" ⨾ "params"
              ⦂ get_metric_params "Total Ingested Orders" 28 ⨾ "aggs"
              ⦂ arr (
                  obj (
                    "id"
                    ⦂ str "1" ⨾ "enabled"
                    ⦂ bool true ⨾ "type"
                    ⦂ str "count" ⨾ "schema"
                    ⦂ str "metric" ⨾ "params"
                    ⦂ obj ("customLabel" ⦂ str "Total Ingested Orders" ⨾ end) ⨾ end)
                  ▹ nil) ⨾
                end))) ⨾
        "uiStateJSON"
      ⦂ str "{}" ⨾ "kibanaSavedObjectMeta"
      ⦂ obj ("searchSourceJSON" ⦂ str (dumps (index_search "")) ⨾ end) ⨾ end);
  references = some (index_pattern "cdc-api-logs" ▹ nil);
}

abbrev pub p50_latency : SavedObject
p50_latency = record {
  obj_type = "visualization";
  obj_id = "vis-p50-latency";
  attributes = obj (
      "title"
      ⦂ str "API P50 Median Latency" ⨾ "visState"
      ⦂ str (
          dumps (
            obj (
              "title"
              ⦂ str "API P50 Median Latency" ⨾ "type"
              ⦂ str "metric" ⨾ "params"
              ⦂ get_metric_params "P50 Median Latency (ms)" 28 ⨾ "aggs"
              ⦂ arr (
                  obj (
                    "id"
                    ⦂ str "1" ⨾ "enabled"
                    ⦂ bool true ⨾ "type"
                    ⦂ str "percentiles" ⨾ "schema"
                    ⦂ str "metric" ⨾ "params"
                    ⦂ obj (
                        "field"
                        ⦂ str "latency_ms" ⨾ "percents"
                        ⦂ arr (num 50 ▹ nil) ⨾ "customLabel"
                        ⦂ str "P50 Latency (ms)" ⨾ end) ⨾
                      end)
                  ▹ nil) ⨾
                end))) ⨾
        "uiStateJSON"
      ⦂ str "{}" ⨾ "kibanaSavedObjectMeta"
      ⦂ obj ("searchSourceJSON" ⦂ str (dumps (index_search "")) ⨾ end) ⨾ end);
  references = some (index_pattern "cdc-api-logs" ▹ nil);
}

abbrev pub p95_latency : SavedObject
p95_latency = record {
  obj_type = "visualization";
  obj_id = "vis-p95-latency";
  attributes = obj (
      "title"
      ⦂ str "API P95 Tail Latency" ⨾ "visState"
      ⦂ str (
          dumps (
            obj (
              "title"
              ⦂ str "API P95 Tail Latency" ⨾ "type"
              ⦂ str "metric" ⨾ "params"
              ⦂ get_metric_params "P95 Tail Latency (ms)" 28 ⨾ "aggs"
              ⦂ arr (
                  obj (
                    "id"
                    ⦂ str "1" ⨾ "enabled"
                    ⦂ bool true ⨾ "type"
                    ⦂ str "percentiles" ⨾ "schema"
                    ⦂ str "metric" ⨾ "params"
                    ⦂ obj (
                        "field"
                        ⦂ str "latency_ms" ⨾ "percents"
                        ⦂ arr (num 95 ▹ nil) ⨾ "customLabel"
                        ⦂ str "P95 Latency (ms)" ⨾ end) ⨾
                      end)
                  ▹ nil) ⨾
                end))) ⨾
        "uiStateJSON"
      ⦂ str "{}" ⨾ "kibanaSavedObjectMeta"
      ⦂ obj ("searchSourceJSON" ⦂ str (dumps (index_search "")) ⨾ end) ⨾ end);
  references = some (index_pattern "cdc-api-logs" ▹ nil);
}

abbrev pub redis_sink_latency : SavedObject
redis_sink_latency = record {
  obj_type = "visualization";
  obj_id = "vis-redis-sink-latency";
  attributes = obj (
      "title"
      ⦂ str "Redis Hot Cache Latency" ⨾ "visState"
      ⦂ str (
          dumps (
            obj (
              "title"
              ⦂ str "Redis Hot Cache Latency" ⨾ "type"
              ⦂ str "metric" ⨾ "params"
              ⦂ get_metric_params "Redis Avg Lua Latency (ms)" 28 ⨾ "aggs"
              ⦂ arr (
                  obj (
                    "id"
                    ⦂ str "1" ⨾ "enabled"
                    ⦂ bool true ⨾ "type"
                    ⦂ str "avg" ⨾ "schema"
                    ⦂ str "metric" ⨾ "params"
                    ⦂ obj (
                        "field"
                        ⦂ str "sink_latency_ms" ⨾ "customLabel"
                        ⦂ str "Redis Lua Latency (ms)" ⨾ end) ⨾
                      end)
                  ▹ nil) ⨾
                end))) ⨾
        "uiStateJSON"
      ⦂ str "{}" ⨾ "kibanaSavedObjectMeta"
      ⦂ obj
          ("searchSourceJSON" ⦂ str (dumps (index_search "consumer.keyword: RedisUpdater")) ⨾ end) ⨾
        end);
  references = some (index_pattern "cdc-consumer-logs" ▹ nil);
}
