-- ===== src/Dashboard/Objects/Tables.antt =====
-- The two summary tables. (`main` of scripts/build_full_kibana_dashboard.py)
use cdc_pipeline.Base.{true, false, some}
use cdc_pipeline.Json.{null, bool, num, str, arr, obj, nil, ◌▹◌, end, ◌⦂◌⨾◌}
use cdc_pipeline.Json.Print.{dumps}
use cdc_pipeline.Kibana.{SavedObject}
use cdc_pipeline.Dashboard.Parts.{index_search, index_pattern}

abbrev pub api_summary_table : SavedObject
api_summary_table = record {
  obj_type = "visualization";
  obj_id = "vis-api-summary-table";
  attributes = obj (
      "title"
      ⦂ str "API Ingestion Performance Summary Table" ⨾ "visState"
      ⦂ str (
          dumps (
            obj (
              "title"
              ⦂ str "API Ingestion Performance Summary Table" ⨾ "type"
              ⦂ str "table" ⨾ "params"
              ⦂ obj (
                  "perPage"
                  ⦂ num 10 ⨾ "showPartialRows"
                  ⦂ bool false ⨾ "showMeticsAtAllLevels"
                  ⦂ bool false ⨾ "sort"
                  ⦂ obj ("columnIndex" ⦂ null ⨾ "direction" ⦂ null ⨾ end) ⨾ "showTotal"
                  ⦂ bool true ⨾ "totalFunc"
                  ⦂ str "sum" ⨾ end) ⨾
                "aggs"
              ⦂ arr (
                  obj (
                    "id"
                    ⦂ str "1" ⨾ "enabled"
                    ⦂ bool true ⨾ "type"
                    ⦂ str "count" ⨾ "schema"
                    ⦂ str "metric" ⨾ "params"
                    ⦂ obj ("customLabel" ⦂ str "Total Requests" ⨾ end) ⨾ end)
                  ▹ obj (
                      "id"
                      ⦂ str "2" ⨾ "enabled"
                      ⦂ bool true ⨾ "type"
                      ⦂ str "avg" ⨾ "schema"
                      ⦂ str "metric" ⨾ "params"
                      ⦂ obj (
                          "field"
                          ⦂ str "latency_ms" ⨾ "customLabel"
                          ⦂ str "Avg Latency (ms)" ⨾ end) ⨾
                        end)
                  ▹ obj (
                      "id"
                      ⦂ str "3" ⨾ "enabled"
                      ⦂ bool true ⨾ "type"
                      ⦂ str "terms" ⨾ "schema"
                      ⦂ str "bucket" ⨾ "params"
                      ⦂ obj (
                          "field"
                          ⦂ str "method.keyword" ⨾ "size"
                          ⦂ num 5 ⨾ "customLabel"
                          ⦂ str "HTTP Method" ⨾ end) ⨾
                        end)
                  ▹ nil) ⨾
                end))) ⨾
        "uiStateJSON"
      ⦂ str "{}" ⨾ "kibanaSavedObjectMeta"
      ⦂ obj ("searchSourceJSON" ⦂ str (dumps (index_search "")) ⨾ end) ⨾ end);
  references = some (index_pattern "cdc-api-logs" ▹ nil);
}

abbrev pub consumer_summary_table : SavedObject
consumer_summary_table = record {
  obj_type = "visualization";
  obj_id = "vis-consumer-summary-table";
  attributes = obj (
      "title"
      ⦂ str "Consumer Sinks Latency & Throughput Table" ⨾ "visState"
      ⦂ str (
          dumps (
            obj (
              "title"
              ⦂ str "Consumer Sinks Latency & Throughput Table" ⨾ "type"
              ⦂ str "table" ⨾ "params"
              ⦂ obj (
                  "perPage"
                  ⦂ num 10 ⨾ "showPartialRows"
                  ⦂ bool false ⨾ "showMeticsAtAllLevels"
                  ⦂ bool false ⨾ "sort"
                  ⦂ obj ("columnIndex" ⦂ null ⨾ "direction" ⦂ null ⨾ end) ⨾ "showTotal"
                  ⦂ bool true ⨾ "totalFunc"
                  ⦂ str "sum" ⨾ end) ⨾
                "aggs"
              ⦂ arr (
                  obj (
                    "id"
                    ⦂ str "1" ⨾ "enabled"
                    ⦂ bool true ⨾ "type"
                    ⦂ str "count" ⨾ "schema"
                    ⦂ str "metric" ⨾ "params"
                    ⦂ obj ("customLabel" ⦂ str "Processed Events" ⨾ end) ⨾ end)
                  ▹ obj (
                      "id"
                      ⦂ str "2" ⨾ "enabled"
                      ⦂ bool true ⨾ "type"
                      ⦂ str "avg" ⨾ "schema"
                      ⦂ str "metric" ⨾ "params"
                      ⦂ obj (
                          "field"
                          ⦂ str "sink_latency_ms" ⨾ "customLabel"
                          ⦂ str "Avg Sink Latency (ms)" ⨾ end) ⨾
                        end)
                  ▹ obj (
                      "id"
                      ⦂ str "3" ⨾ "enabled"
                      ⦂ bool true ⨾ "type"
                      ⦂ str "terms" ⨾ "schema"
                      ⦂ str "bucket" ⨾ "params"
                      ⦂ obj (
                          "field"
                          ⦂ str "consumer.keyword" ⨾ "size"
                          ⦂ num 5 ⨾ "customLabel"
                          ⦂ str "Consumer Microservice" ⨾ end) ⨾
                        end)
                  ▹ nil) ⨾
                end))) ⨾
        "uiStateJSON"
      ⦂ str "{}" ⨾ "kibanaSavedObjectMeta"
      ⦂ obj (
          "searchSourceJSON"
          ⦂ str (dumps (index_search "consumer.keyword: (RedisUpdater or Notifier or ESIndexer)")) ⨾
            end) ⨾
        end);
  references = some (index_pattern "cdc-consumer-logs" ▹ nil);
}
