-- ===== src/Dashboard/Objects/Pies.antt =====
-- The four donut charts. (`main` of scripts/build_full_kibana_dashboard.py)
use cdc_pipeline.Base.{true, some}
use cdc_pipeline.Json.{bool, num, str, arr, obj, nil, ◌▹◌, end, ◌⦂◌⨾◌}
use cdc_pipeline.Json.Print.{dumps}
use cdc_pipeline.Kibana.{SavedObject}
use cdc_pipeline.Dashboard.Parts.{index_search, index_pattern}

abbrev pub api_status_pie : SavedObject
api_status_pie = record {
  obj_type = "visualization";
  obj_id = "vis-api-status-pie";
  attributes = obj (
      "title"
      ⦂ str "API Status Codes Distribution" ⨾ "visState"
      ⦂ str (
          dumps (
            obj (
              "title"
              ⦂ str "API Status Codes Distribution" ⨾ "type"
              ⦂ str "pie" ⨾ "params"
              ⦂ obj (
                  "type"
                  ⦂ str "pie" ⨾ "addTooltip"
                  ⦂ bool true ⨾ "addLegend"
                  ⦂ bool true ⨾ "legendPosition"
                  ⦂ str "right" ⨾ "isDonut"
                  ⦂ bool true ⨾ end) ⨾
                "aggs"
              ⦂ arr (
                  obj (
                    "id"
                    ⦂ str "1" ⨾ "enabled"
                    ⦂ bool true ⨾ "type"
                    ⦂ str "count" ⨾ "schema"
                    ⦂ str "metric" ⨾ end)
                  ▹ obj (
                      "id"
                      ⦂ str "2" ⨾ "enabled"
                      ⦂ bool true ⨾ "type"
                      ⦂ str "terms" ⨾ "schema"
                      ⦂ str "segment" ⨾ "params"
                      ⦂ obj ("field" ⦂ str "status_code" ⨾ "size" ⦂ num 5 ⨾ end) ⨾ end)
                  ▹ nil) ⨾
                end))) ⨾
        "uiStateJSON"
      ⦂ str "{}" ⨾ "kibanaSavedObjectMeta"
      ⦂ obj ("searchSourceJSON" ⦂ str (dumps (index_search "")) ⨾ end) ⨾ end);
  references = some (index_pattern "cdc-api-logs" ▹ nil);
}

abbrev pub api_method_pie : SavedObject
api_method_pie = record {
  obj_type = "visualization";
  obj_id = "vis-api-method-pie";
  attributes = obj (
      "title"
      ⦂ str "API HTTP Methods Mix" ⨾ "visState"
      ⦂ str (
          dumps (
            obj (
              "title"
              ⦂ str "API HTTP Methods Mix" ⨾ "type"
              ⦂ str "pie" ⨾ "params"
              ⦂ obj (
                  "type"
                  ⦂ str "pie" ⨾ "addTooltip"
                  ⦂ bool true ⨾ "addLegend"
                  ⦂ bool true ⨾ "legendPosition"
                  ⦂ str "right" ⨾ "isDonut"
                  ⦂ bool true ⨾ end) ⨾
                "aggs"
              ⦂ arr (
                  obj (
                    "id"
                    ⦂ str "1" ⨾ "enabled"
                    ⦂ bool true ⨾ "type"
                    ⦂ str "count" ⨾ "schema"
                    ⦂ str "metric" ⨾ end)
                  ▹ obj (
                      "id"
                      ⦂ str "2" ⨾ "enabled"
                      ⦂ bool true ⨾ "type"
                      ⦂ str "terms" ⨾ "schema"
                      ⦂ str "segment" ⨾ "params"
                      ⦂ obj ("field" ⦂ str "method.keyword" ⨾ "size" ⦂ num 5 ⨾ end) ⨾ end)
                  ▹ nil) ⨾
                end))) ⨾
        "uiStateJSON"
      ⦂ str "{}" ⨾ "kibanaSavedObjectMeta"
      ⦂ obj ("searchSourceJSON" ⦂ str (dumps (index_search "")) ⨾ end) ⨾ end);
  references = some (index_pattern "cdc-api-logs" ▹ nil);
}

abbrev pub events_pie : SavedObject
events_pie = record {
  obj_type = "visualization";
  obj_id = "vis-events-pie";
  attributes = obj (
      "title"
      ⦂ str "Consumer Events Distribution" ⨾ "visState"
      ⦂ str (
          dumps (
            obj (
              "title"
              ⦂ str "Consumer Events Distribution" ⨾ "type"
              ⦂ str "pie" ⨾ "params"
              ⦂ obj (
                  "type"
                  ⦂ str "pie" ⨾ "addTooltip"
                  ⦂ bool true ⨾ "addLegend"
                  ⦂ bool true ⨾ "legendPosition"
                  ⦂ str "right" ⨾ "isDonut"
                  ⦂ bool true ⨾ end) ⨾
                "aggs"
              ⦂ arr (
                  obj (
                    "id"
                    ⦂ str "1" ⨾ "enabled"
                    ⦂ bool true ⨾ "type"
                    ⦂ str "count" ⨾ "schema"
                    ⦂ str "metric" ⨾ end)
                  ▹ obj (
                      "id"
                      ⦂ str "2" ⨾ "enabled"
                      ⦂ bool true ⨾ "type"
                      ⦂ str "terms" ⨾ "schema"
                      ⦂ str "segment" ⨾ "params"
                      ⦂ obj ("field" ⦂ str "event.keyword" ⨾ "size" ⦂ num 5 ⨾ end) ⨾ end)
                  ▹ nil) ⨾
                end))) ⨾
        "uiStateJSON"
      ⦂ str "{}" ⨾ "kibanaSavedObjectMeta"
      ⦂ obj (
          "searchSourceJSON"
          ⦂ str (dumps (index_search "consumer.keyword: (RedisUpdater or Notifier or ESIndexer)")) ⨾
            end) ⨾
        end);
  references = some (index_pattern "cdc-consumer-logs" ▹ nil);
}

abbrev pub system_severity_pie : SavedObject
system_severity_pie = record {
  obj_type = "visualization";
  obj_id = "vis-system-severity-pie";
  attributes = obj (
      "title"
      ⦂ str "System Log Severity Distribution" ⨾ "visState"
      ⦂ str (
          dumps (
            obj (
              "title"
              ⦂ str "System Log Severity Distribution" ⨾ "type"
              ⦂ str "pie" ⨾ "params"
              ⦂ obj (
                  "type"
                  ⦂ str "pie" ⨾ "addTooltip"
                  ⦂ bool true ⨾ "addLegend"
                  ⦂ bool true ⨾ "legendPosition"
                  ⦂ str "right" ⨾ "isDonut"
                  ⦂ bool true ⨾ end) ⨾
                "aggs"
              ⦂ arr (
                  obj (
                    "id"
                    ⦂ str "1" ⨾ "enabled"
                    ⦂ bool true ⨾ "type"
                    ⦂ str "count" ⨾ "schema"
                    ⦂ str "metric" ⨾ end)
                  ▹ obj (
                      "id"
                      ⦂ str "2" ⨾ "enabled"
                      ⦂ bool true ⨾ "type"
                      ⦂ str "terms" ⨾ "schema"
                      ⦂ str "segment" ⨾ "params"
                      ⦂ obj ("field" ⦂ str "level.keyword" ⨾ "size" ⦂ num 5 ⨾ end) ⨾ end)
                  ▹ nil) ⨾
                end))) ⨾
        "uiStateJSON"
      ⦂ str "{}" ⨾ "kibanaSavedObjectMeta"
      ⦂ obj ("searchSourceJSON" ⦂ str (dumps (index_search "")) ⨾ end) ⨾ end);
  references = some (index_pattern "cdc-system-logs" ▹ nil);
}
