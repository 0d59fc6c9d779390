-- ===== src/Dashboard/Objects/MoreCards.antt =====
-- The second row of metric cards. (`main` of scripts/build_full_kibana_dashboard.py)
use cdc_pipeline.Base.{true, some}
use cdc_pipeline.Json.{bool, str, arr, obj, nil, ◌▹◌, end, ◌⦂◌⨾◌}
use cdc_pipeline.Json.Print.{dumps}
use cdc_pipeline.Kibana.{SavedObject}
use cdc_pipeline.Dashboard.Parts.{index_search, index_pattern}
use cdc_pipeline.Dashboard.Objects.Cards.{get_metric_params}

abbrev pub total_consumer_events : SavedObject
total_consumer_events = record {
  obj_type = "visualization";
  obj_id = "vis-total-consumer-events";
  attributes = obj (
      "title"
      ⦂ str "Total Consumer Events Handled" ⨾ "visState"
      ⦂ str (
          dumps (
            obj (
              "title"
              ⦂ str "Total Consumer Events Handled" ⨾ "type"
              ⦂ str "metric" ⨾ "params"
              ⦂ get_metric_params "Consumer Events Processed" 28 ⨾ "aggs"
              ⦂ arr (
                  obj (
                    "id"
                    ⦂ str "1" ⨾ "enabled"
                    ⦂ bool true ⨾ "type"
                    ⦂ str "count" ⨾ "schema"
                    ⦂ str "metric" ⨾ "params"
                    ⦂ obj ("customLabel" ⦂ str "Consumer Events Handled" ⨾ end) ⨾ end)
                  ▹ nil) ⨾
                end))) ⨾
        "uiStateJSON"
      ⦂ str "{}" ⨾ "kibanaSavedObjectMeta"
      ⦂ obj ("searchSourceJSON" ⦂ str (dumps (index_search "")) ⨾ end) ⨾ end);
  references = some (index_pattern "cdc-consumer-logs" ▹ nil);
}

abbrev pub es_sink_latency : SavedObject
es_sink_latency = record {
  obj_type = "visualization";
  obj_id = "vis-es-sink-latency";
  attributes = obj (
      "title"
      ⦂ str "Elasticsearch Commit Latency" ⨾ "visState"
      ⦂ str (
          dumps (
            obj (
              "title"
              ⦂ str "Elasticsearch Commit Latency" ⨾ "type"
              ⦂ str "metric" ⨾ "params"
              ⦂ get_metric_params "ES Commit Latency (ms)" 28 ⨾ "aggs"
              ⦂ arr (
                  obj (
                    "id"
                    ⦂ str "1" ⨾ "enabled"
                    ⦂ bool true ⨾ "type"
                    ⦂ str "avg" ⨾ "schema"
                    ⦂ str "metric" ⨾ "params"
                    ⦂ obj (
                        "field"
                        ⦂ str "sink_latency_ms" ⨾ "customLabel"
                        ⦂ str "ES Commit Latency (ms)" ⨾ end) ⨾
                      end)
                  ▹ nil) ⨾
                end))) ⨾
        "uiStateJSON"
      ⦂ str "{}" ⨾ "kibanaSavedObjectMeta"
      ⦂ obj ("searchSourceJSON" ⦂ str (dumps (index_search "consumer.keyword: ESIndexer")) ⨾ end) ⨾
        end);
  references = some (index_pattern "cdc-consumer-logs" ▹ nil);
}

abbrev pub idempotency_dedup : SavedObject
idempotency_dedup = record {
  obj_type = "visualization";
  obj_id = "vis-idempotency-dedup";
  attributes = obj (
      "title"
      ⦂ str "Idempotent Replays Filtered" ⨾ "visState"
      ⦂ str (
          dumps (
            obj (
              "title"
              ⦂ str "Idempotent Replays Filtered" ⨾ "type"
              ⦂ str "metric" ⨾ "params"
              ⦂ get_metric_params "Deduplicated Replays" 28 ⨾ "aggs"
              ⦂ arr (
                  obj (
                    "id"
                    ⦂ str "1" ⨾ "enabled"
                    ⦂ bool true ⨾ "type"
                    ⦂ str "count" ⨾ "schema"
                    ⦂ str "metric" ⨾ "params"
                    ⦂ obj ("customLabel" ⦂ str "Deduplicated Replays" ⨾ end) ⨾ end)
                  ▹ nil) ⨾
                end))) ⨾
        "uiStateJSON"
      ⦂ str "{}" ⨾ "kibanaSavedObjectMeta"
      ⦂ obj (
          "searchSourceJSON"
          ⦂ str (dumps (index_search "event.keyword: email_notification_skipped_duplicate")) ⨾
            end) ⨾
        end);
  references = some (index_pattern "cdc-system-logs" ▹ nil);
}

abbrev pub dlq_count : SavedObject
dlq_count = record {
  obj_type = "visualization";
  obj_id = "vis-dlq-count";
  attributes = obj (
      "title"
      ⦂ str "Dead Letter Queue Faults" ⨾ "visState"
      ⦂ str (
          dumps (
            obj (
              "title"
              ⦂ str "Dead Letter Queue Faults" ⨾ "type"
              ⦂ str "metric" ⨾ "params"
              ⦂ get_metric_params "Quarantined DLQ Events" 28 ⨾ "aggs"
              ⦂ arr (
                  obj (
                    "id"
                    ⦂ str "1" ⨾ "enabled"
                    ⦂ bool true ⨾ "type"
                    ⦂ str "count" ⨾ "schema"
                    ⦂ str "metric" ⨾ "params"
                    ⦂ obj ("customLabel" ⦂ str "Quarantined DLQ Events" ⨾ end) ⨾ end)
                  ▹ nil) ⨾
                end))) ⨾
        "uiStateJSON"
      ⦂ str "{}" ⨾ "kibanaSavedObjectMeta"
      ⦂ obj ("searchSourceJSON" ⦂ str (dumps (index_search "event.keyword: routed_to_dlq")) ⨾ end) ⨾
        end);
  references = some (index_pattern "cdc-system-logs" ▹ nil);
}
