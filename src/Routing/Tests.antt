-- ===== src/Routing/Tests.antt =====
-- Log lines as the consumers write them, and the theorems at them.
use cdc_pipeline.Base.{String, ◌≡◌, refl}
use cdc_pipeline.Json.{str, obj, Fields, end, ◌⦂◌⨾◌}
use cdc_pipeline.Routing.{index_of}

abbrev line : String → Fields
line event =
    "level"
    ⦂ str "info" ⨾ "name"
    ⦂ str "cdc-consumers" ⨾ "message"
    ⦂ obj ("event" ⦂ str event ⨾ "consumer" ⦂ str "RedisUpdater" ⨾ end) ⨾ end

routed_line : index_of (line "routed_to_dlq") ≡ "cdc-consumer-logs"
unfolding index_of
routed_line = refl

abbrev duplicate : Fields
duplicate = line "email_notification_skipped_duplicate"
