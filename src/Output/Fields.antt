-- ===== src/Output/Fields.antt =====
-- internal/monitor/processor.go: the keys of a metric as it is written (`Metric.MarshalJSON`); the
-- writing of the map is encoding/json's.
use redborder_monitor.Base.{[], if◌then◌else◌}
use redborder_monitor.Base.Text.{Bytes, codes, is_empty}
use redborder_monitor.Base.Map.{Map, insert, merge}
use redborder_monitor.Model.{Json, int, text}
use redborder_monitor.Op.{ParsedGroup, no_gid, int_gid, text_gid}
use redborder_monitor.Output.{Metric, MetricValue, text_value, int_value}

module _ {F : Type 0} where
  abbrev pub value_json : MetricValue → Json F
  value_json (text_value s) = text s
  value_json (int_value n) = int n

  abbrev pub insert_group : ParsedGroup → Map (Json F) → Map (Json F)
  insert_group no_gid m = m
  insert_group (int_gid n) m = insert (codes "group_id") (int n) m
  insert_group (text_gid s) m = insert (codes "group_id") (text s) m

  abbrev pub insert_instance : Bytes → Map (Json F) → Map (Json F)
  insert_instance s m = if is_empty s then m else insert (codes "instance") (text s) m

  -- The fixed keys are written behind the enrichment, and replace its entries.
  unfoldable pub metric_fields : Metric F → Map (Json F)
  metric_fields x = insert_group x.group_id (
      insert (codes "value") (value_json x.value) (
        insert_instance x.metric_instance (
          insert (codes "monitor") (text x.monitor)
            (insert (codes "timestamp") (int x.timestamp) (merge x.enrichment [])))))
