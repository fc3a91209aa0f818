-- ===== src/Output.antt =====
-- internal/monitor/processor.go: `Metric` and `outputMetrics`, which turns the new state of a
-- monitor into metrics. The channel is the list of the metrics sent so far.
pub mod Sends
pub mod Quiet
pub mod Fields
mod Tests
use redborder_monitor.Base.{
  ℕ, ◌+◌, ◌≡◌, Bool, true, false, not, ◌&&◌, ◌||◌, Option, none, some, List, [], ◌∷◌, ◌++◌,
  if◌then◌else◌,
}
use redborder_monitor.Base.Text.{Bytes, is_empty}
use redborder_monitor.Base.Decimal.{format_ℕ}
use redborder_monitor.Base.Int.{ℤ, pos, ltb_ℤ, eqb_ℤ}
use redborder_monitor.Base.Map.{Map}
use redborder_monitor.Base.Float.{Float}
use redborder_monitor.Model.{Json, Monitor}
use redborder_monitor.Values.{MonitorValue, MonitorState, is_one, child_at}
use redborder_monitor.Op.{ParsedGroup, parse_group_id}

-- Metric.Value: a text or an int64
pub data MetricValue : Type 0 where
  text_value : Bytes → MetricValue
  int_value : ℤ → MetricValue

pub record Metric (F : Type 0) : Type 0 where
  pub timestamp : ℤ
  pub monitor : Bytes
  pub metric_instance : Bytes
  pub value : MetricValue
  pub group_id : ParsedGroup
  pub enrichment : Map (Json F)

-- The channel and the counter `MetricsGenerated`.
pub record Outbox (F : Type 0) : Type 0 where
  pub sent : List (Metric F)
  pub generated : ℕ

-- `m.Send != nil && *m.Send == 0`
abbrev pub is_muted : Option ℤ → Bool
is_muted none = false
is_muted (some n) = eqb_ℤ n (pos 0)

abbrev pub emit : {F : Type 0} → Metric F → Outbox F → Outbox F
emit x o = record { sent = o.sent ++ x ∷ []; generated = o.generated + 1 }

module _ {F : Type 0} ⦃fl : Float F⦄ where
  abbrev pub format_value : Bool → F → MetricValue
  format_value integer x = if integer then int_value (fl.to_int64 x) else text_value (fl.format_f x)

  -- the parts of the cached state, which may be nil
  abbrev pub cached_scalar : Option (MonitorState F) → Option (MonitorValue F)
  cached_scalar none = none
  cached_scalar (some st) = st.scalar

  abbrev pub cached_child : Option (MonitorState F) → ℕ → Option (MonitorValue F)
  cached_child none k = none
  cached_child (some st) k = child_at st.children k

  unfoldable pub should_send : Bool → MonitorValue F → Option (MonitorValue F) → Bool
  should_send false v old = true
  should_send true v none = true
  should_send true v (some w) = ltb_ℤ w.timestamp v.timestamp || not (fl.float_eq v.value w.value)

  -- The metric of a value under a name and an instance.
  unfoldable pub metric_of : Monitor F → Map (Json F) → Bytes → Bytes → MonitorValue F → Metric F
  metric_of m enrichment name inst v = record {
    timestamp = v.timestamp;
    monitor = name;
    metric_instance = inst;
    value = format_value (is_one m.integer) v.value;
    group_id = parse_group_id m.group_id;
    enrichment = enrichment;
  }

  unfoldable pub child_metric : Monitor F → Map (Json F) → ℕ → MonitorValue F → Metric F
  child_metric m enrichment k v =
      metric_of m enrichment (m.name ++ m.name_split_suffix) (m.instance_prefix ++ format_ℕ k) v

  -- the three parts of the routine
  unfoldable pub output_scalar :
      Monitor F
      → Map (Json F)
      → Option (MonitorState F)
      → Option (MonitorValue F)
      → Outbox F
      → Outbox F
  output_scalar m enrichment cached none o = o
  output_scalar m enrichment cached (some v) o =
      if should_send (is_one m.timestamp_given) v (cached_scalar cached)
      then emit (metric_of m enrichment m.name [] v) o
      else o

  unfoldable pub output_children :
      Monitor F
      → Map (Json F)
      → Option (MonitorState F)
      → ℕ
      → List (Option (MonitorValue F))
      → Outbox F
      → Outbox F
  output_children m enrichment cached k [] o = o
  output_children m enrichment cached k (none ∷ cs) o =
      output_children m enrichment cached (k + 1) cs o
  output_children m enrichment cached k (some v ∷ cs) o =
      output_children m enrichment cached (k + 1) cs (
        if should_send (is_one m.timestamp_given) v (cached_child cached k)
        then emit (child_metric m enrichment k v) o
        else o)

  unfoldable pub output_aggregate :
      Monitor F → Map (Json F) → Option (MonitorValue F) → Outbox F → Outbox F
  output_aggregate m enrichment none o = o
  output_aggregate m enrichment (some v) o = emit (metric_of m enrichment m.name [] v) o

  unfoldable pub output_metrics :
      Monitor F → MonitorState F → Option (MonitorState F) → Map (Json F) → Outbox F → Outbox F
  output_metrics m st cached enrichment o =
      if is_muted m.send
      then o
      else output_aggregate m enrichment st.split_op (
          output_children m enrichment cached 0 st.children
            (output_scalar m enrichment cached st.scalar o))
