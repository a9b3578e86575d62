-- ===== src/Metrics.antt =====
-- Counters and histograms (src/observability/MetricsCollector.js). The values are natural numbers.
pub mod History
use rez_sdk.Common.{
  ℕ, zero, suc, ◌+◌, ◌≡◌, Bool, true, false, Option, none, some, List, [], ◌∷◌, String, ltb,
  if◌then◌else◌,
}
use rez_sdk.Common.Dict.{Dict, lookup, insert}

-- `min` is `none` for `Infinity`, and `max` for `-Infinity`.
pub record Histogram : Type 0 where
  pub count : ℕ
  pub sum : ℕ
  pub min : Option ℕ
  pub max : Option ℕ

-- What the hooks are told.
pub data Metric : Type 0 where
  counter_metric : String → ℕ → ℕ → Metric
  histogram_metric : String → ℕ → ℕ → Metric

pub record MetricsCollector : Type 0 where
  pub counters : Dict ℕ
  pub histograms : Dict Histogram
  pub told : List Metric

abbrev pub or_zero : Option ℕ → ℕ
or_zero none = 0
or_zero (some n) = n

-- `increment`
unfoldable pub increment : String → ℕ → MetricsCollector → MetricsCollector
increment name value c =
    let current = or_zero (lookup name c.counters) in
    record c {
      counters = insert name (current + value) c.counters;
      told = counter_metric name (current + value) value ∷ c.told;
    }

-- `if (value < hist.min) hist.min = value`, and the same for the maximum
abbrev pub lower : ℕ → Option ℕ → Option ℕ
lower v none = some v
lower v (some m) = if ltb v m then some v else some m

abbrev pub raise : ℕ → Option ℕ → Option ℕ
raise v none = some v
raise v (some m) = if ltb m v then some v else some m

abbrev pub or_fresh : Option Histogram → Histogram
or_fresh none = record { count = 0; sum = 0; min = none; max = none }
or_fresh (some h) = h

abbrev pub add_value : ℕ → Histogram → Histogram
add_value v h = record {
  count = h.count + 1;
  sum = h.sum + v;
  min = lower v h.min;
  max = raise v h.max;
}

-- `record`; `none` is a value that is not finite.
unfoldable pub record_value : String → Option ℕ → MetricsCollector → MetricsCollector
record_value name none c = c
record_value name (some v) c =
    let hist = add_value v (or_fresh (lookup name c.histograms)) in
    record c {
      histograms = insert name hist c.histograms;
      told = histogram_metric name v hist.count ∷ c.told;
    }

-- `reset`
unfoldable pub reset : MetricsCollector → MetricsCollector
reset c = record c { counters = []; histograms = [] }

-- `avg` is the fraction `sum / count`.
pub record Summary : Type 0 where
  pub count : ℕ
  pub sum : ℕ
  pub min : ℕ
  pub max : ℕ
  pub avg : ℕ × ℕ

abbrev pub average : ℕ → ℕ → ℕ × ℕ
average sum zero = (0, 1)
average sum (suc n) = (sum, suc n)

abbrev pub summary_of : Histogram → Summary
summary_of h = record {
  count = h.count;
  sum = h.sum;
  min = or_zero h.min;
  max = or_zero h.max;
  avg = average h.sum h.count;
}

-- The histograms of `snapshot`; its counters are copied as they are.
unfoldable pub summaries : Dict Histogram → Dict Summary
summaries [] = []
summaries ((name, h) ∷ m) = (name, summary_of h) ∷ summaries m

unfoldable pub snapshot : MetricsCollector → Dict ℕ × Dict Summary
unfolding summaries
snapshot c = (c.counters, summaries c.histograms)
