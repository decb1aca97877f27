-- ===== src/Tests/Data.antt =====
-- Concrete configurations, points and windows. Whole numbers stand for `double` and `long double`.
use time_series_engine.Base.{
  ◌+◌, ◌*◌, sub_ℕ, pos_part, neg_part, ℤ, pos, negsuc, ◌+ℤ◌, ◌-ℤ◌, leb_ℤ, ltb_ℤ, true, false, none,
  some, [], ◌∷◌,
}
use time_series_engine.Floating.{Floating, Extended}
use time_series_engine.Types.{
  Timestamp, RawTimeseriesPoint, TimeseriesValue, TimeseriesIngestData, RuntimeInstanceConfig,
  SeriesKind, RuntimeConfigSnapshot,
}
use time_series_engine.Registry.{RuntimeConfigRegistry}
use time_series_engine.Window.{SequenceWindow}

instance unfoldable pub whole : Floating ℤ
whole = record {
  is_finite = λ d. true;
  of_int = λ i. i;
  zero = pos 0;
  add = λ a b. a +ℤ b;
  mul = λ a b.
      sub_ℕ (pos_part a * pos_part b + neg_part a * neg_part b)
        (pos_part a * neg_part b + neg_part a * pos_part b);
  infinity = pos 1000000000;
  negative_infinity = negsuc 1000000000;
  le = λ a b. leb_ℤ a b;
  lt = λ a b. ltb_ℤ a b;
}

instance unfoldable pub whole_sums : Extended ℤ ℤ
whole_sums = record {
  zero = pos 0;
  widen = λ d. d;
  add = λ a b. a +ℤ b;
  sub = λ a b. a -ℤ b;
  average = λ a n. a;
}

abbrev pub empty_registry : RuntimeConfigRegistry ℤ
empty_registry = record {
  instance_configs = [];
  external_sequence_index = [];
  constraints = [];
  relations = [];
  derived_series = [];
}

abbrev pub temperature : RuntimeInstanceConfig
temperature = record {
  sequence_id = "s1";
  data_source_id = "plc";
  external_sequence_id = "t";
  category_id = "";
  data_type = "int64";
  series_kind = SeriesKind.continuous;
  project_id = "";
}

abbrev pub snapshot : RuntimeConfigSnapshot RuntimeInstanceConfig
snapshot = record { items = temperature ∷ []; project_id = "a" }

abbrev pub point_at : Timestamp → ℤ → RawTimeseriesPoint ℤ
point_at t v = record {
  time = t;
  sequence_id = "s1";
  value = TimeseriesValue.int64 v;
  project_id = "a";
}

abbrev pub reading : TimeseriesIngestData ℤ
reading = record {
  sequence_id = none;
  data_source_id = "plc";
  external_sequence_id = "t";
  time = pos 5;
  value = TimeseriesValue.int64 (pos 7);
  project_id = "a";
}

-- Times 1 and 3 in the vector, a correction of 3 and a late 2 aside.
abbrev pub hot : SequenceWindow ℤ ℤ
hot = record {
  points = point_at (pos 1) (pos 10) ∷ point_at (pos 3) (pos 30) ∷ [];
  late_points = (pos 2, point_at (pos 2) (pos 20)) ∷ (pos 3, point_at (pos 3) (pos 31)) ∷ [];
  active_begin = 0;
  latest_time = some (pos 3);
  statistics_valid = false;
  statistics_count = 0;
  statistics_non_numeric_count = 0;
  statistics_sum = pos 0;
  statistics_minimum = [];
  statistics_maximum = [];
}
