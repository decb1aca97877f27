-- ===== src/Types/Values.antt =====
-- types.hpp: values, points, batches, raw and aligned windows.
use time_series_engine.Base.{ℤ, Bool, String, Option, List}
use time_series_engine.Base.Assoc.{Table}

abbrev pub Timestamp : Type 0
Timestamp = ℤ

abbrev pub ProjectId : Type 0
ProjectId = String

abbrev pub SequenceId : Type 0
SequenceId = String

pub data TimeseriesValue (D : Type 0) : Type 0 where
  double : D → TimeseriesValue D
  int64 : ℤ → TimeseriesValue D
  boolean : Bool → TimeseriesValue D
  text : String → TimeseriesValue D

pub data TimeseriesValueKind : Type 0 where
  unknown double int64 boolean text : TimeseriesValueKind

pub record TimeseriesIngestData (D : Type 0) : Type 0 where
  pub sequence_id : Option SequenceId
  pub data_source_id : String
  pub external_sequence_id : String
  pub time : Timestamp
  pub value : TimeseriesValue D
  pub project_id : ProjectId

pub record RawTimeseriesPoint (D : Type 0) : Type 0 where
  pub time : Timestamp
  pub sequence_id : SequenceId
  pub value : TimeseriesValue D
  pub project_id : ProjectId

pub record TimeseriesBatch (D : Type 0) : Type 0 where
  pub points : List (RawTimeseriesPoint D)
  pub project_id : ProjectId

pub record WindowData (D : Type 0) : Type 0 where
  pub window_start_time : Timestamp
  pub window_end_time : Timestamp
  pub sequence_values : Table (List (RawTimeseriesPoint D))
  pub project_id : ProjectId

pub record AlignedSample (D : Type 0) : Type 0 where
  pub time : Timestamp
  pub values : Table (TimeseriesValue D)

pub record AlignedWindowData (D : Type 0) : Type 0 where
  pub window_start_time : Timestamp
  pub window_end_time : Timestamp
  pub samples : List (AlignedSample D)
  pub project_id : ProjectId
