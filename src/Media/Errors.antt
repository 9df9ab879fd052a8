-- ===== src/Media/Errors.antt =====
-- The errors that packages/media throws, by their codes. The messages are for people and are left
-- out.
pub data SampleIndexErrorCode : Type 0 where
  invalid_time_base invalid_frame invalid_document invalid_range : SampleIndexErrorCode
  non_monotonic empty_index : SampleIndexErrorCode

pub data ResolveErrorCode : Type 0 where
  window_boundary sample_not_found capture_gap invalid_segment_set : ResolveErrorCode

pub data CaptureEpochPlannerErrorCode : Type 0 where
  invalid_config invalid_segment invalid_persisted_head : CaptureEpochPlannerErrorCode
  order_conflict duplicate_conflict gap_conflict int32_exhausted : CaptureEpochPlannerErrorCode

-- What a function of the package can throw: one of its three error classes, or a plain `Error`.
pub data MediaError : Type 0 where
  sample_index_error : SampleIndexErrorCode → MediaError
  resolver_error : ResolveErrorCode → MediaError
  planner_error : CaptureEpochPlannerErrorCode → MediaError
  plain_error : MediaError
