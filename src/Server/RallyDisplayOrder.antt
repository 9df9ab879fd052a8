-- ===== src/Server/RallyDisplayOrder.antt =====
-- server/src/domain/rally-display-order.ts: the capture time at which a rally starts. Absent
-- boundaries or key points lead to the same as none.
use volleyball_monitoring_ai.Base.{List, [], ◌∷◌, Option, none, some, find, if◌then◌else◌}
use volleyball_monitoring_ai.Base.Text.{Text, codes, text_eq}
use volleyball_monitoring_ai.Base.Int.{ℤ, ltb_ℤ}
use volleyball_monitoring_ai.Base.Words.{to_upper_case}

pub record BoundaryRow : Type 0 where
  pub capture_time_us : ℤ
  pub kind : Text

pub record KeyPointRow : Type 0 where
  pub capture_time_us : ℤ
  pub marker_kind : Text

-- `keyPoints.reduce(…, null)`
unfoldable pub earliest_key_point : Option ℤ → List KeyPointRow → Option ℤ
earliest_key_point earliest [] = earliest
earliest_key_point none (point ∷ points) = earliest_key_point (some point.capture_time_us) points
earliest_key_point (some earliest) (point ∷ points) =
    earliest_key_point
      (some (if ltb_ℤ point.capture_time_us earliest then point.capture_time_us else earliest))
      points

unfoldable pub segment_start_capture_time_us : List BoundaryRow → List KeyPointRow → Option ℤ
unfolding to_upper_case text_eq earliest_key_point
segment_start_capture_time_us boundaries key_points =
    elim (find (λ boundary. text_eq (to_upper_case boundary.kind) (codes "START")) boundaries) [
      | some start_boundary ↦ some start_boundary.capture_time_us
      | none ↦
          elim (find (λ point. text_eq (to_upper_case point.marker_kind) (codes "SERVICE"))
            key_points) [
              | some legacy_start ↦ some legacy_start.capture_time_us
              | none ↦ earliest_key_point none key_points
            ]
    ]
