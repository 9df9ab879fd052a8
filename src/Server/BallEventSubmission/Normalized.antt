-- ===== src/Server/BallEventSubmission/Normalized.antt =====
-- Proofs about the submission of a normalized rally.
use volleyball_monitoring_ai.Base.{
  ℕ, zero, suc, ◌+◌, ◌<◌, ◌≡◌, refl, true, List, [], ◌∷◌, map, Option, some, length, arith,
}
use volleyball_monitoring_ai.Base.Text.{Text}
use volleyball_monitoring_ai.Base.Int.{ℤ}
use volleyball_monitoring_ai.Contracts.BallEvent.{
  BallEventKind, serve, receive, contact, spike, BallEventResult, BallEventValue,
  BallEventRulePoint, BallEventRuleBoundary, NormalizedBallEventPoint,
  normalize_ball_event_key_points, is_ball_event_result_valid,
}
use volleyball_monitoring_ai.Contracts.BallEvent.Rules.{
  Lawful, LawfulFrom, normalize_ball_event_key_points-LawfulFrom,
}
use volleyball_monitoring_ai.Server.BallEventSubmission.{
  SubmissionBallEventPoint, event_at, is_kind_valid, is_event_valid, is_submission_ball_event_valid,
}

-- The submission of a normalized point.
abbrev pub submitted : NormalizedBallEventPoint → SubmissionBallEventPoint
submitted n = record { ball_event = some n.event }

-- The two tests, on the parts of an event.
parts-valid :
    (i : ℕ) (kind : BallEventKind) (result : Option BallEventResult) (event : BallEventValue)
    → event.kind ≡ kind
    → event.result ≡ result
    → Lawful i event
    → is_event_valid i (some event) ≡ true
unfolding is_event_valid is_kind_valid is_ball_event_result_valid
parts-valid zero k r event ek er h = rw h.0 refl
parts-valid (suc i) serve r event ek er h = absurd (h.0 ek)
parts-valid (suc i) contact r event ek er h = rw (ek, h.2 ek) refl
parts-valid (suc i) receive r event ek er h = rw ek refl
parts-valid (suc i) spike r event ek er h = rw ek refl

LawfulFrom-valid :
    (from : ℕ) (points : List NormalizedBallEventPoint) (i : ℕ)
    → LawfulFrom from points
    → i < length points
    → is_event_valid (from + i) (event_at (map submitted points) i) ≡ true
unfolding event_at
LawfulFrom-valid from [] i h k = absurd (omega arith)
LawfulFrom-valid from (n ∷ points) zero h k =
    rw (add_zero from) (parts-valid from n.event.kind n.event.result n.event refl refl h.1)
  where
    add_zero : (a : ℕ) → a + 0 ≡ a
    add_zero a = omega arith
LawfulFrom-valid from (n ∷ points) (suc i) h k =
    rw (add_suc from i) (LawfulFrom-valid (suc from) points i h.2 (omega arith))
  where
    add_suc : (a b : ℕ) → a + suc b ≡ suc a + b
    add_suc a b = omega arith

-- Each event of a normalized rally is valid for a submission.
pub is_submission_ball_event_valid-normalized :
    (locale_compare : Text → Text → ℤ) (points : List BallEventRulePoint)
    (boundaries : List BallEventRuleBoundary) (i : ℕ)
    → i < length (normalize_ball_event_key_points locale_compare points boundaries).points
    → is_submission_ball_event_valid
        (map submitted (normalize_ball_event_key_points locale_compare points boundaries).points)
        i
      ≡ true
unfolding is_submission_ball_event_valid
is_submission_ball_event_valid-normalized locale_compare points boundaries i h =
    let (lawful, _, _) =
      normalize_ball_event_key_points-LawfulFrom locale_compare points boundaries in
    rw (zero_add i) at (
      LawfulFrom-valid 0 (normalize_ball_event_key_points locale_compare points boundaries).points i
        lawful h)
  where
    zero_add : (a : ℕ) → 0 + a ≡ a
    zero_add a = omega arith
