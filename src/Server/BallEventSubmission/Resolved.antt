-- ===== src/Server/BallEventSubmission/Resolved.antt =====
-- Proofs about unresolvedBallEventSubmissionMessage.
use volleyball_monitoring_ai.Base.{
  ℕ, suc, ◌≡◌, refl, ◌↔◌, true, false, List, [], ◌∷◌, Option, none, some, All, Bool-cases, inl, inr,
  ◌⊎◌, Option-cases, arith,
}
use volleyball_monitoring_ai.Base.Text.{Text}
use volleyball_monitoring_ai.Contracts.BallEvent.{
  BallEventKind, serve, receive, contact, spike, BallEventResult, BallEventValue,
}
use volleyball_monitoring_ai.Server.BallEventSubmission.{
  SubmissionBallEventPoint, is_resolved, unresolved_from, message_of,
  unresolved_ball_event_submission_message,
}

-- If the point has an event, it is a contact or has a result.
abbrev pub IsResolved : SubmissionBallEventPoint → Type 0
IsResolved p =
    (event : BallEventValue)
    → p.ball_event ≡ some event
    → (event.kind ≡ contact) ⊎ ((result : BallEventResult) × (event.result ≡ some result))

false-ne-true : false ≡ true → ⊥
false-ne-true h = cc

event-resolved :
    (kind : BallEventKind) (result : Option BallEventResult) (event : BallEventValue)
    → event.kind ≡ kind
    → event.result ≡ result
    → is_resolved (some event) ≡ true
    → (kind ≡ contact) ⊎ ((r : BallEventResult) × (result ≡ some r))
unfolding is_resolved
event-resolved contact result event ek er h = inl refl
event-resolved kind (some r) event ek er h = inr (r, refl)
event-resolved serve none event ek er h = absurd (false-ne-true (rw (ek, er) at h))
event-resolved receive none event ek er h = absurd (false-ne-true (rw (ek, er) at h))
event-resolved spike none event ek er h = absurd (false-ne-true (rw (ek, er) at h))

is_resolved-IsResolved :
    (p : SubmissionBallEventPoint) → is_resolved p.ball_event ≡ true → IsResolved p
is_resolved-IsResolved p h event e =
    event-resolved event.kind event.result event refl refl (rw e at h)

resolved-event :
    (event : BallEventValue)
    → (event.kind ≡ contact) ⊎ ((r : BallEventResult) × (event.result ≡ some r))
    → is_resolved (some event) ≡ true
unfolding is_resolved
resolved-event event (inl h) = rw h refl
resolved-event event (inr (r, h)) = ground (arith, h)

IsResolved-is_resolved :
    (p : SubmissionBallEventPoint) → IsResolved p → is_resolved p.ball_event ≡ true
unfolding is_resolved
IsResolved-is_resolved p h = elim (Option-cases p.ball_event) [
  | inl missing ↦ rw missing refl
  | inr (event, there) ↦ rw there (resolved-event event (h event there))
]

unresolved_from-IsResolved :
    (all_points : List SubmissionBallEventPoint) (i : ℕ) (points : List SubmissionBallEventPoint)
    → unresolved_from all_points i points ≡ []
    → All IsResolved points
unfolding unresolved_from
unresolved_from-IsResolved all_points i [] h = tt
unresolved_from-IsResolved all_points i (p ∷ points) h =
    elim (Bool-cases (is_resolved p.ball_event)) [
      | inl resolved ↦ (
        is_resolved-IsResolved p resolved,
        unresolved_from-IsResolved all_points (suc i) points (rw (unresolved_from, resolved) at h),
      )
      | inr open_one ↦ absurd (cons-ne-nil (rw (unresolved_from, open_one) at h))
    ]
  where
    cons-ne-nil : {t : Text} {texts : List Text} → ◌≡◌ {A = List Text} (t ∷ texts) [] → ⊥
    cons-ne-nil e = cc

IsResolved-unresolved_from :
    (all_points : List SubmissionBallEventPoint) (i : ℕ) (points : List SubmissionBallEventPoint)
    → All IsResolved points
    → unresolved_from all_points i points ≡ []
unfolding unresolved_from
IsResolved-unresolved_from all_points i [] h = refl
IsResolved-unresolved_from all_points i (p ∷ points) (resolved, h) =
    rw
      (
        unresolved_from,
        IsResolved-is_resolved p resolved,
        IsResolved-unresolved_from all_points (suc i) points h,
      )
      refl

message_of-none : (texts : List Text) → message_of texts ≡ none → texts ≡ []
unfolding message_of
message_of-none [] h = refl
message_of-none (t ∷ texts) h = cc

-- No message is made exactly if each event that is there is a contact or has a result.
pub unresolved_ball_event_submission_message_iff :
    (points : List SubmissionBallEventPoint)
    → (unresolved_ball_event_submission_message points ≡ none) ↔ All IsResolved points
unfolding unresolved_ball_event_submission_message
unresolved_ball_event_submission_message_iff points = (
  λ h.
      unresolved_from-IsResolved points 0 points
        (message_of-none (unresolved_from points 0 points) h),
  λ h. rw (message_of, IsResolved-unresolved_from points 0 points h) refl,
)
