-- ===== src/Web/AnnotationQueue/Ack/Newest.antt =====
-- Proofs about the revisions of `applyAnnotationAckLocally`, web/app/lib/annotationCommandQueue.ts,
-- called for one acknowledgement after the other.
use volleyball_monitoring_ai.Base.{
  ◌≡◌, refl, ap, subst, ◌∙◌, true, false, List, [], ◌∷◌, Option, some, All, arith, inl, inr,
  Bool-cases,
}
use volleyball_monitoring_ai.Base.Text.{Text, text_eq}
use volleyball_monitoring_ai.Base.Int.{ℤ, leb_ℤ}
use volleyball_monitoring_ai.Base.Decimal.{of_decimal}
use volleyball_monitoring_ai.Contracts.AnnotationCommand.{AnnotationCommand}
use volleyball_monitoring_ai.Contracts.AnnotationSnapshot.{AnnotationRallySnapshot}
use volleyball_monitoring_ai.Contracts.AnnotationAck.{AnnotationCommandAck}
use volleyball_monitoring_ai.Web.AnnotationQueue.{starts_rally}
use volleyball_monitoring_ai.Web.AnnotationQueue.Ack.{
  apply_annotation_ack_locally, apply_to_confirmed, confirmed_next, is_stale, with_effects,
  created_id,
}
use volleyball_monitoring_ai.Web.AnnotationQueue.Ack.Kept.{start_of-none, confirmed_next-SameRally}

-- A command with its acknowledgement.
pub record Acknowledged : Type 0 where
  pub command : AnnotationCommand
  pub ack : AnnotationCommandAck

abbrev pub StartsNone : Acknowledged → Type 0
StartsNone step = starts_rally step.command.payload ≡ false

-- The revision is at least the acknowledged one, if that is one of the rally.
abbrev pub IsCovered : Text → Text → Acknowledged → Type 0
IsCovered rally_id revision step =
    text_eq rally_id step.ack.rally_id ≡ true
    → leb_ℤ (of_decimal step.ack.result_revision) (of_decimal revision) ≡ true

-- The acknowledgements one after the other.
abbrev pub acknowledge_all :
    (Text → Text → ℤ)
    → Option AnnotationRallySnapshot
    → List Acknowledged
    → Option AnnotationRallySnapshot
acknowledge_all locale_compare confirmed [] = confirmed
acknowledge_all locale_compare confirmed (step ∷ steps) =
    acknowledge_all locale_compare
      (apply_annotation_ack_locally locale_compare confirmed step.command step.ack) steps

-- The later snapshot is one of the same rally, at no lower revision, and covers the acknowledgements.
pub record IsNewest (s t : AnnotationRallySnapshot) (steps : List Acknowledged) : Type 0 where
  pub same_rally : t.rally_id ≡ s.rally_id
  pub no_lower : leb_ℤ (of_decimal s.revision) (of_decimal t.revision) ≡ true
  pub covers : All (IsCovered s.rally_id t.revision) steps

leb_ℤ_refl : (a : ℤ) → leb_ℤ a a ≡ true
leb_ℤ_refl a = ground arith

leb_ℤ_trans : (a b c : ℤ) → leb_ℤ a b ≡ true → leb_ℤ b c ≡ true → leb_ℤ a c ≡ true
leb_ℤ_trans a b c h k = ground arith

leb_ℤ_of_not : (a b : ℤ) → leb_ℤ a b ≡ false → leb_ℤ b a ≡ true
leb_ℤ_of_not a b h = ground arith

module _ (locale_compare : Text → Text → ℤ) where
  apply_to_confirmed-IsNewest :
      (command : AnnotationCommand) (ack : AnnotationCommandAck) (s : AnnotationRallySnapshot)
      → (t : AnnotationRallySnapshot) × (apply_to_confirmed locale_compare command ack (some s)
          ≡ some t)
        × IsNewest s t (record { command = command; ack = ack } ∷ [])
  unfolding apply_to_confirmed is_stale with_effects
  apply_to_confirmed-IsNewest command ack s = elim (Bool-cases (is_stale ack s)) [
    | inl stale ↦ (
      s,
      rw stale refl,
      record {
        same_rally = refl;
        no_lower = leb_ℤ_refl (of_decimal s.revision);
        covers = ((λ own. rw own at stale), tt);
      },
    )
    | inr fresh ↦
        let next = confirmed_next locale_compare command ack s in
        let same = confirmed_next-SameRally locale_compare command ack s in
        let newer : leb_ℤ (of_decimal ack.result_revision) (of_decimal s.revision) ≡ false =
          ground arith in
        (
          next,
          rw fresh refl,
          record {
            same_rally = same.0;
            no_lower =
                ap (λ r. leb_ℤ (of_decimal s.revision) (of_decimal r)) same.1
                ∙ leb_ℤ_of_not (of_decimal ack.result_revision) (of_decimal s.revision) newer;
            covers = (
              λ own.
                  ap (λ r. leb_ℤ (of_decimal ack.result_revision) (of_decimal r)) same.1
                  ∙ leb_ℤ_refl (of_decimal ack.result_revision),
              tt,
            );
          },
        )
  ]

  apply_annotation_ack_locally-IsNewest :
      (step : Acknowledged) (s : AnnotationRallySnapshot)
      → StartsNone step
      → (t : AnnotationRallySnapshot) × (apply_annotation_ack_locally locale_compare
            (some s)
            step.command
            step.ack
          ≡ some t)
        × IsNewest s t (step ∷ [])
  unfolding apply_annotation_ack_locally
  apply_annotation_ack_locally-IsNewest step s starts =
      rw
        (
          apply_annotation_ack_locally,
          start_of-none locale_compare step.command step.ack step.command.payload
              step.ack.resolved_anchor step.ack.effects.boundary_kind (created_id step.ack.effects)
              starts,
        )
        (apply_to_confirmed-IsNewest step.command step.ack s)

  -- Any sequence of acknowledgements of commands that start no rally, in any order, leaves a confirmed
  -- snapshot of the same rally, whose revision is no lower than before and no lower than that of any
  -- acknowledgement of the rally.
  pub acknowledge_all-IsNewest :
      (steps : List Acknowledged) (s : AnnotationRallySnapshot)
      → All StartsNone steps
      → (t : AnnotationRallySnapshot) × (acknowledge_all locale_compare (some s) steps ≡ some t)
        × IsNewest s t steps
  acknowledge_all-IsNewest [] s starts = (
    s,
    refl,
    record { same_rally = refl; no_lower = leb_ℤ_refl (of_decimal s.revision); covers = tt },
  )
  acknowledge_all-IsNewest (step ∷ steps) s (first, others) =
      let (next, applied, newer) = apply_annotation_ack_locally-IsNewest step s first in
      let (last, finished, newest) = acknowledge_all-IsNewest steps next others in
      (
        last,
        rw applied finished,
        record {
          same_rally = newest.same_rally ∙ newer.same_rally;
          no_lower =
              leb_ℤ_trans (of_decimal s.revision) (of_decimal next.revision)
                (of_decimal last.revision) newer.no_lower newest.no_lower;
          covers = (
            λ own.
                leb_ℤ_trans (of_decimal step.ack.result_revision) (of_decimal next.revision)
                  (of_decimal last.revision) (newer.covers.0 own) newest.no_lower,
            subst (λ r. All (IsCovered r last.revision) steps) newer.same_rally newest.covers,
          );
        },
      )
