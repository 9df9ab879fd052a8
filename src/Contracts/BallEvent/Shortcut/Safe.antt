-- ===== src/Contracts/BallEvent/Shortcut/Safe.antt =====
-- Proofs about decideBallEventShortcut of packages/contracts/src/ball-event.ts.
use volleyball_monitoring_ai.Base.{
  ℕ, zero, suc, ◌≤◌, ◌≡◌, ◌≢◌, ◌∙◌, refl, sym, subst, List, [], ◌∷◌, Option, none, some, ◌||◌, ltb,
  find, get_elem?, keep, length, arith, Bool-cases, inl, inr, Option-cases,
}
use mathlib.Core.Option.{some-injective}
use volleyball_monitoring_ai.Base.Text.{Text, text_eq, eq_of_text_eq}
use volleyball_monitoring_ai.Base.Int.{ℤ, pos, leb_ℤ}
use volleyball_monitoring_ai.Contracts.BallEvent.{
  spike, BallEventValue, BallEventRuleAnchor, BallEventRulePoint, BallEventRuleBoundary,
  NormalizedBallEventPoint, compare_anchor, is_before, is_behind, is_start, is_end,
  normalized_event, required_kind, kind_of, result_for, serve_style_for, is_same_kind,
  is_ball_event_result_valid, normalize_ball_event_key_points,
}
use volleyball_monitoring_ai.Contracts.BallEvent.Idempotent.{Inside}
use volleyball_monitoring_ai.Contracts.BallEvent.Shortcut.{
  ShortcutMode, create, update, BallEventShortcutReason, allowed, refused, shortcut_event,
  find_point, selected, decide_at, decide_update, decide_create, count_up_to,
  decide_ball_event_shortcut,
}

-- The event is a spike at the third place or later, and the normalization leaves it as it is there.
pub record IsKept (ordinal : ℕ) (event : BallEventValue) : Type 0 where
  pub place : ℕ
  pub is_place : ordinal ≡ suc place
  pub is_third : 2 ≤ place
  pub is_spike : event.kind ≡ spike
  pub is_stable : normalized_event place (some event) ≡ event

shortcut_event-stable : (i : ℕ) → 2 ≤ i → normalized_event i (some shortcut_event) ≡ shortcut_event
unfolding normalized_event required_kind kind_of result_for serve_style_for is_same_kind
    is_ball_event_result_valid shortcut_event
shortcut_event-stable zero h = absurd (omega arith)
shortcut_event-stable (suc zero) h = absurd (omega arith)
shortcut_event-stable (suc (suc i)) h = refl

shortcut_event-spike : shortcut_event.kind ≡ spike
unfolding shortcut_event
shortcut_event-spike = refl

cons-ne-nil : {c : ℕ} {s : Text} → c ∷ s ≡ [] → ⊥
cons-ne-nil h = cc

refused-ne-allowed :
    {m m' : ShortcutMode} {k k' : Option Text} {o : Option ℕ} {r : BallEventShortcutReason} {o' : ℕ}
    {e' : BallEventValue}
    → refused m k o r ≡ allowed m' k' o' e'
    → ⊥
refused-ne-allowed h = cc

allowed-injective :
    {m m' : ShortcutMode} {k k' : Option Text} {o o' : ℕ} {e e' : BallEventValue}
    → allowed m k o e ≡ allowed m' k' o' e'
    → (m ≡ m') × (k ≡ k') × (o ≡ o') × (e ≡ e')
allowed-injective h = (cc, cc, cc, cc)

decide_at-IsKept :
    (mode mode' : ShortcutMode) (id id' : Option Text) (i ordinal : ℕ) (event : BallEventValue)
    → decide_at mode id (suc i) ≡ allowed mode' id' ordinal event
    → (mode ≡ mode') × (id ≡ id') × (ordinal ≡ suc i) × IsKept ordinal event
unfolding decide_at
decide_at-IsKept mode mode' id id' i ordinal event h = elim (Bool-cases (ltb (suc i) 3)) [
  | inl early ↦ absurd (refused-ne-allowed (rw early at h))
  | inr late ↦
      let (m, k, o, e) = allowed-injective (rw late at h) in
      (
        m,
        k,
        sym o,
        record {
          place = i;
          is_place = sym o;
          is_third = ground arith;
          is_spike = rw (← e) shortcut_event-spike;
          is_stable = rw (← e) (shortcut_event-stable i (ground arith));
        },
      )
]

-- The selected identity, which is neither missing nor empty.
abbrev pub IsSelected : Option Text → Text → Type 0
IsSelected selection id = (selection ≡ some id) × (id ≢ [])

-- No point is selected.
abbrev pub IsUnselected : Option Text → Type 0
IsUnselected selection = (id : Text) → IsSelected selection id → ⊥

-- What an allowed decision is about, for a selection: the selected point, at the ordinal's place, or, if
-- none is selected, a new point at the candidate anchor, which lies between the boundaries, at the
-- place behind the points that do not lie behind it.
pub data Target (points : List NormalizedBallEventPoint) (boundaries : List BallEventRuleBoundary)
    (selection : Option Text) (candidate : Option BallEventRuleAnchor)
    : ShortcutMode → Option Text → ℕ → Type 0 where
  at_selected :
      {key_point_id : Text} {place : ℕ} (point : NormalizedBallEventPoint)
      → IsSelected selection key_point_id
      → get_elem? points place ≡ some point
      → point.key_point_id ≡ key_point_id
      → Target points boundaries selection candidate update selection (suc place)
  at_candidate :
      {ordinal : ℕ} (anchor : BallEventRuleAnchor)
      → IsUnselected selection
      → candidate ≡ some anchor
      → Inside (find is_start boundaries) (find is_end boundaries) anchor
      → ordinal ≡ suc (length (keep (λ p. leb_ℤ (compare_anchor p.anchor anchor) (pos 0)) points))
      → Target points boundaries selection candidate create selection ordinal

selected-some :
    (selection : Option Text) (id : Text) → selected selection ≡ some id → IsSelected selection id
unfolding selected
selected-some none id e = cc
selected-some (some []) id e = cc
selected-some (some (c ∷ s)) id e =
    (e, λ empty. absurd (cons-ne-nil (some-injective _ _ e ∙ empty)))

selected-none : (selection : Option Text) → selected selection ≡ none → IsUnselected selection
unfolding selected
selected-none none e id (h, filled) = cc
selected-none (some []) e id (h, filled) = filled (sym (some-injective _ _ h))
selected-none (some (c ∷ s)) e id h = cc

none-ne-some : {i : ℕ} → ◌≡◌ {A = Option ℕ} none (some i) → ⊥
none-ne-some h = cc

find_point-place :
    (key_point_id : Text) (points : List NormalizedBallEventPoint) (i : ℕ)
    → find_point key_point_id points ≡ some i
    → (p : NormalizedBallEventPoint) × (get_elem? points i ≡ some p)
      × (p.key_point_id ≡ key_point_id)
unfolding find_point
find_point-place key_point_id [] i h = cc
find_point-place key_point_id (x ∷ points) i h =
    elim (Bool-cases (text_eq x.key_point_id key_point_id)) [
      | inl same ↦
          rw (← some-injective _ _ (rw same at h))
            (x, refl, eq_of_text_eq x.key_point_id key_point_id same)
      | inr other ↦ elim (Option-cases (find_point key_point_id points)) [
        | inl missing ↦ absurd (none-ne-some (rw (other, missing) at h))
        | inr (j, found) ↦
            rw (← some-injective _ _ (rw (other, found) at h))
              (find_point-place key_point_id points j found)
      ]
    ]

decide_update-Target :
    (points : List NormalizedBallEventPoint) (boundaries : List BallEventRuleBoundary)
    (selection : Option Text) (candidate : Option BallEventRuleAnchor) (key_point_id : Text)
    (mode : ShortcutMode) (id : Option Text) (ordinal : ℕ) (event : BallEventValue)
    → IsSelected selection key_point_id
    → decide_update key_point_id (find_point key_point_id points) ≡ allowed mode id ordinal event
    → Target points boundaries selection candidate mode id ordinal × IsKept ordinal event
unfolding decide_update
decide_update-Target points boundaries selection candidate key mode id ordinal event chosen h =
    elim (Option-cases (find_point key points)) [
      | inl missing ↦ absurd (refused-ne-allowed (rw missing at h))
      | inr (i, found) ↦
          let (m, k, o, kept) =
            decide_at-IsKept update mode (some key) id i ordinal event (rw found at h) in
          let (p, is_at, named) = find_point-place key points i found in
          (
            rw (← m, ← k, o)
                (subst (λ which. Target points boundaries selection candidate update which (suc i))
                  chosen.0 (Target.at_selected p chosen is_at named)),
            kept,
          )
    ]

decide_create-Target :
    (points : List NormalizedBallEventPoint) (boundaries : List BallEventRuleBoundary)
    (candidate : Option BallEventRuleAnchor) (key_point_id : Option Text) (mode : ShortcutMode)
    (id : Option Text) (ordinal : ℕ) (event : BallEventValue)
    → IsUnselected key_point_id
    → decide_create key_point_id boundaries points candidate ≡ allowed mode id ordinal event
    → Target points boundaries key_point_id candidate mode id ordinal × IsKept ordinal event
unfolding decide_create count_up_to
decide_create-Target points boundaries none key mode id ordinal event unset h =
    absurd (refused-ne-allowed h)
decide_create-Target points boundaries (some c) key mode id ordinal event unset h =
    elim (Bool-cases
      (is_before c (find is_start boundaries) || is_behind c (find is_end boundaries))) [
        | inl out ↦ absurd (refused-ne-allowed (rw out at h))
        | inr inside ↦
            let (m, k, o, kept) =
              decide_at-IsKept create mode key id (count_up_to c points) ordinal event
                (rw inside at h) in
            (rw (← m, ← k) (Target.at_candidate c unset refl inside o), kept)
      ]

-- If the shortcut is allowed, its event is a spike at the third place of the rally or later, which
-- the normalization leaves as it is there. If a point is selected, the decision updates the selected
-- identity, and a point of that identity stands at that place; if none is selected, it creates a
-- point, whose anchor lies between the boundaries and whose place is the one behind the points that
-- do not lie behind the anchor.
pub decide_ball_event_shortcut-Target :
    (locale_compare : Text → Text → ℤ) (points : List BallEventRulePoint)
    (boundaries : List BallEventRuleBoundary) (selected_key_point_id : Option Text)
    (candidate : Option BallEventRuleAnchor) (mode : ShortcutMode) (id : Option Text) (ordinal : ℕ)
    (event : BallEventValue)
    → decide_ball_event_shortcut locale_compare points boundaries selected_key_point_id candidate
      ≡ allowed mode id ordinal event
    → Target
        (normalize_ball_event_key_points locale_compare points boundaries).points
        boundaries
        selected_key_point_id
        candidate
        mode
        id
        ordinal
      × IsKept ordinal event
unfolding decide_ball_event_shortcut
decide_ball_event_shortcut-Target locale_compare points boundaries key candidate mode id ordinal
      event h =
    let normalized = normalize_ball_event_key_points locale_compare points boundaries in
    elim (Option-cases (selected key)) [
      | inl unset ↦
          decide_create-Target normalized.points boundaries candidate key mode id ordinal event
            (selected-none key unset) (rw (decide_ball_event_shortcut, unset) at h)
      | inr (k, chosen) ↦
          decide_update-Target normalized.points boundaries key candidate k mode id ordinal event
            (selected-some key k chosen) (rw (decide_ball_event_shortcut, chosen) at h)
    ]
