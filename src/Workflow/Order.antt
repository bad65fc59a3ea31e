-- ===== src/Workflow/Order.antt =====
-- A workflow goes through the stages of its profile in their order, and no gate is passed over.
use personal_ai_model.Prelude.{
  ℕ, suc, sym, ap, ◌≡◌, refl, Bool, true, false, not, ◌&&◌, ◌||◌, Option, none, some, arith, inl,
  inr, get_elem?, Option-cases, Bool-cases,
}
use personal_ai_model.Prelude.Text.{Text}
use personal_ai_model.Prelude.Result.{ok}
use personal_ai_model.Workflow.{
  WorkflowStage, Profile, WorkflowStatus, Review, Verification, Workflow, fast, standard,
  high_assurance, design_approval, planning, implementation, specification_review, quality_review,
  verification, final_approval, profile_stages,
}
use personal_ai_model.Workflow.Gates.{move_next, moved_record, is_last}

-- Where a stage stands in its profile; a stage that the profile lacks stands behind its end.
abbrev pub position : Profile → WorkflowStage → ℕ
position fast implementation = 0
position fast verification = 1
position fast WorkflowStage.completed = 2
position fast _ = 3
position _ design_approval = 0
position _ planning = 1
position _ implementation = 2
position _ specification_review = 3
position _ quality_review = 4
position _ verification = 5
position standard WorkflowStage.completed = 6
position standard final_approval = 7
position high_assurance final_approval = 6
position high_assurance WorkflowStage.completed = 7

abbrev pub is_fast : Profile → Bool
is_fast fast = true
is_fast _ = false

-- The stages behind each gate.
abbrev pub behind_specification : WorkflowStage → Bool
behind_specification quality_review = true
behind_specification verification = true
behind_specification final_approval = true
behind_specification WorkflowStage.completed = true
behind_specification _ = false

abbrev pub behind_quality : WorkflowStage → Bool
behind_quality verification = true
behind_quality final_approval = true
behind_quality WorkflowStage.completed = true
behind_quality _ = false

abbrev pub behind_verification : WorkflowStage → Bool
behind_verification final_approval = true
behind_verification WorkflowStage.completed = true
behind_verification _ = false

abbrev pub is_specification : WorkflowStage → Bool
is_specification specification_review = true
is_specification _ = false

abbrev pub is_quality : WorkflowStage → Bool
is_quality quality_review = true
is_quality _ = false

abbrev pub is_verification : WorkflowStage → Bool
is_verification verification = true
is_verification _ = false

abbrev pub has_passed : Option Review → Bool
has_passed none = false
has_passed (some v) = v.passed

abbrev pub has_succeeded : Option Verification → Bool
has_succeeded none = false
has_succeeded (some v) = v.success

-- The gates that the workflow has behind it were passed.
abbrev pub gates_passed : Workflow → WorkflowStage → Bool
gates_passed r s =
    (is_fast r.profile || not (behind_specification s) || has_passed r.specification_review)
    && (is_fast r.profile || not (behind_quality s) || has_passed r.quality_review)
    && (not (behind_verification s) || has_succeeded r.verification)

abbrev pub is_done : WorkflowStatus → Bool
is_done WorkflowStatus.completed = true
is_done _ = false

-- The gate of the current stage, if it is one, has been passed.
abbrev pub may_leave : Workflow → Bool
may_leave r =
    (not (is_specification r.current_stage) || has_passed r.specification_review)
    && (not (is_quality r.current_stage) || has_passed r.quality_review)
    && (not (is_verification r.current_stage) || has_succeeded r.verification)

-- The record is at a stage of its profile, with its gates passed.
pub record InOrder (r : Workflow) : Type 0 where
  pub planned : r.stages ≡ profile_stages r.profile
  pub at_stage : get_elem? (profile_stages r.profile) r.stage_index ≡ some r.current_stage
  pub stage_position : r.stage_index ≡ position r.profile r.current_stage
  pub gated : gates_passed r r.current_stage ≡ true
  pub ends_last : (not (is_done r.status) || is_last r.current_stage) ≡ true

next-position :
    (p : Profile) (s t : WorkflowStage)
    → get_elem? (profile_stages p) (suc (position p s)) ≡ some t
    → position p t ≡ suc (position p s)
next-position fast s t h = ground arith
next-position standard s t h = ground arith
next-position high_assurance s t h = ground arith

-- The gate that stands between a stage and the next one.
next-specification :
    (p : Profile) (s t : WorkflowStage)
    → get_elem? (profile_stages p) (suc (position p s)) ≡ some t
    → behind_specification t ≡ true
    → (is_fast p || behind_specification s || is_specification s) ≡ true
next-specification fast s t h b = refl
next-specification standard s t h b = ground arith
next-specification high_assurance s t h b = ground arith

next-quality :
    (p : Profile) (s t : WorkflowStage)
    → get_elem? (profile_stages p) (suc (position p s)) ≡ some t
    → behind_quality t ≡ true
    → (is_fast p || behind_quality s || is_quality s) ≡ true
next-quality fast s t h b = refl
next-quality standard s t h b = ground arith
next-quality high_assurance s t h b = ground arith

next-verification :
    (p : Profile) (s t : WorkflowStage)
    → get_elem? (profile_stages p) (suc (position p s)) ≡ some t
    → behind_verification t ≡ true
    → (behind_verification s || is_verification s) ≡ true
next-verification fast s t h b = ground arith
next-verification standard s t h b = ground arith
next-verification high_assurance s t h b = ground arith

next-last :
    (p : Profile) (s t : WorkflowStage)
    → get_elem? (profile_stages p) (suc (position p s)) ≡ some t
    → is_last s ≡ false
next-last fast s t h = ground arith
next-last standard s t h = ground arith
next-last high_assurance s t h = ground arith

-- Behind every stage but the last there is another one.
next-none :
    (p : Profile) (s : WorkflowStage)
    → get_elem? (profile_stages p) (position p s) ≡ some s
    → get_elem? (profile_stages p) (suc (position p s)) ≡ none
    → is_last s ≡ true
next-none fast s h g = ground arith
next-none standard s h g = ground arith
next-none high_assurance s h g = ground arith

moved_record-InOrder :
    (now kind detail : Text) (r : Workflow) (t : WorkflowStage)
    → InOrder r
    → may_leave r ≡ true
    → get_elem? r.stages (suc r.stage_index) ≡ some t
    → InOrder (moved_record now kind detail r t)
moved_record-InOrder now kind detail r t o leaves h =
    let g : get_elem? (profile_stages r.profile) (suc (position r.profile r.current_stage))
        ≡ some t =
      rw (sym o.planned, sym o.stage_position) h in
    record {
      planned = o.planned;
      at_stage = rw (sym o.planned) h;
      stage_position = rw (next-position r.profile r.current_stage t g) (ap suc o.stage_position);
      gated = ground (
        arith,
        o.gated,
        leaves,
        next-specification r.profile r.current_stage t g,
        next-quality r.profile r.current_stage t g,
        next-verification r.profile r.current_stage t g,
      );
      ends_last = elim (Bool-cases (is_last t)) [
        | inl e ↦ rw (e) refl
        | inr e ↦ rw (e) (ground (arith, o.ends_last, next-last r.profile r.current_stage t g))
      ];
    }

-- A move from a stage that is not the last one always finds the next.
pub move_next-InOrder :
    (now kind detail : Text) (r : Workflow)
    → InOrder r
    → may_leave r ≡ true
    → is_last r.current_stage ≡ false
    → (r' : Workflow) × (move_next now kind detail r ≡ ok r') × InOrder r'
unfolding move_next
move_next-InOrder now kind detail r o leaves n =
    elim (Option-cases (get_elem? r.stages (suc r.stage_index))) [
      | inl e ↦ absurd (
          ground (
            arith,
            n,
            next-none r.profile r.current_stage (rw (sym o.stage_position) o.at_stage)
                (rw (sym o.planned, sym o.stage_position) e),
          ))
      | inr (t, e) ↦ (
        moved_record now kind detail r t,
        rw (move_next, e) refl,
        moved_record-InOrder now kind detail r t o leaves e,
      )
    ]

-- What a call that stays within its stage may change.
abbrev pub Marked : Workflow → Workflow → Type 0
Marked r w =
    (w.profile ≡ r.profile)
    × (w.stages ≡ r.stages)
    × (w.stage_index ≡ r.stage_index)
    × (w.current_stage ≡ r.current_stage)
    × (gates_passed w w.current_stage ≡ true)
    × (is_done w.status ≡ false)

pub Marked-InOrder : (r w : Workflow) → InOrder r → Marked r w → InOrder w
Marked-InOrder r w o m = record {
  planned = cc o.planned;
  at_stage = rw (m.0, m.2, m.3) o.at_stage;
  stage_position = rw (m.0, m.2, m.3) o.stage_position;
  gated = m.4;
  ends_last = ground arith;
}
