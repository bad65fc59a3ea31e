-- ===== src/Workflow.antt =====
-- src/guardian_agent/workflow.py: the development lifecycle with its review and evidence gates. A record is
-- one workflow's file; `load_workflow` has found it. The built-in skills and the outcome of
-- `run_verification` are arguments; the reasons of the assessment are left out.
pub mod Gates
pub mod Order
pub mod Passed
pub mod History
mod Tests
use personal_ai_model.Prelude.{
  ℕ, suc, ◌≡◌, refl, ◌<◌, Bool, true, false, not, ◌&&◌, ◌||◌, Option, none, some, List, [], ◌∷◌,
  ◌++◌, if◌then◌else◌, length, get_elem?, ltb, arith,
}
use personal_ai_model.Prelude.Text.{Text, codes, ◌==◌, is_empty, truthy, text_or, contains, lower}
use personal_ai_model.Prelude.Result.{Result, ok, err, ◌>>=◌, ◌>>◌, raise_if}
use personal_ai_model.Core.{markdown_escape}
use personal_ai_model.Policy.{Approval, ApprovalError, Scope, consume_action_approval}

pub data WorkflowStage : Type 0 where
  design_approval planning implementation specification_review quality_review : WorkflowStage
  verification final_approval completed : WorkflowStage

pub data Profile : Type 0 where
  fast standard high_assurance : Profile

pub data Risk : Type 0 where
  auto low medium high : Risk

pub data WorkflowStatus : Type 0 where
  active blocked completed : WorkflowStatus

abbrev pub profile_stages : Profile → List WorkflowStage
profile_stages fast = implementation ∷ verification ∷ WorkflowStage.completed ∷ []
profile_stages standard =
    design_approval ∷ planning ∷ implementation ∷ specification_review ∷ quality_review
    ∷ verification ∷ WorkflowStage.completed ∷ []
profile_stages high_assurance =
    design_approval ∷ planning ∷ implementation ∷ specification_review ∷ quality_review
    ∷ verification ∷ final_approval ∷ WorkflowStage.completed ∷ []

abbrev pub high_risk_terms : List Text
high_risk_terms =
    codes "payment"
    ∷ codes "billing"
    ∷ codes "authentication"
    ∷ codes "authorization"
    ∷ codes "security"
    ∷ codes "production"
    ∷ codes "deploy"
    ∷ codes "migration"
    ∷ codes "delete"
    ∷ codes "legal"
    ∷ codes "identity"
    ∷ codes "account"
    ∷ codes "credential"
    ∷ []

abbrev pub fast_terms : List Text
fast_terms =
    codes "readme"
    ∷ codes "documentation"
    ∷ codes "typo"
    ∷ codes "comment"
    ∷ codes "status"
    ∷ codes "explain"
    ∷ []

-- any(term in text for term in terms)
unfoldable pub any_term : List Text → Text → Bool
unfolding contains
any_term [] text = false
any_term (term ∷ terms) text = contains text term || any_term terms text

abbrev is_high : Risk → Bool
is_high high = true
is_high _ = false

abbrev is_low : Risk → Bool
is_low low = true
is_low _ = false

unfoldable pub assess_profile : Text → Risk → Profile
assess_profile request risk =
    let text = lower request in
    if is_high risk || any_term high_risk_terms text
    then high_assurance
    else if is_low risk || (ltb (length request) 140 && any_term fast_terms text)
    then fast
    else standard

pub record Evidence : Type 0 where
  pub timestamp : Text
  pub stage : WorkflowStage
  pub kind : Text
  pub detail : Text

pub data ReviewType : Type 0 where
  specification quality : ReviewType

pub record Review : Type 0 where
  pub passed : Bool
  pub findings : List Text
  pub reviewed_at : Text

-- The last verification, as it is written into the record.
pub record Verification : Type 0 where
  pub success : Bool
  pub exit_code : Text
  pub command : Text
  pub verified_at : Text

-- `stages` is not rewritten, so that the current stage is the one at the index.
pub record Workflow : Type 0 where
  pub id : Text
  pub request : Text
  pub profile : Profile
  pub stages : List WorkflowStage
  pub current_stage : WorkflowStage
  pub stage_index : ℕ
  pub status : WorkflowStatus
  pub selected_skills : List Text
  pub evidence : List Evidence
  pub specification_review : Option Review
  pub quality_review : Option Review
  pub verification : Option Verification
  pub created_at : Text
  pub updated_at : Text
  pub completed_at : Option Text

-- The messages of `GuardianError`; `refused` is one of the approval queue. `out_of_stages` is
-- Python's IndexError.
pub data WorkflowError : Type 0 where
  empty_request review_required verify_required is_completed approval_required : WorkflowError
  wrong_stage out_of_stages : WorkflowError
  refused : ApprovalError → WorkflowError

abbrev pub first_stage : Profile → WorkflowStage
first_stage fast = implementation
first_stage _ = design_approval

abbrev pub new_workflow : List Text → Text → Text → Profile → Text → Workflow
new_workflow skills workflow_id request profile now = record {
  id = workflow_id;
  request = request;
  profile = profile;
  stages = profile_stages profile;
  current_stage = first_stage profile;
  stage_index = 0;
  status = active;
  selected_skills = skills;
  evidence = [];
  specification_review = none;
  quality_review = none;
  verification = none;
  created_at = now;
  updated_at = now;
  completed_at = none;
}

unfoldable pub start_workflow :
    (Text → Profile → List Text) → Text → Text → Risk → Text → Result WorkflowError Workflow
unfolding markdown_escape
start_workflow select_skills workflow_id request risk now = do
  let clean_request = markdown_escape request
  raise_if (is_empty clean_request) empty_request
  let profile = assess_profile clean_request risk
  ok (new_workflow (select_skills clean_request profile) workflow_id clean_request profile now)
