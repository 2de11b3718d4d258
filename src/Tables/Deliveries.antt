-- ===== src/Tables/Deliveries.antt =====
-- delivery/models.py: the proposal of a change for a mission, and how far it has come.
use ai_hq.Prelude.{ℕ, String, Bool, true, false, Option, List}
use ai_hq.Json.{Json, Fields}

pub data DeliveryStage : Type 0 where
  developer qa waiting_approval : DeliveryStage

abbrev pub same_stage : DeliveryStage → DeliveryStage → Bool
same_stage developer developer = true
same_stage qa qa = true
same_stage waiting_approval waiting_approval = true
same_stage _ _ = false

pub data QaResult : Type 0 where
  passed failed : QaResult

-- The column `mission_id` is unique.
pub record Delivery : Type 0 where
  pub id : ℕ
  pub mission_id : ℕ
  pub stage : DeliveryStage
  pub change_ref : String
  pub summary : String
  pub changed_files : List Json
  pub developer_evidence : Fields
  pub qa_result : Option QaResult
  pub qa_evidence : Option Fields
  pub approval_reference : Option ℕ
  pub published_branch : Option String
  pub published_commit : Option String
  pub published_tree : Option String
  pub published_at : Option ℕ
  pub deployment_release_id : Option String
  pub deployment_prior_release_id : Option String
  pub deployed_at : Option ℕ
  pub rollback_release_id : Option String
  pub rolled_back_at : Option ℕ
