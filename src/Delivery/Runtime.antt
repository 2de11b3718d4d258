-- ===== src/Delivery/Runtime.antt =====
-- delivery/runtime.py: `DeliveryRuntime`, which hands proposals and QA results to the service.
use ai_hq.Prelude.{ℕ, String, Bool, true, false, not, List, str_eq}
use ai_hq.Prelude.Result.{Result, Exec, ok}
use ai_hq.Prelude.Checks.{check}
use ai_hq.Json.{Json, Fields, end, field}
use ai_hq.Tables.{Db}
use ai_hq.Tables.Deliveries.{Delivery}
use ai_hq.Delivery.Identity.{strip}
use ai_hq.Delivery.Proposals.{after, submit_developer_proposal, record_qa_result}

-- `bool(dict)`
abbrev pub is_filled : Fields → Bool
is_filled end = false
is_filled (field k v fs) = true

unfoldable pub developer_texts : String → String → Fields → Result (String × String)
unfolding strip
developer_texts change_ref summary evidence =
    check (not (str_eq (strip change_ref) "")) "change_ref is required" (
      check (not (str_eq (strip summary) "")) "summary is required" (
        check (is_filled evidence) "developer evidence is required"
          (ok (strip change_ref, strip summary))))

unfoldable pub handoff_to_developer : ℕ → String → String → List Json → Fields → Exec Db Delivery
unfolding developer_texts submit_developer_proposal
handoff_to_developer mission_id change_ref summary changed_files evidence db =
    after (developer_texts change_ref summary evidence)
      (λ t. submit_developer_proposal mission_id t.0 t.1 changed_files evidence) db

unfoldable pub qa_text : String → Fields → Result String
unfolding strip
qa_text change_ref evidence =
    check (not (str_eq (strip change_ref) "")) "change_ref is required"
      (check (is_filled evidence) "QA evidence is required" (ok (strip change_ref)))

unfoldable pub handoff_to_qa : (Json → String) → ℕ → ℕ → String → String → Fields → Exec Db Delivery
unfolding qa_text record_qa_result
handoff_to_qa digest now mission_id change_ref result evidence db =
    after (qa_text change_ref evidence)
      (λ ref. record_qa_result digest now mission_id ref result evidence) db
