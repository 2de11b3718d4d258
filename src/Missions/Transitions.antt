-- ===== src/Missions/Transitions.antt =====
-- missions/service.py: `_ALLOWED_TRANSITIONS` and `_ALLOWED_STEP_TRANSITIONS`.
use ai_hq.Prelude.{Bool, true, false}
use ai_hq.Tables.Missions.{MissionStatus, MissionStepStatus}

unfoldable pub allowed_transition : MissionStatus → MissionStatus → Bool
allowed_transition MissionStatus.queued MissionStatus.running = true
allowed_transition MissionStatus.queued MissionStatus.paused = true
allowed_transition MissionStatus.queued MissionStatus.cancelled = true
allowed_transition MissionStatus.queued MissionStatus.failed = true
allowed_transition MissionStatus.running MissionStatus.waiting_approval = true
allowed_transition MissionStatus.running MissionStatus.paused = true
allowed_transition MissionStatus.running MissionStatus.completed = true
allowed_transition MissionStatus.running MissionStatus.failed = true
allowed_transition MissionStatus.running MissionStatus.cancelled = true
allowed_transition MissionStatus.waiting_approval MissionStatus.running = true
allowed_transition MissionStatus.waiting_approval MissionStatus.paused = true
allowed_transition MissionStatus.waiting_approval MissionStatus.cancelled = true
allowed_transition MissionStatus.waiting_approval MissionStatus.failed = true
allowed_transition MissionStatus.paused MissionStatus.queued = true
allowed_transition MissionStatus.paused MissionStatus.running = true
allowed_transition MissionStatus.paused MissionStatus.cancelled = true
allowed_transition MissionStatus.paused MissionStatus.failed = true
allowed_transition _ _ = false

unfoldable pub allowed_step_transition : MissionStepStatus → MissionStepStatus → Bool
allowed_step_transition MissionStepStatus.pending MissionStepStatus.running = true
allowed_step_transition MissionStepStatus.running MissionStepStatus.waiting_approval = true
allowed_step_transition MissionStepStatus.running MissionStepStatus.succeeded = true
allowed_step_transition MissionStepStatus.running MissionStepStatus.failed = true
allowed_step_transition MissionStepStatus.waiting_approval MissionStepStatus.running = true
allowed_step_transition MissionStepStatus.waiting_approval MissionStepStatus.failed = true
allowed_step_transition _ _ = false

-- `COMPLETED`, `FAILED` and `CANCELLED`.
abbrev pub is_terminal : MissionStatus → Bool
is_terminal MissionStatus.completed = true
is_terminal MissionStatus.failed = true
is_terminal MissionStatus.cancelled = true
is_terminal _ = false
