-- ===== src/Executions.antt =====
-- The execution of an approved action: reservation, submission and outcome (begin_approved_action,
-- mark_action_submitting and finish_action of db.py).
pub mod Begin
pub mod Submit
pub mod Evidence
pub mod Finish
