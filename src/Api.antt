-- ===== src/Api.antt =====
-- The routes of the API (axontask-api/src/routes).
pub mod CancelTask
pub mod Isolation
pub mod Answers
