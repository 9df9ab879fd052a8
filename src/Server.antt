-- ===== src/Server.antt =====
-- server/src/domain: the rules that the server applies to what the annotators submit.
pub mod BallEventSubmission
pub mod CanonicalMatch
pub mod RallyDisplayOrder
