-- ===== src/Contracts.antt =====
-- packages/contracts/src: the rules that the server and the web application share.
pub mod BallEvent
pub mod AnnotationCommand
pub mod AnnotationSnapshot
pub mod AnnotationAck
