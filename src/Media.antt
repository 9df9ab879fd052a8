-- ===== src/Media.antt =====
-- packages/media: the canonical media timeline. Sample indexes, the capture epoch planner and the
-- resolver, each with its proofs in its child modules.
pub mod Errors
pub mod Rational
pub mod SampleIndex
pub mod Planner
pub mod Resolver
