-- ===== src/Lib.antt =====
-- A verification library of volleyball-monitoring-ai: the capture timeline, the ball events,
-- the projection of a match, the clips, the queue of the annotators' commands and the reconnection
-- of the realtime client.
--
-- The program records volleyball matches, indexes the recorded segments frame by frame on one
-- canonical timeline, and resolves observations of annotators to exact frames; the annotators
-- mark the ball events of each rally. This library models the package packages/media, which
-- carries the timeline, the rules of the ball events in packages/contracts with their validation
-- in the server, the projection of a match, the clips that the workers cut, and the queue of
-- commands and a state machine of the web client:
--
--   * Media.Rational: `Rational`, `roundNearestAway` and `rescalePtsToUs` of
--     packages/media/src/sample-index.ts. Bounds has the arithmetic, Rounding the theorems.
--   * Media.SampleIndex: the types and validations of the same file. Its children model the
--     stored document (Document), the ffprobe reader `parseFfprobePayload` and `buildSampleIndex`
--     (Ffprobe), and `buildAvailabilityRanges` (Availability); Sequence and Extent invert the
--     validations.
--   * Media.Planner: the types and helpers of packages/media/src/epoch-planner.ts. Its child
--     Incremental models `planNextCaptureSegment`, with `buildHead` of
--     worker/src/media/prisma-ingest-repository.ts, which makes the next call's head from the
--     stored result of the last one. Its child Batch models `planCaptureEpochs`: it collects the
--     unique segments, BatchPlan has the loop over them and its child Choice the choice of a
--     segment's epoch; Replay, Frames and Replayed hold the proofs. The types of the incremental
--     planner and its first segment are in Incremental.Plans.
--   * Media.Resolver: packages/media/src/resolver.ts, with the validation of the segments in the
--     child Validation. Span, Nearest, Resolution, Steps and
--     RoundTrip hold the proofs.
--   * Contracts.BallEvent: packages/contracts/src/ball-event.ts, `normalizeBallEventKeyPoints`,
--     and in the child Shortcut `decideBallEventShortcut`. Order, Idempotent, Rules and
--     Shortcut.Safe hold the proofs.
--   * Server.BallEventSubmission:
--     server/src/domain/annotation/ball-event-submission-validation.ts, which validates the ball
--     events of a submission. Normalized and Resolved hold the proofs.
--   * Server.CanonicalMatch: server/src/services/canonical-match-projection.ts. The file has the
--     types, court sides and scores; Winners the loops that place the won sets and the boundaries,
--     Walk the walk over the ordered segments, Project `projectCanonicalMatch` and Load
--     `loadCanonicalMatchProjection`. Ordered, Tally, Ledger, Wins, Sets,
--     Placing, Accounting and Start hold the proofs.
--     Server.RallyDisplayOrder: server/src/domain/rally-display-order.ts.
--   * Worker.ClipTiming: worker/src/media/clip-timing.ts, the scan of the segments, and in the
--     child Selection `selectCanonicalClipRange` and `mapClipKeyPoint`. Frames,
--     Contiguous, KeyPoints, Selected and Range hold the proofs.
--   * Contracts.AnnotationCommand, Contracts.AnnotationSnapshot and Contracts.AnnotationAck: the
--     commands of the annotators, the snapshot of a rally and the acknowledgement of a command, of
--     packages/contracts/src/annotation.ts.
--   * Web.AnnotationOutbox: web/app/lib/annotationOutbox.ts, the queue of commands, without its
--     storage. Slots, Compact and References hold the proofs.
--   * Web.AnnotationQueue: web/app/lib/annotationCommandQueue.ts, `projectAnnotationSnapshot`, with
--     the normalizations in the child KeyPoints. The child Converged models
--     `annotationCommandConverged`, Rebase `rebaseQueuedAnnotationCommand` and Ack
--     `applyAnnotationAckLocally`. Converged.Normalized,
--     Converged.Projected, Rebase, Ack.Kept, Ack.Newest and
--     Ack.Shown hold the proofs.
--   * Web.RealtimeReconnect: the scheduler of web/app/lib/realtimeReconnect.ts as a state
--     machine, with the states that any sequence of calls and callbacks reaches, and those that
--     it reaches from a given one. The listeners that dispose removes may still run in the model.
--     Bounded and Disposed hold the proofs.
--   * Base: the conditional and tests, lists, results, integers, texts, decimal texts, JSON
--     values, maps, sorting and upper case words that the modules share.
--
-- The planner assigns each segment its place on the timeline and builds its sample index. The
-- index is stored as a document. Playback reads the documents back, joins segments to available
-- ranges, and the resolver works on a span of indexed segments. The ball events refer to the
-- timeline by anchors, which are capture times and frame indices. A command enters the outbox and
-- the queue projects it onto the confirmed snapshot. Its acknowledgement is applied to the confirmed
-- snapshot; against a newer snapshot it is rebased or dropped.
--
-- Correspondence: a type or function of the source keeps its name, in this language's spelling. A
-- bigint is an integer ℤ with no bound, and so is a JavaScript number, of which the source uses
-- integers only and compares with the bounds of an Int32 itself, so that the test
-- `Number.isInteger` always holds. A string is a list of UTF-16 code units. A thrown error is a
-- value of `Result`, with the error's code and without its message. A `for` loop is a recursion
-- on the list that it visits; no loop needs fuel. A sort is the stable insertion sort, and
-- `localeCompare` is a parameter, of which nothing is assumed. The decimal texts of an
-- annotation's anchor stand as their values, so that the TypeError of malformed ones has no
-- counterpart. The identity `epochId:pts` of a sample is the pair of its parts, the sets that a
-- loop only asks for membership are lists, and a value of type `unknown` is a `Json`, an object
-- being the list of its fields. A test by `typeof` of what the type already says is left out.
--
-- Not modelled: the database, the processes and the object store of worker, the HTTP and realtime
-- servers, the pages and most models of the web application, the delay of a reconnection, which
-- is computed with a random float, the storage of the outbox, the tests on broadcasts
-- and drafts of the queue, and generated code.
pub mod Base
pub mod Contracts
pub mod Media
pub mod Server
pub mod Web
pub mod Worker
