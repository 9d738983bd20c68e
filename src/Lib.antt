-- ===== src/Lib.antt =====
-- Models and proofs for the capture path of ProvenLoop: how an event of the coding assistant
-- gets from its adapter into the durable queue and from there into the store.
--
-- The program's parts, and the files that model them:
--
-- * packages/copilot-adapter/src/capture-buffer.ts, class BoundedCaptureBuffer: events wait in
--   memory within a limit of items and bytes; what does not fit is kept without its content or
--   dropped, and a gap counts it. Buffer, with Buffer/Data (its interfaces) and Buffer/Gap
--   (mergeMixedGap, captureGapEvent, the parts of #recordGap). Buffer/Quality is
--   boundedCaptureQuality of packages/copilot-adapter/src/capture-evidence.ts. Proofs:
--   Buffer/Limits, Buffer/Accounting, Buffer/Gaps, Buffer/View.
-- * packages/copilot-adapter/src/async-writer.ts, class AsyncCaptureWriter: it drains the
--   buffer into the queue, one promise at a time, and retries by a timer. Writer makes of the
--   event loop a step function on signals: a submission, the callback of setImmediate, the
--   promise fulfilled or rejected, the timer, a poll of flush, the two ends of stop. Proofs:
--   Writer/Order, Writer/Account, Writer/Conservation, Writer/Wakeup, Writer/Liveness.
-- * packages/host/src/worker-circuit-breaker.ts, class CaptureWorkerCircuitBreaker: Breaker,
--   with Breaker/Laws.
-- * packages/platform-windows/src/capture-queue.ts, class WindowsCaptureQueue, with the item
--   schemas of packages/contracts/src/capture-queue.ts: Queue/Data (items, claims, errors),
--   Queue/Disk (the directory as a value, #read, #readIndexed, #quarantine, and the changes of
--   #write as a list of steps), Queue/Identity (tombstones and their key), Queue/State (the
--   object, its guards, #write), Queue/Claims (claimNext, acknowledge, retry, retryAfterCommit,
--   deadLetter, recoverExpiredClaims), Queue/Enqueue (enqueue, enqueueIfSourceAbsent, the
--   source index), Queue/Prune (pruneAcknowledged), Queue/Barrier (the deletion barrier,
--   blockIdentities), Queue/Reset (clearAllRecords, with Queue/Reset/Dropped,
--   Queue/Reset/Removed and Queue/Reset/Inventory on its loops), Queue/Written with
--   Queue/Written/Files (the outcomes of #write), Queue/Open (initialize, get, depth),
--   Queue/Delete with Queue/Related (deleteByIdentifiers and its matching), Queue/Remaining
--   (list, quarantineIssues, remainingIdentifiers, remainingIdentities), Queue/Calls (the
--   operations but deletion and the listings, as data). Proofs: Queue/Index, Queue/Crash,
--   Queue/Indexing, Queue/Passing (what the ends of a claim keep), Queue/Claiming,
--   Queue/Vouched, Queue/Blocking, Queue/Entering, Queue/Pruning, Queue/Opening, Queue/Covered
--   and Queue/Indexes on the active index; Queue/Leases, Queue/Endings, Queue/Search,
--   Queue/Claimed and Queue/Retries on claims; Queue/Sources, Queue/Barred, Queue/Keyed,
--   Queue/Deleted, Queue/Retention and Queue/Cleared; Queue/Related/Closed,
--   Queue/Related/Implicated, Queue/Delete/Scanned, Queue/Delete/Gone and Queue/Delete/Closure
--   on deletion.
--
-- * packages/host/src/capture-worker.ts, class CaptureWorker: Worker, over the record Host of
--   the operations that it calls. Worker/Balance is about its counters, Worker/Lease about its
--   lease, Worker/Safe about a queue and a store with laws. Worker/Site wires it to the queue
--   model, as runCaptureWorkerOnce of packages/cli/src/run-worker.ts does, and
--   Worker/Site/Stored fills the laws.
-- * packages/domain/src/commit-ancestry.ts, class CommitAncestryIndex: Ancestry, with
--   Ancestry/Lineage (lines of parents, the independent description), Ancestry/Rounds (the
--   search ends), Ancestry/Sound, Ancestry/Held (what the constructor makes of its edges), and
--   Ancestry/Envelopes (commitAncestryEdgesFromEnvelopes).
-- * packages/domain/src/knowledge-lifecycle-builder.ts and knowledge-evidence.ts: what the
--   store's events make of a piece of knowledge. Knowledge/Data has the schemas,
--   Knowledge/Evidence (knowledgeEvidenceState, with Knowledge/Evidence/Fate),
--   Knowledge/Feedback (applyFeedback), Knowledge/Topics (reconcileTopicVersions, with
--   Knowledge/Topics/Single) and Knowledge/Build (the rest of KnowledgeLifecycleBuilder.build
--   from the first candidate of a version on, with Knowledge/Build/Resolved and
--   Knowledge/Build/Activated).
--
-- Shared passes on the library's names and holds lists, equality tests, association lists,
-- results, and actions: operations that may throw. Each component's Tests run it on small
-- inputs.
--
-- How the code is read. Numbers are natural numbers: the counters, sizes and times of the code
-- are integers that never become negative where it uses them; a time is its milliseconds. A
-- clock's reading is an argument, one for each reading that the code makes. #runExclusive runs
-- one operation at a time under a lease between processes, so an operation is one function on
-- the queue; a death of the process is a prefix of the list of steps. The search of the
-- ancestry index runs on fuel, one round for each parent that the index holds and one more,
-- which is proved to be enough. All other loops are recursions on the list that they walk or on
-- the rounds that are left, and the drain of the writer, which has no end of its own, is cut at
-- its awaits. The length of an item's JSON line, the sizes and digests of events and gaps, the
-- digest of a tombstone and a random key are arguments, and so are trim(), localeCompare and
-- the order of Array.prototype.sort. The matching of deleteByIdentifiers runs on fuel, one pass
-- for each item and one more, which is proved to be enough. The directory of the queue has no
-- temporary files: they are made and renamed within an operation, and what deleteByIdentifiers
-- and the scans for what remains do about those that a dead process left is not modelled. The
-- envelope that an item holds is an argument: createCaptureEnvelope, which redacts the input,
-- is not modelled. File operations fail here only as the code expects them to, by a missing or
-- an existing name, but for those of #write: a write may fail after any number of its changes,
-- which the field write_faults of the queue decides.
--
-- Not modelled: the canonical store, retrieval, the first candidates of the knowledge builder,
-- the episode builder, learning, discovery, the deletion service, the command line, the user
-- interface and the release gates. They are further components, or input and output only.

pub mod Shared
pub mod Ancestry
pub mod Breaker
pub mod Buffer
pub mod Writer
pub mod Queue
pub mod Worker
pub mod Knowledge
