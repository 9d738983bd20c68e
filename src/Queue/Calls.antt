-- ===== src/Queue/Calls.antt =====
-- The operations of the queue but deletion by identifiers and the listings, as data, so that a
-- sequence of them can be run: an operation that throws ends alone, and the next one starts from what
-- it left.
use proven_loop.Shared.{ℕ, List, [], ◌∷◌, Option, String}
use proven_loop.Queue.Data.{CaptureEnvelope, CaptureQueueItem, CaptureQueueClaim}
use proven_loop.Queue.Identity.{CaptureQueueIdentity}
use proven_loop.Queue.State.{WindowsCaptureQueue}
use proven_loop.Queue.Open
use proven_loop.Queue.Enqueue
use proven_loop.Queue.Claims
use proven_loop.Queue.Prune
use proven_loop.Queue.Barrier
use proven_loop.Queue.Reset

pub data QueueCall : Type 0 where
  initialize : QueueCall
  enqueue enqueue_if_source_absent : CaptureEnvelope → String → ℕ → QueueCall
  get : String → QueueCall
  claim_next : String → ℕ → QueueCall
  acknowledge : CaptureQueueClaim → ℕ → ℕ → QueueCall
  retry_claim : CaptureQueueClaim → String → Option ℕ → ℕ → ℕ → QueueCall
  retry_after_commit dead_letter_claim : CaptureQueueClaim → String → ℕ → ℕ → QueueCall
  recover_expired_claims : ℕ → (CaptureQueueItem → ℕ) → QueueCall
  prune_acknowledged : ℕ → QueueCall
  begin_deletion_barrier end_deletion_barrier : String → QueueCall
  active_deletion_barrier : QueueCall
  clear_all_records : ℕ → ℕ → QueueCall
  block_identities : String → List CaptureQueueIdentity → QueueCall

module _ (item_bytes : CaptureQueueItem → ℕ) (digest : String → String → String → String) where
  -- The queue that a call leaves.
  unfoldable pub call : QueueCall → WindowsCaptureQueue → WindowsCaptureQueue
  call initialize q = (Open.initialize item_bytes q).1
  call (enqueue e id now) q = (Enqueue.enqueue item_bytes digest e id now q).1
  call (enqueue_if_source_absent e id now) q =
      (Enqueue.enqueue_if_source_absent item_bytes digest e id now q).1
  call (get id) q = (Open.get item_bytes id q).1
  call (claim_next owner now) q = (Claims.claim_next item_bytes owner now q).1
  call (acknowledge c checked now) q = (Claims.acknowledge item_bytes c checked now q).1
  call (retry_claim c error at checked now) q =
      (Claims.retry_claim item_bytes c error at checked now q).1
  call (retry_after_commit c error checked now) q =
      (Claims.retry_after_commit item_bytes c error checked now q).1
  call (dead_letter_claim c error checked now) q =
      (Claims.dead_letter_claim item_bytes c error checked now q).1
  call (recover_expired_claims now later) q =
      (Claims.recover_expired_claims item_bytes now later q).1
  call (prune_acknowledged now) q = (Prune.prune_acknowledged item_bytes now q).1
  call (begin_deletion_barrier id) q = (Barrier.begin_deletion_barrier id q).1
  call (end_deletion_barrier id) q = (Barrier.end_deletion_barrier id q).1
  call active_deletion_barrier q = (Barrier.active_deletion_barrier q).1
  call (clear_all_records cutoff now) q = (Reset.clear_all_records cutoff now q).1
  call (block_identities generated is) q = (Barrier.block_identities digest generated is q).1

  unfoldable pub call_all : List QueueCall → WindowsCaptureQueue → WindowsCaptureQueue
  unfolding call
  call_all [] q = q
  call_all (c ∷ cs) q = call_all cs (call c q)
