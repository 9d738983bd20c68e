-- ===== src/Queue/Enqueue.antt =====
-- Entering an item: `enqueue`, `enqueueIfSourceAbsent` and the source index that keeps a source from
-- being entered twice. The envelope is the one that `createCaptureEnvelope` makes of the input.
use proven_loop.Shared.{
  ℕ, Bool, true, false, not, List, [], ◌∷◌, ◌++◌, Option, none, some, String, String_eq, Pair_eq,
  leb, ◌==◌, if◌then◌else◌,
}
use proven_loop.Shared.Result.{Result, ok, err}
use proven_loop.Shared.Assoc.{lookup}
use proven_loop.Queue.Data.{
  CaptureEnvelope, pending, CaptureQueueItem, QueueError, invalid_item_id, duplicate_item_id,
  item_not_found, corrupt_item, deleted_source, is_queue_item_id,
}
use proven_loop.Queue.Disk.{Disk, put_source, drop_source, apply, quarantine, read}
use proven_loop.Queue.Act.{Act, ◌>>=◌, ◌>>◌, return, gets, refuse_if}
use proven_loop.Queue.Identity.{CaptureQueueIdentity, identities_blocked}
use proven_loop.Queue.State.{
  WindowsCaptureQueue, QueueAct, on_disk, change_disk, assert_initialized,
  assert_no_deletion_barrier, write,
}

-- `EnqueueCaptureIfAbsentResult`
pub data EnqueueCaptureIfAbsentResult : Type 0 where
  duplicate : EnqueueCaptureIfAbsentResult
  enqueued : CaptureQueueItem → EnqueueCaptureIfAbsentResult

abbrev optional_identity : String → Option String → List CaptureQueueIdentity
optional_identity type none = []
optional_identity type (some id) = (record { identifier = id; identity_type = type }) ∷ []

-- The identities that `#identitiesBlocked` is asked about.
unfoldable pub identities_of : CaptureEnvelope → List CaptureQueueIdentity
identities_of e =
    (record { identifier = e.deduplication_key; identity_type = "deduplication" })
      ∷ (record { identifier = e.event_id; identity_type = "event" })
      ∷ optional_identity "session" e.session_id
    ++ optional_identity "event" e.parent_event_id

-- `#predatesRecordsReset`
unfoldable pub predates_records_reset : ℕ → Disk → Bool
predates_records_reset at d = elim d.reset_cutoff [ none ↦ false | some cutoff ↦ leb at cutoff ]

-- `#exists`
abbrev pub exists : String → Disk → Bool
exists id d = elim (lookup id d.files) [ none ↦ false | some c ↦ true ]

-- `#pendingItem`
unfoldable pub pending_item : CaptureEnvelope → String → ℕ → CaptureQueueItem
pending_item e id now = record {
  attempt_count = 0;
  created_at = now;
  envelope = e;
  failure_count = 0;
  queue_item_id = id;
  state = pending;
  updated_at = now;
}

-- `#removeSourceIndexIfOwned`
unfoldable pub remove_source_index_if_owned : String → String → Disk → Disk
remove_source_index_if_owned key id d = elim (lookup key d.sources) [
  | none ↦ d
  | some owner ↦ if owner == id then apply (drop_source key) d else d
]

-- `#writeSourceIndex`, when no index was found.
unfoldable pub reserve_source : Option String → String → String → Disk → Disk
reserve_source none key id d = apply (put_source key id) d
reserve_source (some owner) key id d = d

unfoldable pub release_source : Option String → CaptureQueueItem → Disk → Disk
unfolding remove_source_index_if_owned
release_source none x d =
    if exists x.queue_item_id d
    then d
    else remove_source_index_if_owned x.envelope.deduplication_key x.queue_item_id d
release_source (some owner) x d = d

-- What follows the attempt to write: the item, or the index taken back.
unfoldable pub settle_write :
    Option String
    → CaptureQueueItem
    → Result QueueError (Unit {0}) × WindowsCaptureQueue
    → Result QueueError CaptureQueueItem × WindowsCaptureQueue
unfolding release_source
settle_write existing x (ok done, q) = (ok x, q)
settle_write existing x (err e, q) = (err e, record q { disk = release_source existing x q.disk })

-- The head of both operations, up to the barrier.
unfoldable pub accept_new : String → QueueAct (Unit {0})
accept_new id = do
  assert_initialized
  refuse_if (not (is_queue_item_id id)) invalid_item_id
  taken ← gets (λ q. exists id q.disk)
  refuse_if taken duplicate_item_id
  assert_no_deletion_barrier

module _ (item_bytes : CaptureQueueItem → ℕ) where
  unfoldable pub validated_of :
      String → String → Result QueueError CaptureQueueItem → Act Disk (Option String)
  validated_of key id (ok x) d =
      if x.envelope.deduplication_key == key
      then (ok (some id), d)
      else (ok none, apply (drop_source key) d)
  validated_of key id (err corrupt_item) d = (ok none, apply (drop_source key) (quarantine id d))
  validated_of key id (err item_not_found) d = (ok none, apply (drop_source key) d)
  validated_of key id (err e) d = (err e, d)

  abbrev pub source_of : String → Option String → Act Disk (Option String)
  source_of key none d = (ok none, d)
  source_of key (some id) d =
      if is_queue_item_id id
      then validated_of key id (read item_bytes id d) d
      else (ok none, apply (drop_source key) d)

  -- `#validatedSourceIndex`
  unfoldable pub validated_source_index : String → Act Disk (Option String)
  unfolding validated_of
  validated_source_index key d = source_of key (lookup key d.sources) d

  unfoldable pub write_or_release : Option String → CaptureQueueItem → QueueAct CaptureQueueItem
  write_or_release existing x q = settle_write existing x (write item_bytes x q)

  module _ (digest : String → String → String → String) where
    unfoldable pub enqueue : CaptureEnvelope → String → ℕ → QueueAct CaptureQueueItem
    enqueue e id now = do
      accept_new id
      old ← gets (λ q. predates_records_reset e.timestamp q.disk)
      refuse_if old deleted_source
      blocked ← on_disk (identities_blocked digest (identities_of e))
      refuse_if blocked deleted_source
      existing ← on_disk (validated_source_index e.deduplication_key)
      change_disk (reserve_source existing e.deduplication_key id)
      write_or_release existing (pending_item e id now)

    unfoldable pub enqueue_absent :
        CaptureEnvelope → String → ℕ → Option String → QueueAct EnqueueCaptureIfAbsentResult
    enqueue_absent e id now (some owner) = return duplicate
    enqueue_absent e id now none = do
      change_disk (reserve_source none e.deduplication_key id)
      x ← write_or_release none (pending_item e id now)
      return (enqueued x)

    unfoldable pub enqueue_unblocked :
        CaptureEnvelope → String → ℕ → Bool → QueueAct EnqueueCaptureIfAbsentResult
    unfolding enqueue_absent
    enqueue_unblocked e id now true = return duplicate
    enqueue_unblocked e id now false =
        on_disk (validated_source_index e.deduplication_key) >>= enqueue_absent e id now

    unfoldable pub enqueue_after_reset :
        CaptureEnvelope → String → ℕ → Bool → QueueAct EnqueueCaptureIfAbsentResult
    unfolding enqueue_unblocked
    enqueue_after_reset e id now true = return duplicate
    enqueue_after_reset e id now false =
        on_disk (identities_blocked digest (identities_of e)) >>= enqueue_unblocked e id now

    unfoldable pub enqueue_if_source_absent :
        CaptureEnvelope → String → ℕ → QueueAct EnqueueCaptureIfAbsentResult
    unfolding enqueue_after_reset
    enqueue_if_source_absent e id now = do
      accept_new id
      old ← gets (λ q. predates_records_reset e.timestamp q.disk)
      enqueue_after_reset e id now old
