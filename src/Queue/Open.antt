-- ===== src/Queue/Open.antt =====
-- Opening the queue, `initialize`, with the pass over the item files that builds the indexes of an
-- older directory; and the operations that only read. The directories and the lease are not modelled.
use proven_loop.Shared.{
  ℕ, true, List, [], ◌∷◌, Option, none, some, String, String_eq, Pair_eq, length, if◌then◌else◌,
  map,
}
use proven_loop.Shared.Result.{Result, ok, err}
use proven_loop.Queue.Data.{
  CaptureQueueItem, QueueError, invalid_item_id, item_not_found, corrupt_item,
}
use proven_loop.Queue.Disk.{Disk, apply_all, update_state_index, quarantine, read}
use proven_loop.Queue.Act.{Act, ◌>>=◌, ◌>>◌, return, modify}
use proven_loop.Queue.State.{WindowsCaptureQueue, QueueAct, on_disk, assert_initialized, read_item}
use proven_loop.Queue.Enqueue.{reserve_source, validated_source_index}

abbrev pub own_source : Option String → String → String → Act Disk (Unit {0})
own_source (some owner) key id = return tt
own_source none key id = modify (reserve_source none key id)

module _ (item_bytes : CaptureQueueItem → ℕ) where
  -- `#claimSourceIndex`
  unfoldable pub claim_source_index : String → String → Act Disk (Unit {0})
  claim_source_index key id = do
    existing ← validated_source_index item_bytes key
    own_source existing key id

  -- One turn of `#iterateItems`.
  unfoldable pub visit :
      String
      → Result QueueError CaptureQueueItem
      → (CaptureQueueItem → Act Disk (Unit {0}))
      → Act Disk (Unit {0})
  visit id (ok x) each d = each x d
  visit id (err item_not_found) each d = (ok tt, d)
  visit id (err corrupt_item) each d = (ok tt, quarantine id d)
  visit id (err invalid_item_id) each d = (ok tt, quarantine id d)
  visit id (err e) each d = (err e, d)

  -- `#iterateItems` over the names that `readdir` gave.
  unfoldable pub iterate_items :
      List String → (CaptureQueueItem → Act Disk (Unit {0})) → Act Disk (Unit {0})
  unfolding visit
  iterate_items [] each = return tt
  iterate_items (id ∷ ids) each =
      (λ d. visit id (read item_bytes id d) each d) >> iterate_items ids each

  unfoldable pub index_item : CaptureQueueItem → Act Disk (Unit {0})
  unfolding claim_source_index
  index_item x = do
    modify (apply_all (update_state_index x))
    claim_source_index x.envelope.deduplication_key x.queue_item_id

  abbrev pub file_names : Disk → List String
  file_names d = map (λ p. p.0) d.files

  unfoldable pub build_indexes : Act Disk (Unit {0})
  unfolding iterate_items
  build_indexes d =
      (iterate_items (file_names d) index_item >> modify (λ d'. record d' { indexes_v2 = true })) d

  unfoldable pub initialize : QueueAct (Unit {0})
  initialize q =
      if q.disk.indexes_v2
      then (ok tt, record q { initialized = true })
      else on_disk build_indexes (record q { initialized = true })

  unfoldable pub get : String → QueueAct CaptureQueueItem
  get id = do assert_initialized; read_item item_bytes id

unfoldable pub depth : WindowsCaptureQueue → ℕ
depth q = length q.disk.active
